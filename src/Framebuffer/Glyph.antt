-- ===== src/Framebuffer/Glyph.antt =====
-- `draw_glyph` of arcfw/arm/fbcon.c, seen as an image.
use arcpi.Base.{
  ℕ, zero, suc, ◌+◌, ◌-◌, ◌/◌, ◌%◌, ◌^◌, ◌≤◌, ◌<◌, ◌≡◌, ◌∙◌, ap, Bool, ◌&&◌, arith, ltb, leb, ◌==◌,
  if◌then◌else◌, add32, mul32, word, Bool-cases, inl, inr,
}
use arcpi.Framebuffer.{Screen, fb_ok, put_pixel, bit_set, draw_row, draw_rows, draw_glyph}
use arcpi.Framebuffer.Pixels.{
  view, IsSurface, SameShape, SameShape-refl, SameShape-trans, SameShape-IsSurface,
  SameShape-IsPixel, IsPixel, put_pixel-SameShape, view-put_pixel,
}

-- The colour of one pixel of a glyph row.
abbrev pub ink : (efg ebg bits col : ℕ) → ℕ
ink efg ebg bits col = if bit_set bits col then efg else ebg

if_same : {t t' : Bool} (a b : ℕ) → t ≡ t' → (if t then a else b) ≡ (if t' then a else b)
if_same a b e = ap (λ t. if t then a else b) e

column_test : (x' y' y k : ℕ) {c : ℕ} → k ≡ c → (x' == k && y' == y) ≡ ((y' == y) && x' == c)
column_test x' y' y k e = ground arith

cell_test :
    (px py row x' y' : ℕ) {r : ℕ}
    → r ≡ py + row
    → (y' == r && leb (px + 0) x' && ltb x' (px + 0 + 8))
      ≡ ((leb px x' && ltb x' (px + 8)) && y' == py + row)
cell_test px py row x' y' e = ground arith

-- One round of a loop that paints the cells from `a + k` on with `f`, after round `k`.
paint_step :
    (f : ℕ → ℕ) (b : Bool) (a k n x old : ℕ) {mid : ℕ}
    → mid ≡ (if b && x == a + k then f k else old)
    → (if b && leb (a + suc k) x && ltb x (a + suc k + n) then f (x - a) else mid)
      ≡ (if b && leb (a + k) x && ltb x (a + k + suc n) then f (x - a) else old)
paint_step f b a k n x old e = elim (Bool-cases (x == a + k)) [
  | inl hit ↦
      let here : x - a ≡ k = ground arith in
      let same : f (x - a) ≡ f k = ap f here in ground (arith, same)
  | inr miss ↦ ground arith
]

module _ (font : ℕ → ℕ → ℕ) where
  draw_row-SameShape :
      (n col px y bits efg ebg : ℕ) (s : Screen)
      → SameShape s (draw_row font n col px y bits efg ebg s)
  unfolding draw_row
  draw_row-SameShape zero col px y bits efg ebg s = SameShape-refl s
  draw_row-SameShape (suc n) col px y bits efg ebg s =
      SameShape-trans (put_pixel-SameShape _ _ _ s) (
        draw_row-SameShape n (suc col) px y bits efg ebg
          (put_pixel (add32 px col) y (ink efg ebg bits col) s))

  view-draw_row :
      (n col px y bits efg ebg : ℕ) {s : Screen} {x' y' : ℕ}
      → IsSurface s
      → IsPixel x' y' s
      → px + col + n ≤ word
      → view (draw_row font n col px y bits efg ebg s) x' y' ≡ (
          if y' == y && leb (px + col) x' && ltb x' (px + col + n)
          then ink efg ebg bits (x' - px)
          else view s x' y')
  unfolding draw_row
  view-draw_row zero col px y bits efg ebg v p h = ground arith
  view-draw_row (suc n) col px y bits efg ebg {s} {x'} {y'} v p h =
      let a = put_pixel-SameShape (add32 px col) y (ink efg ebg bits col) s in
      let ih =
        view-draw_row n (suc col) px y bits efg ebg
          {s = put_pixel (add32 px col) y (ink efg ebg bits col) s} (SameShape-IsSurface a v)
          (SameShape-IsPixel a p) (omega arith) in
      let w = view-put_pixel (add32 px col) y (ink efg ebg bits col) v p in
      let at : add32 px col ≡ px + col = omega arith in
      ih
      ∙ paint_step (ink efg ebg bits) (y' == y) px col n x' (view s x' y') (
          w ∙ if_same (ink efg ebg bits col) (view s x' y') (column_test x' y' y (add32 px col) at))

  draw_rows-SameShape :
      (n row px py ch efg ebg : ℕ) (s : Screen)
      → SameShape s (draw_rows font n row px py ch efg ebg s)
  unfolding draw_rows
  draw_rows-SameShape zero row px py ch efg ebg s = SameShape-refl s
  draw_rows-SameShape (suc n) row px py ch efg ebg s =
      SameShape-trans (draw_row-SameShape 8 0 px (add32 py row) (font (ch % 2 ^ 7) row) efg ebg s) (
        draw_rows-SameShape n (suc row) px py ch efg ebg
          (draw_row font 8 0 px (add32 py row) (font (ch % 2 ^ 7) row) efg ebg s))

  view-draw_rows :
      (n row px py ch efg ebg : ℕ) {s : Screen} {x' y' : ℕ}
      → IsSurface s
      → IsPixel x' y' s
      → px + 8 ≤ word
      → py + row + n ≤ word
      → view (draw_rows font n row px py ch efg ebg s) x' y' ≡ (
          if (leb px x' && ltb x' (px + 8)) && leb (py + row) y' && ltb y' (py + row + n)
          then ink efg ebg (font (ch % 2 ^ 7) (y' - py)) (x' - px)
          else view s x' y')
  unfolding draw_rows
  view-draw_rows zero row px py ch efg ebg v p h hy = ground arith
  view-draw_rows (suc n) row px py ch efg ebg {s} {x'} {y'} v p h hy =
      let s' = draw_row font 8 0 px (add32 py row) (font (ch % 2 ^ 7) row) efg ebg s in
      let a = draw_row-SameShape 8 0 px (add32 py row) (font (ch % 2 ^ 7) row) efg ebg s in
      let ih =
        view-draw_rows n (suc row) px py ch efg ebg {s = s'} (SameShape-IsSurface a v)
          (SameShape-IsPixel a p) h (omega arith) in
      let w =
        view-draw_row 8 0 px (add32 py row) (font (ch % 2 ^ 7) row) efg ebg v p (omega arith) in
      let at : add32 py row ≡ py + row = omega arith in
      ih
      ∙ paint_step (λ r. ink efg ebg (font (ch % 2 ^ 7) r) (x' - px)) (leb px x' && ltb x' (px + 8))
          py row n y' (view s x' y')
          (w
            ∙ if_same (ink efg ebg (font (ch % 2 ^ 7) row) (x' - px)) (view s x' y')
                (cell_test px py row x' y' at))

  pub draw_glyph-SameShape :
      (inverse : Bool) (cx cy ch : ℕ) (s : Screen)
      → SameShape s (draw_glyph font inverse cx cy ch s)
  unfolding draw_glyph
  draw_glyph-SameShape inverse cx cy ch s = elim (Bool-cases (fb_ok s)) [
    | inl ok ↦ rw ok (
        draw_rows-SameShape 8 0 (mul32 cx 8) (mul32 cy 8) ch (if inverse then s.bg else s.fg)
          (if inverse then s.fg else s.bg) s)
    | inr off ↦ rw off (SameShape-refl s)
  ]

  cells_test :
      (cx cy x y : ℕ)
      → x < word
      → y < word
      → ((leb (mul32 cx 8) x && ltb x (mul32 cx 8 + 8))
          && leb (mul32 cy 8 + 0) y
          && ltb y (mul32 cy 8 + 0 + 8))
        ≡ (x / 8 == cx % 2 ^ 29 && y / 8 == cy % 2 ^ 29)
  cells_test cx cy x y h k = ground arith

  -- On a framebuffer in use, `draw_glyph` paints the pixels of one cell with the glyph in its two
  -- colours, and no other pixel; the numbers of the cell count modulo 2^29.
  pub view-draw_glyph :
      (inverse : Bool) (cx cy ch : ℕ) {s : Screen} {x y : ℕ}
      → IsSurface s
      → IsPixel x y s
      → x < word
      → y < word
      → view (draw_glyph font inverse cx cy ch s) x y ≡ (
          if x / 8 == cx % 2 ^ 29 && y / 8 == cy % 2 ^ 29
          then ink
              (if inverse then s.bg else s.fg)
              (if inverse then s.fg else s.bg)
              (font (ch % 2 ^ 7) (y % 8))
              (x % 8)
          else view s x y)
  unfolding draw_glyph
  view-draw_glyph inverse cx cy ch {s} {x} {y} v p hx hy =
      let efg = if inverse then s.bg else s.fg in
      let ebg = if inverse then s.fg else s.bg in
      let w =
        view-draw_rows 8 0 (mul32 cx 8) (mul32 cy 8) ch efg ebg v p (omega arith) (omega arith) in
      rw v.ok (w ∙ in_cell efg ebg)
    where
      in_cell :
          (efg ebg : ℕ)
          → (if (leb (mul32 cx 8) x && ltb x (mul32 cx 8 + 8))
                && leb (mul32 cy 8 + 0) y
                && ltb y (mul32 cy 8 + 0 + 8)
              then ink efg ebg (font (ch % 2 ^ 7) (y - mul32 cy 8)) (x - mul32 cx 8)
              else view s x y)
            ≡ (if x / 8 == cx % 2 ^ 29 && y / 8 == cy % 2 ^ 29
                then ink efg ebg (font (ch % 2 ^ 7) (y % 8)) (x % 8)
                else view s x y)
      in_cell efg ebg =
          if_same (ink efg ebg (font (ch % 2 ^ 7) (y - mul32 cy 8)) (x - mul32 cx 8)) (view s x y)
            (cells_test cx cy x y hx hy)
          ∙ elim (Bool-cases (x / 8 == cx % 2 ^ 29 && y / 8 == cy % 2 ^ 29)) [
            | inl hit ↦
                let ex : x - mul32 cx 8 ≡ x % 8 = ground arith in
                let ey : y - mul32 cy 8 ≡ y % 8 = ground arith in rw (hit, ex, ey)
            | inr miss ↦ rw miss
          ]
