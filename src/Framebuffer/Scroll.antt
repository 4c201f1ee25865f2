-- ===== src/Framebuffer/Scroll.antt =====
-- `fbcon_scroll` of arcfw/arm/fbcon.c, seen as an image.
use arcpi.Base.{
  ℕ, zero, suc, ◌+◌, ◌-◌, ◌*◌, ◌≤◌, ◌<◌, ◌≡◌, ◌∙◌, ◌/◌, ap, arith, ltb, if◌then◌else◌, sub32, mul32,
  Bool-cases, inl, inr,
}
use mathlib.Core.Path.{sym}
use arcpi.Runtime.{memmove}
use arcpi.Runtime.Copy.{in_block, memmove-moved}
use arcpi.Framebuffer.{Screen, fb_ok, stride, write_word, fill_words, scroll}
use arcpi.Framebuffer.Pixels.{view, IsSurface, SameShape, SameShape-refl, IsPixel}

fill_words-SameShape : (n from value : ℕ) (s : Screen) → SameShape s (fill_words n from value s)
unfolding fill_words
fill_words-SameShape zero from value s = SameShape-refl s
fill_words-SameShape (suc n) from value s =
    let a = fill_words-SameShape n (suc from) value (write_word from value s) in
    record {
      base = a.base;
      width = a.width;
      height = a.height;
      pitch = a.pitch;
      fg = a.fg;
      bg = a.bg;
    }

fill_words_lem :
    (n from value : ℕ) (s : Screen) (i : ℕ)
    → (fill_words n from value s).pixels i ≡ (if in_block i from n then value else s.pixels i)
unfolding fill_words
fill_words_lem zero from value s i = ground arith
fill_words_lem (suc n) from value s i =
    ground (arith, fill_words_lem n (suc from) value (write_word from value s) i)

pub scroll-SameShape : (rows : ℕ) (s : Screen) → SameShape s (scroll rows s)
unfolding scroll
scroll-SameShape rows s = elim (Bool-cases (fb_ok s)) [
  | inl ok ↦
      let shift = mul32 8 (stride s) in
      let total = mul32 (mul32 rows 8) (stride s) in
      let rest = sub32 total shift in
      let a =
        fill_words-SameShape (sub32 total rest) rest s.bg
          (record s { pixels = memmove 0 shift (mul32 rest 4 / 4) s.pixels }) in
      rw ok (record {
        base = a.base;
        width = a.width;
        height = a.height;
        pitch = a.pitch;
        fg = a.fg;
        bg = a.bg;
      })
  | inr off ↦ rw off (SameShape-refl s)
]

-- The text area is `rows` rows of cells, on the surface.
pub record IsArea (rows : ℕ) (s : Screen) : Type 0 where
  pub some_row : 0 < rows
  pub on_surface : rows * 8 ≤ s.height

-- Word `i` after the move and the fill, where the area has `total` words and a row `shift`.
scroll_words :
    (shift rest bg : ℕ) (s : Screen) (i : ℕ)
    → (fill_words shift rest bg (record s { pixels = memmove 0 shift rest s.pixels })).pixels i ≡ (
        if ltb i rest
        then s.pixels (shift + i)
        else if ltb i (rest + shift)
        then bg
        else s.pixels i)
scroll_words shift rest bg s i = ground (
  arith,
  fill_words_lem shift rest bg (record s { pixels = memmove 0 shift rest s.pixels }) i,
  memmove-moved 0 shift rest s.pixels i,
)

mul_mono : (n h w : ℕ) → n ≤ h → n * w ≤ h * w
mul_mono n h w le = grind arith

index_lt : (w n x y : ℕ) → x < w → y < n → y * w + x < n * w
index_lt w n x y p q = grind arith

-- A pixel stands before line `n` in memory exactly if it does on the screen.
line_index : (w n x y : ℕ) → x < w → ltb (y * w + x) (n * w) ≡ ltb y n
line_index w n x y h = ground (arith, index_lt w n x y, mul_mono n y w)

-- The word counts of the scroll, without wrapping.
record Counts (rows : ℕ) (s : Screen) : Type 0 where
  shift : mul32 8 (stride s) ≡ 8 * stride s
  rest : sub32 (mul32 (mul32 rows 8) (stride s)) (mul32 8 (stride s)) ≡ (rows * 8 - 8) * stride s
  bytes :
      mul32 (sub32 (mul32 (mul32 rows 8) (stride s)) (mul32 8 (stride s))) 4 / 4
      ≡ (rows * 8 - 8) * stride s
  last :
      sub32
        (mul32 (mul32 rows 8) (stride s))
        (sub32 (mul32 (mul32 rows 8) (stride s)) (mul32 8 (stride s)))
      ≡ 8 * stride s

split_lines : (n w : ℕ) → 8 ≤ n → n * w ≡ (n - 8) * w + 8 * w
split_lines n w h = let e : n ≡ n - 8 + 8 = omega arith in ap (λ k. k * w) e ∙ distribute (n - 8) w
  where
    distribute : (k v : ℕ) → (k + 8) * v ≡ k * v + 8 * v
    distribute k v = omega arith

counts : {rows : ℕ} {s : Screen} → IsSurface s → IsArea rows s → 0 < s.width → Counts rows s
counts {rows} {s} v a w =
    let n = rows * 8 in
    let area = split_lines n (stride s) (omega arith) in
    let fits = mul_mono n s.height (stride s) a.on_surface in
    let one = mul_mono 1 (stride s) n (omega arith) in
    let flat : mul32 rows 8 ≡ rows * 8 =
      ground
        (arith, mul_mono rows (rows * 8 * stride s) 1 (rows_le rows (stride s) (omega arith))) in
    record {
      shift = omega arith;
      rest = rw flat (omega arith);
      bytes = rw flat (omega arith);
      last = rw flat (omega arith);
    }
  where
    rows_le : (r v : ℕ) → 0 < v → r ≤ r * 8 * v
    rows_le r v h = grind arith

-- The same for the word of a pixel, with line numbers for the bounds.
scroll_pixel :
    (n : ℕ) (s : Screen) (x y : ℕ)
    → 8 ≤ n
    → x < stride s
    → (fill_words
          (8 * stride s)
          ((n - 8) * stride s)
          s.bg
          (record s { pixels = memmove 0 (8 * stride s) ((n - 8) * stride s) s.pixels })).pixels
        (y * stride s + x)
      ≡ (if ltb (y + 8) n then view s x (y + 8) else if ltb y n then s.bg else view s x y)
scroll_pixel n s x y h p =
    let w = stride s in
    let at : 8 * w + (y * w + x) ≡ (y + 8) * w + x = omega arith in
    let moved_to : s.pixels (8 * w + (y * w + x)) ≡ view s x (y + 8) = ap s.pixels at in
    let total : (n - 8) * w + 8 * w ≡ n * w = sym (split_lines n w h) in
    scroll_words (8 * w) ((n - 8) * w) s.bg s (y * w + x)
    ∙ rw (total, line_index w (n - 8) x y p, line_index w n x y p, moved_to) (ground arith)

-- `fbcon_scroll` moves every line of the text area up by one row of cells, gives the last row the
-- background colour, and leaves the lines below the area alone, at every pixel of a framebuffer in
-- use that holds the area.
pub view-scroll :
    (rows : ℕ) {s : Screen} {x y : ℕ}
    → IsSurface s
    → IsArea rows s
    → IsPixel x y s
    → view (scroll rows s) x y ≡ (
        if ltb (y + 8) (rows * 8)
        then view s x (y + 8)
        else if ltb y (rows * 8)
        then s.bg
        else view s x y)
unfolding scroll
view-scroll rows {s} {x} {y} v a p =
    let c = counts v a (omega (arith, p.column)) in
    let w = stride s in
    let d = record s { pixels = memmove 0 (8 * w) ((rows * 8 - 8) * w) s.pixels } in
    let same = fill_words-SameShape (8 * w) ((rows * 8 - 8) * w) s.bg d in
    let t = fill_words (8 * w) ((rows * 8 - 8) * w) s.bg d in
    let wide : stride t ≡ w = ap (λ k. k / 4) same.pitch in
    rw (v.ok, c.bytes, c.last, c.rest, c.shift)
      (ap (λ k. t.pixels (y * k + x)) wide
        ∙ scroll_pixel (rows * 8) s x y (omega (arith, a.some_row))
            (omega (arith, p.column, v.wide)))
