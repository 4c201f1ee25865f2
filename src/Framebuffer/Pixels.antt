-- ===== src/Framebuffer/Pixels.antt =====
-- The pixel loops of arcfw/arm/fb.c and `draw_glyph` of arcfw/arm/fbcon.c, seen as an image.
use arcpi.Base.{
  ℕ, zero, suc, ◌+◌, ◌*◌, ◌/◌, ◌^◌, ◌≤◌, ◌<◌, ◌≡◌, ◌∙◌, refl, ap, true, ◌&&◌, ◌||◌, arith, ltb, leb,
  ◌==◌, if◌then◌else◌, Bool-cases, inl, inr,
}
use arcpi.Framebuffer.{
  Screen, fb_ok, stride, pixel_index, write_word, put_pixel, fill_row, fill_rows, fb_fill,
}

-- The pixel in column `x` of line `y`.
abbrev pub view : Screen → (x y : ℕ) → ℕ
view s x y = s.pixels (y * stride s + x)

-- A framebuffer in use: a scanline holds the width, and the whole surface lies in the 32-bit address
-- space, of 2^30 words.
pub record IsSurface (s : Screen) : Type 0 where
  pub ok : fb_ok s ≡ true
  pub wide : s.width ≤ stride s
  pub fits : s.height * stride s < 2 ^ 30

-- All but the pixels is the same.
pub record SameShape (s s' : Screen) : Type 0 where
  pub base : s'.base ≡ s.base
  pub width : s'.width ≡ s.width
  pub height : s'.height ≡ s.height
  pub pitch : s'.pitch ≡ s.pitch
  pub fg : s'.fg ≡ s.fg
  pub bg : s'.bg ≡ s.bg

pub record IsPixel (x y : ℕ) (s : Screen) : Type 0 where
  pub column : x < s.width
  pub line : y < s.height

index_lt : (w h x y : ℕ) → x < w → y < h → y * w + x < h * w
index_lt w h x y p q = grind arith

index_ne_line : (w x y x' y' : ℕ) → x < w → y < y' → y * w + x < y' * w + x'
index_ne_line w x y x' y' p q = grind arith

-- Different pixels have different indices.
pub index-injective :
    (w x y x' y' : ℕ) → x < w → x' < w → (y * w + x == y' * w + x') ≡ ((x == x') && (y == y'))
index-injective w x y x' y' p q =
    ground (arith, index_ne_line w x y x' y', index_ne_line w x' y' x y)

pub SameShape-refl : (s : Screen) → SameShape s s
SameShape-refl s = record {
  base = refl;
  width = refl;
  height = refl;
  pitch = refl;
  fg = refl;
  bg = refl;
}

pub SameShape-trans : {s t u : Screen} → SameShape s t → SameShape t u → SameShape s u
SameShape-trans a b = record {
  base = b.base ∙ a.base;
  width = b.width ∙ a.width;
  height = b.height ∙ a.height;
  pitch = b.pitch ∙ a.pitch;
  fg = b.fg ∙ a.fg;
  bg = b.bg ∙ a.bg;
}

pub SameShape-IsSurface : {s t : Screen} → SameShape s t → IsSurface s → IsSurface t
unfolding fb_ok
SameShape-IsSurface {s} {t} a v =
    let e : stride t ≡ stride s = ap (λ k. k / 4) a.pitch in
    record {
      ok = rw (a.base, a.width, a.height) v.ok;
      wide = rw (a.width, e) v.wide;
      fits = rw (a.height, e) v.fits;
    }

pub SameShape-IsPixel : {s t : Screen} {x y : ℕ} → SameShape s t → IsPixel x y s → IsPixel x y t
SameShape-IsPixel a p = record { column = rw a.width p.column; line = rw a.height p.line }

pub put_pixel-SameShape : (x y rgb : ℕ) (s : Screen) → SameShape s (put_pixel x y rgb s)
unfolding put_pixel
put_pixel-SameShape x y rgb s = elim (Bool-cases (leb s.width x || leb s.height y)) [
  | inl out ↦ rw out (SameShape-refl s)
  | inr on ↦
      rw on
        (record { base = refl; width = refl; height = refl; pitch = refl; fg = refl; bg = refl })
]

-- The index of a pixel on the surface does not wrap.
pixel_index_lem :
    {s : Screen} {x y : ℕ} → IsSurface s → IsPixel x y s → pixel_index s x y ≡ y * stride s + x
pixel_index_lem {s} {x} {y} v p =
    omega (arith, index_lt (stride s) s.height x y (omega arith) p.line)

view-write :
    {s : Screen} (x y rgb : ℕ) {x' y' : ℕ}
    → IsSurface s
    → IsPixel x y s
    → IsPixel x' y' s
    → view (write_word (pixel_index s x y) rgb s) x' y'
      ≡ (if x' == x && y' == y then rgb else view s x' y')
view-write {s} x y rgb {x'} {y'} v p p' =
    rw (pixel_index_lem v p, index-injective (stride s) x' y' x y (omega arith) (omega arith)) refl

-- `fb_putpixel` changes one pixel, and none if it lies outside.
pub view-put_pixel :
    {s : Screen} (x y rgb : ℕ) {x' y' : ℕ}
    → IsSurface s
    → IsPixel x' y' s
    → view (put_pixel x y rgb s) x' y' ≡ (if x' == x && y' == y then rgb else view s x' y')
unfolding put_pixel
view-put_pixel {s} x y rgb {x'} {y'} v p' = elim (Bool-cases (leb s.width x || leb s.height y)) [
  | inl out ↦ rw out (ground (arith, p'.column, p'.line))
  | inr on ↦ rw on (view-write x y rgb v (record { column = ground arith; line = ground arith }) p')
]

fill_row-SameShape : (n x y rgb : ℕ) (s : Screen) → SameShape s (fill_row n x y rgb s)
unfolding fill_row
fill_row-SameShape zero x y rgb s = SameShape-refl s
fill_row-SameShape (suc n) x y rgb s =
    let a = fill_row-SameShape n (suc x) y rgb (write_word (pixel_index s x y) rgb s) in
    record {
      base = a.base;
      width = a.width;
      height = a.height;
      pitch = a.pitch;
      fg = a.fg;
      bg = a.bg;
    }

view-fill_row :
    (n x y rgb : ℕ) {s : Screen} {x' y' : ℕ}
    → IsSurface s
    → x + n ≤ s.width
    → y < s.height
    → IsPixel x' y' s
    → view (fill_row n x y rgb s) x' y'
      ≡ (if y' == y && leb x x' && ltb x' (x + n) then rgb else view s x' y')
unfolding fill_row fb_ok
view-fill_row zero x y rgb v h hy p = ground arith
view-fill_row (suc n) x y rgb {s} {x'} {y'} v h hy p =
    let s' = write_word (pixel_index s x y) rgb s in
    let here : IsPixel x y s = record { column = omega arith; line = hy } in
    let v' : IsSurface s' = record { ok = v.ok; wide = v.wide; fits = v.fits } in
    let p' : IsPixel x' y' s' = record { column = p.column; line = p.line } in
    ground (
      arith,
      view-fill_row n (suc x) y rgb {s = s'} v' (omega arith) hy p',
      view-write x y rgb v here p,
    )

fill_rows-SameShape : (n y rgb : ℕ) (s : Screen) → SameShape s (fill_rows n y rgb s)
unfolding fill_rows
fill_rows-SameShape zero y rgb s = SameShape-refl s
fill_rows-SameShape (suc n) y rgb s =
    SameShape-trans (fill_row-SameShape s.width 0 y rgb s)
      (fill_rows-SameShape n (suc y) rgb (fill_row s.width 0 y rgb s))

view-fill_rows :
    (n y rgb : ℕ) {s : Screen} {x' y' : ℕ}
    → IsSurface s
    → y + n ≤ s.height
    → IsPixel x' y' s
    → view (fill_rows n y rgb s) x' y' ≡ (if leb y y' && ltb y' (y + n) then rgb else view s x' y')
unfolding fill_rows
view-fill_rows zero y rgb v h p = ground arith
view-fill_rows (suc n) y rgb {s} {x'} {y'} v h p =
    let a = fill_row-SameShape s.width 0 y rgb s in
    ground (
      arith,
      view-fill_rows n (suc y) rgb {s = fill_row s.width 0 y rgb s} (SameShape-IsSurface a v)
          (omega (arith, a.height)) (SameShape-IsPixel a p),
      view-fill_row s.width 0 y rgb v (omega arith) (omega arith) p,
      p.column,
    )

pub fb_fill-SameShape : (rgb : ℕ) (s : Screen) → SameShape s (fb_fill rgb s)
unfolding fb_fill
fb_fill-SameShape rgb s = fill_rows-SameShape s.height 0 rgb s

-- `fb_fill` gives every pixel of a framebuffer in use the colour.
pub view-fb_fill :
    (rgb : ℕ) {s : Screen} {x' y' : ℕ}
    → IsSurface s
    → IsPixel x' y' s
    → view (fb_fill rgb s) x' y' ≡ rgb
unfolding fb_fill
view-fb_fill rgb {s} v p = ground (arith, view-fill_rows s.height 0 rgb v (omega arith) p, p.line)
