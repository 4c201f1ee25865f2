-- ===== src/Framebuffer.antt =====
-- arcfw/arm/fb.c (the pixel helpers) and the drawing routines of arcfw/arm/fbcon.c.
--
-- `fb_base` is a memory of 32-bit words, indexed from the start of the framebuffer; `unsigned int`
-- index arithmetic wraps. The glyph bitmaps (`font8x8_basic` of font8x8.h, a third-party table) are
-- a parameter: the row of a character, as a byte.
pub mod Pixels
pub mod Glyph
pub mod Scroll
pub mod Grid
pub mod Start
mod Tests
use arcpi.Base.{
  ℕ, zero, suc, ◌+◌, ◌-◌, ◌*◌, ◌/◌, ◌%◌, ◌^◌, Bool, true, false, not, ◌&&◌, ◌||◌, leb, ◌==◌,
  if◌then◌else◌, add32, sub32, mul32,
}
use arcpi.Runtime.{Memory, store, memmove}
use arcpi.Display.{Display}

-- The globals of fb.c, and the two colours of fbcon.c.
pub record Screen : Type 0 where
  pub base : ℕ
  pub width : ℕ
  pub height : ℕ
  pub pitch : ℕ
  pub order : ℕ
  pub fg : ℕ
  pub bg : ℕ
  pub pixels : Memory

-- `fb_ok`
pub fb_ok : Screen → Bool
fb_ok s = not (s.base == 0) && not (s.width == 0) && not (s.height == 0)

-- `PIXORDER_RGB` and `fb_pack`, for byte components: the shifted parts do not overlap, so that
-- `|` is `+`.
abbrev pub pixorder_rgb : ℕ
pixorder_rgb = 1

pub fb_pack : (order r g b : ℕ) → ℕ
fb_pack order r g b =
    if order == pixorder_rgb then b * 2 ^ 16 + g * 2 ^ 8 + r else r * 2 ^ 16 + g * 2 ^ 8 + b

-- `fb_pitch >> 2`
abbrev pub stride : Screen → ℕ
stride s = s.pitch / 4

-- `y * (fb_pitch >> 2) + x`
abbrev pub pixel_index : Screen → (x y : ℕ) → ℕ
pixel_index s x y = add32 (mul32 y (stride s)) x

abbrev pub write_word : (index value : ℕ) → Screen → Screen
write_word i v s = record s { pixels = store s.pixels i v }

-- `fb_putpixel`
pub put_pixel : (x y rgb : ℕ) → Screen → Screen
put_pixel x y rgb s =
    if leb s.width x || leb s.height y then s else write_word (pixel_index s x y) rgb s

-- The inner and the outer loop of `fb_fill`.
pub fill_row : (n x y rgb : ℕ) → Screen → Screen
fill_row zero x y rgb s = s
fill_row (suc n) x y rgb s = fill_row n (suc x) y rgb (write_word (pixel_index s x y) rgb s)

pub fill_rows : (n y rgb : ℕ) → Screen → Screen
unfolding fill_row
fill_rows zero y rgb s = s
fill_rows (suc n) y rgb s = fill_rows n (suc y) rgb (fill_row s.width 0 y rgb s)

pub fb_fill : (rgb : ℕ) → Screen → Screen
unfolding fill_rows
fb_fill rgb s = fill_rows s.height 0 rgb s

-- `for (i = from; n rounds) fb_base[i] = bg;`
pub fill_words : (n from value : ℕ) → Screen → Screen
fill_words zero from value s = s
fill_words (suc n) from value s = fill_words n (suc from) value (write_word from value s)

-- `fbcon_scroll`: the text area moves up by one row of cells, and the last row is cleared. The
-- length of the move is in bytes, so it is the words of `rest * 4`, which wraps.
pub scroll : (rows : ℕ) → Screen → Screen
unfolding fb_ok fill_words
scroll rows s =
    let shift = mul32 8 (stride s) in
    let total = mul32 (mul32 rows 8) (stride s) in
    let rest = sub32 total shift in
    let moved = record s { pixels = memmove 0 shift (mul32 rest 4 / 4) s.pixels } in
    if fb_ok s then fill_words (sub32 total rest) rest s.bg moved else s

-- `bits & (1u << col)`
abbrev pub bit_set : (bits col : ℕ) → Bool
bit_set bits col = bits / 2 ^ col % 2 == 1

-- The two colours that `fbcon_init` sets: white on the blue of the NT loader.
pub set_colours : Screen → Screen
unfolding fb_pack
set_colours s = record s { fg = fb_pack s.order 0xff 0xff 0xff; bg = fb_pack s.order 0 0 0xaa }

module _ (font : ℕ → ℕ → ℕ) where
  -- The loop over the columns of one glyph row, from column `col` on.
  pub draw_row : (n col px y bits efg ebg : ℕ) → Screen → Screen
  unfolding put_pixel
  draw_row zero col px y bits efg ebg s = s
  draw_row (suc n) col px y bits efg ebg s =
      draw_row n (suc col) px y bits efg ebg
        (put_pixel (add32 px col) y (if bit_set bits col then efg else ebg) s)

  pub draw_rows : (n row px py ch efg ebg : ℕ) → Screen → Screen
  unfolding draw_row
  draw_rows zero row px py ch efg ebg s = s
  draw_rows (suc n) row px py ch efg ebg s =
      draw_rows n (suc row) px py ch efg ebg
        (draw_row 8 0 px (add32 py row) (font (ch % 2 ^ 7) row) efg ebg s)

  -- `draw_glyph`: reverse video swaps the two colours.
  pub draw_glyph : (inverse : Bool) (cx cy ch : ℕ) → Screen → Screen
  unfolding fb_ok draw_rows
  draw_glyph inverse cx cy ch s =
      let efg = if inverse then s.bg else s.fg in
      let ebg = if inverse then s.fg else s.bg in
      if fb_ok s then draw_rows 8 0 (mul32 cx 8) (mul32 cy 8) ch efg ebg s else s

  -- The framebuffer as the console's surface.
  abbrev pub screen_display : Display Screen
  screen_display = record {
    draw = draw_glyph;
    scroll = scroll;
    clear = λ s. if fb_ok s then fb_fill s.bg s else s;
  }
