-- ===== src/Framebuffer/Tests.antt =====
-- The theorems about the framebuffer (arcfw/arm/fb.c, arcfw/arm/fbcon.c) on a small screen.
use arcpi.Base.{
  ℕ, ◌+◌, ◌/◌, ◌%◌, ◌^◌, ◌≡◌, refl, true, false, arith, if◌then◌else◌, ◌==◌, ◌&&◌, List, [], ◌∷◌,
}
use arcpi.Framebuffer.{Screen, fb_ok, fb_fill, put_pixel, draw_glyph, screen_display, fb_pack}
use arcpi.Framebuffer.Pixels.{view, IsSurface, IsPixel, view-put_pixel}
use arcpi.Framebuffer.Glyph.{ink, view-draw_glyph}
use arcpi.Framebuffer.Scroll.{IsArea}
use arcpi.Framebuffer.Grid.{Shows, cleared-Shows, puts-Shows}
use arcpi.Console.{Console, puts}
use arcpi.Console.Grid.{Grid, blank, clear_grid, grid_display}
use arcpi.Console.Simulation.{on}

-- Three by two cells, with eight pixels of padding to a line.
abbrev small : Screen
small = record {
  base = 0x3c000000;
  width = 24;
  height = 16;
  pitch = 128;
  order = 0;
  fg = 0xffffff;
  bg = 0xaa;
  pixels = λ i. i;
}

abbrev rows_font : ℕ → ℕ → ℕ
rows_font ch row = ch + row

abbrev empty_grid : Grid
empty_grid x y = blank

abbrev console : Console Screen
console = record {
  display = fb_fill 0xaa small;
  cols = 3;
  rows = 2;
  cur_col = 0;
  cur_row = 0;
  esc_seen = false;
  in_csi = false;
  inverse = false;
  params = 0 ∷ 0 ∷ 0 ∷ 0 ∷ 0 ∷ 0 ∷ 0 ∷ 0 ∷ [];
  pcount = 0;
}

small-IsSurface : IsSurface small
unfolding fb_ok
small-IsSurface = record { ok = refl; wide = omega arith; fits = omega arith }

small-IsArea : IsArea 2 small
small-IsArea = record { some_row = omega arith; on_surface = omega arith }

corner-IsPixel : IsPixel 9 3 small
corner-IsPixel = record { column = omega arith; line = omega arith }

filled : view (fb_fill 5 small) 23 15 ≡ 5
unfolding fb_fill
filled = refl

blue_pixel : fb_pack 1 0 0 0xaa ≡ 0xaa0000
unfolding fb_pack
blue_pixel = refl

view-put_pixel_example :
    view (put_pixel 9 3 7 small) 9 3 ≡ (if 9 == 9 && 3 == 3 then 7 else view small 9 3)
view-put_pixel_example =
    view-put_pixel {s = small} 9 3 7 {x' = 9} {y' = 3} small-IsSurface corner-IsPixel

view-draw_glyph_example : view (draw_glyph rows_font true 1 0 b'A' small) 9 3 ≡ (
    if 9 / 8 == 1 % 2 ^ 29 && 3 / 8 == 0 % 2 ^ 29
    then ink
        (if true then 0xaa else 0xffffff)
        (if true then 0xffffff else 0xaa)
        (rows_font (b'A' % 2 ^ 7) (3 % 8))
        (9 % 8)
    else view small 9 3)
view-draw_glyph_example =
    view-draw_glyph rows_font true 1 0 b'A' {s = small} {x = 9} {y = 3} small-IsSurface
      corner-IsPixel (omega arith) (omega arith)

console-Shows : Shows rows_font 2 console.display (clear_grid empty_grid)
console-Shows = cleared-Shows rows_font 2 {s = small} empty_grid small-IsSurface small-IsArea

-- A character in reverse video, then three new lines.
abbrev sent : List ℕ
sent = 0x1b ∷ b'[' ∷ b'7' ∷ b'm' ∷ b'A' ∷ 0x0a ∷ 0x0a ∷ 0x0a ∷ []

puts-Shows_example :
    Shows rows_font 2
      (puts (screen_display rows_font) sent console).display
      (puts grid_display sent (on console (clear_grid empty_grid))).display
    × (puts grid_display sent (on console (clear_grid empty_grid))
        ≡ on
            (puts (screen_display rows_font) sent console)
            (puts grid_display sent (on console (clear_grid empty_grid))).display)
puts-Shows_example = puts-Shows rows_font 2 sent console (clear_grid empty_grid) refl console-Shows

abbrev cold : Console Screen
cold = record console { display = small; cols = 0; rows = 0 }
