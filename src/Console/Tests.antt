-- ===== src/Console/Tests.antt =====
-- Runs of the console of arcfw/arm/fbcon.c on a grid of cells, and its theorems at concrete states.
use arcpi.Base.{ℕ, ◌-◌, ◌≡◌, refl, true, false, arith, List, [], ◌∷◌}
use arcpi.Console.{Console, param, putc, puts, status}
use arcpi.Console.Cursor.{
  OnScreen, IsPositive, StaysPositive, putc-OnScreen, puts-OnScreen, move_to_escapes,
}
use arcpi.Console.Grid.{blank, glyph, Grid, set_cell, grid_display}

abbrev home : Console Grid
home = record {
  display = λ x y. blank;
  cols = 80;
  rows = 25;
  cur_col = 0;
  cur_row = 0;
  esc_seen = false;
  in_csi = false;
  inverse = false;
  params = 0 ∷ 0 ∷ 0 ∷ 0 ∷ 0 ∷ 0 ∷ 0 ∷ 0 ∷ [];
  pcount = 0;
}

-- `ESC [ 3 ; 5 H`
abbrev go_to : List ℕ
go_to = 0x1b ∷ b'[' ∷ b'3' ∷ b';' ∷ b'5' ∷ b'H' ∷ []

moved_there : status (puts grid_display go_to home) ≡ (4, 2, 79, 24)
unfolding status puts putc
moved_there = refl

reverse_video :
    (puts grid_display (0x1b ∷ b'[' ∷ b'7' ∷ b'm' ∷ b'x' ∷ []) home).display 0 0 ≡ glyph true b'x'
unfolding puts putc set_cell
reverse_video = refl

abbrev over : Console Grid
over = record home { in_csi = true; params = 0x80000001 ∷ 0 ∷ 0 ∷ 0 ∷ 0 ∷ 0 ∷ 0 ∷ 0 ∷ [] }

home-OnScreen : OnScreen home
home-OnScreen = record {
  some_row = omega arith;
  some_col = omega arith;
  small_rows = omega arith;
  small_cols = omega arith;
  row = omega arith;
  col = omega arith;
  index = omega arith;
  array = refl;
}

home-IsPositive : IsPositive home
home-IsPositive = record { first = omega arith; second = omega arith }

putc-OnScreen_example : OnScreen (putc grid_display 0x0a home)
putc-OnScreen_example = putc-OnScreen grid_display home-OnScreen 0x0a home-IsPositive

go_to-StaysPositive : StaysPositive grid_display go_to home
unfolding putc
go_to-StaysPositive = (
  record { first = omega arith; second = omega arith },
  (
    record { first = omega arith; second = omega arith },
    (
      record { first = omega arith; second = omega arith },
      (
        record { first = omega arith; second = omega arith },
        (
          record { first = omega arith; second = omega arith },
          (record { first = omega arith; second = omega arith }, tt),
        ),
      ),
    ),
  ),
)

puts-OnScreen_example : OnScreen (puts grid_display go_to home)
puts-OnScreen_example = puts-OnScreen grid_display go_to home-OnScreen go_to-StaysPositive

move_to_escapes_example : (putc grid_display b'H' over).cur_row ≡ param over 0 - 1
move_to_escapes_example =
    move_to_escapes grid_display over refl (omega arith) (omega arith) (omega arith)
