-- ===== src/Console/Grid.antt =====
-- The screen that arcfw/arm/fbcon.c keeps, as a grid of cells: the abstract surface of the console.
use arcpi.Base.{
  ℕ, zero, suc, ◌+◌, ◌-◌, ◌%◌, ◌^◌, ◌≤◌, ◌<◌, ◌≡◌, Bool, ◌&&◌, arith, ltb, leb, ◌==◌, if◌then◌else◌,
  Bool-cases, inl, inr,
}
use arcpi.Display.{Display}
use arcpi.Console.{Console, erase_cells, erase_in_line}
use arcpi.Console.Cursor.{OnScreen}

-- A cell is cleared, or holds a character in normal or reverse video.
pub data Cell : Type 0 where
  blank : Cell
  glyph : (inverse : Bool) (ch : ℕ) → Cell

abbrev pub Grid : Type 0
Grid = ℕ → ℕ → Cell

unfoldable pub set_cell : (inverse : Bool) (cx cy ch : ℕ) → Grid → Grid
set_cell inverse cx cy ch g x y =
    if x == cx % 2 ^ 29 && y == cy % 2 ^ 29 then glyph inverse ch else g x y

-- The rows move up by one, and the last one is cleared.
unfoldable pub scroll_grid : (rows : ℕ) → Grid → Grid
scroll_grid rows g x y =
    if ltb (y + 1) rows then g x (y + 1) else if ltb y rows then blank else g x y

unfoldable pub clear_grid : Grid → Grid
clear_grid g x y = blank

abbrev pub grid_display : Display Grid
grid_display = record { draw = set_cell; scroll = scroll_grid; clear = clear_grid }

-- The first and the last column that `erase_in_line` clears.
abbrev pub erase_from : {D : Type 0} → ℕ → Console D → ℕ
erase_from mode c = if mode == 1 then 0 else c.cur_col

abbrev pub erase_to : {D : Type 0} → ℕ → Console D → ℕ
erase_to mode c = if mode == 0 then c.cols - 1 else if mode == 1 then c.cur_col else c.cols - 1

-- The loop with enough fuel for the columns that are left.
erase_cells_lem :
    (fuel k to cols row : ℕ) (inverse : Bool) (g : Grid) (x y : ℕ)
    → cols < k + fuel
    → cols ≤ 2 ^ 29
    → row < 2 ^ 29
    → erase_cells grid_display fuel k to cols row inverse g x y
      ≡ (if y == row && (leb k x && (leb x to && ltb x cols)) then glyph inverse 0x20 else g x y)
unfolding erase_cells set_cell
erase_cells_lem zero k to cols row inverse g x y h i j = ground arith
erase_cells_lem (suc n) k to cols row inverse g x y h i j =
    elim (Bool-cases (leb k to && ltb k cols)) [
      | inl on ↦
          rw (erase_cells, on)
            (ground (
              arith,
              erase_cells_lem n (suc k) to cols row inverse (set_cell inverse k row 0x20 g) x y,
            ))
      | inr off ↦ rw (erase_cells, off) (ground arith)
    ]

-- `erase_in_line` puts a space, in the current video mode, into exactly the cells of the cursor's
-- row that its mode names, with the cursor on a screen of at most 2^29 rows and columns.
pub erase_in_line_lem :
    (mode : ℕ) (c : Console Grid) (x y : ℕ)
    → OnScreen c
    → c.cols ≤ 2 ^ 29
    → c.rows ≤ 2 ^ 29
    → (erase_in_line grid_display mode c).display x y ≡ (
        if y == c.cur_row
          && (leb (erase_from mode c) x && (leb x (erase_to mode c) && ltb x c.cols))
        then glyph c.inverse 0x20
        else c.display x y)
unfolding erase_in_line
erase_in_line_lem mode c x y v h k =
    erase_cells_lem (c.cols + 1) (erase_from mode c) (erase_to mode c) c.cols c.cur_row c.inverse
      c.display x y (omega arith) h (omega (arith, v.row))
