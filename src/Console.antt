-- ===== src/Console.antt =====
-- arcfw/arm/fbcon.c: the text console, a state machine over the bytes that it is sent.
--
-- The statics of the file are one record; the surface is a value of any type with the operations
-- of `Display`. `unsigned int` wraps. A CSI parameter is an `int`: it is kept as its bit pattern,
-- and its signed overflow, which C leaves open, wraps as on the ARM target.
pub mod Cursor
pub mod Grid
pub mod Simulation
mod Tests
use arcpi.Base.{
  ℕ, zero, suc, ◌+◌, ◌-◌, ◌*◌, ◌/◌, ◌%◌, ◌^◌, Bool, true, false, not, ◌&&◌, ◌||◌, List, [], ◌∷◌,
  ltb, leb, ◌==◌, if◌then◌else◌, get_or, set, add32, sub32, mul32, word, is_nonneg32,
}
use arcpi.Display.{Display}

pub record Console (D : Type 0) : Type 0 where
  pub display : D
  pub cols : ℕ
  pub rows : ℕ
  pub cur_col : ℕ
  pub cur_row : ℕ
  pub esc_seen : Bool
  pub in_csi : Bool
  pub inverse : Bool
  pub params : List ℕ
  pub pcount : ℕ

abbrev pub max_params : ℕ
max_params = 8

-- `g_rows ? g_rows - 1 : 0`, and the same of `g_cols`.
abbrev pub last_of : ℕ → ℕ
last_of n = n - 1

-- `a >= b` of two `int`s given by their bit patterns.
abbrev pub int_ge : ℕ → ℕ → Bool
int_ge a b = leb (add32 b (2 ^ 31)) (add32 a (2 ^ 31))

-- The loop of `CSI m`: `n` parameters from index `i` on.
pub select_graphics : (n i : ℕ) → List ℕ → Bool → Bool
select_graphics zero i ps inverse = inverse
select_graphics (suc n) i ps inverse =
    select_graphics n (suc i) ps
      (if get_or ps i 0 == 0 then false else if get_or ps i 0 == 7 then true else inverse)

module _ {D : Type 0} where
  -- `param[i]`; an index out of range is not reached (`Console.Cursor`).
  abbrev pub param : Console D → ℕ → ℕ
  param c i = get_or c.params i 0

  -- `param[0] ? param[0] : 1`
  abbrev pub count_of : Console D → ℕ
  count_of c = if param c 0 == 0 then 1 else param c 0

  -- The start of a CSI sequence: `in_csi = 1; pcount = 0; param[0] = 0;`
  pub begin_csi : Console D → Console D
  begin_csi c = record c { in_csi = true; params = set c.params 0 0; pcount = 0 }

  -- `ESC [` or not.
  pub after_esc : ℕ → Console D → Console D
  unfolding begin_csi
  after_esc ch c = let c' = record c { esc_seen = false } in if ch == 0x5b then begin_csi c' else c'

  -- `CSI H`: one based, clipped to the screen by signed comparisons.
  pub move_to : Console D → Console D
  move_to c =
      let row = if param c 0 == 0 then 0 else sub32 (param c 0) 1 in
      let col = if leb 1 c.pcount && not (param c 1 == 0) then sub32 (param c 1) 1 else 0 in
      record c {
        cur_row = if int_ge row c.rows then last_of c.rows else row;
        cur_col = if int_ge col c.cols then last_of c.cols else col;
      }

  -- `CSI A`, `B`, `C` and `D`: by `n` cells, clipped to the screen.
  pub cursor_up : Console D → Console D
  cursor_up c = record c {
    cur_row = if ltb c.cur_row (count_of c) then 0 else sub32 c.cur_row (count_of c);
  }

  pub cursor_down : Console D → Console D
  cursor_down c =
      let row = add32 c.cur_row (count_of c) in
      record c { cur_row = if leb c.rows row then last_of c.rows else row }

  pub cursor_right : Console D → Console D
  cursor_right c =
      let col = add32 c.cur_col (count_of c) in
      record c { cur_col = if leb c.cols col then last_of c.cols else col }

  pub cursor_left : Console D → Console D
  cursor_left c = record c {
    cur_col = if ltb c.cur_col (count_of c) then 0 else sub32 c.cur_col (count_of c);
  }

  -- A tab: to the next multiple of 8 (`& ~7u`), clipped.
  pub tab : Console D → Console D
  tab c =
      let col = add32 c.cur_col 8 / 8 * 8 in
      record c { cur_col = if not (c.cols == 0) && leb c.cols col then c.cols - 1 else col }

  pub backspace : Console D → Console D
  backspace c = record c { cur_col = if ltb 0 c.cur_col then c.cur_col - 1 else c.cur_col }

  -- A digit or a separator inside a CSI sequence.
  pub add_digit : ℕ → Console D → Console D
  add_digit ch c = record c {
    params = set c.params c.pcount (add32 (mul32 (param c c.pcount) 10) (ch - 0x30));
  }

  pub next_param : Console D → Console D
  next_param c =
      if ltb c.pcount (max_params - 1)
      then record c { params = set c.params (c.pcount + 1) 0; pcount = c.pcount + 1 }
      else c

module _ {D : Type 0} (ops : Display D) where
  -- `next_line`
  pub next_line : Console D → Console D
  next_line c =
      if leb c.rows (add32 c.cur_row 1)
      then record c { cur_col = 0; cur_row = last_of c.rows; display = ops.scroll c.rows c.display }
      else record c { cur_col = 0; cur_row = add32 c.cur_row 1 }

  -- The loop of `erase_in_line`, over the cells from `x` to `to` that are on the screen.
  pub erase_cells : (fuel x to cols row : ℕ) → Bool → D → D
  erase_cells zero x to cols row inverse d = d
  erase_cells (suc fuel) x to cols row inverse d = elim (leb x to && ltb x cols) [
    | true ↦ erase_cells fuel (suc x) to cols row inverse (ops.draw inverse x row 0x20 d)
    | false ↦ d
  ]

  -- `erase_in_line(mode)`; `cols + 1` rounds are enough (`Console.Simulation`).
  pub erase_in_line : ℕ → Console D → Console D
  unfolding erase_cells
  erase_in_line mode c =
      let from = if mode == 1 then 0 else c.cur_col in
      let to =
        if mode == 0 then last_of c.cols else if mode == 1 then c.cur_col else last_of c.cols in
      record c { display = erase_cells (c.cols + 1) from to c.cols c.cur_row c.inverse c.display }

  -- `csi_dispatch`, with the final byte.
  pub csi_dispatch : ℕ → Console D → Console D
  unfolding move_to cursor_up cursor_down cursor_right cursor_left erase_in_line select_graphics
  csi_dispatch final c =
      if final == b'H' || final == b'f'
      then move_to c
      else if final == b'A'
      then cursor_up c
      else if final == b'B'
      then cursor_down c
      else if final == b'C'
      then cursor_right c
      else if final == b'D'
      then cursor_left c
      else if final == b'K'
      then erase_in_line (param c 0) c
      else if final == b'J'
      then record c { cur_col = 0; cur_row = 0; display = ops.clear c.display }
      else if final == b'm'
      then record c { inverse = select_graphics (c.pcount + 1) 0 c.params c.inverse }
      else c

  -- A byte inside a CSI sequence.
  pub csi_byte : ℕ → Console D → Console D
  unfolding add_digit next_param csi_dispatch
  csi_byte ch c =
      if leb 0x30 ch && leb ch 0x39
      then add_digit ch c
      else if ch == 0x3b
      then next_param c
      else let c' = csi_dispatch ch c in record c' { in_csi = false }

  -- A printable character.
  pub print_char : ℕ → Console D → Console D
  unfolding next_line
  print_char ch c =
      let c' = if not (c.cols == 0) && leb c.cols c.cur_col then next_line c else c in
      record c' {
        display = ops.draw c'.inverse c'.cur_col c'.cur_row ch c'.display;
        cur_col = add32 c'.cur_col 1;
      }

  -- The last switch of `fbcon_putc`: controls and printable characters outside a sequence.
  pub plain_byte : ℕ → Console D → Console D
  unfolding begin_csi next_line tab backspace print_char
  plain_byte ch c =
      if ch == 0x1b
      then record c { esc_seen = true }
      else if ch == 0x9b
      then begin_csi c
      else if ch == 0x0a
      then next_line c
      else if ch == 0x0d
      then record c { cur_col = 0 }
      else if ch == 0x09
      then tab c
      else if ch == 0x08
      then backspace c
      else if ltb ch 0x20 || ltb 0x7e ch
      then c
      else print_char ch c

  -- `fbcon_putc`
  unfoldable pub putc : ℕ → Console D → Console D
  unfolding csi_byte after_esc plain_byte
  putc c₀ c =
      let ch = c₀ % 2 ^ 8 in
      if c.in_csi then csi_byte ch c else if c.esc_seen then after_esc ch c else plain_byte ch c

  -- A run of bytes.
  pub puts : List ℕ → Console D → Console D
  puts [] c = c
  puts (ch ∷ chs) c = puts chs (putc ch c)

  -- `fbcon_init`, from the size of the framebuffer if there is one.
  unfoldable pub init : (ok : Bool) (width height : ℕ) → Console D → Console D
  init ok width height c = record c {
    cols = if ok then width / 8 else 80;
    rows = if ok then height / 8 else 25;
    display = if ok then ops.clear c.display else c.display;
    cur_col = 0;
    cur_row = 0;
    esc_seen = false;
    in_csi = false;
    inverse = false;
  }

-- `fbcon_status`: column, row, and the last column and row.
unfoldable pub status : {D : Type 0} → Console D → ℕ × ℕ × ℕ × ℕ
status c = (
  c.cur_col,
  c.cur_row,
  if c.cols == 0 then 79 else c.cols - 1,
  if c.rows == 0 then 24 else c.rows - 1,
)
