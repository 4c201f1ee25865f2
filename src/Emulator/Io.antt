-- ===== src/Emulator/Io.antt =====
-- Console input and the display status of arcfw/arm/arcemul.c.
use arcpi.Base.{
  ℕ, zero, suc, ◌+◌, ◌-◌, ◌^◌, ◌%◌, ◌≤◌, ◌<◌, ◌≡◌, refl, ap, false, List, [], ◌∷◌, Option, none,
  some, ◌==◌, length, take, drop, arith, add32, ushort,
}
use arcpi.Emulator.Vector.{display_status}
use arcpi.Emulator.Dispatch.{Poll, serial_byte, key, lost_key, idle, read_console}
use arcpi.Console.{Console, status}
use arcpi.Console.Cursor.{OnScreen}

-- The bytes that come in, in order.
abbrev pub delivered : List Poll → List ℕ
delivered [] = []
delivered (serial_byte c ∷ ps) = c % 2 ^ 8 ∷ delivered ps
delivered (key c ∷ ps) = c % 2 ^ 8 ∷ delivered ps
delivered (lost_key ∷ ps) = delivered ps
delivered (idle ∷ ps) = delivered ps

-- The answer for `n` bytes.
abbrev pub IsRead : ℕ → List Poll → Option (List ℕ × List Poll) → Type 0
IsRead n ps none = length (delivered ps) < n
IsRead n ps (some r) =
    (n ≤ length (delivered ps))
    × (r.0 ≡ take n (delivered ps))
    × (delivered r.1 ≡ drop n (delivered ps))

byte-IsRead :
    (n c : ℕ) (p : Poll) (ps : List Poll) (o : Option (List ℕ × List Poll))
    → delivered (p ∷ ps) ≡ c ∷ delivered ps
    → IsRead n ps o
    → IsRead (suc n) (p ∷ ps) (elim o as (λ x. Option (List ℕ × List Poll)) [
      | none ↦ none
      | some r ↦ some (c ∷ r.0, r.1)
    ])
byte-IsRead n c p ps none e h = rw e (omega (arith, h))
byte-IsRead n c p ps (some r) e (le, bytes, rest) =
    rw e (omega (arith, le), ap (λ k. c ∷ k) bytes, rest)

quiet-IsRead :
    (n : ℕ) (p : Poll) (ps : List Poll) (o : Option (List ℕ × List Poll))
    → delivered (p ∷ ps) ≡ delivered ps
    → IsRead n ps o
    → IsRead n (p ∷ ps) o
quiet-IsRead n p ps none e h = rw e h
quiet-IsRead n p ps (some r) e h = rw e h

-- Console input of `n` bytes returns once `n` bytes have come in, with these bytes in order and no
-- later one taken, and waits until then.
pub read_console-IsRead : (n : ℕ) (ps : List Poll) → IsRead n ps (read_console n ps)
unfolding read_console
read_console-IsRead zero ps = (omega arith, refl, refl)
read_console-IsRead (suc n) [] = omega arith
read_console-IsRead (suc n) (serial_byte c ∷ ps) =
    byte-IsRead n (c % 2 ^ 8) (serial_byte c) ps (read_console n ps) refl (read_console-IsRead n ps)
read_console-IsRead (suc n) (key c ∷ ps) =
    byte-IsRead n (c % 2 ^ 8) (key c) ps (read_console n ps) refl (read_console-IsRead n ps)
read_console-IsRead (suc n) (lost_key ∷ ps) =
    quiet-IsRead (suc n) lost_key ps (read_console (suc n) ps) refl (read_console-IsRead (suc n) ps)
read_console-IsRead (suc n) (idle ∷ ps) =
    quiet-IsRead (suc n) idle ps (read_console (suc n) ps) refl (read_console-IsRead (suc n) ps)

-- With the cursor on a screen of fewer than 2^16 rows and columns, `AEGetDisplayStatus` reports the
-- console's cursor and size counted from 1, the row not past the last one and the column at most one
-- past.
pub display_status_lem :
    {D : Type 0} (c : Console D)
    → OnScreen c
    → c.rows < 2 ^ 16
    → c.cols < 2 ^ 16 - 1
    → (display_status (status c) ≡ (c.cur_col + 1, c.cur_row + 1, c.cols, c.rows))
      × (c.cur_row + 1 ≤ c.rows)
      × (c.cur_col ≤ c.cols)
unfolding display_status status
display_status_lem c v h k =
    let some_rows : (c.rows == 0) ≡ false = ground (arith, v.some_row) in
    let some_cols : (c.cols == 0) ≡ false = ground (arith, v.some_col) in
    let x : ushort (add32 c.cur_col 1) ≡ c.cur_col + 1 = omega (arith, v.col) in
    let y : ushort (add32 c.cur_row 1) ≡ c.cur_row + 1 = omega (arith, v.row) in
    let width : ushort (add32 (c.cols - 1) 1) ≡ c.cols = omega (arith, v.some_col) in
    let height : ushort (add32 (c.rows - 1) 1) ≡ c.rows = omega (arith, v.some_row) in
    (rw (some_rows, some_cols, x, y, width, height) refl, omega (arith, v.row), v.col)
