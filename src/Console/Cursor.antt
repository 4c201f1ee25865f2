-- ===== src/Console/Cursor.antt =====
-- The cursor of arcfw/arm/fbcon.c stays on the screen, and the parser in its parameter array.
use arcpi.Base.{
  ℕ, ◌+◌, ◌-◌, ◌*◌, ◌%◌, ◌^◌, ◌≤◌, ◌<◌, ◌≡◌, Bool, true, false, ◌&&◌, ◌||◌, List, [], ◌∷◌, arith,
  ltb, leb, ◌==◌, if◌then◌else◌, length, length-set, add32, word,
}
use arcpi.Display.{Display}
use arcpi.Console.{
  Console, param, begin_csi, after_esc, move_to, cursor_up, cursor_down, cursor_right, cursor_left,
  tab, backspace, add_digit, next_param, next_line, erase_in_line, csi_dispatch, csi_byte,
  print_char, plain_byte, putc, puts,
}

-- A screen with at least one cell, the cursor on it (a column may stand just past the last one
-- until the next character wraps), and the parameter index inside `param[8]`.
pub record OnScreen {D : Type 0} (c : Console D) : Type 0 where
  pub some_row : 0 < c.rows
  pub some_col : 0 < c.cols
  pub small_rows : c.rows ≤ 2 ^ 30
  pub small_cols : c.cols ≤ 2 ^ 30
  pub row : c.cur_row < c.rows
  pub col : c.cur_col ≤ c.cols
  pub index : c.pcount < 8
  pub array : length c.params ≡ 8

-- The two parameters of a cursor position are, less one, positive `int`s.
pub record IsPositive {D : Type 0} (c : Console D) : Type 0 where
  pub first : param c 0 ≤ 2 ^ 31
  pub second : param c 1 ≤ 2 ^ 31

module _ {D : Type 0} {c : Console D} (v : OnScreen c) where
  begin_csi-OnScreen : OnScreen (begin_csi c)
  unfolding begin_csi
  begin_csi-OnScreen = ground (arith, length-set c.params 0 0)

  add_digit-OnScreen : (ch : ℕ) → OnScreen (add_digit ch c)
  unfolding add_digit
  add_digit-OnScreen ch =
      ground
        (arith, length-set c.params c.pcount (add32 ((param c c.pcount * 10) % word) (ch - 0x30)))

  next_param-OnScreen : OnScreen (next_param c)
  unfolding next_param
  next_param-OnScreen = ground (arith, length-set c.params (c.pcount + 1) 0)

  move_to-OnScreen : IsPositive c → OnScreen (move_to c)
  unfolding move_to
  move_to-OnScreen p = ground arith

  cursor_up-OnScreen : OnScreen (cursor_up c)
  unfolding cursor_up
  cursor_up-OnScreen = ground arith

  cursor_down-OnScreen : OnScreen (cursor_down c)
  unfolding cursor_down
  cursor_down-OnScreen = ground arith

  cursor_right-OnScreen : OnScreen (cursor_right c)
  unfolding cursor_right
  cursor_right-OnScreen = ground arith

  cursor_left-OnScreen : OnScreen (cursor_left c)
  unfolding cursor_left
  cursor_left-OnScreen = ground arith

  tab-OnScreen : OnScreen (tab c)
  unfolding tab
  tab-OnScreen = ground arith

  backspace-OnScreen : OnScreen (backspace c)
  unfolding backspace
  backspace-OnScreen = ground arith

  -- A change of the parser's flags, of the surface or of the drawing attribute.
  flags-OnScreen :
      (esc csi inv : Bool) (d : D)
      → OnScreen (record c { esc_seen = esc; in_csi = csi; inverse = inv; display = d })
  flags-OnScreen esc csi inv d = ground arith

  home-OnScreen : (d : D) → OnScreen (record c { cur_col = 0; cur_row = 0; display = d })
  home-OnScreen d = ground arith

  return-OnScreen : OnScreen (record c { cur_col = 0 })
  return-OnScreen = ground arith

if-OnScreen :
    {D : Type 0} (b : Bool) {x y : Console D}
    → OnScreen x
    → OnScreen y
    → OnScreen (if b then x else y)
if-OnScreen true v w = v
if-OnScreen false v w = w

module _ {D : Type 0} (ops : Display D) {c : Console D} (v : OnScreen c) where
  next_line-OnScreen : OnScreen (next_line ops c)
  unfolding next_line
  next_line-OnScreen = ground arith

  erase_in_line-OnScreen : (mode : ℕ) → OnScreen (erase_in_line ops mode c)
  unfolding erase_in_line
  erase_in_line-OnScreen mode = ground arith

  csi_dispatch-OnScreen : (final : ℕ) → IsPositive c → OnScreen (csi_dispatch ops final c)
  unfolding csi_dispatch
  csi_dispatch-OnScreen final p =
      if-OnScreen (final == b'H' || final == b'f') (move_to-OnScreen v p) (
        if-OnScreen (final == b'A') (cursor_up-OnScreen v) (
          if-OnScreen (final == b'B') (cursor_down-OnScreen v) (
            if-OnScreen (final == b'C') (cursor_right-OnScreen v) (
              if-OnScreen (final == b'D') (cursor_left-OnScreen v) (
                if-OnScreen (final == b'K') (erase_in_line-OnScreen (param c 0)) (
                  if-OnScreen (final == b'J') (home-OnScreen v (ops.clear c.display))
                    (if-OnScreen (final == b'm') (flags-OnScreen v _ _ _ _) v)))))))

  print_char-OnScreen : (ch : ℕ) → OnScreen (print_char ops ch c)
  unfolding print_char
  print_char-OnScreen ch = ground arith

module _ {D : Type 0} (ops : Display D) {c : Console D} (v : OnScreen c) where
  after_esc-OnScreen : (ch : ℕ) → OnScreen (after_esc ch c)
  unfolding after_esc
  after_esc-OnScreen ch =
      let w = flags-OnScreen v false c.in_csi c.inverse c.display in
      if-OnScreen (ch == 0x5b) (begin_csi-OnScreen w) w

  csi_byte-OnScreen : (ch : ℕ) → IsPositive c → OnScreen (csi_byte ops ch c)
  unfolding csi_byte
  csi_byte-OnScreen ch p = if-OnScreen (leb 0x30 ch && leb ch 0x39) (add_digit-OnScreen v ch) (
      if-OnScreen (ch == 0x3b) (next_param-OnScreen v)
        (flags-OnScreen (csi_dispatch-OnScreen ops v ch p) _ false _ _))

  plain_byte-OnScreen : (ch : ℕ) → OnScreen (plain_byte ops ch c)
  unfolding plain_byte
  plain_byte-OnScreen ch = if-OnScreen (ch == 0x1b) (flags-OnScreen v true _ _ _) (
      if-OnScreen (ch == 0x9b) (begin_csi-OnScreen v) (
        if-OnScreen (ch == 0x0a) (next_line-OnScreen ops v) (
          if-OnScreen (ch == 0x0d) (return-OnScreen v) (
            if-OnScreen (ch == 0x09) (tab-OnScreen v) (
              if-OnScreen (ch == 0x08) (backspace-OnScreen v)
                (if-OnScreen (ltb ch 0x20 || ltb 0x7e ch) v (print_char-OnScreen ops v ch)))))))

  -- Every byte that `fbcon_putc` is sent leaves the cursor on the screen and the parameter index in
  -- its array, if the position parameters, less one, are positive `int`s.
  pub putc-OnScreen : (ch : ℕ) → IsPositive c → OnScreen (putc ops ch c)
  unfolding putc
  putc-OnScreen ch p =
      if-OnScreen c.in_csi (csi_byte-OnScreen (ch % 256) p)
        (if-OnScreen c.esc_seen (after_esc-OnScreen (ch % 256)) (plain_byte-OnScreen (ch % 256)))

module _ {D : Type 0} (ops : Display D) where
  -- No parameter passes the range of `int` while the bytes are sent.
  abbrev pub StaysPositive : List ℕ → Console D → Type 0
  StaysPositive [] c = Unit {0}
  StaysPositive (ch ∷ chs) c = IsPositive c × StaysPositive chs (putc ops ch c)

  -- Any run of bytes leaves the cursor on the screen and the parameter index in its array, runs
  -- that begin or end inside a sequence included, as long as no position parameter, less one,
  -- passes the range of `int` on the way.
  pub puts-OnScreen :
      (chs : List ℕ) {c : Console D} → OnScreen c → StaysPositive chs c → OnScreen (puts ops chs c)
  unfolding puts
  puts-OnScreen [] v p = v
  puts-OnScreen (ch ∷ chs) v p = puts-OnScreen chs (putc-OnScreen ops v ch p.0) p.1

  -- On a screen of at most 2^30 rows, `CSI H` with a row above 2^31 is not clipped: it is negative as an `int`, so the
  -- signed comparison passes, and the cursor's row becomes the parameter less one.
  pub move_to_escapes :
      (c : Console D)
      → c.in_csi ≡ true
      → c.rows ≤ 2 ^ 30
      → 2 ^ 31 < param c 0
      → param c 0 < word
      → (putc ops b'H' c).cur_row ≡ param c 0 - 1
  unfolding putc csi_byte csi_dispatch move_to
  move_to_escapes c i r lo hi = rw i (ground arith)
