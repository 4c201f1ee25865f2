-- ===== src/Console/Simulation.antt =====
-- arcfw/arm/fbcon.c on two surfaces at once: if the drawing operations keep two surfaces related,
-- so does every byte that the console is sent, and all else in its state is the same on both.
use arcpi.Base.{
  ℕ, zero, suc, ◌+◌, ◌≡◌, refl, Bool, true, false, not, ◌&&◌, ◌||◌, List, [], ◌∷◌, ltb, leb, ◌==◌,
  if◌then◌else◌, add32, ◌-◌, ◌%◌,
}
use mathlib.Core.Path.{subst⁻¹}
use arcpi.Display.{Display}
use arcpi.Console.{
  Console, param, max_params, last_of, after_esc, next_param, next_line, erase_cells, erase_in_line,
  csi_dispatch, csi_byte, print_char, plain_byte, putc, puts,
}

-- The laws of two implementations of the surface, for a relation between them and a screen of
-- `rows` rows of cells.
pub record Simulates {D E : Type 0} (rows : ℕ) (ops : Display D) (ops' : Display E)
    (R : D → E → Type 0) : Type 0 where
  pub draw :
      {d : D} {e : E} (inverse : Bool) (cx cy ch : ℕ)
      → R d e
      → R (ops.draw inverse cx cy ch d) (ops'.draw inverse cx cy ch e)
  pub scroll : {d : D} {e : E} → R d e → R (ops.scroll rows d) (ops'.scroll rows e)
  pub clear : {d : D} {e : E} → R d e → R (ops.clear d) (ops'.clear e)

-- The console on another surface.
abbrev pub on : {D E : Type 0} → Console D → E → Console E
on c e = record {
  display = e;
  cols = c.cols;
  rows = c.rows;
  cur_col = c.cur_col;
  cur_row = c.cur_row;
  esc_seen = c.esc_seen;
  in_csi = c.in_csi;
  inverse = c.inverse;
  params = c.params;
  pcount = c.pcount;
}

module _ {D E : Type 0} (rows : ℕ) (ops : Display D) (ops' : Display E) (R : D → E → Type 0)
    (sim : Simulates rows ops ops' R) where
  -- Equal but for the surfaces, which are related, and of the size.
  abbrev pub Alike : Console D → Console E → Type 0
  Alike c c' = (e : E) × R c.display e × (c.rows ≡ rows) × (c' ≡ on c e)

  if-Alike :
      (b : Bool) {x y : Console D} {x' y' : Console E}
      → Alike x x'
      → Alike y y'
      → Alike (if b then x else y) (if b then x' else y')
  if-Alike true s t = s
  if-Alike false s t = t

  -- One function after another.
  then-Alike :
      (f : Console D → Console D) (f' : Console E → Console E) (x : Console D) (x' : Console E)
      → Alike x x'
      → ((c : Console D) (e : E) → R c.display e → c.rows ≡ rows → Alike (f c) (f' (on c e)))
      → Alike (f x) (f' x')
  then-Alike f f' x x' (e, r, q, same) step = subst⁻¹ (λ k. Alike (f x) (f' k)) same (step x e r q)

  choose-related :
      (b : Bool) {x y : D} {x' y' : E}
      → R x x'
      → R y y'
      → R (elim b [ true ↦ x | false ↦ y ]) (elim b [ true ↦ x' | false ↦ y' ])
  choose-related true s t = s
  choose-related false s t = t

  scroll_at : {n : ℕ} {d : D} {e : E} → n ≡ rows → R d e → R (ops.scroll n d) (ops'.scroll n e)
  scroll_at {d} {e} h r = subst⁻¹ (λ n. R (ops.scroll n d) (ops'.scroll n e)) h (sim.scroll r)

  erase_cells-related :
      (fuel x to cols row : ℕ) (inverse : Bool) (d : D) (e : E)
      → R d e
      → R
          (erase_cells ops fuel x to cols row inverse d)
          (erase_cells ops' fuel x to cols row inverse e)
  unfolding erase_cells
  erase_cells-related zero x to cols row inverse d e r = r
  erase_cells-related (suc fuel) x to cols row inverse d e r =
      choose-related (leb x to && ltb x cols)
        (erase_cells-related fuel (suc x) to cols row inverse (ops.draw inverse x row 0x20 d)
          (ops'.draw inverse x row 0x20 e) (sim.draw inverse x row 0x20 r))
        r

  module _ (c : Console D) (e : E) (r : R c.display e) (q : c.rows ≡ rows) where
    next_param-Alike : Alike (next_param c) (next_param (on c e))
    unfolding next_param
    next_param-Alike = if-Alike (ltb c.pcount (max_params - 1)) (e, r, q, refl) (e, r, q, refl)

    next_line-Alike : Alike (next_line ops c) (next_line ops' (on c e))
    unfolding next_line
    next_line-Alike =
        if-Alike (leb c.rows (add32 c.cur_row 1)) (ops'.scroll c.rows e, scroll_at q r, q, refl)
          (e, r, q, refl)

    erase_in_line-Alike :
        (mode : ℕ) → Alike (erase_in_line ops mode c) (erase_in_line ops' mode (on c e))
    unfolding erase_in_line
    erase_in_line-Alike mode =
        let from : ℕ = if mode == 1 then 0 else c.cur_col in
        let to : ℕ =
          if mode == 0 then last_of c.cols else if mode == 1 then c.cur_col else last_of c.cols in
        (
          erase_cells ops' (c.cols + 1) from to c.cols c.cur_row c.inverse e,
          erase_cells-related (c.cols + 1) from to c.cols c.cur_row c.inverse c.display e r,
          q,
          refl,
        )

    csi_dispatch-Alike :
        (final : ℕ) → Alike (csi_dispatch ops final c) (csi_dispatch ops' final (on c e))
    unfolding csi_dispatch
    csi_dispatch-Alike final =
        if-Alike (final == b'H' || final == b'f') (e, r, q, refl)
          (if-Alike (final == b'A') (e, r, q, refl)
            (if-Alike (final == b'B') (e, r, q, refl)
              (if-Alike (final == b'C') (e, r, q, refl)
                (if-Alike (final == b'D') (e, r, q, refl)
                  (if-Alike (final == b'K') (erase_in_line-Alike (param c 0)) (
                    if-Alike (final == b'J') (ops'.clear e, sim.clear r, q, refl)
                      (if-Alike (final == b'm') (e, r, q, refl) (e, r, q, refl))))))))

    after_esc-Alike : (ch : ℕ) → Alike (after_esc ch c) (after_esc ch (on c e))
    unfolding after_esc
    after_esc-Alike ch = if-Alike (ch == 0x5b) (e, r, q, refl) (e, r, q, refl)

  draw-Alike :
      (ch : ℕ) (c : Console D) (e : E)
      → R c.display e
      → c.rows ≡ rows
      → Alike
          (record c {
            display = ops.draw c.inverse c.cur_col c.cur_row ch c.display;
            cur_col = add32 c.cur_col 1;
          })
          (let c' = on c e in
            record c' {
              display = ops'.draw c'.inverse c'.cur_col c'.cur_row ch c'.display;
              cur_col = add32 c'.cur_col 1;
            })
  draw-Alike ch c e r q = (
    ops'.draw c.inverse c.cur_col c.cur_row ch e,
    sim.draw c.inverse c.cur_col c.cur_row ch r,
    q,
    refl,
  )

  module _ (c : Console D) (e : E) (r : R c.display e) (q : c.rows ≡ rows) where
    print_char-Alike : (ch : ℕ) → Alike (print_char ops ch c) (print_char ops' ch (on c e))
    unfolding print_char
    print_char-Alike ch =
        then-Alike
          (λ k. record k {
            display = ops.draw k.inverse k.cur_col k.cur_row ch k.display;
            cur_col = add32 k.cur_col 1;
          })
          (λ k. record k {
            display = ops'.draw k.inverse k.cur_col k.cur_row ch k.display;
            cur_col = add32 k.cur_col 1;
          })
          (if not (c.cols == 0) && leb c.cols c.cur_col then next_line ops c else c)
          (if not (c.cols == 0) && leb c.cols c.cur_col then next_line ops' (on c e) else on c e)
          (if-Alike (not (c.cols == 0) && leb c.cols c.cur_col) (next_line-Alike c e r q)
            (e, r, q, refl))
          (draw-Alike ch)

    csi_byte-Alike : (ch : ℕ) → Alike (csi_byte ops ch c) (csi_byte ops' ch (on c e))
    unfolding csi_byte
    csi_byte-Alike ch =
        if-Alike (leb 0x30 ch && leb ch 0x39) (e, r, q, refl)
          (if-Alike (ch == 0x3b) (next_param-Alike c e r q) (
            then-Alike (λ k. record k { in_csi = false }) (λ k. record k { in_csi = false })
              (csi_dispatch ops ch c) (csi_dispatch ops' ch (on c e))
              (csi_dispatch-Alike c e r q ch) λ k e' r' q'. (e', r', q', refl)))

    plain_byte-Alike : (ch : ℕ) → Alike (plain_byte ops ch c) (plain_byte ops' ch (on c e))
    unfolding plain_byte
    plain_byte-Alike ch =
        if-Alike (ch == 0x1b) (e, r, q, refl)
          (if-Alike (ch == 0x9b) (e, r, q, refl)
            (if-Alike (ch == 0x0a) (next_line-Alike c e r q) (
              if-Alike (ch == 0x0d) (e, r, q, refl)
                (if-Alike (ch == 0x09) (e, r, q, refl)
                  (if-Alike (ch == 0x08) (e, r, q, refl)
                    (if-Alike (ltb ch 0x20 || ltb 0x7e ch) (e, r, q, refl)
                      (print_char-Alike ch)))))))

    -- One byte keeps the surfaces related and treats all other state alike.
    pub putc-Alike : (ch : ℕ) → Alike (putc ops ch c) (putc ops' ch (on c e))
    unfolding putc
    putc-Alike ch =
        if-Alike c.in_csi (csi_byte-Alike (ch % 256))
          (if-Alike c.esc_seen (after_esc-Alike c e r q (ch % 256)) (plain_byte-Alike (ch % 256)))

  -- And so does any run of bytes.
  pub puts-Alike :
      (chs : List ℕ) (c : Console D) (c' : Console E)
      → Alike c c'
      → Alike (puts ops chs c) (puts ops' chs c')
  unfolding puts
  puts-Alike [] c c' a = a
  puts-Alike (ch ∷ chs) c c' a =
      puts-Alike chs (putc ops ch c) (putc ops' ch c')
        (then-Alike (putc ops ch) (putc ops' ch) c c' a λ k e r q. putc-Alike k e r q ch)
