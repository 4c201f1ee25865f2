-- ===== src/Display.antt =====
-- What the text console (arcfw/arm/fbcon.c) asks of the surface that it draws on: the framebuffer,
-- or an abstract grid of cells.
use arcpi.Base.{ℕ, Bool}

-- One operation for each drawing call of fbcon.c.
pub record Display (D : Type 0) : Type 0 where
  -- `draw_glyph(cx, cy, ch)`, with `inverse`
  pub draw : (inverse : Bool) (cx cy ch : ℕ) → D → D
  -- `fbcon_scroll()`, over `rows` rows of cells
  pub scroll : (rows : ℕ) → D → D
  -- `if (fb_ok()) fb_fill(bg)`
  pub clear : D → D
