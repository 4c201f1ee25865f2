-- ===== src/Framebuffer/Start.antt =====
-- `fbcon_init` of arcfw/arm/fbcon.c on the framebuffer.
use arcpi.Base.{ℕ}
use arcpi.Framebuffer.{Screen, fb_ok, set_colours, screen_display}
use arcpi.Console.{Console, init}

module _ (font : ℕ → ℕ → ℕ) where
  -- `fbcon_init`
  pub fbcon_init : Console Screen → Console Screen
  unfolding init set_colours
  fbcon_init c =
      init (screen_display font) (fb_ok c.display) c.display.width c.display.height
        (record c { display = set_colours c.display })
