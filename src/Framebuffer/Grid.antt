-- ===== src/Framebuffer/Grid.antt =====
-- arcfw/arm/fbcon.c on the framebuffer of arcfw/arm/fb.c, against the grid of cells that it stands
-- for.
use arcpi.Base.{
  ℕ, ◌+◌, ◌*◌, ◌/◌, ◌%◌, ◌^◌, ◌≤◌, ◌<◌, ◌≡◌, ◌∙◌, refl, ap, Bool, true, false, ◌&&◌, arith, ltb,
  ◌==◌, if◌then◌else◌, word, List, Bool-cases, inl, inr,
}
use mathlib.Core.Path.{sym, subst}
use arcpi.Framebuffer.{Screen, fb_ok, stride, fb_fill, scroll, draw_glyph, screen_display}
use arcpi.Framebuffer.Pixels.{
  view, IsSurface, SameShape, SameShape-IsSurface, IsPixel, fb_fill-SameShape, view-fb_fill,
}
use arcpi.Framebuffer.Glyph.{ink, draw_glyph-SameShape, view-draw_glyph}
use arcpi.Framebuffer.Scroll.{IsArea, scroll-SameShape, view-scroll}
use arcpi.Console.{Console, puts}
use arcpi.Console.Grid.{Cell, blank, glyph, Grid, set_cell, scroll_grid, clear_grid, grid_display}
use arcpi.Console.Simulation.{Simulates, on, puts-Alike}

SameShape-back : {s t : Screen} {x y : ℕ} → SameShape s t → IsPixel x y t → IsPixel x y s
SameShape-back a p = record { column = rw⁻¹ a.width p.column; line = rw⁻¹ a.height p.line }

SameShape-IsArea : {rows : ℕ} {s t : Screen} → SameShape s t → IsArea rows s → IsArea rows t
SameShape-IsArea a r = record { some_row = r.some_row; on_surface = rw a.height r.on_surface }

stride_le : (h w : ℕ) → 0 < h → w ≤ h * w
stride_le h w p = grind arith

height_le : (h w : ℕ) → 0 < w → h ≤ h * w
height_le h w p = grind arith

column_lt : {s : Screen} {x y : ℕ} → IsSurface s → IsPixel x y s → x < word
column_lt {s} v p =
    omega (arith, stride_le s.height (stride s) (omega (arith, p.line)), v.wide, v.fits, p.column)

line_lt : {s : Screen} {x y : ℕ} → IsSurface s → IsPixel x y s → y < word
line_lt {s} v p =
    omega (arith, height_le s.height (stride s) (omega (arith, v.wide, p.column)), v.fits, p.line)

module _ (font : ℕ → ℕ → ℕ) (rows : ℕ) where
  -- The colour of the pixel (`px`, `py`) of a cell.
  pub colour : (fg bg : ℕ) → Cell → (px py : ℕ) → ℕ
  colour fg bg blank px py = bg
  colour fg bg (glyph inverse ch) px py =
      ink (if inverse then bg else fg) (if inverse then fg else bg) (font (ch % 2 ^ 7) py) px

  -- Every pixel of the surface is the one of the cell that it lies in.
  pub record Shows (s : Screen) (g : Grid) : Type 0 where
    pub surface : IsSurface s
    pub area : IsArea rows s
    pub pixel :
        (x y : ℕ)
        → IsPixel x y s
        → view s x y ≡ colour s.fg s.bg (g (x / 8) (y / 8)) (x % 8) (y % 8)

  -- The pixels of a new surface of the same shape, from those of the old one.
  shown :
      {s t : Screen} {g h : Grid}
      → SameShape s t
      → Shows s g
      → ((x y : ℕ)
          → IsPixel x y s
          → view t x y ≡ colour s.fg s.bg (h (x / 8) (y / 8)) (x % 8) (y % 8))
      → Shows t h
  shown a w f = record {
    surface = SameShape-IsSurface a w.surface;
    area = SameShape-IsArea a w.area;
    pixel = λ x y p. rw (a.fg, a.bg) (f x y (SameShape-back a p));
  }

  colour_if :
      (b : Bool) (fg bg : ℕ) (k k' : Cell) (px py : ℕ)
      → colour fg bg (if b then k else k') px py
        ≡ (if b then colour fg bg k px py else colour fg bg k' px py)
  colour_if true fg bg k k' px py = refl
  colour_if false fg bg k k' px py = refl

  draw-Shows :
      {s : Screen} {g : Grid} (inverse : Bool) (cx cy ch : ℕ)
      → Shows s g
      → Shows (draw_glyph font inverse cx cy ch s) (set_cell inverse cx cy ch g)
  unfolding set_cell colour
  draw-Shows {s} {g} inverse cx cy ch w =
      shown (draw_glyph-SameShape font inverse cx cy ch s) w λ x y p.
        view-draw_glyph font inverse cx cy ch w.surface p (column_lt w.surface p)
          (line_lt w.surface p)
        ∙ rw
            (
              colour_if (x / 8 == cx % 2 ^ 29 && y / 8 == cy % 2 ^ 29) s.fg s.bg (glyph inverse ch)
                  (g (x / 8) (y / 8)) (x % 8) (y % 8),
              w.pixel x y p,
            )
            refl

  row_pixel :
      {s : Screen} {g : Grid} {x y : ℕ}
      → Shows s g
      → IsPixel x y s
      → (if ltb (y / 8 + 1) rows
          then view s x (y + 8)
          else if ltb (y / 8) rows
          then s.bg
          else view s x y)
        ≡ (if ltb (y / 8 + 1) rows
            then colour s.fg s.bg (g (x / 8) (y / 8 + 1)) (x % 8) (y % 8)
            else if ltb (y / 8) rows
            then s.bg
            else colour s.fg s.bg (g (x / 8) (y / 8)) (x % 8) (y % 8))
  row_pixel {s} {g} {x} {y} w p = elim (Bool-cases (ltb (y / 8 + 1) rows)) [
    | inl on ↦
        let below : IsPixel x (y + 8) s = record {
          column = p.column;
          line = ground (arith, w.area.on_surface);
        } in
        let next : (y + 8) / 8 ≡ y / 8 + 1 = omega arith in
        let same : (y + 8) % 8 ≡ y % 8 = omega arith in
        rw on (
          w.pixel x (y + 8) below
          ∙ ap (λ k. colour s.fg s.bg (g (x / 8) k) (x % 8) ((y + 8) % 8)) next
          ∙ ap (colour s.fg s.bg (g (x / 8) (y / 8 + 1)) (x % 8)) same)
    | inr off ↦ rw (off, w.pixel x y p) refl
  ]

  scroll-Shows : {s : Screen} {g : Grid} → Shows s g → Shows (scroll rows s) (scroll_grid rows g)
  unfolding scroll_grid colour
  scroll-Shows {s} {g} w = shown (scroll-SameShape rows s) w λ x y p.
      let below : ltb (y + 8) (rows * 8) ≡ ltb (y / 8 + 1) rows = ground arith in
      let inside : ltb y (rows * 8) ≡ ltb (y / 8) rows = ground arith in
      view-scroll rows w.surface w.area p
      ∙ rw (below, inside) (row_pixel w p)
      ∙ sym (
          colour_if (ltb (y / 8 + 1) rows) s.fg s.bg (g (x / 8) (y / 8 + 1))
            (if ltb (y / 8) rows then blank else g (x / 8) (y / 8)) (x % 8) (y % 8)
          ∙ ap
              (λ k.
                if ltb (y / 8 + 1) rows
                then colour s.fg s.bg (g (x / 8) (y / 8 + 1)) (x % 8) (y % 8)
                else k)
              (colour_if (ltb (y / 8) rows) s.fg s.bg blank (g (x / 8) (y / 8)) (x % 8) (y % 8)))

  -- A cleared surface shows the empty grid.
  pub cleared-Shows :
      {s : Screen} (g : Grid) → IsSurface s → IsArea rows s → Shows (fb_fill s.bg s) (clear_grid g)
  unfolding clear_grid colour
  cleared-Shows {s} g v a =
      let same = fb_fill-SameShape s.bg s in
      record {
        surface = SameShape-IsSurface same v;
        area = SameShape-IsArea same a;
        pixel = λ x y p. view-fb_fill s.bg v (SameShape-back same p) ∙ sym same.bg;
      }

  clear-Shows :
      {s : Screen} {g : Grid}
      → Shows s g
      → Shows (if fb_ok s then fb_fill s.bg s else s) (clear_grid g)
  clear-Shows {g} w = rw w.surface.ok (cleared-Shows g w.surface w.area)

  -- The framebuffer simulates the grid.
  screen-Simulates : Simulates rows (screen_display font) grid_display Shows
  screen-Simulates = record { draw = draw-Shows; scroll = scroll-Shows; clear = clear-Shows }

  -- On a framebuffer that shows a grid of the console's rows: whatever bytes the console is sent, the
  -- framebuffer goes on showing the grid that the same bytes make of an abstract screen, and the cursor and the parser's state are those of the abstract one.
  pub puts-Shows :
      (chs : List ℕ) (c : Console Screen) (g : Grid)
      → c.rows ≡ rows
      → Shows c.display g
      → Shows (puts (screen_display font) chs c).display (puts grid_display chs (on c g)).display
        × (puts grid_display chs (on c g)
            ≡ on (puts (screen_display font) chs c) (puts grid_display chs (on c g)).display)
  puts-Shows chs c g h w =
      let c₁ = puts (screen_display font) chs c in
      let (e, r, q, same) =
        puts-Alike rows (screen_display font) grid_display Shows screen-Simulates chs c (on c g)
          (g, w, h, refl) in
      let shown_grid : e ≡ (puts grid_display chs (on c g)).display =
        ap (λ k. k.display) (sym same) in
      (subst (Shows c₁.display) shown_grid r, same ∙ ap (on c₁) shown_grid)
