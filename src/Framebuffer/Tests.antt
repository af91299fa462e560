-- ===== src/Framebuffer/Tests.antt =====
-- Drawing on a small screen.
use project_luciano.Base.{◌^◌, refl, ◌&&◌, [], ◌∷◌, arith}
use project_luciano.Framebuffer.{Fb, Memory, fb_fill_rect}
use project_luciano.Framebuffer.Pixels.{IsScreen, between, Painted, fb_fill_rect_lem}

-- Three rows of four pixels, with a gap of 4 bytes behind each row.
abbrev small : Fb
small = record { address = 2 ^ 40; width = 4; height = 3; pitch = 20; bpp = 32 }

small-IsScreen : IsScreen small
small-IsScreen = record {
  depth = refl;
  rows = omega arith;
  short = omega arith;
  fits = omega arith;
}

abbrev blank : Memory
blank b = 0

-- From column 2 and row 1 on, four columns and one row, of which two columns are on the screen.
fb_fill_rect_lem_example :
    Painted small
      (λ px py. between px 2 4 && between py 1 1)
      0xFF
      blank
      (fb_fill_rect (small ∷ []) 0 2 1 4 1 0xFF blank)
fb_fill_rect_lem_example =
    fb_fill_rect_lem small small-IsScreen (small ∷ []) 0 2 1 4 1 0xFF blank refl (omega arith)
      (omega arith)
