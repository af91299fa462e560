-- ===== src/Framebuffer.antt =====
-- kernel/drivers/framebuffer/fb.c: drawing into the memory of a screen, byte by byte. The screens are
-- the `framebuffer_count` entries of the array, and log lines are left out.
pub mod Pixels
mod Tests
use project_luciano.Base.{
  ℕ, zero, suc, ◌+◌, ◌-◌, ◌*◌, ◌/◌, ◌%◌, ◌^◌, ◌≤◌, ◌<◌, min, max, bit_and, bit_or, bit_xor, ◌≡◌,
  refl, sym, ap, ap₂, ◌∙◌, fun_ext, subst, ◌≢◌, ◌↔◌, ◌⊎◌, inl, inr, Bool, true, false, not, ◌&&◌,
  ◌||◌, Option, none, some, List, [], ◌∷◌, ◌++◌, map, append-nil, append_assoc, arith, ltb, leb,
  ◌==◌, if◌then◌else◌, ltb→lt, lt→ltb, leb→le, ==_iff, ==_refl, ==_ne, Bool-cases, Option-cases,
  length, get_elem?, get_or, set, take, drop, replicate, length-append, length-set, get_or-set_self,
  get_or-set_ne, get_elem?-eq-get_or, length-take, length-drop, length-replicate, take_all,
  take-append, drop-append, All,
}
use mathlib.Core.Option

-- `framebuffer_t` of kernel/include/boot.h.
pub record Fb : Type 0 where
  pub address : ℕ
  pub width : ℕ
  pub height : ℕ
  pub pitch : ℕ
  pub bpp : ℕ

-- `fb_font_t`
pub record Font : Type 0 where
  pub width : ℕ
  pub height : ℕ
  pub glyphs : List ℕ

abbrev pub Memory : Type 0
Memory = ℕ → ℕ

-- A store through a `uint32_t *`: four bytes, the low one first.
unfoldable pub store32 : ℕ → ℕ → Memory → Memory
store32 a v m b = if leb a b && ltb b (a + 4) then v / 256 ^ (b - a) % 256 else m b

-- `fb->address + y * fb->pitch + x * (fb->bpp / 8)`: the products are `uint32_t`.
unfoldable pub target : Fb → ℕ → ℕ → ℕ
target fb x y = (fb.address + y * fb.pitch % 2 ^ 32 + x * (fb.bpp / 8) % 2 ^ 32) % 2 ^ 64

-- `fb_draw_pixel` on a screen that exists.
unfoldable pub draw : Fb → ℕ → ℕ → ℕ → Memory → Memory
draw fb x y color m =
    if leb fb.width x || leb fb.height y then m else store32 (target fb x y) color m

abbrev pub on_screen : Option Fb → (Fb → Memory → Memory) → Memory → Memory
on_screen none f m = m
on_screen (some fb) f m = f fb m

unfoldable pub fb_draw_pixel : List Fb → ℕ → ℕ → ℕ → ℕ → Memory → Memory
fb_draw_pixel fbs screen x y color m = on_screen (get_elem? fbs screen) (λ fb. draw fb x y color) m

-- `for (i = first; i < first + rounds; i++)`
unfoldable pub for_range : ℕ → ℕ → (ℕ → Memory → Memory) → Memory → Memory
for_range zero i body m = m
for_range (suc rounds) i body m = for_range rounds (i + 1) body (body i m)

-- The rounds of a loop from `x` to below `x + w`, a sum of two `uint32_t`.
abbrev pub rounds : ℕ → ℕ → ℕ
rounds x w = (x + w) % 2 ^ 32 - x

unfoldable pub fb_fill_rect : List Fb → ℕ → ℕ → ℕ → ℕ → ℕ → ℕ → Memory → Memory
fb_fill_rect fbs screen x y w h color m =
    on_screen (get_elem? fbs screen)
      (λ fb.
        for_range (rounds x w) x
          (λ i. for_range (rounds y h) y (λ j. fb_draw_pixel fbs screen i j color)))
      m

-- The color of a glyph's point; `none` is a read behind the font's data.
unfoldable pub point : Font → ℕ → ℕ → ℕ → ℕ → ℕ → Option ℕ
point font chr fg bg row col =
    Option.map (λ glyph. if bit_and glyph (2 ^ (7 - col % 8)) == 0 then bg else fg)
      (get_elem? font.glyphs ((chr * font.height + row) * ((font.width + 7) / 8) + col / 8))

abbrev pub then_draw : Option ℕ → (ℕ → Option Memory) → Option Memory
then_draw none k = none
then_draw (some color) k = k color

abbrev pub then_row : Option Memory → (Memory → Option Memory) → Option Memory
then_row none k = none
then_row (some m) k = k m

module _ (fbs : List Fb) (screen x y chr fg bg : ℕ) (font : Font) where
  -- The points of a row from `col` on, with what is left of its width.
  unfoldable pub put_row : ℕ → ℕ → ℕ → Memory → Option Memory
  put_row zero row col m = some m
  put_row (suc left) row col m = then_draw (point font chr fg bg row col) λ color.
      put_row left row (col + 1)
        (fb_draw_pixel fbs screen ((x + col) % 2 ^ 32) ((y + row) % 2 ^ 32) color m)

  unfoldable pub put_rows : ℕ → ℕ → Memory → Option Memory
  put_rows zero row m = some m
  put_rows (suc left) row m = then_row (put_row font.width row 0 m) (put_rows left (row + 1))

  unfoldable pub fb_putchar : Memory → Option Memory
  fb_putchar m = put_rows font.height 0 m
