-- ===== src/Framebuffer/Pixels.antt =====
-- What the drawing functions of kernel/drivers/framebuffer/fb.c change.
use project_luciano.Base.{
  ℕ, zero, suc, ◌+◌, ◌-◌, ◌*◌, ◌/◌, ◌%◌, ◌^◌, ◌≤◌, ◌<◌, ◌≡◌, refl, sym, ap, ap₂, ◌∙◌, subst, ◌≢◌,
  inl, inr, Bool, true, false, ◌&&◌, ◌||◌, some, List, arith, ltb, leb, ◌==◌, if◌then◌else◌,
  Bool-cases, get_elem?,
}
use native.Mathlib.Nat.{mul-le-mul_right}
use project_luciano.Framebuffer.{
  Fb, Memory, store32, target, draw, on_screen, fb_draw_pixel, for_range, rounds, fb_fill_rect,
}

-- A screen of 32 bits for each pixel, whose rows do not overlap and whose memory does not wrap.
pub record IsScreen (fb : Fb) : Type 0 where
  pub depth : fb.bpp ≡ 32
  pub rows : 4 * fb.width ≤ fb.pitch
  pub short : fb.height * fb.pitch < 2 ^ 32
  pub fits : fb.address + fb.height * fb.pitch ≤ 2 ^ 64

-- Byte `i` of a pixel.
abbrev pub byte : Fb → ℕ → ℕ → ℕ → ℕ
byte fb x y i = fb.address + y * fb.pitch + 4 * x + i

row_below : (p y z : ℕ) → y < z → y * p + p ≤ z * p
row_below p y z l = omega (arith, mul-le-mul_right p l)

-- Whether `p` is one of the `n` numbers from `x` on.
abbrev pub between : ℕ → ℕ → ℕ → Bool
between p x n = leb x p && ltb p (x + n)

-- The pixels of the screen where `inside` holds got the color, and no other byte changed.
pub record Painted (fb : Fb) (inside : ℕ → ℕ → Bool) (color : ℕ) (m m' : Memory) : Type 0 where
  pub pixels :
      (px py i : ℕ)
      → px < fb.width
      → py < fb.height
      → i < 4
      → m' (byte fb px py i) ≡ (if inside px py then color / 256 ^ i % 256 else m (byte fb px py i))
  pub others :
      (b : ℕ)
      → ((px py i : ℕ) → px < fb.width → py < fb.height → i < 4 → b ≢ byte fb px py i)
      → m' b ≡ m b

module _ (fb : Fb) (s : IsScreen fb) where
  target-byte : (x y : ℕ) → x < fb.width → y < fb.height → target fb x y ≡ byte fb x y 0
  unfolding target
  target-byte x y l k =
      let row = row_below fb.pitch y fb.height k in
      let four : fb.bpp / 8 ≡ 4 = ap (λ (n : ℕ). n / 8) s.depth in
      ap (λ (n : ℕ). (fb.address + y * fb.pitch % 2 ^ 32 + x * n % 2 ^ 32) % 2 ^ 64) four
      ∙ omega (arith, row, s.rows, s.short, s.fits)

  same_pixel :
      (x y px py i : ℕ)
      → x < fb.width
      → y < fb.height
      → px < fb.width
      → py < fb.height
      → i < 4
      → byte fb x y 0 ≤ byte fb px py i
      → byte fb px py i < byte fb x y 0 + 4
      → (px ≡ x) × (py ≡ y)
  same_pixel x y px py i a b c d e lo hi = elim (Bool-cases (ltb y py)) [
    | inl below ↦
        let row = row_below fb.pitch y py (ground arith) in absurd (omega (arith, row, s.rows))
    | inr not_below ↦ elim (Bool-cases (ltb py y)) [
      | inl above ↦
          let row = row_below fb.pitch py y (ground arith) in absurd (omega (arith, row, s.rows))
      | inr not_above ↦
          let same : py ≡ y = ground arith in
          let line = ap (λ (n : ℕ). n * fb.pitch) same in (omega (arith, line), same)
    ]
  ]

  Painted-none : (color : ℕ) (m : Memory) → Painted fb (λ px py. false) color m m
  Painted-none color m = record { pixels = λ px py i a b c. refl; others = λ b far. refl }

  Painted-both :
      (p q : ℕ → ℕ → Bool) (color : ℕ) (m m1 m2 : Memory)
      → Painted fb p color m m1
      → Painted fb q color m1 m2
      → Painted fb (λ px py. p px py || q px py) color m m2
  Painted-both p q color m m1 m2 one two = record {
    pixels = λ px py i a b c. ground (arith, one.pixels px py i a b c, two.pixels px py i a b c);
    others = λ b far. two.others b far ∙ one.others b far;
  }

  Painted-same :
      (p q : ℕ → ℕ → Bool) (color : ℕ) (m m' : Memory)
      → ((px py : ℕ) → px < fb.width → py < fb.height → p px py ≡ q px py)
      → Painted fb p color m m'
      → Painted fb q color m m'
  Painted-same p q color m m' same one = record {
    pixels = λ px py i a b c. ground (arith, same px py a b, one.pixels px py i a b c);
    others = one.others;
  }

  store-pixel :
      (x y px py i color : ℕ) (m : Memory)
      → x < fb.width
      → y < fb.height
      → px < fb.width
      → py < fb.height
      → i < 4
      → store32 (byte fb x y 0) color m (byte fb px py i)
        ≡ (if (px == x) && (py == y) then color / 256 ^ i % 256 else m (byte fb px py i))
  unfolding store32
  store-pixel x y px py i color m a b c d e =
      let hits =
        leb (byte fb x y 0) (byte fb px py i) && ltb (byte fb px py i) (byte fb x y 0 + 4) in
      elim (Bool-cases hits) [
        | inl hit ↦
            let (p, q) = same_pixel x y px py i a b c d e (ground arith) (ground arith) in
            let line = ap (λ (n : ℕ). n * fb.pitch) q in
            let off : byte fb px py i - byte fb x y 0 ≡ i = omega (arith, line, p) in
            let yes_pixel : (px == x) && (py == y) ≡ true = ground arith in
            rw (hit, off, yes_pixel) refl
        | inr miss ↦ elim (Bool-cases ((px == x) && (py == y))) [
          | inl both ↦
              let p : px ≡ x = ground arith in
              let q : py ≡ y = ground arith in
              let line = ap (λ (n : ℕ). n * fb.pitch) q in
              let lo : leb (byte fb x y 0) (byte fb px py i) ≡ true = ground (arith, line) in
              let hi : ltb (byte fb px py i) (byte fb x y 0 + 4) ≡ true = ground (arith, line) in
              absurd (ground (arith, lo, hi))
          | inr other ↦ rw (miss, other) refl
        ]
      ]

  store-other :
      (x y b color : ℕ) (m : Memory)
      → (b - byte fb x y 0 < 4 → b ≢ byte fb x y (b - byte fb x y 0))
      → store32 (byte fb x y 0) color m b ≡ m b
  unfolding store32
  store-other x y b color m far =
      elim (Bool-cases (leb (byte fb x y 0) b && ltb b (byte fb x y 0 + 4))) [
        | inl hit ↦
            let lo : byte fb x y 0 ≤ b = ground arith in
            let hi : b < byte fb x y 0 + 4 = ground arith in
            absurd (far (omega arith) (omega arith))
        | inr miss ↦ rw miss refl
      ]

  draw-Painted :
      (x y color : ℕ) (m : Memory)
      → Painted fb (λ px py. (px == x) && (py == y)) color m (draw fb x y color m)
  unfolding draw store32
  draw-Painted x y color m = elim (Bool-cases (leb fb.width x || leb fb.height y)) [
    | inl off ↦
        rw off (Painted-same _ _ color m m (λ px py a b. ground arith) (Painted-none color m))
    | inr on ↦
        let place = target-byte x y (ground arith) (ground arith) in
        rw (on, place)
          (record {
            pixels = λ px py i a b c.
                store-pixel x y px py i color m (ground arith) (ground arith) a b c;
            others = λ b far.
                store-other x y b color m
                  (far x y (b - byte fb x y 0) (ground arith) (ground arith));
          })
  ]

  column-Painted :
      (n x y color : ℕ) (m : Memory)
      → Painted fb
          (λ px py. (px == x) && between py y n)
          color
          m
          (for_range n y (λ j. draw fb x j color) m)
  unfolding for_range
  column-Painted zero x y color m =
      Painted-same _ _ color m m (λ px py a b. ground arith) (Painted-none color m)
  column-Painted (suc n) x y color m =
      Painted-same _ _ color m _ (λ px py a b. ground arith)
        (Painted-both _ _ color m _ _ (draw-Painted x y color m)
          (column-Painted n x (y + 1) color (draw fb x y color m)))

  columns-Painted :
      (n k x y color : ℕ) (m : Memory)
      → Painted fb
          (λ px py. between px x n && between py y k)
          color
          m
          (for_range n x (λ i. for_range k y (λ j. draw fb i j color)) m)
  unfolding for_range
  columns-Painted zero k x y color m =
      Painted-same _ _ color m m (λ px py a b. ground arith) (Painted-none color m)
  columns-Painted (suc n) k x y color m =
      Painted-same _ _ color m _ (λ px py a b. ground arith)
        (Painted-both _ _ color m _ _ (column-Painted k x y color m)
          (columns-Painted n k (x + 1) y color (for_range k y (λ j. draw fb x j color) m)))

  -- On a screen of 32 bits for each pixel whose rows do not overlap and whose memory does not wrap,
  -- filling a rectangle whose ends do not wrap gives its color to exactly the pixels of the screen that
  -- lie in the rectangle, and changes no other byte.
  pub fb_fill_rect_lem :
      (fbs : List Fb) (screen x y w h color : ℕ) (m : Memory)
      → get_elem? fbs screen ≡ some fb
      → x + w < 2 ^ 32
      → y + h < 2 ^ 32
      → Painted fb
          (λ px py. between px x w && between py y h)
          color
          m
          (fb_fill_rect fbs screen x y w h color m)
  unfolding fb_fill_rect fb_draw_pixel
  fb_fill_rect_lem fbs screen x y w h color m e a b =
      let wide : rounds x w ≡ w = omega arith in
      let high : rounds y h ≡ h = omega arith in
      let opened =
        ap
          (λ o.
            on_screen o
              (λ u.
                for_range (rounds x w) x
                  (λ i. for_range (rounds y h) y (λ j v. on_screen o (λ f. draw f i j color) v)))
              m)
          e in
      let sized =
        ap₂ (λ n k. for_range n x (λ i. for_range k y (λ j. draw fb i j color)) m) wide high in
      subst (Painted fb (λ px py. between px x w && between py y h) color m) (sym (opened ∙ sized))
        (columns-Painted w h x y color m)
