-- ===== src/Kbuf/Grow.antt =====
-- Theorems about kbuf_grow of kernel/lib/kbuf.c, and about the loop that calls it.
use project_luciano.Base.{
  ℕ, zero, suc, ◌+◌, ◌*◌, ◌^◌, ◌≤◌, ◌<◌, ◌≡◌, ◌⊎◌, refl, sym, ap, ◌∙◌, inl, inr, false, Option,
  none, some, [], ◌++◌, append-nil, append_assoc, arith, ltb, leb, ◌==◌, if◌then◌else◌, ==_ne,
  Bool-cases, Option-cases, length, drop, length-append, length-drop, take_all,
}
use native.Mathlib.Nat.{pow-suc}
use project_luciano.Libc.{Bytes}
use project_luciano.Libc.Copy.{memcpy_lem}
use project_luciano.Kbuf.{
  KStatus, k_ok, k_overflow, k_nomem, Kbuf, Alloc, grown_size, adopt, kbuf_grow, Grown, fits,
  refused, bad_copy, out_of_fuel, grow_to,
}

-- `allocated` is the size of the block.
pub record IsValid (b : Kbuf) : Type 0 where
  pub size : length b.bytes ≡ b.allocated
  pub small : b.allocated < 2 ^ 64

-- A block that the allocator gives has the size that was asked for.
abbrev pub IsSized : Alloc → Type 0
IsSized a = (call size : ℕ) (fresh : Bytes) → a call size ≡ some fresh → length fresh ≡ size

abbrev pub doubled : ℕ → ℕ
doubled n = if n == 0 then 1 else 2 * n

-- What `kbuf_grow` does of a valid buffer, with the block that the allocator answers.
abbrev pub grow_spec : Kbuf → Option Bytes → KStatus × Kbuf
grow_spec b none = (k_nomem, b)
grow_spec b (some fresh) =
    (k_ok, record { bytes = b.bytes ++ drop b.allocated fresh; allocated = doubled b.allocated })

module _ (b : Kbuf) (a : Alloc) (call : ℕ) where
  adopt_lem :
      (fresh : Bytes)
      → IsValid b
      → length fresh ≡ doubled b.allocated
      → adopt b (doubled b.allocated) (some fresh)
        ≡ some (
          k_ok,
          record { bytes = b.bytes ++ drop b.allocated fresh; allocated = doubled b.allocated },
        )
  unfolding adopt
  adopt_lem fresh v e =
      ground (arith, memcpy_lem fresh b.bytes b.allocated, take_all b.allocated b.bytes)

  -- Below half of the address space the block doubles (an empty one gets one byte), the old bytes
  -- come first in the new block, and a refused allocation changes nothing. From there on the size
  -- would wrap, and the buffer is left as it is.
  pub kbuf_grow_lem :
      IsValid b
      → IsSized a
      → kbuf_grow b (a call) ≡ (
          if leb (2 ^ 63) b.allocated
          then some (k_overflow, b)
          else some (grow_spec b (a call (doubled b.allocated))))
  unfolding kbuf_grow grown_size
  kbuf_grow_lem v sized = elim (Option-cases (a call (doubled b.allocated))) [
    | inl e ↦ ground arith
    | inr (fresh, e) ↦ ground (arith, sized call (doubled b.allocated) fresh e, adopt_lem fresh v)
  ]

-- The old bytes come first.
abbrev pub Extends : Kbuf → Kbuf → Type 0
Extends b b' = (t : Bytes) × (b'.bytes ≡ b.bytes ++ t)

-- Why a buffer cannot grow: its doubled size would wrap, or the allocator has no block of that size.
abbrev pub Stuck : Alloc → Kbuf → ℕ → Type 0
Stuck a b next =
    (2 ^ 63 ≤ b.allocated)
    ⊎ ((call : ℕ) × (next ≡ call + 1) × (a call (doubled b.allocated) ≡ none))

abbrev pub Ends : Alloc → Kbuf → ℕ → Grown → Type 0
Ends a b limit (fits b' next) = IsValid b' × (limit ≤ b'.allocated) × Extends b b'
Ends a b limit (refused b' next) =
    IsValid b' × Extends b b' × (b'.allocated < limit) × Stuck a b' next
Ends a b limit bad_copy = ⊥
Ends a b limit out_of_fuel = ⊥

Extends-trans :
    (a : Alloc) (b c : Kbuf)
    → Extends b c
    → (limit : ℕ) (g : Grown) → Ends a c limit g
    → Ends a b limit g
Extends-trans a b c (t, e) limit (fits b' n) (v, l, (u, k)) =
    (v, l, (t ++ u, k ∙ ap (λ s. s ++ u) e ∙ append_assoc b.bytes t u))
Extends-trans a b c (t, e) limit (refused b' n) (v, (u, k), below, stuck) =
    (v, (t ++ u, k ∙ ap (λ s. s ++ u) e ∙ append_assoc b.bytes t u), below, stuck)
Extends-trans a b c x limit bad_copy h = h
Extends-trans a b c x limit out_of_fuel h = h

abbrev grown : Kbuf → Bytes → Kbuf
grown b fresh = record {
  bytes = b.bytes ++ drop b.allocated fresh;
  allocated = doubled b.allocated;
}

grown-IsValid :
    (b : Kbuf) (fresh : Bytes)
    → IsValid b
    → b.allocated < 2 ^ 63
    → length fresh ≡ doubled b.allocated
    → IsValid (grown b fresh)
grown-IsValid b fresh v h e =
    ground (arith, length-append b.bytes (drop b.allocated fresh), length-drop b.allocated fresh)

doubled_pow : (n f : ℕ) → 0 < n → doubled n * 2 ^ f ≡ n * 2 ^ suc f
doubled_pow zero f p = elim p [ ]
doubled_pow (suc n) f p =
    rw (==_ne (suc n) 0 (omega arith)) (omega (arith, ap (λ (t : ℕ). suc n * t) (pow-suc 2 f)))

-- With `f` rounds left every doubling fits: sizes from `2 ^ (64 - f)` on reach the top in time.
grow_to_pos :
    (f : ℕ) (a : Alloc) (call limit : ℕ) (b : Kbuf)
    → IsValid b
    → IsSized a
    → 0 < b.allocated
    → 2 ^ 64 ≤ b.allocated * 2 ^ f
    → Ends a b limit (grow_to f a call limit b)
unfolding grow_to
grow_to_pos zero a call limit b v sized p fuel = absurd (omega (arith, v.small))
grow_to_pos (suc f) a call limit b v sized p fuel = elim (Bool-cases (ltb b.allocated limit)) [
  | inr done ↦ rw done (v, ground arith, ([], sym (append-nil b.bytes)))
  | inl more ↦
      rw (more, kbuf_grow_lem b a call v sized)
        (elim (Bool-cases (leb (2 ^ 63) b.allocated)) [
          | inl top ↦ rw top (v, ([], sym (append-nil b.bytes)), ground arith, inl (ground arith))
          | inr room ↦ rw room (elim (Option-cases (a call (doubled b.allocated))) [
            | inl e ↦ rw e (v, ([], sym (append-nil b.bytes)), ground arith, inr (call, refl, e))
            | inr (fresh, e) ↦ rw e (
                Extends-trans a b (grown b fresh) (drop b.allocated fresh, refl) limit _
                  (grow_to_pos f a (call + 1) limit (grown b fresh)
                    (grown-IsValid b fresh v (ground arith) (sized call _ fresh e)) sized
                    (ground arith) (omega (arith, doubled_pow b.allocated f p))))
          ])
        ])
]

grow_to_empty :
    (a : Alloc) (call limit : ℕ) (b : Kbuf)
    → IsValid b
    → IsSized a
    → b.allocated ≡ 0
    → Ends a b limit (grow_to 66 a call limit b)
unfolding grow_to
grow_to_empty a call limit b v sized z = elim (Bool-cases (ltb b.allocated limit)) [
  | inr done ↦ rw done (v, ground arith, ([], sym (append-nil b.bytes)))
  | inl more ↦
      rw (more, kbuf_grow_lem b a call v sized)
        (let room : leb (2 ^ 63) b.allocated ≡ false = ground arith in
          rw room (elim (Option-cases (a call (doubled b.allocated))) [
            | inl e ↦ rw e (v, ([], sym (append-nil b.bytes)), ground arith, inr (call, refl, e))
            | inr (fresh, e) ↦ rw e (
                Extends-trans a b (grown b fresh) (drop b.allocated fresh, refl) limit _
                  (grow_to_pos 65 a (call + 1) limit (grown b fresh)
                    (grown-IsValid b fresh v (ground arith) (sized call _ fresh e)) sized
                    (ground arith) (ground arith)))
          ]))
]

-- 66 rounds are always enough for the growing loop: it never copies out of bounds, and it ends with
-- a valid buffer that starts with the old bytes. It has room for `limit` bytes, or it is refused, and
-- then it has less room, and could not grow: twice its size would wrap, or the last call of the
-- allocator, for that size, gave no block.
pub grow_to-Ends :
    (a : Alloc) (call limit : ℕ) (b : Kbuf)
    → IsValid b
    → IsSized a
    → Ends a b limit (grow_to 66 a call limit b)
grow_to-Ends a call limit b v sized = elim (Bool-cases (b.allocated == 0)) [
  | inr some_bytes ↦ grow_to_pos 66 a call limit b v sized (ground arith) (ground arith)
  | inl empty ↦ grow_to_empty a call limit b v sized (ground arith)
]
