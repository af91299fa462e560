-- ===== src/Memory/Pmm/Frames.antt =====
-- The bitmap as a set of frames: what allocating, freeing and marking do to it.
use project_luciano.Base.{
  ℕ, zero, suc, ◌*◌, ◌/◌, ◌%◌, ◌<◌, ◌≡◌, refl, ap, inl, inr, Bool, true, false, some, [], ◌∷◌,
  arith, ◌==◌, if◌then◌else◌, Bool-cases, length, get_or, set, length-set, get_or-set_self,
  get_or-set_ne, All,
}
use mathlib.Core.Option
use project_luciano.Memory.Pmm.{Bitmap, set_bit, clear_bit, bit_set, change, clear_frame, set_frame}
use project_luciano.Memory.Pmm.Byte.{bit_set-set_bit, bit_set-clear_bit, set_bit-lt, clear_bit-lt}

abbrev pub IsBitmap : Bitmap → Type 0
IsBitmap bm = All (λ b. b < 256) bm

-- Whether a frame is in use; a frame that the bitmap does not cover counts as used.
unfoldable pub used : Bitmap → ℕ → Bool
used bm f = bit_set (get_or bm (f / 8) 255) (f % 8)

abbrev pub frames : Bitmap → ℕ
frames bm = 8 * length bm

get_or-lt : (bm : Bitmap) (i : ℕ) → IsBitmap bm → get_or bm i 255 < 256
get_or-lt [] i h = omega arith
get_or-lt (b ∷ bm) zero h = h.0
get_or-lt (b ∷ bm) (suc i) h = get_or-lt bm i h.1

IsBitmap-set : (bm : Bitmap) (i v : ℕ) → IsBitmap bm → v < 256 → IsBitmap (set bm i v)
IsBitmap-set [] i v h k = tt
IsBitmap-set (b ∷ bm) zero v h k = (k, h.1)
IsBitmap-set (b ∷ bm) (suc i) v h k = (h.0, IsBitmap-set bm i v h.1 k)

change_lem :
    (bm : Bitmap) (i : ℕ) (f : ℕ → ℕ)
    → i < length bm
    → change bm i f ≡ some (set bm i (f (get_or bm i 255)))
unfolding change
change_lem [] i f h = absurd (omega arith)
change_lem (b ∷ bm) zero f h = refl
change_lem (b ∷ bm) (suc i) f h =
    ap (Option.map (λ rest. b ∷ rest)) (change_lem bm i f (omega arith))

-- A frame is marked, and every other frame keeps its state.
pub record Marked (bm : Bitmap) (f : ℕ) (mark : Bool) (after : Bitmap) : Type 0 where
  pub size : length after ≡ length bm
  pub bytes : IsBitmap after
  pub state : (g : ℕ) → used after g ≡ (if g == f then mark else used bm g)

module _ (bm : Bitmap) (f : ℕ) (v : IsBitmap bm) (h : f < frames bm) where
  abbrev old : ℕ
  old = get_or bm (f / 8) 255

  marked :
      (new : ℕ) (mark : Bool)
      → new < 256
      → ((k : ℕ) → k < 8 → bit_set new k ≡ (if k == f % 8 then mark else bit_set old k))
      → Marked bm f mark (set bm (f / 8) new)
  unfolding used
  marked new mark lt bits = record {
    size = length-set bm (f / 8) new;
    bytes = IsBitmap-set bm (f / 8) new v lt;
    state = λ g. elim (Bool-cases (g / 8 == f / 8)) [
      | inl e ↦
          let same : g / 8 ≡ f / 8 = ground arith in
          rw (same, get_or-set_self bm (f / 8) new 255 (omega arith))
            (ground (arith, bits (g % 8) (omega arith)))
      | inr ne ↦ ground (arith, get_or-set_ne bm (f / 8) (g / 8) new 255)
    ];
  }

  pub set_frame_lem : (after : Bitmap) × (set_frame bm f ≡ some after) × Marked bm f true after
  unfolding set_frame
  set_frame_lem = (
    set bm (f / 8) (set_bit old (f % 8)),
    change_lem bm (f / 8) (λ b. set_bit b (f % 8)) (omega arith),
    marked (set_bit old (f % 8)) true (set_bit-lt old (f % 8)) (λ k hk.
        ground (arith, bit_set-set_bit old (f % 8) k (get_or-lt bm (f / 8) v) (omega arith) hk)),
  )

  pub clear_frame_lem : (after : Bitmap) × (clear_frame bm f ≡ some after) × Marked bm f false after
  unfolding clear_frame
  clear_frame_lem = (
    set bm (f / 8) (clear_bit old (f % 8)),
    change_lem bm (f / 8) (λ b. clear_bit b (f % 8)) (omega arith),
    marked (clear_bit old (f % 8)) false
        (clear_bit-lt old (f % 8) (get_or-lt bm (f / 8) v) (omega arith))
        (λ k hk.
          ground
            (arith, bit_set-clear_bit old (f % 8) k (get_or-lt bm (f / 8) v) (omega arith) hk)),
  )
