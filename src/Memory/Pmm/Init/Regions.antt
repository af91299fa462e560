-- ===== src/Memory/Pmm/Init/Regions.antt =====
-- What `pmm_init` of kernel/memory_manager/pmm.c does to the frames of the regions.
use project_luciano.Base.{
  ℕ, zero, suc, ◌+◌, ◌-◌, ◌/◌, ◌%◌, ◌≤◌, ◌<◌, ◌≡◌, refl, ap, ◌∙◌, inl, inr, Bool, true, false, not,
  ◌&&◌, ◌||◌, Option, some, List, [], ◌∷◌, arith, ltb, leb, if◌then◌else◌, Bool-cases, length, All,
}
use project_luciano.Base.Bits.{bit_and_high}
use project_luciano.Memory.Pmm.{
  Bitmap, frame_size, word, Region, is_usable, align_frame, align_frame_down, clear_frame,
  over_frames, region_start, region_count, clear_regions,
}
use project_luciano.Memory.Pmm.Frames.{IsBitmap, used, frames, Marked, clear_frame_lem}

-- What the boot protocol promises of a usable region: whole frames, below the top of memory.
pub record IsSane (r : Region) : Type 0 where
  pub base_aligned : is_usable r.kind ≡ true → r.offset % frame_size ≡ 0
  pub size_aligned : is_usable r.kind ≡ true → r.size % frame_size ≡ 0
  pub no_wrap : r.offset + r.size + frame_size ≤ word

abbrev pub in_range : ℕ → ℕ → ℕ → Bool
in_range start n g = leb start g && ltb g (start + n)

-- Whether a usable region holds the frame.
abbrev pub covered : List Region → ℕ → Bool
covered [] g = false
covered (r ∷ rs) g =
    (is_usable r.kind && in_range (r.offset / frame_size) (r.size / frame_size) g) || covered rs g

pub align_frame-aligned : (a : ℕ) → a % frame_size ≡ 0 → a + frame_size ≤ word → align_frame a ≡ a
unfolding align_frame
align_frame-aligned a h k = bit_and_high 52 12 ((a + (frame_size - 1)) % word) ∙ omega arith

pub align_frame_down-aligned : (a : ℕ) → a % frame_size ≡ 0 → a < word → align_frame_down a ≡ a
unfolding align_frame_down
align_frame_down-aligned a h k = bit_and_high 52 12 a ∙ omega arith

pub region_start_lem :
    (r : Region) → IsSane r → is_usable r.kind ≡ true → region_start r ≡ r.offset / frame_size
unfolding region_start
region_start_lem r s u =
    ap (λ a. a / frame_size)
      (align_frame-aligned r.offset (s.base_aligned u) (omega (arith, s.no_wrap)))

pub region_count_lem :
    (r : Region) → IsSane r → is_usable r.kind ≡ true → region_count r ≡ r.size / frame_size
unfolding region_count
region_count_lem r s u =
    let b = s.base_aligned u in
    let z = s.size_aligned u in
    let e : (r.offset + r.size) % word ≡ r.offset + r.size = omega (arith, s.no_wrap) in
    rw
      (
        e,
        align_frame-aligned r.offset b (omega (arith, s.no_wrap)),
        align_frame_down-aligned (r.offset + r.size) (omega arith) (omega (arith, s.no_wrap)),
      )
      (omega (arith, s.no_wrap))

-- A run of frames gets one state, the others keep theirs.
pub record Ran (bm : Bitmap) (f n : ℕ) (mark : Bool) (after : Bitmap) : Type 0 where
  pub size : length after ≡ length bm
  pub bytes : IsBitmap after
  pub state : (g : ℕ) → used after g ≡ (if in_range f n g then mark else used bm g)

pub over_frames-Ran :
    (step : Bitmap → ℕ → Option Bitmap) (mark : Bool)
    → ((b : Bitmap) (f : ℕ)
        → IsBitmap b
        → f < frames b
        → (after : Bitmap) × (step b f ≡ some after) × Marked b f mark after)
    → (n f : ℕ) (bm : Bitmap) → IsBitmap bm
    → f + n ≤ frames bm
    → (after : Bitmap) × (over_frames step n f bm ≡ some after) × Ran bm f n mark after
unfolding over_frames
over_frames-Ran step mark one zero f bm v h =
    (bm, refl, record { size = refl; bytes = v; state = λ g. ground arith })
over_frames-Ran step mark one (suc n) f bm v h =
    let (next, e, m) = one bm f v (omega arith) in
    let (after, e', r) =
      over_frames-Ran step mark one n (f + 1) next m.bytes (omega (arith, m.size)) in
    (
      after,
      rw (e, over_frames) e',
      record {
        size = omega (arith, r.size, m.size);
        bytes = r.bytes;
        state = λ g. ground (arith, r.state g, m.state g);
      },
    )

-- Every usable region ends inside the bitmap.
abbrev pub Inside : Bitmap → List Region → Type 0
Inside bm [] = Unit
Inside bm (r ∷ rs) =
    (is_usable r.kind ≡ true → r.offset / frame_size + r.size / frame_size ≤ frames bm)
    × Inside bm rs

pub Inside-size :
    (a b : Bitmap) (rs : List Region) → length b ≡ length a → Inside a rs → Inside b rs
Inside-size a b [] e h = tt
Inside-size a b (r ∷ rs) e h = (λ u. omega (arith, h.0 u), Inside-size a b rs e h.1)

pub record Cleared (bm : Bitmap) (rs : List Region) (after : Bitmap) : Type 0 where
  pub size : length after ≡ length bm
  pub bytes : IsBitmap after
  pub state : (g : ℕ) → used after g ≡ (not (covered rs g) && used bm g)

pub clear_regions-Cleared :
    (rs : List Region) (bm : Bitmap)
    → IsBitmap bm
    → All IsSane rs
    → Inside bm rs
    → (after : Bitmap) × (clear_regions rs bm ≡ some after) × Cleared bm rs after
unfolding clear_regions
clear_regions-Cleared [] bm v s h = (bm, refl, record { size = refl; bytes = v; state = λ g. refl })
clear_regions-Cleared (r ∷ rs) bm v s h = elim (Bool-cases (is_usable r.kind)) [
  | inr other ↦
      let (after, e, c) = clear_regions-Cleared rs bm v s.1 h.1 in
      (
        after,
        rw other e,
        record { size = c.size; bytes = c.bytes; state = λ g. ground (arith, c.state g) },
      )
  | inl u ↦
      let (next, e, c) =
        over_frames-Ran clear_frame false (λ b f w k. clear_frame_lem b f w k) (region_count r)
          (region_start r) bm v
          (omega (arith, h.0 u, region_start_lem r s.0 u, region_count_lem r s.0 u)) in
      let (after, e', d) =
        clear_regions-Cleared rs next c.bytes s.1 (Inside-size bm next rs c.size h.1) in
      (
        after,
        rw (u, e) e',
        record {
          size = d.size ∙ c.size;
          bytes = d.bytes;
          state = λ g.
              ground
                (arith, d.state g, c.state g, region_start_lem r s.0 u, region_count_lem r s.0 u);
        },
      )
]
