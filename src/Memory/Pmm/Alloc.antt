-- ===== src/Memory/Pmm/Alloc.antt =====
-- Theorems about pmm_alloc and pmm_free of kernel/memory_manager/pmm.c.
use project_luciano.Base.{
  ℕ, suc, ◌+◌, ◌-◌, ◌*◌, ◌/◌, ◌%◌, ◌<◌, ◌≡◌, refl, ap, ◌∙◌, subst, ◌⊎◌, inl, inr, true, false,
  Option, none, some, [], ◌∷◌, arith, ltb, ◌==◌, Bool-cases, Option-cases,
}
use mathlib.Core.Option
use project_luciano.Memory.Pmm.{
  Bitmap, frame_size, set_bit, bit_set, first_clear, take_bit, alloc_from, pmm_alloc, change,
  set_frame, pmm_free,
}
use project_luciano.Memory.Pmm.Byte.{first_clear_lem, first_clear-none, bit_set_full}
use project_luciano.Memory.Pmm.Frames.{
  IsBitmap, used, frames, Marked, set_frame_lem, clear_frame_lem,
}

-- Frame `f` of the bytes from index `i` on is the lowest free one, and only it is marked.
record Lowest (i : ℕ) (bm : Bitmap) (addr : ℕ) (after : Bitmap) : Type 0 where
  frame : ℕ
  place : addr ≡ (i * 8 + frame) * frame_size
  inside : frame < frames bm
  free : used bm frame ≡ false
  below : (g : ℕ) → g < frame → used bm g ≡ true
  marks : set_frame bm frame ≡ some after

abbrev Allocates : ℕ → Bitmap → Option (ℕ × Bitmap) → Type 0
Allocates i bm none = (g : ℕ) → used bm g ≡ true
Allocates i bm (some (addr, after)) = Lowest i bm addr after

used-head : (b : ℕ) (bm : Bitmap) (g : ℕ) → g < 8 → used (b ∷ bm) g ≡ bit_set b g
unfolding used
used-head b bm g h = let q : g / 8 ≡ 0 = omega arith in let r : g % 8 ≡ g = omega arith in rw (q, r)

used-tail : (b : ℕ) (bm : Bitmap) (g : ℕ) → used (b ∷ bm) (g + 8) ≡ used bm g
unfolding used
used-tail b bm g =
    let q : (g + 8) / 8 ≡ suc (g / 8) = omega arith in
    let r : (g + 8) % 8 ≡ g % 8 = omega arith in rw (q, r)

set_frame-tail :
    (b : ℕ) (bm after : Bitmap) (g : ℕ)
    → set_frame bm g ≡ some after
    → set_frame (b ∷ bm) (g + 8) ≡ some (b ∷ after)
unfolding set_frame change
set_frame-tail b bm after g e =
    let q : (g + 8) / 8 ≡ suc (g / 8) = omega arith in
    let r : (g + 8) % 8 ≡ g % 8 = omega arith in rw (q, r) (ap (Option.map (λ rest. b ∷ rest)) e)

set_frame-head :
    (b : ℕ) (bm : Bitmap) (j : ℕ) → j < 8 → set_frame (b ∷ bm) j ≡ some (set_bit b j ∷ bm)
unfolding set_frame change
set_frame-head b bm j h =
    let q : j / 8 ≡ 0 = omega arith in let r : j % 8 ≡ j = omega arith in rw (q, r)

Allocates-skip :
    (i b : ℕ) (bm : Bitmap) (later : Option (ℕ × Bitmap))
    → ((g : ℕ) → g < 8 → bit_set b g ≡ true)
    → Allocates (i + 1) bm later
    → Allocates i (b ∷ bm) (take_bit i b bm none later)
Allocates-skip i b bm none full h = λ g. elim (Bool-cases (ltb g 8)) [
  | inl low ↦ used-head b bm g (ground arith) ∙ full g (ground arith)
  | inr high ↦
      subst (λ k. used (b ∷ bm) k ≡ true) (ground arith) (used-tail b bm (g - 8) ∙ h (g - 8))
]
Allocates-skip i b bm (some (addr, after)) full h = record {
  frame = h.frame + 8;
  place = omega (arith, h.place);
  inside = omega (arith, h.inside);
  free = used-tail b bm h.frame ∙ h.free;
  below = λ g k. elim (Bool-cases (ltb g 8)) [
    | inl low ↦ used-head b bm g (ground arith) ∙ full g (ground arith)
    | inr high ↦
        subst (λ k. used (b ∷ bm) k ≡ true) (ground arith)
          (used-tail b bm (g - 8) ∙ h.below (g - 8) (ground arith))
  ];
  marks = set_frame-tail b bm after h.frame h.marks;
}

Allocates-hit :
    (i b j : ℕ) (bm : Bitmap) (later : Option (ℕ × Bitmap))
    → b < 256
    → first_clear 8 0 b ≡ some j
    → Allocates i (b ∷ bm) (take_bit i b bm (some j) later)
Allocates-hit i b j bm later hb e =
    let (lt, clear, below) = first_clear_lem b j hb e in
    record {
      frame = j;
      place = refl;
      inside = omega arith;
      free = used-head b bm j lt ∙ clear;
      below = λ g k. used-head b bm g (omega arith) ∙ below g k;
      marks = set_frame-head b bm j lt;
    }

used-nil : (g : ℕ) → used [] g ≡ true
unfolding used
used-nil g = bit_set_full (g % 8) (omega arith)

alloc_from-Allocates : (i : ℕ) (bm : Bitmap) → IsBitmap bm → Allocates i bm (alloc_from i bm)
unfolding alloc_from
alloc_from-Allocates i [] v = used-nil
alloc_from-Allocates i (b ∷ bm) v =
    let ih = alloc_from-Allocates (i + 1) bm v.1 in
    elim (Bool-cases (b == 255)) [
      | inl e ↦ rw e (Allocates-skip i b bm _ (λ g k. ground (arith, bit_set_full g k)) ih)
      | inr ne ↦ rw ne (elim (Option-cases (first_clear 8 0 b)) [
        | inl no_bit ↦ absurd (ground (arith, first_clear-none b v.0 no_bit))
        | inr (j, bit) ↦ rw bit (Allocates-hit i b j bm (alloc_from (i + 1) bm) v.0 bit)
      ])
    ]

abbrev Answers : Bitmap → Option (ℕ × Bitmap) → Type 0
Answers bm o =
    (o ≡ none) × ((g : ℕ) → used bm g ≡ true)
    ⊎ ((f : ℕ) × (after : Bitmap) × (o ≡ some (f * frame_size, after))
        × (f < frames bm)
        × (used bm f ≡ false)
        × ((g : ℕ) → g < f → used bm g ≡ true)
        × Marked bm f true after)

Allocates-Answers :
    (bm : Bitmap) (o : Option (ℕ × Bitmap)) → IsBitmap bm → Allocates 0 bm o → Answers bm o
Allocates-Answers bm none v h = inl (refl, h)
Allocates-Answers bm (some (addr, after)) v h =
    let (next, e, m) = set_frame_lem bm h.frame v h.inside in
    let same : next ≡ after = cc (h.marks) in
    inr (
      h.frame,
      after,
      ap (λ (a : ℕ). some (a, after)) (h.place ∙ omega arith),
      h.inside,
      h.free,
      h.below,
      subst (λ b. Marked bm h.frame true b) same m,
    )

-- On a bitmap of bytes `pmm_alloc` fails only when every frame is in use. Otherwise it returns the
-- address of a frame that the bitmap covers and that was free, with every lower frame in use, and
-- afterwards that frame is in use and every other frame is as before.
pub pmm_alloc_lem :
    (bm : Bitmap)
    → IsBitmap bm
    → (pmm_alloc bm ≡ none) × ((g : ℕ) → used bm g ≡ true)
      ⊎ ((f : ℕ) × (after : Bitmap) × (pmm_alloc bm ≡ some (f * frame_size, after))
          × (f < frames bm)
          × (used bm f ≡ false)
          × ((g : ℕ) → g < f → used bm g ≡ true)
          × Marked bm f true after)
unfolding pmm_alloc
pmm_alloc_lem bm v = Allocates-Answers bm (alloc_from 0 bm) v (alloc_from-Allocates 0 bm v)

-- `pmm_free` of a frame's address, at any offset into the frame, clears that frame and no other.
pub pmm_free_lem :
    (bm : Bitmap) (f offset : ℕ)
    → IsBitmap bm
    → f < frames bm
    → offset < frame_size
    → (after : Bitmap) × (pmm_free bm (f * frame_size + offset) ≡ some after)
      × Marked bm f false after
unfolding pmm_free
pmm_free_lem bm f offset v h k =
    let e : (f * frame_size + offset) / frame_size ≡ f = omega arith in
    rw e (clear_frame_lem bm f v h)

-- Freeing what `pmm_alloc` returned gives back the set of used frames that it started from.
pub free-alloc :
    (bm after : Bitmap) (addr : ℕ)
    → IsBitmap bm
    → pmm_alloc bm ≡ some (addr, after)
    → (freed : Bitmap) × (pmm_free after addr ≡ some freed) × ((g : ℕ) → used freed g ≡ used bm g)
free-alloc bm after addr v e = elim (pmm_alloc_lem bm v) [
  | inl (refused, full) ↦ absurd (ground arith)
  | inr (f, next, e', inside, free, below, m) ↦
      let place : addr ≡ f * frame_size + 0 = ground arith in
      let same : next ≡ after = cc in
      let n : Marked bm f true after = subst (λ b. Marked bm f true b) same m in
      let (freed, q, r) = pmm_free_lem after f 0 n.bytes (omega (arith, n.size)) (omega arith) in
      (freed, ap (pmm_free after) place ∙ q, λ g. ground (arith, r.state g, n.state g))
]
