-- ===== src/Memory/Pmm/Init.antt =====
-- `pmm_init`: which frames are free when it returns.
pub mod Regions
use project_luciano.Base.{
  ℕ, zero, suc, ◌+◌, ◌-◌, ◌*◌, ◌/◌, ◌%◌, ◌^◌, ◌≤◌, ◌<◌, min, max, bit_and, bit_or, bit_xor, ◌≡◌,
  refl, sym, ap, ap₂, ◌∙◌, fun_ext, subst, ◌≢◌, ◌↔◌, ◌⊎◌, inl, inr, Bool, true, false, not, ◌&&◌,
  ◌||◌, Option, none, some, List, [], ◌∷◌, ◌++◌, map, append-nil, append_assoc, arith, ltb, leb,
  ◌==◌, if◌then◌else◌, ltb→lt, lt→ltb, leb→le, ==_iff, ==_refl, ==_ne, Bool-cases, Option-cases,
  length, get_elem?, get_or, set, take, drop, replicate, length-append, length-set, get_or-set_self,
  get_or-set_ne, get_elem?-eq-get_or, length-take, length-drop, length-replicate, take_all,
  take-append, drop-append, All,
}
use project_luciano.Base.Bits.{bit_and_high}
use project_luciano.Memory.Pmm.{
  Bitmap, frame_size, word, Region, is_usable, counts, align_frame, align_frame_down, total_from,
  get_total_memory_size, clear_frame, set_frame, over_frames, region_start, region_count,
  clear_regions, bitmap_place, Pmm, frames_of, pmm_init, fill_bitmap, place_bitmap, bitmap_size,
}
use project_luciano.Memory.Pmm.Byte.{bit_set_full}
use project_luciano.Memory.Pmm.Frames.{
  IsBitmap, used, frames, Marked, set_frame_lem, clear_frame_lem,
}
pub use project_luciano.Memory.Pmm.Init.Regions.{IsSane, in_range, covered}
use project_luciano.Memory.Pmm.Init.Regions.{
  align_frame-aligned, align_frame_down-aligned, region_start_lem, region_count_lem, Ran,
  over_frames-Ran, Inside, Inside-size, Cleared, clear_regions-Cleared,
}

counts_usable : (r : Region) → is_usable r.kind ≡ true → counts r.kind ≡ true
counts_usable r u = ground arith

-- The next value of `top`.
abbrev raised : ℕ → Region → ℕ
raised top r =
    if counts r.kind && ltb top ((r.offset + r.size) % word)
    then (r.offset + r.size) % word
    else top

total_from-cons :
    (top : ℕ) (r : Region) (rs : List Region)
    → total_from top (r ∷ rs) ≡ total_from (raised top r) rs
unfolding total_from
total_from-cons top r rs = refl

total_from-grows : (rs : List Region) (top : ℕ) → top ≤ total_from top rs
unfolding total_from
total_from-grows [] top = omega arith
total_from-grows (r ∷ rs) top =
    let h = total_from-grows rs (raised top r) in
    let k : top ≤ raised top r = ground arith in omega arith

-- No usable region ends above the total.
total_from-covers :
    (rs : List Region) (top limit : ℕ)
    → All IsSane rs
    → total_from top rs ≤ limit
    → All (λ r. is_usable r.kind ≡ true → r.offset + r.size ≤ limit) rs
total_from-covers [] top limit s h = tt
total_from-covers (r ∷ rs) top limit s h = (
  λ u.
      let grows = total_from-grows rs (raised top r) in
      let e : (r.offset + r.size) % word ≡ r.offset + r.size = omega (arith, s.0.no_wrap) in
      let k : r.offset + r.size ≤ raised top r = ground (arith, counts_usable r u) in
      omega (arith, total_from-cons top r rs),
  total_from-covers rs (raised top r) limit s.1 (omega (arith, total_from-cons top r rs)),
)

total_from-small :
    (rs : List Region) (top : ℕ)
    → All IsSane rs
    → top + frame_size ≤ word
    → total_from top rs + frame_size ≤ word
unfolding total_from
total_from-small [] top s h = h
total_from-small (r ∷ rs) top s h =
    let e : (r.offset + r.size) % word ≡ r.offset + r.size = omega (arith, s.0.no_wrap) in
    total_from-small rs (raised top r) s.1 (ground (arith, s.0.no_wrap))

Inside-covers :
    (rs : List Region) (bm : Bitmap) (limit : ℕ)
    → All IsSane rs
    → limit ≤ frames bm * frame_size
    → All (λ r. is_usable r.kind ≡ true → r.offset + r.size ≤ limit) rs
    → Inside bm rs
Inside-covers [] bm limit s h k = tt
Inside-covers (r ∷ rs) bm limit s h k = (
  λ u. omega (arith, k.0 u, s.0.base_aligned u, s.0.size_aligned u),
  Inside-covers rs bm limit s.1 h k.1,
)

-- The bitmap's own frames lie in a usable region.
place-Inside :
    (rs : List Region) (bm : Bitmap) (size place : ℕ)
    → All IsSane rs
    → Inside bm rs
    → size < word - frame_size
    → bitmap_place rs size ≡ some place
    → place / frame_size + frames_of size ≤ frames bm
unfolding bitmap_place frames_of
place-Inside [] bm size place s h k e = absurd (ground arith)
place-Inside (r ∷ rs) bm size place s h k e =
    elim (Bool-cases (is_usable r.kind && ltb size r.size)) [
      | inr other ↦ place-Inside rs bm size place s.1 h.1 k (rw other at e)
      | inl here ↦
          let u : is_usable r.kind ≡ true = ground arith in
          let big : size < r.size = ground arith in
          let at : align_frame r.offset ≡ place = ground arith in
          let al = align_frame-aligned r.offset (s.0.base_aligned u) (omega (arith, s.0.no_wrap)) in
          omega (arith, h.0 u, s.0.size_aligned u, s.0.base_aligned u)
    ]

full-IsBitmap : (n : ℕ) → IsBitmap (replicate n 255)
full-IsBitmap zero = tt
full-IsBitmap (suc n) = (omega arith, full-IsBitmap n)

get_or-full : (n i : ℕ) → get_or {A = ℕ} (replicate n 255) i 255 ≡ 255
get_or-full zero i = refl
get_or-full (suc n) zero = refl
get_or-full (suc n) (suc i) = get_or-full n i

used-full : (n g : ℕ) → used (replicate n 255) g ≡ true
unfolding used
used-full n g = rw (get_or-full n (g / 8)) (bit_set_full (g % 8) (omega arith))

record Filled (rs : List Region) (place size : ℕ) (bm : Bitmap) : Type 0 where
  length : project_luciano.Base.length bm ≡ size
  bytes : IsBitmap bm
  state :
      (g : ℕ) → used bm g ≡ (in_range (place / frame_size) (frames_of size) g || not (covered rs g))

fill_bitmap-Filled :
    (rs : List Region) (place size : ℕ)
    → All IsSane rs
    → Inside (replicate size 255) rs
    → place / frame_size + frames_of size ≤ 8 * size
    → (bm : Bitmap) × (fill_bitmap rs place size ≡ some bm) × Filled rs place size bm
unfolding fill_bitmap
fill_bitmap-Filled rs place size s inside room =
    let (cleared, ec, c) =
      clear_regions-Cleared rs (replicate size 255) (full-IsBitmap size) s inside in
    let (b, eb, r) =
      over_frames-Ran set_frame true (λ b f w k. set_frame_lem b f w k) (frames_of size)
        (place / frame_size) cleared c.bytes
        (omega (arith, c.size, length-replicate {0} {A = ℕ} size 255)) in
    (
      b,
      rw (ec, fill_bitmap) eb,
      record {
        length = r.size ∙ c.size ∙ length-replicate size 255;
        bytes = r.bytes;
        state = λ g. ground (arith, r.state g, c.state g, used-full size g);
      },
    )

-- The bitmap covers all of the memory below a total that does not reach the top.
size_covers :
    (top : ℕ) → top + frame_size ≤ word → top ≤ 8 * bitmap_size (frames_of top) * frame_size
unfolding bitmap_size frames_of
size_covers top h = omega arith

size_small : (top : ℕ) → top + frame_size ≤ word → bitmap_size (frames_of top) < word - frame_size
unfolding bitmap_size frames_of
size_small top h = omega arith

Inside-full :
    (rs : List Region) (top size : ℕ)
    → All IsSane rs
    → total_from 0 rs ≡ top
    → top ≤ 8 * size * frame_size
    → Inside (replicate size 255) rs
Inside-full rs top size s e h =
    Inside-covers rs (replicate size 255) top s
      (omega (arith, length-replicate {0} {A = ℕ} size 255))
      (total_from-covers rs 0 top s (omega arith))

-- Where every region lies below the top of memory, every usable region is made of whole frames, and
-- one of them is larger than the bitmap, `pmm_init` writes nothing outside the bitmap, and when it
-- returns a frame is free exactly if it lies in a usable region and outside the frames of the bitmap
-- itself.
pub pmm_init_lem :
    (rs : List Region) (place : ℕ)
    → All IsSane rs
    → bitmap_place rs (bitmap_size (frames_of (get_total_memory_size rs))) ≡ some place
    → (p : Pmm) × (pmm_init rs ≡ some p)
      × (p.physical ≡ place)
      × IsBitmap p.bitmap
      × ((g : ℕ)
          → used p.bitmap g
            ≡ (in_range (place / frame_size) (frames_of (length p.bitmap)) g || not (covered rs g)))
unfolding pmm_init place_bitmap get_total_memory_size
pmm_init_lem rs place s e =
    let top = total_from 0 rs in
    let size = bitmap_size (frames_of top) in
    let small = total_from-small rs 0 s (omega arith) in
    let inside = Inside-full rs top size s refl (size_covers top small) in
    let room = place-Inside rs (replicate size 255) size place s inside (size_small top small) e in
    let (bm, run, f) =
      fill_bitmap-Filled rs place size s inside
        (omega (arith, length-replicate {0} {A = ℕ} size 255)) in
    (
      record { total_frames = frames_of top; bitmap = bm; physical = place },
      rw (e, run),
      refl,
      f.bytes,
      λ g.
          f.state g
          ∙ ap (λ (n : ℕ). in_range (place / frame_size) (frames_of n) g || not (covered rs g))
              (sym f.length),
    )
