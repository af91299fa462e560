-- ===== src/Memory/Pmm/Tests.antt =====
-- The frame allocator on small bitmaps.
use project_luciano.Base.{
  ℕ, ◌*◌, ◌/◌, ◌<◌, ◌≡◌, refl, ◌⊎◌, true, false, not, ◌||◌, none, some, List, [], ◌∷◌, arith,
  length, All,
}
use project_luciano.Memory.Pmm.{
  Bitmap, frame_size, alloc_from, first_clear, set_bit, pmm_alloc, pmm_free, Region, mem_usable,
  mem_reserved, bitmap_place, bitmap_size, Pmm, frames_of, get_total_memory_size, pmm_init,
}
use project_luciano.Memory.Pmm.Frames.{IsBitmap, used, frames, Marked}
use project_luciano.Memory.Pmm.Alloc.{pmm_alloc_lem, free-alloc}
use project_luciano.Memory.Pmm.Init.{IsSane, in_range, covered, pmm_init_lem}

-- The first byte is full, and frames 8 and 9 are in use.
abbrev busy : Bitmap
busy = 255 ∷ 3 ∷ 0 ∷ []

busy-IsBitmap : IsBitmap busy
busy-IsBitmap = ground arith

pmm_alloc_lem_example :
    (pmm_alloc busy ≡ none) × ((g : ℕ) → used busy g ≡ true)
    ⊎ ((f : ℕ) × (after : Bitmap) × (pmm_alloc busy ≡ some (f * frame_size, after))
        × (f < frames busy)
        × (used busy f ≡ false)
        × ((g : ℕ) → g < f → used busy g ≡ true)
        × Marked busy f true after)
pmm_alloc_lem_example = pmm_alloc_lem busy busy-IsBitmap

busy_allocated : pmm_alloc busy ≡ some (10 * frame_size, 255 ∷ 7 ∷ 0 ∷ [])
unfolding pmm_alloc alloc_from first_clear set_bit
busy_allocated = refl

free-alloc_example :
    (freed : Bitmap) × (pmm_free (255 ∷ 7 ∷ 0 ∷ []) (10 * frame_size) ≡ some freed)
    × ((g : ℕ) → used freed g ≡ used busy g)
free-alloc_example =
    free-alloc busy (255 ∷ 7 ∷ 0 ∷ []) (10 * frame_size) busy-IsBitmap busy_allocated

-- A reserved page, then 15 usable ones.
abbrev regions : List Region
regions =
    record { offset = 0; size = 4096; kind = mem_reserved }
    ∷ record { offset = 4096; size = 61440; kind = mem_usable }
    ∷ []

regions-IsSane : All IsSane regions
regions-IsSane = (
  record { base_aligned = λ e. refl; size_aligned = λ e. refl; no_wrap = omega arith },
  (record { base_aligned = λ e. refl; size_aligned = λ e. refl; no_wrap = omega arith }, tt),
)

regions_place :
    bitmap_place regions (bitmap_size (frames_of (get_total_memory_size regions))) ≡ some 4096
unfolding bitmap_place bitmap_size frames_of get_total_memory_size
regions_place = refl

pmm_init_lem_example :
    (p : Pmm) × (pmm_init regions ≡ some p)
    × (p.physical ≡ 4096)
    × IsBitmap p.bitmap
    × ((g : ℕ)
        → used p.bitmap g ≡ (
            in_range (4096 / frame_size) (frames_of (length p.bitmap)) g
            || not (covered regions g)))
pmm_init_lem_example = pmm_init_lem regions 4096 regions-IsSane regions_place
