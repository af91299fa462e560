-- ===== src/Boot/Memory.antt =====
-- From the bootloader's memory map to the frames that kernel/memory_manager/pmm.c hands out.
use project_luciano.Base.{
  ℕ, zero, suc, ◌+◌, ◌*◌, ◌/◌, ◌≤◌, ◌≡◌, refl, sym, ap, ◌∙◌, subst, ◌⊎◌, inl, inr, true, ◌&&◌,
  Option, none, some, List, [], ◌∷◌, arith, ◌==◌, ==_iff, Bool-cases, All,
}
use project_luciano.Memory.Pmm.{
  Region, frame_size, is_usable, Pmm, Bitmap, pmm_init, pmm_alloc, bitmap_place, bitmap_size,
  frames_of, get_total_memory_size,
}
use project_luciano.Memory.Pmm.Alloc.{pmm_alloc_lem}
use project_luciano.Memory.Pmm.Init.{IsSane, in_range, covered, pmm_init_lem}
use project_luciano.Boot.{
  max_regions, with_offset, screens, prepend, MemmapEntry, Responses, BootInfo, get_type, region_of,
  copy_regions, limine_usable, get_boot_entry, regions_of,
}

-- A frame lies whole in an entry of the memory map that is usable.
abbrev pub LiesIn : MemmapEntry → ℕ → Type 0
LiesIn e f =
    (e.kind ≡ limine_usable)
    × (e.base ≤ f * frame_size)
    × (f * frame_size + frame_size ≤ e.base + e.length)

abbrev pub Reported : List MemmapEntry → ℕ → Type 0
Reported [] f = ⊥
Reported (e ∷ es) f = LiesIn e f ⊎ Reported es f

get_type-usable : (k : ℕ) → is_usable (get_type k) ≡ true → k ≡ limine_usable
unfolding get_type
get_type-usable k q = elim (Bool-cases (k == limine_usable)) [
  | inl same ↦ (==_iff k limine_usable).0 same
  | inr other ↦ absurd (ground (arith, other, q))
]

region-LiesIn :
    (e : MemmapEntry) (f : ℕ)
    → IsSane (region_of e)
    → (is_usable (get_type e.kind) && in_range (e.base / frame_size) (e.length / frame_size) f)
      ≡ true
    → LiesIn e f
region-LiesIn e f s q =
    let usable : is_usable (get_type e.kind) ≡ true = ground (arith, q) in
    let range : in_range (e.base / frame_size) (e.length / frame_size) f ≡ true =
      ground (arith, q) in
    (
      get_type-usable e.kind usable,
      ground (arith, range, s.base_aligned usable),
      ground (arith, range, s.base_aligned usable, s.size_aligned usable),
    )

covered-Reported :
    (room : ℕ) (es : List MemmapEntry) (rs : List Region) (f : ℕ)
    → copy_regions room es ≡ some rs
    → All IsSane rs
    → covered rs f ≡ true
    → Reported es f
unfolding copy_regions
covered-Reported room [] [] f e s q = absurd (ground (arith, q))
covered-Reported room [] (r ∷ rs) f e s q = absurd (ground (arith, e))
covered-Reported zero (x ∷ es) rs f e s q = absurd (ground (arith, e))
covered-Reported (suc room) (x ∷ es) rs f e s q =
    copied (λ rest run sane held. covered-Reported room es rest f run sane held)
      (copy_regions room es) rs refl e s q
  where
    copied :
        ((rest : List Region)
          → copy_regions room es ≡ some rest
          → All IsSane rest
          → covered rest f ≡ true
          → Reported es f)
        → (o : Option (List Region)) (rs : List Region) → copy_regions room es ≡ o
        → prepend (region_of x) o ≡ some rs
        → All IsSane rs
        → covered rs f ≡ true
        → Reported (x ∷ es) f
    copied later none rs run e s q = absurd (ground (arith, e))
    copied later (some rest) rs run e s q =
        let same : region_of x ∷ rest ≡ rs = ground (arith, e) in
        let sane = subst (All IsSane) (sym same) s in
        let held : covered (region_of x ∷ rest) f ≡ true = ap (λ t. covered t f) same ∙ q in
        elim (Bool-cases (
          is_usable (get_type x.kind)
          && in_range (x.base / frame_size) (x.length / frame_size) f)) [
            | inl here ↦ inl (region-LiesIn x f sane.0 here)
            | inr other ↦ inr (later rest run sane.1 (ground (arith, held, other)))
          ]

-- What the answers were, where the boot information was collected.
get_boot_entry-regions :
    (r : Responses) (info : BootInfo)
    → get_boot_entry r ≡ some info
    → (entries : List MemmapEntry) × (r.memmap ≡ some entries)
      × (copy_regions max_regions entries ≡ some info.regions)
unfolding get_boot_entry
get_boot_entry-regions r info e =
    from r.memmap refl (regions_of r.memmap) refl r.hhdm r.kernel_address e
  where
    from :
        (m : Option (List MemmapEntry))
        → r.memmap ≡ m
        → (o : Option (List Region)) → regions_of m ≡ o
        → (h : Option ℕ) (k : Option (ℕ × ℕ))
        → with_offset o h k (screens r.framebuffers) ≡ some info
        → (entries : List MemmapEntry) × (r.memmap ≡ some entries)
          × (copy_regions max_regions entries ≡ some info.regions)
    from m q none run h k e = absurd (ground (arith, e))
    from none q (some rs) run h k e = absurd (ground (arith, run))
    from (some es) q (some rs) run none k e = absurd (ground (arith, e))
    from (some es) q (some rs) run (some off) none e = absurd (ground (arith, e))
    from (some es) q (some rs) run (some off) (some (a, b)) e = (es, q, run ∙ ground (arith, e))

-- From the bootloader's memory map to an allocation: where `get_boot_entry` returns, every region it
-- took over lies below the top of memory, the usable ones are made of whole frames, and one of them
-- has room for the bitmap, `pmm_init` on its regions returns, and whatever `pmm_alloc` then hands out
-- is a frame that lies whole in an entry that the bootloader reported as usable.
pub pmm_alloc-get_boot_entry :
    (r : Responses) (info : BootInfo) (place : ℕ)
    → get_boot_entry r ≡ some info
    → All IsSane info.regions
    → bitmap_place info.regions (bitmap_size (frames_of (get_total_memory_size info.regions)))
      ≡ some place
    → (p : Pmm) × (pmm_init info.regions ≡ some p)
      × ((a : ℕ) (after : Bitmap)
          → pmm_alloc p.bitmap ≡ some (a, after)
          → (entries : List MemmapEntry) × (f : ℕ) × (r.memmap ≡ some entries)
            × (a ≡ f * frame_size)
            × Reported entries f)
pmm_alloc-get_boot_entry r info place e s at =
    let (p, run, physical, valid, state) = pmm_init_lem info.regions place s at in
    let (entries, answered, copied) = get_boot_entry-regions r info e in
    (
      p,
      run,
      λ a after given. elim (pmm_alloc_lem p.bitmap valid) [
        | inl (nothing, _) ↦ absurd (ground (arith, nothing, given))
        | inr (f, after2, alloc, inside, free, _, _) ↦ (
          entries,
          f,
          answered,
          ground (arith, alloc, given),
          covered-Reported max_regions entries info.regions f copied s
              (ground (arith, state f, free)),
        )
      ],
    )
