-- ===== src/Memory/Kmalloc.antt =====
-- kernel/memory_manager/kmalloc.c: a bump pointer into an area whose pages are mapped as they are
-- given out. `kfree` does nothing.
pub mod Block
pub mod Give
use project_luciano.Base.{
  ℕ, zero, suc, ◌+◌, ◌-◌, ◌*◌, ◌/◌, ◌%◌, ◌^◌, ◌≤◌, ◌<◌, min, max, bit_and, bit_or, bit_xor, ◌≡◌,
  refl, sym, ap, ap₂, ◌∙◌, fun_ext, subst, ◌≢◌, ◌↔◌, ◌⊎◌, inl, inr, Bool, true, false, not, ◌&&◌,
  ◌||◌, Option, none, some, List, [], ◌∷◌, ◌++◌, map, append-nil, append_assoc, arith, ltb, leb,
  ◌==◌, if◌then◌else◌, ltb→lt, lt→ltb, leb→le, ==_iff, ==_refl, ==_ne, Bool-cases, Option-cases,
  length, get_elem?, get_or, set, take, drop, replicate, length-append, length-set, get_or-set_self,
  get_or-set_ne, get_elem?-eq-get_or, length-take, length-drop, length-replicate, take_all,
  take-append, drop-append, All,
}
use project_luciano.Memory.Pmm.{frame_size, word}
use project_luciano.Memory.Vmm.{Vm, alloc_frame, vmm_map, vmm_get_current_space}

-- `bump_pointer` with the memory; it starts at K_HEAP_START.
pub record Heap : Type 0 where
  pub vm : Vm
  pub bump_pointer : ℕ

abbrev pub k_heap_start : ℕ
k_heap_start = 0xFFFFDEADBEEF0000

-- One round of the loop: a frame for the next page.
unfoldable pub add_page : ℕ → Heap → Option Heap
add_page space h = elim (alloc_frame h.vm) [
  | none ↦ none
  | some (pa, m) ↦ elim (vmm_map space h.bump_pointer pa 3 m) [
    | none ↦ none
    | some (u, m') ↦ some (record { vm = m'; bump_pointer = (h.bump_pointer + frame_size) % word })
  ]
]

abbrev pub after_page : Option Heap → (Heap → Option Heap) → Option Heap
after_page none k = none
after_page (some h) k = k h

unfoldable pub add_pages : ℕ → ℕ → Heap → Option Heap
add_pages zero space h = some h
add_pages (suc n) space h = after_page (add_page space h) (add_pages n space)

-- `(size + PMM_FRAME_SIZE - 1) / PMM_FRAME_SIZE`
abbrev pub num_frames : ℕ → ℕ
num_frames size = (size + (frame_size - 1)) % word / frame_size

-- The address that is returned, which is NULL for a size of 0.
unfoldable pub kmalloc : ℕ → Heap → Option (ℕ × Heap)
kmalloc size h =
    if size == 0
    then some (0, h)
    else elim (add_pages (num_frames size) (vmm_get_current_space h.vm) h) [
      | none ↦ none
      | some after ↦ some (h.bump_pointer, after)
    ]
