-- ===== src/Memory/Tests.antt =====
-- Page tables with one empty top table, and a heap over them.
use project_luciano.Base.{
  ℕ, ◌+◌, ◌*◌, ◌^◌, ◌≤◌, ◌<◌, ◌≡◌, refl, ap, false, none, some, List, [], ◌∷◌, arith, ◌==◌,
  if◌then◌else◌, ltb,
}
use project_luciano.Memory.Pmm.{bit_set}
use project_luciano.Memory.Pmm.Frames.{used}
use project_luciano.Memory.Pmm.Count.{spare}
use project_luciano.Memory.Vmm.{Vm, entry_present, vmm_map, vmm_get_paddr, vmm_get_current_space}
use project_luciano.Memory.Vmm.Tree.{base, entry, Labels, IsTree, IsTables, lookup}
use project_luciano.Memory.Vmm.Translate.{is_mapped, Translates, vmm_map_lem}
use project_luciano.Memory.Vmm.Space.{vmm_create}
use project_luciano.Memory.Vmm.Create.{Creates, vmm_create_lem}
use project_luciano.Memory.Kmalloc.{k_heap_start, num_frames, kmalloc}
use project_luciano.Memory.Kmalloc.Block.{at_page, Block}
use project_luciano.Memory.Kmalloc.Give.{kmalloc_lem}

-- Frame 0 is the top table, and frames 1 to 15 are free.
abbrev empty : Vm
empty = record {
  mem = λ a. 0;
  pmm = record { bitmap = 1 ∷ 0 ∷ []; total_frames = 16; physical = 0 };
  hhdm = 2 ^ 63;
  cr3 = 0;
  flushed = [];
}

abbrev roots : Labels
roots h = if h == 0 then some [] else none

root_only : (h : ℕ) (ps : List ℕ) → roots h ≡ some ps → h ≡ 0
root_only h ps e = ground (arith, e)

absent : entry_present 0 ≡ false
unfolding entry_present
absent = refl

empty-IsTree : IsTree empty roots
unfolding used bit_set
empty-IsTree = record {
  direct = record { bytes = ground arith; reach = omega arith; small = omega arith };
  inside = λ f ps e. omega (arith, root_only f ps e);
  in_use = λ f ps e. ap (used empty.pmm.bitmap) (root_only f ps e);
  child = λ f i ps e l k there. ground (arith, there, absent);
  clean = λ f i l u k. refl;
}

room : 3 ≤ spare (1 ∷ 0 ∷ []) 16
unfolding spare used bit_set
room = omega arith

-- Frame 3 is mapped at 0x7000, readable, writable and present.
vmm_map_lem_example :
    (m' : Vm) × (vmm_map (base empty 0) 0x7000 (3 * 4096) 3 empty ≡ some (tt, m'))
    × Translates empty roots 0 0x7000
        (if is_mapped empty 0 0x7000 then vmm_get_paddr (base empty 0) 0x7000 empty else 3 * 4096)
        m'
vmm_map_lem_example =
    vmm_map_lem empty roots 0 0x7000 (3 * 4096) 3 empty-IsTree refl (omega arith) (omega arith) refl
      (omega arith) room

current : vmm_get_current_space empty ≡ base empty 0
unfolding vmm_get_current_space
current = refl

unmapped : (va : ℕ) → is_mapped empty 0 va ≡ false
unfolding lookup entry_present
unmapped va = refl

much_room : 8 ≤ spare (1 ∷ 0 ∷ []) 16
unfolding spare used bit_set
much_room = omega arith

-- 5000 bytes take two pages.
kmalloc_lem_example :
    (m' : Vm) × (kmalloc 5000 (record { vm = empty; bump_pointer = k_heap_start })
      ≡ some
          (k_heap_start, record { vm = m'; bump_pointer = k_heap_start + 4096 * num_frames 5000 }))
    × (5000 ≤ 4096 * num_frames 5000)
    × Block empty roots 0 k_heap_start (num_frames 5000) m'
kmalloc_lem_example =
    kmalloc_lem 5000 empty roots 0 k_heap_start empty-IsTree refl current (omega arith)
      (omega arith) (omega arith) (omega arith) (λ i l. unmapped (at_page k_heap_start i)) much_room

-- The same with free frames whose former contents count as present entries.
abbrev dirty : Vm
dirty = record empty { mem = λ a. if ltb a (2 ^ 63 + 4096) then 0 else 7 }

dirty_current : vmm_get_current_space dirty ≡ base empty 0
unfolding vmm_get_current_space
dirty_current = refl

one_left : 1 ≤ spare (1 ∷ 0 ∷ []) 16
unfolding spare used bit_set
one_left = omega arith

first_empty : (i : ℕ) → i < 512 → entry_present (entry dirty 0 i) ≡ false
first_empty i k = ground (arith, absent)

dirty-IsTables : IsTables dirty roots
unfolding used bit_set
dirty-IsTables = record {
  direct = record { bytes = ground arith; reach = omega arith; small = omega arith };
  inside = λ f ps e. omega (arith, root_only f ps e);
  in_use = λ f ps e. ap (used dirty.pmm.bitmap) (root_only f ps e);
  child = λ f i ps e l k there.
      let top = root_only f ps e in
      absurd (
        ground
          (arith, there, first_empty i k, ap (λ (h : ℕ). entry_present (entry dirty h i)) top));
}

vmm_create_lem_example :
    (f : ℕ) × (m' : Vm) × (vmm_create dirty ≡ some (base dirty f, m')) × Creates dirty roots 0 f m'
vmm_create_lem_example = vmm_create_lem dirty roots 0 dirty-IsTables refl dirty_current one_left
