-- ===== src/Memory/Vmm/Space.antt =====
-- Making and giving back address spaces: `vmm_create` and `vmm_destroy` of vmm.c.
use project_luciano.Base.{ℕ, zero, suc, ◌+◌, ◌-◌, ◌%◌, ◌&&◌, some, ltb, leb, if◌then◌else◌}
use project_luciano.Memory.Pmm.{frame_size, word}
use project_luciano.Memory.Vmm.{
  Vm, Cmd, pure, ◌>>=◌, ◌>>◌, entry_present, address_of, load, next_table, alloc_frame, free_frame,
  vmm_get_current_space,
}

-- The offset of an address behind the start of a table.
abbrev pub behind : ℕ → ℕ → ℕ
behind table a = (a + word - table) % word

-- `memset(table, 0, PMM_FRAME_SIZE)`
unfoldable pub zero_page : ℕ → Vm → Vm
zero_page table m = record m { mem = λ a. if ltb (behind table a) frame_size then 0 else m.mem a }

-- `memcpy(&table[256], &current[256], 256 * 8)`
unfoldable pub copy_upper : ℕ → ℕ → Vm → Vm
copy_upper table current m = record m {
  mem = λ a.
      if leb 2048 (behind table a) && ltb (behind table a) frame_size
      then m.mem ((current + behind table a) % word)
      else m.mem a;
}

unfoldable pub vmm_create : Cmd ℕ
unfolding alloc_frame zero_page copy_upper vmm_get_current_space
vmm_create = do
  f ← alloc_frame
  λ m.
      let pml4 = (f + m.hhdm) % word in
      some (pml4, copy_upper pml4 (vmm_get_current_space m) (zero_page pml4 m))

-- `for (i = first; i < first + rounds; i++) body(i)`
unfoldable pub for_range : ℕ → ℕ → (ℕ → Cmd (Unit {0})) → Cmd (Unit {0})
for_range zero i body = pure tt
for_range (suc rounds) i body = do body i; for_range rounds (i + 1) body

-- One entry of a table: what it points to is visited, then its frame is freed.
unfoldable pub visit : ℕ → (ℕ → Cmd (Unit {0})) → ℕ → Cmd (Unit {0})
unfolding load next_table free_frame
visit table inner i m =
    if entry_present (load table i m)
    then (do inner (next_table table i m); λ u. free_frame (address_of (load table i u)) u) m
    else some (tt, m)

unfoldable pub destroy_level : ℕ → ℕ → Cmd (Unit {0})
unfolding for_range visit
destroy_level zero page = pure tt
destroy_level (suc k) table = for_range 512 0 (visit table (destroy_level k))

-- The user half of the top table, and below it three levels: the last one's entries are pages.
unfoldable pub vmm_destroy : ℕ → Cmd (Unit {0})
unfolding destroy_level
vmm_destroy address_space = do
  for_range 256 0 (visit address_space (destroy_level 3))
  λ m. free_frame ((address_space + word - m.hhdm) % word) m
