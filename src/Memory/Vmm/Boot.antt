-- ===== src/Memory/Vmm/Boot.antt =====
-- `vmm_init` of vmm.c: the first address space. The end of the kernel's image is the linker's.
use project_luciano.Base.{
  ℕ, ◌+◌, ◌-◌, ◌*◌, ◌/◌, ◌%◌, Bool, true, false, some, List, [], ◌∷◌, if◌then◌else◌,
}
use project_luciano.Memory.Pmm.{
  frame_size, word, Region, RegionType, mem_usable, mem_reserved, mem_kernel, mem_bad,
  mem_framebuffer, mem_acpi, mem_bootloader, pmm_get_total_memory,
}
use project_luciano.Memory.Vmm.{Cmd, pure, ◌>>=◌, ◌>>◌, alloc_frame, vmm_map, vmm_switch}
use project_luciano.Memory.Vmm.Space.{zero_page, for_range}

-- The rounds of `for (x = 0; x < size; x += PMM_FRAME_SIZE)`.
abbrev pub pages : ℕ → ℕ
pages size = (size + (frame_size - 1)) / frame_size

-- `vmm_map(pml4, va + offset, pa + offset, 0x3)` for each page of a range.
unfoldable pub map_range : ℕ → ℕ → ℕ → ℕ → Cmd (Unit {0})
unfolding for_range
map_range pml4 va pa size =
    for_range (pages size) 0
      (λ i. vmm_map pml4 ((va + frame_size * i) % word) ((pa + frame_size * i) % word) 3)

-- The kinds of region that the last loop maps.
abbrev pub is_device : RegionType → Bool
is_device mem_usable = false
is_device mem_reserved = false
is_device mem_kernel = false
is_device mem_bad = false
is_device mem_framebuffer = true
is_device mem_acpi = true
is_device mem_bootloader = true

unfoldable pub map_regions : ℕ → ℕ → List Region → Cmd (Unit {0})
unfolding map_range
map_regions pml4 hhdm [] = pure tt
map_regions pml4 hhdm (r ∷ rs) = do
  if is_device r.kind
      then map_range pml4 ((r.offset + hhdm) % word) r.offset
          ((r.offset + r.size) % word - r.offset)
      else pure tt
  map_regions pml4 hhdm rs

unfoldable pub vmm_init : (bss_end : ℕ) → ℕ → ℕ → ℕ → List Region → Cmd (Unit {0})
unfolding alloc_frame zero_page map_range map_regions vmm_switch
vmm_init bss_end kernel_physical_addr kernel_virtual_addr hhdm_offset regions s =
    (do
      f ← alloc_frame
      let pml4 = (f + hhdm_offset) % word
      λ m. some (tt, zero_page pml4 m)
      λ m. map_range pml4 (hhdm_offset % word) 0 (pmm_get_total_memory m.pmm) m
      map_range pml4 kernel_virtual_addr kernel_physical_addr
          ((bss_end + word - kernel_virtual_addr) % word)
      map_regions pml4 hhdm_offset regions
      λ m. some (tt, vmm_switch pml4 m))
      (record s { hhdm = hhdm_offset })
