-- ===== src/Boot/Tests.antt =====
-- A bootloader that reports a reserved page and 15 usable ones.
use project_luciano.Base.{ℕ, ◌*◌, ◌≡◌, refl, some, List, [], ◌∷◌, arith, All}
use project_luciano.Memory.Pmm.{
  mem_usable, mem_reserved, frame_size, Pmm, Bitmap, pmm_init, pmm_alloc, bitmap_place, bitmap_size,
  frames_of, get_total_memory_size,
}
use project_luciano.Memory.Pmm.Init.{IsSane}
use project_luciano.Boot.{
  MemmapEntry, Responses, BootInfo, get_type, copy_regions, framebuffer_count, copy_framebuffers,
  get_boot_entry,
}
use project_luciano.Boot.Memory.{Reported, pmm_alloc-get_boot_entry}

abbrev responses : Responses
responses = record {
  memmap = some (
      record { base = 0; length = 4096; kind = 1 }
      ∷ record { base = 4096; length = 61440; kind = 0 }
      ∷ []);
  hhdm = some 0xffff800000000000;
  kernel_address = some (0x200000, 0xffffffff80000000);
  framebuffers =
      some
        (record { address = 0xfd000000; width = 1024; height = 768; pitch = 4096; bpp = 32 } ∷ []);
}

abbrev boot : BootInfo
boot = record {
  regions =
      record { offset = 0; size = 4096; kind = mem_reserved }
      ∷ record { offset = 4096; size = 61440; kind = mem_usable }
      ∷ [];
  hhdm_offset = 0xffff800000000000;
  kernel_physical_addr = 0x200000;
  kernel_virtual_addr = 0xffffffff80000000;
  framebuffers =
      record { address = 0xfd000000; width = 1024; height = 768; pitch = 4096; bpp = 32 } ∷ [];
}

boot_lem : get_boot_entry responses ≡ some boot
unfolding get_boot_entry get_type copy_regions framebuffer_count copy_framebuffers
boot_lem = refl

boot-IsSane : All IsSane boot.regions
boot-IsSane = (
  record { base_aligned = λ e. refl; size_aligned = λ e. refl; no_wrap = omega arith },
  (record { base_aligned = λ e. refl; size_aligned = λ e. refl; no_wrap = omega arith }, tt),
)

boot_place :
    bitmap_place boot.regions (bitmap_size (frames_of (get_total_memory_size boot.regions)))
    ≡ some 4096
unfolding bitmap_place bitmap_size frames_of get_total_memory_size
boot_place = refl

pmm_alloc-get_boot_entry_example :
    (p : Pmm) × (pmm_init boot.regions ≡ some p)
    × ((a : ℕ) (after : Bitmap)
        → pmm_alloc p.bitmap ≡ some (a, after)
        → (entries : List MemmapEntry) × (f : ℕ) × (responses.memmap ≡ some entries)
          × (a ≡ f * frame_size)
          × Reported entries f)
pmm_alloc-get_boot_entry_example =
    pmm_alloc-get_boot_entry responses boot 4096 boot_lem boot-IsSane boot_place
