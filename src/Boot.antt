-- ===== src/Boot.antt =====
-- kernel/arch/x86_64/boot/limine.c: what the kernel takes over from the bootloader. The answers of the
-- bootloader are parameters. `none` is a panic, or a store behind the 256 regions. Log lines are left
-- out.
pub mod Memory
mod Tests
use project_luciano.Base.{
  ℕ, zero, suc, ◌+◌, ◌-◌, ◌*◌, ◌/◌, ◌%◌, ◌^◌, ◌≤◌, ◌<◌, min, max, bit_and, bit_or, bit_xor, ◌≡◌,
  refl, sym, ap, ap₂, ◌∙◌, fun_ext, subst, ◌≢◌, ◌↔◌, ◌⊎◌, inl, inr, Bool, true, false, not, ◌&&◌,
  ◌||◌, Option, none, some, List, [], ◌∷◌, ◌++◌, map, append-nil, append_assoc, arith, ltb, leb,
  ◌==◌, if◌then◌else◌, ltb→lt, lt→ltb, leb→le, ==_iff, ==_refl, ==_ne, Bool-cases, Option-cases,
  length, get_elem?, get_or, set, take, drop, replicate, length-append, length-set, get_or-set_self,
  get_or-set_ne, get_elem?-eq-get_or, length-take, length-drop, length-replicate, take_all,
  take-append, drop-append, All,
}
use project_luciano.Memory.Pmm.{
  Region, RegionType, mem_usable, mem_reserved, mem_kernel, mem_bad, mem_framebuffer, mem_acpi,
  mem_bootloader,
}
use project_luciano.Framebuffer.{Fb}

-- `struct limine_memmap_entry`
pub record MemmapEntry : Type 0 where
  pub base : ℕ
  pub length : ℕ
  pub kind : ℕ

-- The members of `struct limine_framebuffer` that are read, with their widths: 64 bits, and 16 for `bpp`.
pub record LimineFramebuffer : Type 0 where
  pub address : ℕ
  pub width : ℕ
  pub height : ℕ
  pub pitch : ℕ
  pub bpp : ℕ

-- What the four requests were answered with; `none` where the response is NULL. The address of the
-- kernel is the physical one and the virtual one.
pub record Responses : Type 0 where
  pub memmap : Option (List MemmapEntry)
  pub hhdm : Option ℕ
  pub kernel_address : Option (ℕ × ℕ)
  pub framebuffers : Option (List LimineFramebuffer)

-- `boot_info`; the lists are the first `region_count` and `framebuffer_count` entries.
pub record BootInfo : Type 0 where
  pub regions : List Region
  pub hhdm_offset : ℕ
  pub kernel_physical_addr : ℕ
  pub kernel_virtual_addr : ℕ
  pub framebuffers : List Fb

-- The kinds of entries of limine.h that the switch names.
abbrev pub limine_usable : ℕ
limine_usable = 0

abbrev pub limine_acpi_reclaimable : ℕ
limine_acpi_reclaimable = 2

abbrev pub limine_bad_memory : ℕ
limine_bad_memory = 4

abbrev pub limine_bootloader_reclaimable : ℕ
limine_bootloader_reclaimable = 5

abbrev pub limine_kernel_and_modules : ℕ
limine_kernel_and_modules = 6

abbrev pub limine_framebuffer : ℕ
limine_framebuffer = 7

unfoldable pub get_type : ℕ → RegionType
get_type limine_type =
    if limine_type == limine_usable
    then mem_usable
    else if limine_type == limine_kernel_and_modules
    then mem_kernel
    else if limine_type == limine_framebuffer
    then mem_framebuffer
    else if limine_type == limine_acpi_reclaimable
    then mem_acpi
    else if limine_type == limine_bootloader_reclaimable
    then mem_bootloader
    else if limine_type == limine_bad_memory
    then mem_bad
    else mem_reserved

-- The number of entries of `mem_regions`, and MAX_FRAMEBUFFERS of kernel/include/boot.h.
abbrev pub max_regions : ℕ
max_regions = 256

abbrev pub max_framebuffers : ℕ
max_framebuffers = 8

abbrev pub region_of : MemmapEntry → Region
region_of e = record { offset = e.base; size = e.length; kind = get_type e.kind }

abbrev pub prepend : {A : Type 0} → A → Option (List A) → Option (List A)
prepend a none = none
prepend a (some rest) = some (a ∷ rest)

-- The loop over the memory map, with the room that is left in the array.
unfoldable pub copy_regions : ℕ → List MemmapEntry → Option (List Region)
unfolding get_type
copy_regions room [] = some []
copy_regions zero (e ∷ es) = none
copy_regions (suc room) (e ∷ es) = prepend (region_of e) (copy_regions room es)

-- The 64-bit sizes are cut to `uint32_t`.
abbrev pub framebuffer_of : LimineFramebuffer → Fb
framebuffer_of fb = record {
  address = fb.address;
  width = fb.width % 2 ^ 32;
  height = fb.height % 2 ^ 32;
  pitch = fb.pitch % 2 ^ 32;
  bpp = fb.bpp;
}

-- `framebuffer_count` is a `uint8_t`: the number is cut before it is compared with the most.
unfoldable pub framebuffer_count : ℕ → ℕ
framebuffer_count n = min max_framebuffers (n % 2 ^ 8)

-- The loop over the screens.
unfoldable pub copy_framebuffers : ℕ → List LimineFramebuffer → List Fb
copy_framebuffers zero fbs = []
copy_framebuffers (suc left) [] = []
copy_framebuffers (suc left) (fb ∷ fbs) = framebuffer_of fb ∷ copy_framebuffers left fbs

-- No response and no screen are treated alike.
abbrev pub screens : Option (List LimineFramebuffer) → List Fb
screens none = []
screens (some fbs) =
    if ltb (length fbs) 1 then [] else copy_framebuffers (framebuffer_count (length fbs)) fbs

-- The requests in the order in which they are looked at.
abbrev pub with_address : List Region → ℕ → Option (ℕ × ℕ) → List Fb → Option BootInfo
with_address regions offset none fbs = none
with_address regions offset (some (physical, virtual)) fbs = some (record {
  regions = regions;
  hhdm_offset = offset;
  kernel_physical_addr = physical;
  kernel_virtual_addr = virtual;
  framebuffers = fbs;
})

abbrev pub with_offset :
    Option (List Region) → Option ℕ → Option (ℕ × ℕ) → List Fb → Option BootInfo
with_offset none hhdm address fbs = none
with_offset (some regions) none address fbs = none
with_offset (some regions) (some offset) address fbs = with_address regions offset address fbs

abbrev pub regions_of : Option (List MemmapEntry) → Option (List Region)
regions_of none = none
regions_of (some entries) = copy_regions max_regions entries

unfoldable pub get_boot_entry : Responses → Option BootInfo
unfolding copy_regions framebuffer_count copy_framebuffers
get_boot_entry r =
    with_offset (regions_of r.memmap) r.hhdm r.kernel_address (screens r.framebuffers)
