-- ===== src/Disk/Volume.antt =====
-- The volume calls of kernel/diskmanager/diskmanager.c: a request is shifted by the volume's start
-- and cut at its end, then handed to the driver of the parent disk.
pub mod Window
use project_luciano.Base.{
  ℕ, zero, suc, ◌+◌, ◌-◌, ◌*◌, ◌/◌, ◌%◌, ◌^◌, ◌≤◌, ◌<◌, min, max, bit_and, bit_or, bit_xor, ◌≡◌,
  refl, sym, ap, ap₂, ◌∙◌, fun_ext, subst, ◌≢◌, ◌↔◌, ◌⊎◌, inl, inr, Bool, true, false, not, ◌&&◌,
  ◌||◌, Option, none, some, List, [], ◌∷◌, ◌++◌, map, append-nil, append_assoc, arith, ltb, leb,
  ◌==◌, if◌then◌else◌, ltb→lt, lt→ltb, leb→le, ==_iff, ==_refl, ==_ne, Bool-cases, Option-cases,
  length, get_elem?, get_or, set, take, drop, replicate, length-append, length-set, get_or-set_self,
  get_or-set_ne, get_elem?-eq-get_or, length-take, length-drop, length-replicate, take_all,
  take-append, drop-append, All,
}
use project_luciano.Base.Int.{ℤ, pos, negsuc, signed32}

-- `bld_size` codes of kernel/include/block_device.h.
abbrev pub size_err : ℤ
size_err = negsuc 0

-- The driver's side of `block_drive_t`: `ops` and its function pointers may be NULL. A call is
-- `(lba, count)`; its result is the driver's.
pub record Driver : Type 0 where
  pub read : Option (ℕ → ℕ → ℤ)
  pub write : Option (ℕ → ℕ → ℤ)

-- `disk_manager_volume_t`: `parent_disk` is NULL or a disk, whose `ops` are NULL or a driver.
pub record Volume : Type 0 where
  pub lba_start : ℕ
  pub lba_end : ℕ
  pub parent_disk : Option (Option Driver)

-- `lba + vol->lba_start`, a `uint64_t`.
unfoldable pub actual_lba : Volume → ℕ → ℕ
actual_lba v lba = (lba + v.lba_start) % 2 ^ 64

-- `actual_end`, cut at the end of the volume.
unfoldable pub actual_end : Volume → ℕ → ℕ → ℕ
unfolding actual_lba
actual_end v lba count =
    let last = (actual_lba v lba + count) % 2 ^ 64 in if ltb v.lba_end last then v.lba_end else last

-- The sectors that the driver is asked for, as the `uint32_t` argument; `none` where the request
-- starts behind the end.
unfoldable pub window : Volume → ℕ → ℕ → Option (ℕ × ℕ)
unfolding actual_end
window v lba count =
    if ltb v.lba_end (actual_lba v lba)
    then none
    else some
        (actual_lba v lba, (actual_end v lba count + 2 ^ 64 - actual_lba v lba) % 2 ^ 64 % 2 ^ 32)

abbrev pub ask : (ℕ → ℕ → ℤ) → Option (ℕ × ℕ) → ℤ
ask f none = pos 0
ask f (some (lba, count)) = f lba count

-- `diskmanager_read_volume`
unfoldable pub read_disk : Volume → ℕ → ℕ → Option (Option Driver) → ℤ
unfolding window
read_disk v lba count none = size_err
read_disk v lba count (some none) = size_err
read_disk v lba count (some (some d)) = elim d.read [
  | none ↦ size_err
  | some f ↦ ask f (window v lba count)
]

unfoldable pub diskmanager_read_volume : Option Volume → ℕ → ℕ → ℤ
unfolding read_disk
diskmanager_read_volume none lba count = size_err
diskmanager_read_volume (some v) lba count = read_disk v lba count v.parent_disk

-- `diskmanager_write_volume` tests neither the disk nor the driver: a call through NULL is `none`.
unfoldable pub write_disk : Option (ℕ × ℕ) → Option (Option Driver) → Option ℤ
write_disk none disk = some (pos 0)
write_disk (some (lba, count)) none = none
write_disk (some (lba, count)) (some none) = none
write_disk (some (lba, count)) (some (some d)) = elim d.write [
  | none ↦ none
  | some f ↦ some (f lba count)
]

unfoldable pub diskmanager_write_volume : Option Volume → ℕ → ℕ → Option ℤ
unfolding write_disk window
diskmanager_write_volume none lba count = some size_err
diskmanager_write_volume (some v) lba count = write_disk (window v lba count) v.parent_disk

-- `diskmanager_get_sector_count_volume`: the difference as an `int`.
unfoldable pub diskmanager_get_sector_count_volume : Volume → ℤ
diskmanager_get_sector_count_volume v =
    signed32 ((v.lba_end + 2 ^ 64 - v.lba_start) % 2 ^ 64 % 2 ^ 32)
