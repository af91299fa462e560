-- ===== src/Disk/Setup.antt =====
-- The volumes that kernel/diskmanager/diskmanager.c finds at boot. A drive is known by its address, and
-- `kmalloc` does not fail. `none` is a call through NULL, a read behind a buffer, or a store behind the
-- array of volumes.
pub mod Found
use project_luciano.Base.{
  ℕ, zero, suc, ◌+◌, ◌-◌, ◌*◌, ◌/◌, ◌%◌, ◌^◌, ◌≤◌, ◌<◌, min, max, bit_and, bit_or, bit_xor, ◌≡◌,
  refl, sym, ap, ap₂, ◌∙◌, fun_ext, subst, ◌≢◌, ◌↔◌, ◌⊎◌, inl, inr, Bool, true, false, not, ◌&&◌,
  ◌||◌, Option, none, some, List, [], ◌∷◌, ◌++◌, map, append-nil, append_assoc, arith, ltb, leb,
  ◌==◌, if◌then◌else◌, ltb→lt, lt→ltb, leb→le, ==_iff, ==_refl, ==_ne, Bool-cases, Option-cases,
  length, get_elem?, get_or, set, take, drop, replicate, length-append, length-set, get_or-set_self,
  get_or-set_ne, get_elem?-eq-get_or, length-take, length-drop, length-replicate, take_all,
  take-append, drop-append, All,
}
use project_luciano.Base.Int.{ℤ, pos, negsuc}
use project_luciano.Libc.{Bytes, byte_diff, memcmp}
use project_luciano.Disk.Mbr.{Extent, VolumeType, diskmanager_mbr_check}
use project_luciano.Disk.Volume.{Volume, Driver, diskmanager_read_volume}
use project_luciano.Disk.Drives.{is_zero}

-- What a drive does in the setup: the functions of its driver, the buffer behind the read of sector 0,
-- the number of its sectors, and the type and magic number that the block of a whole-disk volume
-- happens to hold.
pub record Disk : Type 0 where
  pub driver : Driver
  pub first_sector : Bytes
  pub sector_count : ℤ
  pub junk_kind : VolumeType
  pub junk_magic : ℕ

abbrev pub max_volumes : ℕ
max_volumes = 16

abbrev pub magic_sign : Bytes
magic_sign = 0x55 ∷ 0xAA ∷ []

abbrev pub is_one : ℤ → Bool
is_one (pos n) = n == 1
is_one (negsuc n) = false

-- `bld_size` as `uint64_t`
abbrev pub unsigned64 : ℤ → ℕ
unsigned64 (pos n) = n
unsigned64 (negsuc n) = 2 ^ 64 - 1 - n

abbrev pub superfloppy : Disk → Extent
superfloppy d = record {
  lba_start = 0;
  lba_end = unsigned64 d.sector_count;
  kind = d.junk_kind;
  magic_number = d.junk_magic;
}

module _ {Drive : Type 0} (disk : Drive → Disk) where
  -- `disk_manager_volume_t` with its `parent_disk` and its `id`.
  pub record Registered : Type 0 where
    pub extent : Extent
    pub parent_disk : Drive
    pub id : ℕ

  -- `diskmanager_volumes[diskmanager_volume_counts++] = ...`
  unfoldable pub push : Drive → Extent → List Registered → Option (List Registered)
  push d e vols =
      if ltb (length vols) max_volumes
      then some (vols ++ (record { extent = e; parent_disk = d; id = length vols } ∷ []))
      else none

  abbrev pub next :
      Option (List Registered)
      → (List Registered → Option (List Registered))
      → Option (List Registered)
  next none k = none
  next (some vols) k = k vols

  unfoldable pub push_all : Drive → List Extent → List Registered → Option (List Registered)
  push_all d [] vols = some vols
  push_all d (e ∷ es) vols = next (push d e vols) (push_all d es)

  -- Behind the test for the boot signature: the partitions, or the whole disk.
  unfoldable pub register :
      Drive → Option (List Extent) → List Registered → Option (List Registered)
  register d none vols = push d (superfloppy (disk d)) vols
  register d (some es) vols = push_all d es vols

  unfoldable pub with_signature : Drive → Option ℤ → List Registered → Option (List Registered)
  with_signature d none vols = none
  with_signature d (some c) vols =
      if is_zero c
      then register d (diskmanager_mbr_check (some (disk d).first_sector)) vols
      else some vols

  unfoldable pub diskmanager_setup_drive : Drive → List Registered → Option (List Registered)
  diskmanager_setup_drive d vols = elim (disk d).driver.read [
    | none ↦ none
    | some read ↦
        if is_one (read 0 1)
        then with_signature d (memcmp (drop 510 (disk d).first_sector) magic_sign 2) vols
        else some vols
  ]

  unfoldable pub setup_drives : List Drive → List Registered → Option (List Registered)
  setup_drives [] vols = some vols
  setup_drives (d ∷ ds) vols = next (diskmanager_setup_drive d vols) (setup_drives ds)

  -- `diskmanager_setup_partitions` reads a sector and keeps nothing but the result.
  unfoldable pub diskmanager_setup_partitions : Registered → ℤ
  diskmanager_setup_partitions v =
      diskmanager_read_volume
        (some (record {
          lba_start = v.extent.lba_start;
          lba_end = v.extent.lba_end;
          parent_disk = some (some (disk v.parent_disk).driver);
        }))
        0 1

  -- The volumes, and the results of the reads.
  unfoldable pub diskmanager_init : List Drive → Option (List Registered × List ℤ)
  diskmanager_init drives = elim (setup_drives drives []) [
    | none ↦ none
    | some vols ↦ some (vols, map diskmanager_setup_partitions vols)
  ]
