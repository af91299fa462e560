-- ===== src/Disk/Tests.antt =====
-- Partition tables, volumes and drives at concrete inputs.
use project_luciano.Base.{
  map, ℕ, ◌+◌, ◌-◌, ◌^◌, ◌<◌, min, ◌≡◌, refl, none, some, List, [], ◌∷◌, ◌++◌, arith, ltb, ◌==◌,
  if◌then◌else◌, length, replicate, All,
}
use project_luciano.Base.Int.{ℤ, pos}
use project_luciano.Libc.{Bytes}
use project_luciano.Disk.Mbr.{Extent, vol_unk_valid, entry_at, collect, diskmanager_mbr_check}
use project_luciano.Disk.Mbr.Disjoint.{
  PairsApart, diskmanager_mbr_check-PairsApart, diskmanager_mbr_check_wrap,
}
use project_luciano.Disk.Volume.{Volume, Driver, window, diskmanager_read_volume}
use project_luciano.Disk.Volume.Window.{IsVolume, window_wrap, read_volume_lem}
use project_luciano.Disk.Setup.{Disk, diskmanager_setup_partitions, diskmanager_init}
use project_luciano.Disk.Setup.Found.{all_found, numbered, diskmanager_init_lem}

-- An entry of type 0x0c with the two low bytes of its start, and the four of its size.
abbrev entry : List ℕ → List ℕ → Bytes
entry start size = (0 ∷ 0 ∷ 0 ∷ 0 ∷ 0x0c ∷ 0 ∷ 0 ∷ 0 ∷ []) ++ (start ++ size)

abbrev two_parts : Bytes
two_parts =
    replicate 446 0
    ++ (entry (0 ∷ 8 ∷ 0 ∷ 0 ∷ []) (0 ∷ 4 ∷ 0 ∷ 0 ∷ [])
        ++ entry (0 ∷ 16 ∷ 0 ∷ 0 ∷ []) (1 ∷ 0 ∷ 0 ∷ 0 ∷ []))

abbrev extents : List Extent
extents =
    record { lba_start = 2048; lba_end = 3072; kind = vol_unk_valid; magic_number = 0xf00d }
    ∷ record { lba_start = 4096; lba_end = 4097; kind = vol_unk_valid; magic_number = 0xf00d }
    ∷ []

two_parts_accepted : diskmanager_mbr_check (some two_parts) ≡ some extents
unfolding diskmanager_mbr_check collect
two_parts_accepted = refl

diskmanager_mbr_check-PairsApart_example :
    (0 < length extents) × All (λ v. v.lba_start < v.lba_end) extents × PairsApart extents
diskmanager_mbr_check-PairsApart_example =
    diskmanager_mbr_check-PairsApart two_parts extents two_parts_accepted (ground arith)

abbrev wrapped_part : Bytes
wrapped_part = replicate 446 0 ++ entry (255 ∷ 255 ∷ 255 ∷ 255 ∷ []) (2 ∷ 0 ∷ 0 ∷ 0 ∷ [])

diskmanager_mbr_check_wrap_example :
    (v : Extent) × (diskmanager_mbr_check (some wrapped_part) ≡ some (v ∷ []))
    × (v.lba_start ≡ (entry_at wrapped_part 0).lba_partition_start)
    × (v.lba_end + 2 ^ 32
        ≡ (entry_at wrapped_part 0).lba_partition_start + (entry_at wrapped_part 0).lba_num_sectors)
    × (v.lba_end < v.lba_start)
unfolding entry_at
diskmanager_mbr_check_wrap_example =
    diskmanager_mbr_check_wrap wrapped_part (omega arith) refl refl refl (omega arith) (omega arith)
      (omega arith)

abbrev answer : ℕ → ℕ → ℤ
answer lba count = pos count

abbrev driver : Driver
driver = record { read = some answer; write = some answer }

abbrev volume : Volume
volume = record { lba_start = 2048; lba_end = 3072; parent_disk = some (some driver) }

volume-IsVolume : IsVolume volume
volume-IsVolume = record { forward = omega arith; small = omega arith }

window_wrap_example :
    (at : ℕ) × (n : ℕ) × (window volume (2 ^ 64 - 1) 1 ≡ some (at, n)) × (at < volume.lba_start)
window_wrap_example = window_wrap volume (2 ^ 64 - 1) 1 volume-IsVolume (omega arith) (omega arith)

read_volume_lem_example : diskmanager_read_volume (some volume) 1000 100 ≡ (
    if ltb volume.lba_end (volume.lba_start + 1000)
    then pos 0
    else answer (volume.lba_start + 1000) (min 100 (volume.lba_end - (volume.lba_start + 1000))))
read_volume_lem_example =
    read_volume_lem volume driver answer 1000 100 volume-IsVolume refl refl (omega arith)
      (omega arith)

-- A disk with a table of two partitions, and one with a signature and an empty table.
abbrev reader : Driver
reader = record { read = some (λ lba count. pos count); write = none }

abbrev split_disk : Disk
split_disk = record {
  driver = reader;
  first_sector = two_parts ++ (replicate 32 0 ++ (0x55 ∷ 0xAA ∷ []));
  sector_count = pos 5000;
  junk_kind = vol_unk_valid;
  junk_magic = 0;
}

abbrev whole_disk : Disk
whole_disk = record {
  driver = reader;
  first_sector = replicate 510 0 ++ (0x55 ∷ 0xAA ∷ []);
  sector_count = pos 300;
  junk_kind = vol_unk_valid;
  junk_magic = 0;
}

abbrev disks : ℕ → Disk
disks n = if n == 0 then split_disk else whole_disk

three_found : length (all_found disks (0 ∷ 1 ∷ [])) ≡ 3
unfolding diskmanager_mbr_check collect
three_found = refl

diskmanager_init_lem_example :
    diskmanager_init disks (0 ∷ 1 ∷ [])
    ≡ some (
      numbered disks 0 (all_found disks (0 ∷ 1 ∷ [])),
      map (diskmanager_setup_partitions disks) (numbered disks 0 (all_found disks (0 ∷ 1 ∷ []))),
    )
diskmanager_init_lem_example =
    diskmanager_init_lem disks (0 ∷ 1 ∷ [])
      (
        (λ lba count. pos count, refl, omega arith),
        ((λ lba count. pos count, refl, omega arith), tt),
      )
      (omega (arith, three_found))
