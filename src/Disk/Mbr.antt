-- ===== src/Disk/Mbr.antt =====
-- kernel/diskmanager/mbr.c: the partition table of a master boot record.
pub mod Disjoint
use project_luciano.Base.{
  ℕ, zero, suc, ◌+◌, ◌-◌, ◌*◌, ◌/◌, ◌%◌, ◌^◌, ◌≤◌, ◌<◌, min, max, bit_and, bit_or, bit_xor, ◌≡◌,
  refl, sym, ap, ap₂, ◌∙◌, fun_ext, subst, ◌≢◌, ◌↔◌, ◌⊎◌, inl, inr, Bool, true, false, not, ◌&&◌,
  ◌||◌, Option, none, some, List, [], ◌∷◌, ◌++◌, map, append-nil, append_assoc, arith, ltb, leb,
  ◌==◌, if◌then◌else◌, ltb→lt, lt→ltb, leb→le, ==_iff, ==_refl, ==_ne, Bool-cases, Option-cases,
  length, get_elem?, get_or, set, take, drop, replicate, length-append, length-set, get_or-set_self,
  get_or-set_ne, get_elem?-eq-get_or, length-take, length-drop, length-replicate, take_all,
  take-append, drop-append, All,
}
use project_luciano.Libc.{Bytes}

-- `disk_manager_volume_type_t` of kernel/include/diskmanager.h.
pub data VolumeType : Type 0 where
  vol_unk vol_unk_valid vol_fat32 : VolumeType

-- `disk_manager_volume_t`, before a disk and an id are filled in.
pub record Extent : Type 0 where
  pub lba_start : ℕ
  pub lba_end : ℕ
  pub kind : VolumeType
  pub magic_number : ℕ

-- `disk_manager_mbr_entry_t`: the fields that the code reads.
pub record Entry : Type 0 where
  pub partition_type : ℕ
  pub lba_partition_start : ℕ
  pub lba_num_sectors : ℕ

-- A little-endian number of `k` bytes at an offset of the sector, which has 512 bytes.
unfoldable pub word_at : ℕ → Bytes → ℕ → ℕ
word_at zero sector at = 0
word_at (suc k) sector at = get_or sector at 0 + 256 * word_at k sector (at + 1)

-- `entry[i]`, 16 bytes each from 0x1BE on.
unfoldable pub entry_at : Bytes → ℕ → Entry
unfolding word_at
entry_at sector i = record {
  partition_type = word_at 1 sector (0x1be + 16 * i + 4);
  lba_partition_start = word_at 4 sector (0x1be + 16 * i + 8);
  lba_num_sectors = word_at 4 sector (0x1be + 16 * i + 12);
}

abbrev pub extent : Entry → VolumeType → ℕ → Extent
extent e kind magic = record {
  lba_start = e.lba_partition_start;
  lba_end = (e.lba_partition_start + e.lba_num_sectors) % 2 ^ 32;
  kind = kind;
  magic_number = magic;
}

-- The `switch`: the end is a sum of two `uint32_t`.
unfoldable pub classify : Entry → Option Extent
classify e =
    if e.partition_type == 0x00
    then none
    else if e.partition_type == 0x0b || e.partition_type == 0x0c
    then some (extent e vol_unk_valid 0xf00d)
    else some (extent e vol_unk 0xdead)

abbrev pub cons_some : Option Extent → List Extent → List Extent
cons_some none vs = vs
cons_some (some v) vs = v ∷ vs

-- The loop over the entries, with the entries that are left from `i` on.
unfoldable pub collect : ℕ → ℕ → Bytes → List Extent
unfolding classify entry_at
collect zero i sector = []
collect (suc left) i sector = cons_some (classify (entry_at sector i)) (collect left (i + 1) sector)

-- `lba_end - lba_start <= 0` on `uint64_t`.
unfoldable pub has_empty : List Extent → Bool
has_empty [] = false
has_empty (v ∷ vs) = (v.lba_end + 2 ^ 64 - v.lba_start) % 2 ^ 64 == 0 || has_empty vs

-- The test of a pair: `v` is entry `i`, and `w` is an earlier entry `j`.
unfoldable pub clash : Extent → Extent → Bool
clash v w =
    if ltb v.lba_start w.lba_start then ltb w.lba_start v.lba_end else ltb v.lba_start w.lba_end

unfoldable pub clash_any : Extent → List Extent → Bool
unfolding clash
clash_any v [] = false
clash_any v (w ∷ ws) = clash v w || clash_any v ws

-- The double loop; `seen` are the entries before the first of the list.
unfoldable pub overlaps : List Extent → List Extent → Bool
unfolding clash_any
overlaps seen [] = false
overlaps seen (v ∷ vs) = clash_any v seen || overlaps (seen ++ (v ∷ [])) vs

unfoldable pub accept : List Extent → Option (List Extent)
unfolding has_empty overlaps
accept [] = none
accept (v ∷ vs) =
    if has_empty (v ∷ vs) then none else if overlaps [] (v ∷ vs) then none else some (v ∷ vs)

-- `diskmanager_mbr_check`: the partitions, whose number is returned, or DSK_INV.
unfoldable pub diskmanager_mbr_check : Option Bytes → Option (List Extent)
unfolding collect accept
diskmanager_mbr_check none = none
diskmanager_mbr_check (some sector) = accept (collect 4 0 sector)
