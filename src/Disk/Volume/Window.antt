-- ===== src/Disk/Volume/Window.antt =====
-- Which sectors a volume call reaches.
use project_luciano.Base.{
  ℕ, ◌+◌, ◌-◌, ◌%◌, ◌^◌, ◌≤◌, ◌<◌, min, ◌≡◌, inl, inr, none, some, arith, ltb, if◌then◌else◌,
  Option-cases,
}
use project_luciano.Base.Int.{ℤ, pos}
use project_luciano.Disk.Volume.{
  Volume, Driver, actual_lba, actual_end, window, diskmanager_read_volume, diskmanager_write_volume,
  read_disk, write_disk,
}

-- `lba_start` and `lba_end` are a range of `uint64_t` sectors.
pub record IsVolume (v : Volume) : Type 0 where
  pub forward : v.lba_start ≤ v.lba_end
  pub small : v.lba_end < 2 ^ 64

-- A read or write at an offset whose sum with the start does not wrap reaches only sectors of the
-- volume: it is refused exactly if it starts behind the end; otherwise the driver is asked for the
-- sectors from the shifted offset on, as many as were asked for or as are left.
pub window_lem :
    (v : Volume) (lba count : ℕ)
    → IsVolume v
    → lba + v.lba_start + count < 2 ^ 64
    → count < 2 ^ 32
    → window v lba count ≡ (
        if ltb v.lba_end (v.lba_start + lba)
        then none
        else some (v.lba_start + lba, min count (v.lba_end - (v.lba_start + lba))))
unfolding window actual_end actual_lba
window_lem v lba count h fits c = ground arith

-- An offset so large that its sum with the start wraps is not refused: the driver is asked for
-- sectors that begin before the volume.
pub window_wrap :
    (v : Volume) (lba count : ℕ)
    → IsVolume v
    → lba < 2 ^ 64
    → 2 ^ 64 ≤ lba + v.lba_start
    → (at : ℕ) × (n : ℕ) × (window v lba count ≡ some (at, n)) × (at < v.lba_start)
unfolding window actual_end actual_lba
window_wrap v lba count h l wraps = (
  (lba + v.lba_start) % 2 ^ 64,
  (actual_end v lba count + 2 ^ 64 - actual_lba v lba) % 2 ^ 64 % 2 ^ 32,
  ground arith,
  ground arith,
)

-- On a disk with a read function `diskmanager_read_volume` hands that function exactly the window of
-- a request whose sums do not wrap, and what it answers comes back; a request that starts behind the
-- end of the volume is answered with 0.
pub read_volume_lem :
    (v : Volume) (d : Driver) (f : ℕ → ℕ → ℤ) (lba count : ℕ)
    → IsVolume v
    → v.parent_disk ≡ some (some d)
    → d.read ≡ some f
    → lba + v.lba_start + count < 2 ^ 64
    → count < 2 ^ 32
    → diskmanager_read_volume (some v) lba count ≡ (
        if ltb v.lba_end (v.lba_start + lba)
        then pos 0
        else f (v.lba_start + lba) (min count (v.lba_end - (v.lba_start + lba))))
unfolding diskmanager_read_volume read_disk
read_volume_lem v d f lba count h e r fits c =
    rw (e, r, window_lem v lba count h fits c) (ground arith)

-- Reads and writes agree on the sectors: where a disk has both functions and they answer alike, a
-- write to a volume answers what a read of the same range answers.
pub write_volume_lem :
    (v : Volume) (d : Driver) (f : ℕ → ℕ → ℤ) (lba count : ℕ)
    → v.parent_disk ≡ some (some d)
    → d.read ≡ some f
    → d.write ≡ some f
    → diskmanager_write_volume (some v) lba count
      ≡ some (diskmanager_read_volume (some v) lba count)
unfolding diskmanager_read_volume diskmanager_write_volume read_disk write_disk
write_volume_lem v d f lba count e r t = elim (Option-cases (window v lba count)) [
  | inl a ↦ ground arith
  | inr b ↦ ground arith
]
