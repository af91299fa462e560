-- ===== src/Disk/Drives.antt =====
-- kernel/diskmanager/block_device.c: the drives that a driver reports are probed and collected.
-- `kfree` does nothing to the memory in the kernel, so it has no trace here.
use project_luciano.Base.{
  ℕ, zero, suc, ◌+◌, ◌≤◌, ◌≡◌, sym, ap, Bool, true, false, not, ◌&&◌, Option, none, some, List, [],
  ◌∷◌, ◌++◌, append-nil, append_assoc, arith, ltb, if◌then◌else◌, length, length-append,
}
use project_luciano.Base.Int.{ℤ, pos, negsuc}

-- The two calls of `block_driver_t` that the collection makes; a drive is known by its address.
pub record Ops (Drive : Type 0) : Type 0 where
  pub probe : Drive → ℤ
  pub get_sector_count : Drive → ℤ

abbrev pub max_drives : ℕ
max_drives = 32

-- `BLD_SUCCESS` and `BLD_SIZE_ERR` of kernel/include/block_device.h.
abbrev pub is_zero : ℤ → Bool
is_zero (pos zero) = true
is_zero (pos (suc k)) = false
is_zero (negsuc k) = false

abbrev pub is_minus_one : ℤ → Bool
is_minus_one (pos k) = false
is_minus_one (negsuc zero) = true
is_minus_one (negsuc (suc k)) = false

module _ {Drive : Type 0} (ops : Drive → Option (Ops Drive)) where
  -- Whether a drive with driver `o` is kept.
  abbrev pub accepts : Ops Drive → Drive → Bool
  accepts o d = is_zero (o.probe d) && not (is_minus_one (o.get_sector_count d))

  -- One round of the loop on the drives stored so far: a drive without a driver is reported and
  -- then called all the same, which is `none`, and so is a store behind the 32 places.
  unfoldable pub add_drive : Drive → List Drive → Option (List Drive)
  add_drive d kept = elim (ops d) [
    | none ↦ none
    | some o ↦
        if accepts o d
        then if ltb (length kept) max_drives then some (kept ++ (d ∷ [])) else none
        else some kept
  ]

  abbrev add_after : (List Drive → Option (List Drive)) → Option (List Drive) → Option (List Drive)
  add_after f none = none
  add_after f (some kept) = f kept

  unfoldable pub block_devices_validate_and_add : List Drive → List Drive → Option (List Drive)
  unfolding add_drive
  block_devices_validate_and_add [] kept = some kept
  block_devices_validate_and_add (d ∷ drives) kept =
      add_after (block_devices_validate_and_add drives) (add_drive d kept)

  -- `block_devices_init` on the drives that the IDE driver reports.
  unfoldable pub block_devices_init : List Drive → Option (List Drive)
  unfolding block_devices_validate_and_add
  block_devices_init ide_drives = block_devices_validate_and_add ide_drives []

  -- What a careful reader expects to be kept: the drives with a driver that answers its probe and
  -- knows its size, in their order.
  abbrev pub is_good : Drive → Bool
  is_good d = elim (ops d) [ none ↦ false | some o ↦ accepts o d ]

  abbrev pub good : List Drive → List Drive
  good [] = []
  good (d ∷ drives) = if is_good d then d ∷ good drives else good drives

  -- Every drive has a driver.
  pub data AllDriven : List Drive → Type 0 where
    nil : AllDriven []
    cons :
        {d : Drive} {drives : List Drive}
        → (o : Ops Drive) → ops d ≡ some o
        → AllDriven drives
        → AllDriven (d ∷ drives)

  add_lem :
      (drives kept : List Drive)
      → AllDriven drives
      → length kept + length drives ≤ max_drives
      → block_devices_validate_and_add drives kept ≡ some (kept ++ good drives)
  unfolding block_devices_validate_and_add add_drive
  add_lem [] kept a h = ap some (sym (append-nil kept))
  add_lem (d ∷ drives) kept (cons o e a) h = ground (
    arith,
    e,
    add_lem drives kept a,
    add_lem drives (kept ++ (d ∷ [])) a,
    append_assoc kept (d ∷ []) (good drives),
    length-append kept (d ∷ []),
  )

  -- Where each of at most 32 reported drives has a driver, exactly the drives that answer their
  -- probe and know their size are stored, in the reported order.
  pub block_devices_init_lem :
      (drives : List Drive)
      → AllDriven drives
      → length drives ≤ max_drives
      → block_devices_init drives ≡ some (good drives)
  unfolding block_devices_init
  block_devices_init_lem drives a h = add_lem drives [] a (omega arith)
