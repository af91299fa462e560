-- ===== src/Disk/Ide.antt =====
-- kernel/drivers/ide/ide.c. The device behind the ports is a parameter: what the `n`-th read of a port
-- gives. A run is `none` where a waiting loop does not end within its rounds, or a string has no end.
pub mod Ports
pub mod Request
pub mod Transfer
mod Tests
use project_luciano.Base.{
  ℕ, zero, suc, ◌+◌, ◌-◌, ◌*◌, ◌/◌, ◌%◌, ◌^◌, bit_and, bit_or, Bool, true, false, not, ◌||◌, Option,
  none, some, List, [], ◌∷◌, ◌++◌, ltb, leb, ◌==◌, if◌then◌else◌, get_or,
}
use mathlib.Core.Option
use project_luciano.Base.Int.{ℤ, pos, negsuc}
use project_luciano.Libc.{Bytes, cstr, strcmp}
use project_luciano.Disk.Ide.Ports.{
  Cmd, pure, give, primary_base, secondary_base, master, slave, status_offset, control_offset, outb,
  Wait, failed, ready, if_ready, port_in, ide_delay, delays, wait_idle, wait_data, settled,
  read_words, and_then, ◌>>=◌, ◌>>◌,
}

-- BLD_EINVAL and BLD_SIZE_ERR, BLD_PROBE_FAIL and BLD_SIZE_UNK of kernel/include/block_device.h
abbrev pub bld_err : ℤ
bld_err = negsuc 0

abbrev pub bld_probe_fail : ℤ
bld_probe_fail = negsuc 1

abbrev pub bld_size_unk : ℤ
bld_size_unk = negsuc 2

-- "ide_driver_soorkie"
abbrev pub driver_name : Bytes
driver_name =
    b'i' ∷ b'd' ∷ b'e' ∷ b'_' ∷ b'd' ∷ b'r' ∷ b'i' ∷ b'v' ∷ b'e' ∷ b'r' ∷ b'_' ∷ b's' ∷ b'o' ∷ b'o'
    ∷ b'r' ∷ b'k' ∷ b'i' ∷ b'e' ∷ []

-- `ide_private_field_t`
pub record Private : Type 0 where
  pub channel : ℕ
  pub drive : ℕ
  pub sector_count : ℤ

-- `block_drive_t`: the driver's name where `ops` is not NULL, and the private fields.
pub record Drive : Type 0 where
  pub ops : Option Bytes
  pub private_fields : Option Private

abbrev pub new_drive : ℕ → ℕ → Drive
new_drive channel drive = record {
  ops = some (cstr driver_name);
  private_fields = some (record { channel = channel; drive = drive; sector_count = bld_size_unk });
}

-- `all_drives`
abbrev pub all_drives : List Drive
all_drives =
    new_drive primary_base master
    ∷ new_drive primary_base slave
    ∷ new_drive secondary_base master
    ∷ new_drive secondary_base slave
    ∷ []

-- `strcmp(this->ops->block_driver_name, IDE_DRIVER_NAME) != 0`
abbrev pub is_other : ℤ → Bool
is_other (pos n) = not (n == 0)
is_other (negsuc n) = true

unfoldable pub other_driver : Bytes → Option Bool
other_driver ops = Option.map is_other (strcmp ops (cstr driver_name))

-- `int` and `bld_size` as `uint64_t`
abbrev pub unsigned64 : ℤ → ℕ
unsigned64 (pos n) = n
unsigned64 (negsuc n) = 2 ^ 64 - 1 - n

-- The number of sectors in words 60 and 61 of the answer.
abbrev pub sectors_of : List ℕ → ℕ
sectors_of ws = bit_or (get_or ws 61 0 * 2 ^ 16) (get_or ws 60 0)

abbrev pub is_unknown : ℤ → Bool
is_unknown (pos n) = false
is_unknown (negsuc n) = n == 2

abbrev pub is_error : ℤ → Bool
is_error (pos n) = false
is_error (negsuc n) = true

-- A count that was found is kept in the private fields.
abbrev pub remember : Private → ℤ → Private
remember p c = if is_error c then p else record p { sector_count = c }

abbrev pub set_private : Drive → Private → Drive
set_private this p = record this { private_fields = some p }

-- `limit`, from the size as a `uint64_t`: cut at the end of the drive, and at 255.
unfoldable pub read_limit : ℕ → ℕ → ℕ → ℕ
read_limit size lba count =
    let cut = if ltb size ((count + lba) % 2 ^ 64) then (size + 2 ^ 64 - lba) % 2 ^ 64 else count in
    if leb 256 cut then 255 else cut

-- The request of a read.
unfoldable pub request : Private → ℕ → ℕ → Cmd (Unit {0})
unfolding outb
request p lba limit = do
  outb (p.channel + 6) (bit_or (bit_or 0xE0 p.drive) (bit_and (lba / 2 ^ 24) 0x0F))
  outb (p.channel + 2) limit
  outb (p.channel + 3) (bit_and lba 0xFF)
  outb (p.channel + 4) (bit_and (lba / 2 ^ 8) 0xFF)
  outb (p.channel + 5) (bit_and (lba / 2 ^ 16) 0xFF)
  outb (p.channel + 7) 0x20

module _ (device : ℕ → ℕ → ℕ) where
  unfoldable pub probe_channel : Private → Cmd ℤ
  unfolding port_in outb ide_delay
  probe_channel p = do
    outb (p.channel + 6) p.drive
    ide_delay device p.channel
    status ← port_in device (p.channel + status_offset)
    pure (if (status == 0xFF) || (status == 0x00) then bld_probe_fail else pos 0)

  unfoldable pub ide_probe : Option Drive → Cmd ℤ
  unfolding probe_channel
  ide_probe none = pure bld_err
  ide_probe (some this) = elim this.ops [
    | none ↦ pure bld_err
    | some ops ↦ (do
      other ← give (other_driver ops)
      if other
          then pure bld_err
          else (elim this.private_fields [ none ↦ pure bld_err | some p ↦ probe_channel p ]))
  ]

-- The operations, with `rounds` for each waiting loop.
module _ (device : ℕ → ℕ → ℕ) (rounds : ℕ) where
  unfoldable pub ide_reset : ℕ → Cmd (Unit {0})
  ide_reset channel = do
    outb (channel + control_offset) 0x04
    delays device 20 channel
    outb (channel + control_offset) 0x00
    wait_idle device rounds (channel + control_offset)

  unfoldable pub identify : Private → Cmd ℤ
  identify p = do
    outb (p.channel + 6) (bit_or 0xE0 p.drive)
    ide_delay device p.channel
    outb (p.channel + status_offset) 0xEC
    w ← wait_data device rounds p.channel
    v ← if_ready w (settled device p.channel)
    elim v [
      | failed ↦ do ide_reset p.channel; pure bld_err
      | ready ↦ do
        ws ← read_words device 256 p.channel
        pure (if sectors_of ws == 0 then bld_err else pos (sectors_of ws))
    ]

  -- `ide_get_sector_count`, with the drive as it is afterwards.
  unfoldable pub count_sectors : Drive → Bytes → Private → Cmd (ℤ × Drive)
  count_sectors this ops p =
      if not (is_unknown p.sector_count) then pure (p.sector_count, this) else (do
        other ← give (other_driver ops)
        if other
            then pure (bld_err, this)
            else (do c ← identify p; pure (c, set_private this (remember p c))))

  unfoldable pub ide_get_sector_count : Option Drive → Cmd (ℤ × Option Drive)
  ide_get_sector_count none = pure (bld_err, none)
  ide_get_sector_count (some this) = elim this.ops [
    | none ↦ pure (bld_err, some this)
    | some ops ↦ elim this.private_fields [
      | none ↦ pure (bld_err, some this)
      | some p ↦ (do (c, after) ← count_sectors this ops p; pure (c, some after))
    ]
  ]

  -- The loop over the sectors: the words that are stored, and whether an error broke it off.
  unfoldable pub read_sectors : ℕ → ℕ → Cmd (List ℕ × Wait)
  read_sectors zero channel = pure ([], ready)
  read_sectors (suc n) channel = do
    w ← wait_data device rounds channel
    elim w [
      | failed ↦ pure ([], failed)
      | ready ↦ do
        ws ← read_words device 256 channel
        (rest, v) ← read_sectors n channel
        pure (ws ++ rest, v)
    ]

  unfoldable pub transfer : Private → ℕ → ℕ → Cmd (ℤ × List ℕ)
  transfer p lba limit = do
    request p lba limit
    w ← wait_data device rounds p.channel
    v ← if_ready w (settled device p.channel)
    elim v [
      | failed ↦ do ide_reset p.channel; pure (bld_err, [])
      | ready ↦ do
        (ws, u) ← read_sectors limit p.channel
        pure (elim u [ failed ↦ bld_err | ready ↦ pos limit ], ws)
    ]

  -- `ide_read`: the result, the words stored in the caller's buffer, and the drive afterwards.
  abbrev pub start_read : ℕ → ℕ → ℤ × Option Drive → Cmd (ℤ × List ℕ × Option Drive)
  start_read lba count (c, none) = pure (bld_err, [], none)
  start_read lba count (c, some this) =
      if ltb (unsigned64 c) lba then pure (pos 0, [], some this) else (elim this.private_fields [
        | none ↦ pure (bld_err, [], some this)
        | some p ↦ (do
          (r, ws) ← transfer p lba (read_limit (unsigned64 c) lba count)
          pure (r, ws, some this))
      ])

  unfoldable pub ide_read : Option Drive → ℕ → ℕ → Cmd (ℤ × List ℕ × Option Drive)
  ide_read none lba count = pure (bld_err, [], none)
  ide_read (some this) lba count = elim this.ops [
    | none ↦ pure (bld_err, [], some this)
    | some ops ↦ (do (c, after) ← ide_get_sector_count (some this); start_read lba count (c, after))
  ]
