-- ===== src/Disk/Ide/Tests.antt =====
-- The driver of IDE disks with a drive that is always ready.
use project_luciano.Base.{ℕ, ◌-◌, ◌*◌, min, ◌≡◌, refl, inr, some, List, [], arith, length}
use project_luciano.Base.Int.{pos}
use project_luciano.Disk.Ide.{Private, driver_name, read_limit, ide_read}
use project_luciano.Disk.Ide.Ports.{Io, primary_base, slave, has_err, is_ready}
use project_luciano.Disk.Ide.Request.{IsRequest}
use project_luciano.Disk.Ide.Transfer.{IsResponsive, whole, ide_read_lem}

-- Every port answers with the status that data is there.
abbrev willing : ℕ → ℕ → ℕ
willing n port = 0x08

abbrev disk : Private
disk = record { channel = primary_base; drive = slave; sector_count = pos 100 }

abbrev start : Io
start = record { reads = 0; writes = [] }

willing-IsResponsive : IsResponsive willing primary_base 1
unfolding has_err is_ready
willing-IsResponsive = record { no_err = λ n. refl; soon = λ n. (0, omega arith, refl) }

-- Seven sectors from 98 on, of which two are left.
ide_read_lem_example :
    (ws : List ℕ) × (reqs : List (ℕ × ℕ)) × (n : ℕ) × (ide_read willing 1
        (some (whole disk driver_name))
        98
        7
        start
      ≡ some (
        (pos (min 255 (min 7 (100 - 98))), ws, some (whole disk driver_name)),
        record { reads = n; writes = reqs },
      ))
    × (length ws ≡ 256 * min 255 (min 7 (100 - 98)))
    × IsRequest disk 98 (min 255 (min 7 (100 - 98))) reqs
ide_read_lem_example =
    ide_read_lem willing 1 1 disk willing-IsResponsive (omega arith) driver_name 100 98 7 start refl
      (inr refl) (omega arith) (omega arith) (omega arith) (omega arith) (omega arith)

two_left : read_limit 100 98 7 ≡ 2
unfolding read_limit
two_left = refl
