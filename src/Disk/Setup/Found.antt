-- ===== src/Disk/Setup/Found.antt =====
-- Which volumes `diskmanager_init` of kernel/diskmanager/diskmanager.c registers.
use project_luciano.Base.{
  ℕ, suc, ◌+◌, ◌≤◌, ◌≡◌, refl, sym, ap, ◌∙◌, inl, inr, Bool, true, false, ◌&&◌, Option, none, some,
  List, [], ◌∷◌, ◌++◌, map, append-nil, append_assoc, arith, ltb, ◌==◌, if◌then◌else◌, Bool-cases,
  length, get_or, drop, length-append, length-drop, All,
}
use project_luciano.Base.Int.{ℤ, pos}
use project_luciano.Libc.{Bytes, byte_diff, memcmp}
use project_luciano.Disk.Mbr.{Extent, diskmanager_mbr_check}
use project_luciano.Disk.Drives.{is_zero}
use project_luciano.Disk.Setup.{
  Disk, max_volumes, magic_sign, is_one, superfloppy, Registered, push, next, push_all, register,
  with_signature, diskmanager_setup_drive, setup_drives, diskmanager_setup_partitions,
  diskmanager_init,
}

-- The two bytes at the end of a boot sector.
abbrev pub is_signed : Bytes → Bool
is_signed sector = (get_or (drop 510 sector) 0 0 == 0x55) && (get_or (drop 510 sector) 1 0 == 0xAA)

-- What a disk with a boot signature is divided into: the partitions of a table that is accepted, and
-- otherwise one volume for the whole disk.
abbrev pub divided : Disk → Option (List Extent) → List Extent
divided d none = superfloppy d ∷ []
divided d (some es) = es

abbrev pub contents : Disk → List Extent
contents d = divided d (diskmanager_mbr_check (some d.first_sector))

-- Nothing is found where the read of sector 0 does not give one sector, or it has no signature.
abbrev pub found : Disk → List Extent
found d = elim d.driver.read [
  | none ↦ []
  | some read ↦ if is_one (read 0 1) && is_signed d.first_sector then contents d else []
]

-- The driver can read, and the buffer is a sector at least.
abbrev pub IsReadable : Disk → Type 0
IsReadable d = (read : ℕ → ℕ → ℤ) × (d.driver.read ≡ some read) × (512 ≤ length d.first_sector)

same_sign :
    (s : Bytes)
    → 2 ≤ length s
    → (c : ℤ) × (memcmp s magic_sign 2 ≡ some c)
      × (is_zero c ≡ ((get_or s 0 0 == 0x55) && (get_or s 1 0 == 0xAA)))
unfolding memcmp
same_sign [] h = absurd (omega arith)
same_sign (x ∷ []) h = absurd (omega arith)
same_sign (x ∷ y ∷ s) h = elim (Bool-cases (x == 0x55)) [
  | inr differ ↦ (byte_diff x 0x55, ground arith, ground arith)
  | inl same ↦ elim (Bool-cases (y == 0xAA)) [
    | inr differ ↦ (byte_diff y 0xAA, ground arith, ground arith)
    | inl same_too ↦ (pos 0, ground arith, ground arith)
  ]
]

module _ {Drive : Type 0} (disk : Drive → Disk) where
  -- What each drive has, one drive behind the other, and the volumes with their numbers.
  abbrev pub tagged : Drive → List Extent → List (Drive × Extent)
  tagged d [] = []
  tagged d (e ∷ es) = (d, e) ∷ tagged d es

  abbrev pub all_found : List Drive → List (Drive × Extent)
  all_found [] = []
  all_found (d ∷ ds) = tagged d (found (disk d)) ++ all_found ds

  abbrev pub numbered : ℕ → List (Drive × Extent) → List (Registered disk)
  numbered n [] = []
  numbered n ((d, e) ∷ vs) = record { extent = e; parent_disk = d; id = n } ∷ numbered (n + 1) vs

  push_all-numbered :
      (d : Drive) (es : List Extent) (vols : List (Registered disk))
      → length vols + length es ≤ max_volumes
      → push_all disk d es vols ≡ some (vols ++ numbered (length vols) (tagged d es))
  unfolding push_all push
  push_all-numbered d [] vols h = ap some (sym (append-nil vols))
  push_all-numbered d (e ∷ es) vols h =
      let vols' = vols ++ (record { extent = e; parent_disk = d; id = length vols } ∷ []) in
      let room : ltb (length vols) max_volumes ≡ true = ground arith in
      let longer : length vols' ≡ length vols + 1 = length-append vols _ in
      let rest = push_all-numbered d es vols' (omega (arith, longer)) in
      rw room (
        rest
        ∙ ap (λ (n : ℕ). some (vols' ++ numbered n (tagged d es))) longer
        ∙ ap some (append_assoc vols _ _))

  register-numbered :
      (d : Drive) (o : Option (List Extent)) (vols : List (Registered disk))
      → length vols + length (divided (disk d) o) ≤ max_volumes
      → register disk d o vols
        ≡ some (vols ++ numbered (length vols) (tagged d (divided (disk d) o)))
  unfolding register push
  register-numbered d none vols h =
      let room : ltb (length vols) max_volumes ≡ true = ground arith in rw room refl
  register-numbered d (some es) vols h = push_all-numbered d es vols h

  setup_drive-numbered :
      (d : Drive) (vols : List (Registered disk))
      → IsReadable (disk d)
      → length vols + length (found (disk d)) ≤ max_volumes
      → diskmanager_setup_drive disk d vols
        ≡ some (vols ++ numbered (length vols) (tagged d (found (disk d))))
  unfolding diskmanager_setup_drive with_signature
  setup_drive-numbered d vols (read, e, l) h =
      let sector = (disk d).first_sector in
      let (c, runs, same) = same_sign (drop 510 sector) (omega (arith, length-drop 510 sector)) in
      let none_found : found (disk d) ≡ []
          → some vols ≡ some (vols ++ numbered (length vols) (tagged d (found (disk d)))) =
        λ q.
          ap some (sym (append-nil vols))
          ∙ ap (λ es. some (vols ++ numbered (length vols) (tagged d es))) (sym q) in
      elim (Bool-cases (is_one (read 0 1))) [
        | inr failed ↦
            let q : found (disk d) ≡ [] = rw (e, failed) refl in
            let ran : diskmanager_setup_drive disk d vols ≡ some vols =
              rw (e, failed, diskmanager_setup_drive) refl in
            ran ∙ none_found q
        | inl one ↦ elim (Bool-cases (is_zero c)) [
          | inr unsigned ↦
              let sgn : is_signed sector ≡ false = sym same ∙ unsigned in
              let q : found (disk d) ≡ [] = rw (e, one, sgn) refl in
              let ran : diskmanager_setup_drive disk d vols ≡ some vols =
                rw (e, one, runs, unsigned, diskmanager_setup_drive) refl in
              ran ∙ none_found q
          | inl zero_diff ↦
              let sgn : is_signed sector ≡ true = sym same ∙ zero_diff in
              let q : found (disk d) ≡ contents (disk d) = rw (e, one, sgn) refl in
              let run =
                register-numbered d (diskmanager_mbr_check (some sector)) vols
                  (omega (arith, h, ap length q)) in
              let ran : diskmanager_setup_drive disk d vols
                  ≡ register disk d (diskmanager_mbr_check (some sector)) vols =
                rw (e, one, runs, zero_diff, diskmanager_setup_drive) refl in
              ran ∙ run ∙ ap (λ es. some (vols ++ numbered (length vols) (tagged d es))) (sym q)
        ]
      ]

  tagged-length : (d : Drive) (es : List Extent) → length (tagged d es) ≡ length es
  tagged-length d [] = refl
  tagged-length d (e ∷ es) = ap suc (tagged-length d es)

  numbered-length : (n : ℕ) (vs : List (Drive × Extent)) → length (numbered n vs) ≡ length vs
  numbered-length n [] = refl
  numbered-length n ((d, e) ∷ vs) = ap suc (numbered-length (n + 1) vs)

  numbered-append :
      (n : ℕ) (vs ws : List (Drive × Extent))
      → numbered n (vs ++ ws) ≡ numbered n vs ++ numbered (n + length vs) ws
  numbered-append n [] ws = ap (λ (k : ℕ). numbered k ws) (omega arith)
  numbered-append n ((d, e) ∷ vs) ws =
      ap (λ us. record { extent = e; parent_disk = d; id = n } ∷ us)
        (numbered-append (n + 1) vs ws
          ∙ ap (λ (k : ℕ). numbered (n + 1) vs ++ numbered k ws) (omega arith))

  setup_drives-numbered :
      (ds : List Drive) (vols : List (Registered disk))
      → All (λ d. IsReadable (disk d)) ds
      → length vols + length (all_found ds) ≤ max_volumes
      → setup_drives disk ds vols ≡ some (vols ++ numbered (length vols) (all_found ds))
  unfolding setup_drives
  setup_drives-numbered [] vols r h = ap some (sym (append-nil vols))
  setup_drives-numbered (d ∷ ds) vols r h =
      let here = tagged d (found (disk d)) in
      let both = length-append here (all_found ds) in
      let size = tagged-length d (found (disk d)) in
      let vols' = vols ++ numbered (length vols) here in
      let longer : length vols' ≡ length vols + length here =
        length-append vols _
        ∙ ap (λ (k : ℕ). length vols + k) (numbered-length (length vols) here) in
      let first = setup_drive-numbered d vols r.0 (omega (arith, h, both, size)) in
      let rest = setup_drives-numbered ds vols' r.1 (omega (arith, h, both, longer)) in
      ap (λ o. next disk o (setup_drives disk ds)) first
      ∙ rest
      ∙ ap (λ (n : ℕ). some (vols' ++ numbered n (all_found ds))) longer
      ∙ ap some (
          append_assoc vols _ _
          ∙ ap (λ vs. vols ++ vs) (sym (numbered-append (length vols) here (all_found ds))))

  -- Where the driver of each drive can read, the buffers hold a sector, and at most 16 volumes are
  -- found: `diskmanager_init` registers, drive by drive and numbered from 0, the partitions of each
  -- drive whose sector 0 is read and has a boot signature, or one volume for the whole drive if its
  -- table is not accepted, and nothing for the other drives; then it reads from each volume once.
  pub diskmanager_init_lem :
      (ds : List Drive)
      → All (λ d. IsReadable (disk d)) ds
      → length (all_found ds) ≤ max_volumes
      → let vols = numbered 0 (all_found ds) in
        diskmanager_init disk ds ≡ some (vols, map (diskmanager_setup_partitions disk) vols)
  unfolding diskmanager_init
  diskmanager_init_lem ds r h =
      rw (setup_drives-numbered ds [] r (omega arith), diskmanager_init) refl
