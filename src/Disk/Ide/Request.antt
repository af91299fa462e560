-- ===== src/Disk/Ide/Request.antt =====
-- The request that `ide_read` writes to the ports, as the drive takes it.
use project_luciano.Base.{
  ℕ, ◌+◌, ◌-◌, ◌*◌, ◌/◌, ◌%◌, ◌^◌, ◌≤◌, ◌<◌, min, bit_and, bit_or, ◌≡◌, refl, ◌∙◌, ◌⊎◌, inl, inr,
  some, List, [], ◌∷◌, ◌++◌, append_assoc, arith, false, ◌≢◌, ==_refl, ◌==◌, if◌then◌else◌,
}
use project_luciano.Base.Bits.{bit_and_mask, bit_or_high_low}
use project_luciano.Disk.Ide.{Private, request, read_limit}
use project_luciano.Disk.Ide.Ports.{Io, master, slave, outb}

-- The registers of a drive: what was written last to each port.
abbrev pub Registers : Type 0
Registers = ℕ → ℕ

-- The commands that a drive gets, each with the registers at that moment: a write to the command port
-- starts a command, and a write to another port changes a register.
unfoldable pub issued : ℕ → Registers → List (ℕ × ℕ) → List (ℕ × Registers)
issued channel regs [] = []
issued channel regs ((port, v) ∷ ws) =
    if port == channel + 7
    then (v, regs) ∷ issued channel regs ws
    else issued channel (λ q. if q == port then v else regs q) ws

-- What the drive reads: the sector address of 28 bits, and the number of sectors.
abbrev pub asked_lba : ℕ → Registers → ℕ
asked_lba channel regs =
    regs (channel + 3)
    + regs (channel + 4) * 2 ^ 8
    + regs (channel + 5) * 2 ^ 16
    + regs (channel + 6) % 16 * 2 ^ 24

abbrev pub asked_count : ℕ → Registers → ℕ
asked_count channel regs = regs (channel + 2)

-- Whatever the registers held: the only command is to read, with the registers set before it.
abbrev pub IsRequest : Private → ℕ → ℕ → List (ℕ × ℕ) → Type 0
IsRequest p lba limit ws =
    (before : Registers)
    → (regs : Registers) × (issued p.channel before ws ≡ (0x20, regs) ∷ [])
      × (asked_lba p.channel regs ≡ lba)
      × (asked_count p.channel regs ≡ limit)
      × (regs (p.channel + 6) / 16 ≡ 0xE0 / 16 + (if p.drive == slave then 1 else 0))

select_master : (d : ℕ) → d < 16 → bit_or (bit_or 0xE0 master) d ≡ 0xE0 + d
select_master d h = bit_or_high_low 4 14 d h

select_slave : (d : ℕ) → d < 16 → bit_or (bit_or 0xE0 slave) d ≡ 0xF0 + d
select_slave d h = bit_or_high_low 4 15 d h

-- The size is not below the start, and no sum wraps: the limit is what was asked for, but at most what
-- is left of the drive, and at most 255.
pub read_limit_lem :
    (size lba count : ℕ)
    → lba ≤ size
    → size < 2 ^ 64
    → count + lba < 2 ^ 64
    → read_limit size lba count ≡ min 255 (min count (size - lba))
unfolding read_limit
read_limit_lem size lba count h k l = ground arith

abbrev select : Private → ℕ → ℕ
select p lba = bit_or (bit_or 0xE0 p.drive) (bit_and (lba / 2 ^ 24) 0x0F)

abbrev sent : Private → ℕ → ℕ → List (ℕ × ℕ)
sent p lba limit =
    (p.channel + 6, select p lba % 256)
    ∷ (p.channel + 2, limit % 256)
    ∷ (p.channel + 3, bit_and lba 0xFF % 256)
    ∷ (p.channel + 4, bit_and (lba / 2 ^ 8) 0xFF % 256)
    ∷ (p.channel + 5, bit_and (lba / 2 ^ 16) 0xFF % 256)
    ∷ (p.channel + 7, 0x20)
    ∷ []

sent-writes :
    (p : Private) (lba limit : ℕ) (s : Io)
    → request p lba limit s ≡ some (tt, record s { writes = s.writes ++ sent p lba limit })
unfolding request outb
sent-writes p lba limit s = simp append_assoc refl

selected :
    (p : Private) (lba : ℕ)
    → (p.drive ≡ master) ⊎ (p.drive ≡ slave)
    → lba < 2 ^ 28
    → select p lba ≡ 0xE0 + (if p.drive == slave then 16 else 0) + lba / 2 ^ 24
selected p lba (inl e) h =
    let top : bit_and (lba / 2 ^ 24) 0x0F ≡ lba / 2 ^ 24 =
      bit_and_mask 4 (lba / 2 ^ 24) ∙ omega arith in
    rw (e, top) (select_master (lba / 2 ^ 24) (omega arith))
selected p lba (inr e) h =
    let top : bit_and (lba / 2 ^ 24) 0x0F ≡ lba / 2 ^ 24 =
      bit_and_mask 4 (lba / 2 ^ 24) ∙ omega arith in
    rw (e, top) (select_slave (lba / 2 ^ 24) (omega arith))

abbrev put_register : ℕ → ℕ → Registers → Registers
put_register port v regs q = if q == port then v else regs q

-- The registers when the command is written.
abbrev asked : Private → ℕ → ℕ → Registers → Registers
asked p lba limit regs = put_register (p.channel + 5) (bit_and (lba / 2 ^ 16) 0xFF % 256) (
    put_register (p.channel + 4) (bit_and (lba / 2 ^ 8) 0xFF % 256) (
      put_register (p.channel + 3) (bit_and lba 0xFF % 256) (
        put_register (p.channel + 2) (limit % 256)
          (put_register (p.channel + 6) (select p lba % 256) regs))))

other_port : (channel i j : ℕ) → i ≢ j → (channel + i == channel + j) ≡ false
other_port channel i j ne = ground arith

issued-sent :
    (p : Private) (lba limit : ℕ) (regs : Registers)
    → issued p.channel regs (sent p lba limit) ≡ (0x20, asked p lba limit regs) ∷ []
unfolding issued
issued-sent p lba limit regs =
    let c = p.channel in
    rw
      (
        other_port c 6 7 (omega arith),
        other_port c 2 7 (omega arith),
        other_port c 3 7 (omega arith),
        other_port c 4 7 (omega arith),
        other_port c 5 7 (omega arith),
        ==_refl (c + 7),
      )
      refl

-- A request for at most 255 sectors at an address below 2 ^ 28 tells the drive that address, the
-- number of sectors, and which of the two drives is meant, and then gives it the command to read, and
-- no other, whatever was written before.
pub request-IsRequest :
    (p : Private) (lba limit : ℕ) (s : Io)
    → (p.drive ≡ master) ⊎ (p.drive ≡ slave)
    → lba < 2 ^ 28
    → limit < 256
    → (ws : List (ℕ × ℕ)) × (request p lba limit s
        ≡ some (tt, record s { writes = s.writes ++ ws }))
      × IsRequest p lba limit ws
request-IsRequest p lba limit s which small few =
    let top = selected p lba which small in
    let low = bit_and_mask 8 lba in
    let mid = bit_and_mask 8 (lba / 2 ^ 8) in
    let high = bit_and_mask 8 (lba / 2 ^ 16) in
    (
      sent p lba limit,
      sent-writes p lba limit s,
      λ regs. (
        asked p lba limit regs,
        issued-sent p lba limit regs,
        ground (arith, top, low, mid, high),
        ground arith,
        ground (arith, top),
      ),
    )
