-- ===== src/Disk/Ide/Ports.antt =====
-- The ports of kernel/drivers/ide/ide.c, and its waits for the device: what the `n`-th read of a port
-- gives is a parameter. A run is `none` where a waiting loop does not end within its rounds.
use project_luciano.Base.{
  ℕ, zero, suc, ◌+◌, ◌%◌, bit_and, Bool, not, ◌&&◌, Option, none, some, List, [], ◌∷◌, ◌++◌, ◌==◌,
  if◌then◌else◌,
}

-- The number of reads so far, and the writes in their order, each with its port.
pub record Io : Type 0 where
  pub reads : ℕ
  pub writes : List (ℕ × ℕ)

abbrev pub Cmd : Type 0 → Type 0
Cmd A = Io → Option (A × Io)

abbrev pub pure : {A : Type 0} → A → Cmd A
pure a s = some (a, s)

abbrev pub give : {A : Type 0} → Option A → Cmd A
give none s = none
give (some a) s = some (a, s)

module _ {A B : Type 0} where
  abbrev pub and_then : Option (A × Io) → (A → Cmd B) → Option (B × Io)
  and_then none k = none
  and_then (some (a, s)) k = k a s

  infixl 5 ◌>>=◌ ◌>>◌
  abbrev pub ◌>>=◌ : Cmd A → (A → Cmd B) → Cmd B
  c >>= k = λ s. and_then (c s) k

  abbrev pub ◌>>◌ : Cmd A → Cmd B → Cmd B
  c >> k = c >>= λ _. k

abbrev pub primary_base : ℕ
primary_base = 0x1F0

abbrev pub secondary_base : ℕ
secondary_base = 0x170

abbrev pub master : ℕ
master = 0xA0

abbrev pub slave : ℕ
slave = 0xB0

abbrev pub status_offset : ℕ
status_offset = 7

abbrev pub control_offset : ℕ
control_offset = 0x206

unfoldable pub outb : ℕ → ℕ → Cmd (Unit {0})
outb port v s = some (tt, record s { writes = s.writes ++ ((port, v % 256) ∷ []) })

-- IDE_STATUS_ERR, IDE_STATUS_BSY and IDE_STATUS_DRQ
unfoldable pub has_err : ℕ → Bool
has_err status = not (bit_and status 0x01 == 0)

unfoldable pub is_ready : ℕ → Bool
is_ready status = (bit_and status 0x80 == 0) && not (bit_and status 0x08 == 0)

-- How a wait for data ends.
pub data Wait : Type 0 where
  failed ready : Wait

abbrev pub if_ready : Wait → Cmd Wait → Cmd Wait
if_ready failed k = pure failed
if_ready ready k = k

-- What needs no bound on the waiting, and the single loops.
module _ (device : ℕ → ℕ → ℕ) where
  -- `inb` and `inw`
  unfoldable pub port_in : ℕ → Cmd ℕ
  port_in port s = some (device s.reads port, record s { reads = s.reads + 1 })

  unfoldable pub ide_delay : ℕ → Cmd (Unit {0})
  unfolding port_in
  ide_delay channel = do
    port_in (channel + control_offset)
    port_in (channel + control_offset)
    port_in (channel + control_offset)
    port_in (channel + control_offset)
    pure tt

  unfoldable pub delays : ℕ → ℕ → Cmd (Unit {0})
  unfolding ide_delay
  delays zero channel = pure tt
  delays (suc n) channel = do ide_delay channel; delays n channel

  -- `while (inb(port) & 0x80);`
  unfoldable pub wait_idle : ℕ → ℕ → Cmd (Unit {0})
  unfolding port_in
  wait_idle zero port s = none
  wait_idle (suc n) port s =
      (do
        v ← port_in port
        λ u. let rest = wait_idle n port u in if bit_and v 0x80 == 0 then some (tt, u) else rest)
        s

  -- `while (1)`: until the device reports an error or has data.
  unfoldable pub wait_data : ℕ → ℕ → Cmd Wait
  unfolding port_in
  wait_data zero channel s = none
  wait_data (suc n) channel s =
      (do
        status ← port_in (channel + status_offset)
        λ u.
            let rest = wait_data n channel u in
            if has_err status
            then some (failed, u)
            else if is_ready status
            then some (ready, u)
            else rest)
        s

  -- The status once more, behind the wait.
  unfoldable pub settled : ℕ → Cmd Wait
  unfolding port_in
  settled channel = do
    status ← port_in (channel + status_offset)
    pure (if has_err status then failed else ready)

  -- `n` words from the data port.
  unfoldable pub read_words : ℕ → ℕ → Cmd (List ℕ)
  unfolding port_in
  read_words zero channel = pure []
  read_words (suc n) channel = do w ← port_in channel; ws ← read_words n channel; pure (w ∷ ws)
