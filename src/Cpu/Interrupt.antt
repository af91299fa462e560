-- ===== src/Cpu/Interrupt.antt =====
-- kernel/arch/x86_64/isr.c and kernel/arch/x86_64/pic.c: the writes to the ports, in their order, each
-- with its port. Log lines are left out, and an exception ends in a panic.
use project_luciano.Base.{
  ℕ, ◌&&◌, Option, none, some, List, [], ◌∷◌, ◌++◌, leb, ◌==◌, if◌then◌else◌,
}

abbrev pub Writes : Type 0
Writes = List (ℕ × ℕ)

abbrev pub master_cmd_port : ℕ
master_cmd_port = 0x20

abbrev pub master_data_port : ℕ
master_data_port = 0x21

abbrev pub slave_cmd_port : ℕ
slave_cmd_port = 0xA0

abbrev pub slave_data_port : ℕ
slave_data_port = 0xA1

abbrev pub cmd_init : ℕ
cmd_init = 0x11

abbrev pub eoi : ℕ
eoi = 0x20

unfoldable pub pic_init : Writes
pic_init =
    (master_data_port, 0xFF)
    ∷ (slave_data_port, 0xFF)
    ∷ (master_cmd_port, cmd_init)
    ∷ (slave_cmd_port, cmd_init)
    ∷ (master_data_port, 32)
    ∷ (slave_data_port, 40)
    ∷ (master_data_port, 0x04)
    ∷ (slave_data_port, 0x02)
    ∷ (master_data_port, 0x01)
    ∷ (slave_data_port, 0x01)
    ∷ (master_data_port, 0)
    ∷ (slave_data_port, 0)
    ∷ []

unfoldable pub pic_eoi : ℕ → Writes
pic_eoi vector =
    if leb 32 vector && leb vector 47
    then (if leb 40 vector then (slave_cmd_port, eoi) ∷ [] else []) ++ ((master_cmd_port, eoi) ∷ [])
    else []

-- What a handler does: the writes, and the ports that it reads.
pub record Effect : Type 0 where
  pub writes : Writes
  pub reads : List ℕ

-- `keyboard_handler` reads the scan code and drops it.
unfoldable pub keyboard_handler : Effect
keyboard_handler = record { writes = []; reads = 0x60 ∷ [] }

unfoldable pub irq_handler : ℕ → Effect
irq_handler vector =
    if vector == 33
    then record {
      writes = pic_eoi vector ++ keyboard_handler.writes;
      reads = keyboard_handler.reads;
    }
    else record { writes = pic_eoi vector; reads = [] }

-- A software interrupt is logged only.
unfoldable pub software_interrupt_handler : ℕ → Effect
software_interrupt_handler vector = record { writes = []; reads = [] }

-- `none` is the panic.
unfoldable pub exception_handler : ℕ → Option Effect
exception_handler vector =
    if leb 32 vector && leb vector 47
    then some (irq_handler vector)
    else if leb 0x30 vector
    then some (software_interrupt_handler vector)
    else none
