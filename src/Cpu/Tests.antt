-- ===== src/Cpu/Tests.antt =====
-- The tables at concrete addresses.
use project_luciano.Base.{ℕ, ◌+◌, ◌*◌, ◌/◌, ◌^◌, ◌≡◌, some, arith, length, get_elem?}
use project_luciano.Cpu.Idt.{IdtEntry, handler_of}
use project_luciano.Cpu.Gdt.{Gdt}
use project_luciano.Cpu.Tables.{GdtState, gdt_init, idt_init, sizeof_tss}
use project_luciano.Cpu.Tables.Loaded.{
  segment, is_code, is_stack, Finds, gdt_init_lem, idt_init_lem,
}
use project_luciano.Sched.Create.{Privilege, by_privilege}

abbrev stubs : ℕ → ℕ
stubs i = 0xffffffff80001000 + 16 * i

idt_init_lem_example :
    (d : IdtEntry) × (get_elem? (idt_init stubs 0xffffffff80200000).table 32 ≡ some d)
    × (handler_of d ≡ stubs 32)
    × (d.attributes ≡ 0x8E)
    × (d.segment_selector ≡ 0x08)
    × ((idt_init stubs 0xffffffff80200000).registry.size + 1
        ≡ 16 * length (idt_init stubs 0xffffffff80200000).table)
idt_init_lem_example = idt_init_lem stubs 0xffffffff80200000 32 (omega arith) (omega arith)

gdt_init_lem_example :
    (g : GdtState) × (gdt_init 0xffffffff80100000 0xffffffff80300040 ≡ some g)
    × ((p : Privilege) → Finds g (by_privilege p 0x1b 0x08) (by_privilege p 3 0) is_code)
    × ((p : Privilege) → Finds g (by_privilege p 0x23 0x10) (by_privilege p 3 0) is_stack)
    × ((d : Gdt) × (high : ℕ) × (segment g g.task_register ≡ some d)
        × (get_elem? g.table (g.task_register / 8 + 1) ≡ some high)
        × (d.base + high * 2 ^ 32 ≡ 0xffffffff80300040)
        × (d.limit + 1 ≡ sizeof_tss)
        × (d.access_byte ≡ 0x89))
    × (g.registry.size + 1 ≡ 8 * length g.table)
gdt_init_lem_example = gdt_init_lem 0xffffffff80100000 0xffffffff80300040 (omega arith)
