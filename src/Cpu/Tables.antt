-- ===== src/Cpu/Tables.antt =====
-- The tables that kernel/arch/x86_64 builds at boot: `gdt_init` of gdt.c, `idt_init` of idt.c, and the
-- task state segment of tss.c. Loading a table into the processor is assembler: what is loaded is the
-- result.
pub mod Loaded
use project_luciano.Base.{
  ℕ, zero, suc, ◌+◌, ◌-◌, ◌*◌, ◌/◌, ◌%◌, ◌^◌, ◌≤◌, ◌<◌, min, max, bit_and, bit_or, bit_xor, ◌≡◌,
  refl, sym, ap, ap₂, ◌∙◌, fun_ext, subst, ◌≢◌, ◌↔◌, ◌⊎◌, inl, inr, Bool, true, false, not, ◌&&◌,
  ◌||◌, Option, none, some, List, [], ◌∷◌, ◌++◌, map, append-nil, append_assoc, arith, ltb, leb,
  ◌==◌, if◌then◌else◌, ltb→lt, lt→ltb, leb→le, ==_iff, ==_refl, ==_ne, Bool-cases, Option-cases,
  length, get_elem?, get_or, set, take, drop, replicate, length-append, length-set, get_or-set_self,
  get_or-set_ne, get_elem?-eq-get_or, length-take, length-drop, length-replicate, take_all,
  take-append, drop-append, All,
}
use project_luciano.Cpu.Gdt.{Gdt, create_gdt_entry}
use project_luciano.Cpu.Gdt.Fields.{IsGdt, read_descriptor, read_entry, create_gdt_entry_lem}
use project_luciano.Cpu.Idt.{
  IdtEntry, gdt_offset_kernel_code, create_idt_entry, handler_of, handler-create_idt_entry,
}

-- `tss_t`
pub record Tss : Type 0 where
  pub reserved0 : ℕ
  pub rsp0 : ℕ
  pub rsp1 : ℕ
  pub rsp2 : ℕ
  pub reserved1 : ℕ
  pub ist1 : ℕ
  pub ist2 : ℕ
  pub ist3 : ℕ
  pub ist4 : ℕ
  pub ist5 : ℕ
  pub ist6 : ℕ
  pub ist7 : ℕ
  pub reserved2 : ℕ
  pub reserved3 : ℕ
  pub iomap_base : ℕ

-- The struct is packed: two `uint32_t`, eleven 64-bit fields and two `uint16_t`.
abbrev pub sizeof_tss : ℕ
sizeof_tss = 2 * 4 + 11 * 8 + 2 * 2

-- `memset` to 0, and the offset of a map behind the end.
unfoldable pub tss_init : Tss
tss_init = record {
  reserved0 = 0;
  rsp0 = 0;
  rsp1 = 0;
  rsp2 = 0;
  reserved1 = 0;
  ist1 = 0;
  ist2 = 0;
  ist3 = 0;
  ist4 = 0;
  ist5 = 0;
  ist6 = 0;
  ist7 = 0;
  reserved2 = 0;
  reserved3 = 0;
  iomap_base = sizeof_tss;
}

unfoldable pub tss_update : ℕ → Tss → Tss
tss_update rsp0 t = record t { rsp0 = rsp0 }

-- `gdtr` and `idtr`
pub record Registry : Type 0 where
  pub size : ℕ
  pub offset : ℕ

-- What is loaded: the entries, where they stand, and the selector of the task register.
pub record GdtState : Type 0 where
  pub table : List ℕ
  pub registry : Registry
  pub task_register : ℕ

abbrev pub null_gdt : Gdt
null_gdt = record { base = 0; limit = 0; access_byte = 0; flag = 0 }

abbrev pub kernel_code : Gdt
kernel_code = record { base = 0; limit = 0xFFFFF; access_byte = 0x9a; flag = 0xa }

abbrev pub kernel_data : Gdt
kernel_data = record { base = 0; limit = 0xFFFFF; access_byte = 0x92; flag = 0xc }

abbrev pub user_code : Gdt
user_code = record { base = 0; limit = 0xFFFFF; access_byte = 0xfa; flag = 0xa }

abbrev pub user_data : Gdt
user_data = record { base = 0; limit = 0xFFFFF; access_byte = 0xf2; flag = 0xc }

abbrev pub tss_gdt : ℕ → Gdt
tss_gdt tss_address = record {
  base = bit_and tss_address 0xFFFFFFFF;
  limit = sizeof_tss - 1;
  access_byte = 0x89;
  flag = 0;
}

-- The entries in order; one that panics leaves no table.
abbrev pub prepend : Option ℕ → Option (List ℕ) → Option (List ℕ)
prepend none r = none
prepend (some v) none = none
prepend (some v) (some vs) = some (v ∷ vs)

unfoldable pub create_entries : List Gdt → Option (List ℕ)
create_entries [] = some []
create_entries (g ∷ gs) = prepend (create_gdt_entry g) (create_entries gs)

-- The second half of the TSS descriptor is the high half of the address of the TSS.
abbrev pub load_gdt : ℕ → ℕ → Option (List ℕ) → Option GdtState
load_gdt table_address tss_address none = none
load_gdt table_address tss_address (some vs) = some (record {
  table = vs ++ ((tss_address / 2 ^ 32) ∷ []);
  registry = record { size = 8 * 8 - 1; offset = table_address };
  task_register = 0x30;
})

-- `gdt_init`, whose table stands at `table_address`.
unfoldable pub gdt_init : ℕ → ℕ → Option GdtState
unfolding create_entries
gdt_init table_address tss_address = load_gdt table_address tss_address (
    create_entries (
      null_gdt
      ∷ kernel_code
      ∷ kernel_data
      ∷ user_code
      ∷ user_data
      ∷ user_code
      ∷ tss_gdt tss_address
      ∷ []))

-- IDT_MAX_DESCRIPTORS, and the attributes of an interrupt gate that is present.
abbrev pub max_descriptors : ℕ
max_descriptors = 256

abbrev pub interrupt_gate : ℕ
interrupt_gate = 0x8E

-- The loop over the vectors from `i` on, with the rounds that are left. The table of stubs is filled by
-- the assembler.
unfoldable pub fill_idt : (ℕ → ℕ) → ℕ → ℕ → List IdtEntry
fill_idt isr_stub_table zero i = []
fill_idt isr_stub_table (suc rounds) i =
    create_idt_entry (isr_stub_table i) interrupt_gate ∷ fill_idt isr_stub_table rounds (i + 1)

pub record IdtState : Type 0 where
  pub table : List IdtEntry
  pub registry : Registry

unfoldable pub idt_init : (ℕ → ℕ) → ℕ → IdtState
unfolding fill_idt
idt_init isr_stub_table table_address = record {
  table = fill_idt isr_stub_table max_descriptors 0;
  registry = record { size = 16 * max_descriptors - 1; offset = table_address };
}
