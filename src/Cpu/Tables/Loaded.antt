-- ===== src/Cpu/Tables/Loaded.antt =====
-- What the processor finds in the tables that `gdt_init` and `idt_init` of kernel/arch/x86_64 load.
use project_luciano.Base.{
  ℕ, zero, suc, ◌+◌, ◌*◌, ◌/◌, ◌%◌, ◌^◌, ◌<◌, bit_and, ◌≡◌, refl, ap, ◌∙◌, Bool, true, not, ◌&&◌,
  Option, none, some, [], ◌∷◌, arith, ◌==◌, length, get_elem?,
}
use project_luciano.Base.Bits.{bit_and_mask}
use project_luciano.Cpu.Gdt.{Gdt, packed, create_gdt_entry}
use project_luciano.Cpu.Gdt.Fields.{IsGdt, read_descriptor, read_entry, create_gdt_entry_lem}
use project_luciano.Cpu.Idt.{IdtEntry, create_idt_entry, handler_of, handler-create_idt_entry}
use project_luciano.Cpu.Tables.{
  GdtState, kernel_code, kernel_data, user_code, user_data, null_gdt, tss_gdt, create_entries,
  gdt_init, interrupt_gate, fill_idt, idt_init, sizeof_tss,
}
use project_luciano.Sched.Create.{Privilege, privilege_kernel, privilege_user, by_privilege}

fill_idt_lem :
    (stubs : ℕ → ℕ) (rounds i v : ℕ)
    → v < rounds
    → get_elem? (fill_idt stubs rounds i) v ≡ some (create_idt_entry (stubs (i + v)) interrupt_gate)
unfolding fill_idt
fill_idt_lem stubs zero i v h = absurd (omega arith)
fill_idt_lem stubs (suc rounds) i zero h =
    ap (λ k. some (create_idt_entry (stubs k) interrupt_gate)) (omega arith)
fill_idt_lem stubs (suc rounds) i (suc v) h =
    fill_idt_lem stubs rounds (i + 1) v (omega arith)
    ∙ ap (λ k. some (create_idt_entry (stubs k) interrupt_gate)) (omega arith)

-- Every interrupt vector leads to its stub: the entry that `idt_init` puts at a vector below 256 holds
-- the whole 64-bit address of that vector's stub, is a present interrupt gate, and runs in the kernel's
-- code segment; the size that is loaded covers the 256 entries of 16 bytes.
pub idt_init_lem :
    (stubs : ℕ → ℕ) (table_address vector : ℕ)
    → vector < 256
    → stubs vector < 2 ^ 64
    → (d : IdtEntry) × (get_elem? (idt_init stubs table_address).table vector ≡ some d)
      × (handler_of d ≡ stubs vector)
      × (d.attributes ≡ 0x8E)
      × (d.segment_selector ≡ 0x08)
      × ((idt_init stubs table_address).registry.size + 1
          ≡ 16 * length (idt_init stubs table_address).table)
unfolding idt_init create_idt_entry
idt_init_lem stubs table_address vector h small = (
  create_idt_entry (stubs vector) interrupt_gate,
  fill_idt_lem stubs 256 0 vector h
      ∙ ap (λ k. some (create_idt_entry (stubs k) interrupt_gate)) (omega arith),
  handler-create_idt_entry (stubs vector) interrupt_gate small,
  refl,
  refl,
  refl,
)

-- A segment as a selector finds it: the descriptor at its index.
abbrev pub decoded : Option ℕ → Option Gdt
decoded none = none
decoded (some v) = some (read_descriptor v)

abbrev pub segment : GdtState → ℕ → Option Gdt
segment g selector = decoded (get_elem? g.table (selector / 8))

-- The ring of a segment, and a bit of its access byte.
abbrev pub ring : Gdt → ℕ
ring d = d.access_byte / 2 ^ 5 % 4

abbrev pub access_bit : Gdt → ℕ → Bool
access_bit d i = d.access_byte / 2 ^ i % 2 == 1

-- A segment of code for 64 bits: no system descriptor, executable, with the L flag and without D.
abbrev pub is_code : Gdt → Bool
is_code d = access_bit d 4 && access_bit d 3 && (d.flag / 2 % 4 == 1)

-- A segment for a stack: no system descriptor, not executable, writable, and not expanding down.
abbrev pub is_stack : Gdt → Bool
is_stack d = access_bit d 4 && not (access_bit d 3) && not (access_bit d 2) && access_bit d 1

abbrev pub is_present : Gdt → Bool
is_present d = d.access_byte / 2 ^ 7 % 2 == 1

tss_entry :
    (a : ℕ) → (v : ℕ) × (create_gdt_entry (tss_gdt a) ≡ some v) × (read_descriptor v ≡ tss_gdt a)
tss_entry a =
    let small : bit_and a 0xFFFFFFFF < 2 ^ 32 = omega (arith, bit_and_mask 32 a) in
    let valid : IsGdt (tss_gdt a) = record {
      base = small;
      limit = omega arith;
      access_byte = omega arith;
      flag = omega arith;
    } in
    found (create_gdt_entry (tss_gdt a)) (create_gdt_entry_lem (tss_gdt a) valid)
  where
    found :
        (o : Option ℕ)
        → read_entry o ≡ some (tss_gdt a)
        → (v : ℕ) × (o ≡ some v) × (read_descriptor v ≡ tss_gdt a)
    found none q = absurd (ground (arith, q))
    found (some v) q = (v, refl, ground (arith, q))

null_gdt_entry : create_gdt_entry null_gdt ≡ some 0
unfolding create_gdt_entry packed
null_gdt_entry = refl

kernel_code_entry : create_gdt_entry kernel_code ≡ some 0x00AF9A000000FFFF
unfolding create_gdt_entry packed
kernel_code_entry = refl

kernel_data_entry : create_gdt_entry kernel_data ≡ some 0x00CF92000000FFFF
unfolding create_gdt_entry packed
kernel_data_entry = refl

user_code_entry : create_gdt_entry user_code ≡ some 0x00AFFA000000FFFF
unfolding create_gdt_entry packed
user_code_entry = refl

user_data_entry : create_gdt_entry user_data ≡ some 0x00CFF2000000FFFF
unfolding create_gdt_entry packed
user_data_entry = refl

-- What a selector finds: a present segment of this kind and ring, with base 0.
abbrev pub Finds : GdtState → ℕ → ℕ → (Gdt → Bool) → Type 0
Finds g selector level of_kind =
    (d : Gdt) × (segment g selector ≡ some d)
    × (is_present d ≡ true)
    × (ring d ≡ level)
    × (of_kind d ≡ true)
    × (d.base ≡ 0)

-- For a TSS at any 64-bit address `gdt_init` halts nowhere, and the processor finds what the selectors
-- of a new task ask for: behind its code selector (0x08 for the kernel, 0x1b for a user) a present
-- segment of 64-bit code of the task's ring, and behind its stack selector (0x10, 0x23) a present
-- segment of writable data of that ring that grows upwards, both with base 0. The task register leads
-- to the present descriptor of an available TSS, which with the entry behind it holds the whole 64-bit
-- address of the TSS and its size; the size that is loaded covers the 8 entries.
pub gdt_init_lem :
    (table_address tss_address : ℕ)
    → tss_address < 2 ^ 64
    → (g : GdtState) × (gdt_init table_address tss_address ≡ some g)
      × ((p : Privilege) → Finds g (by_privilege p 0x1b 0x08) (by_privilege p 3 0) is_code)
      × ((p : Privilege) → Finds g (by_privilege p 0x23 0x10) (by_privilege p 3 0) is_stack)
      × ((d : Gdt) × (high : ℕ) × (segment g g.task_register ≡ some d)
          × (get_elem? g.table (g.task_register / 8 + 1) ≡ some high)
          × (d.base + high * 2 ^ 32 ≡ tss_address)
          × (d.limit + 1 ≡ sizeof_tss)
          × (d.access_byte ≡ 0x89))
      × (g.registry.size + 1 ≡ 8 * length g.table)
unfolding gdt_init create_entries
gdt_init_lem table_address tss_address small =
    let (v, made, read) = tss_entry tss_address in
    let g : GdtState = record {
      table =
          0
          ∷ 0x00AF9A000000FFFF
          ∷ 0x00CF92000000FFFF
          ∷ 0x00AFFA000000FFFF
          ∷ 0x00CFF2000000FFFF
          ∷ 0x00AFFA000000FFFF
          ∷ v
          ∷ (tss_address / 2 ^ 32)
          ∷ [];
      registry = record { size = 63; offset = table_address };
      task_register = 0x30;
    } in
    let run : gdt_init table_address tss_address ≡ some g =
      rw
        (
          null_gdt_entry, kernel_code_entry, kernel_data_entry, user_code_entry, user_data_entry,
          made,
        )
        refl in
    (
      g,
      run,
      elim [
        | privilege_kernel ↦ (_, refl, refl, refl, refl, refl)
        | privilege_user ↦ (_, refl, refl, refl, refl, refl)
      ],
      elim [
        | privilege_kernel ↦ (_, refl, refl, refl, refl, refl)
        | privilege_user ↦ (_, refl, refl, refl, refl, refl)
      ],
      (
        tss_gdt tss_address,
        tss_address / 2 ^ 32,
        ap some read,
        refl,
        omega (arith, bit_and_mask 32 tss_address),
        refl,
        refl,
      ),
      refl,
    )
