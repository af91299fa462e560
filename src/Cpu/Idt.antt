-- ===== src/Cpu/Idt.antt =====
-- `create_idt_entry` of kernel/arch/x86_64/idt.c.
use project_luciano.Base.{ℕ, ◌+◌, ◌-◌, ◌*◌, ◌/◌, ◌^◌, ◌<◌, bit_and, ◌≡◌, arith}
use project_luciano.Base.Bits.{bit_and_mask}

abbrev pub gdt_offset_kernel_code : ℕ
gdt_offset_kernel_code = 8

-- `idt_entry` of kernel/include/arch/x86_64/idt.h.
pub record IdtEntry : Type 0 where
  pub offset_low : ℕ
  pub segment_selector : ℕ
  pub ist : ℕ
  pub attributes : ℕ
  pub offset_mid : ℕ
  pub offset_high : ℕ
  pub zero_field : ℕ

unfoldable pub create_idt_entry : ℕ → ℕ → IdtEntry
create_idt_entry offset flags = record {
  offset_low = bit_and offset (2 ^ 16 - 1);
  segment_selector = gdt_offset_kernel_code;
  ist = 0;
  attributes = flags;
  offset_mid = bit_and (offset / 2 ^ 16) (2 ^ 16 - 1);
  offset_high = bit_and (offset / 2 ^ 32) (2 ^ 32 - 1);
  zero_field = 0;
}

-- The address that the processor jumps to.
abbrev pub handler_of : IdtEntry → ℕ
handler_of d = d.offset_low + d.offset_mid * 2 ^ 16 + d.offset_high * 2 ^ 32

-- The handler's address is put together again from its three parts, whatever 64-bit address it is.
pub handler-create_idt_entry :
    (offset flags : ℕ) → offset < 2 ^ 64 → handler_of (create_idt_entry offset flags) ≡ offset
unfolding create_idt_entry
handler-create_idt_entry offset flags h = omega (
  arith,
  bit_and_mask 16 offset,
  bit_and_mask 16 (offset / 2 ^ 16),
  bit_and_mask 32 (offset / 2 ^ 32),
)
