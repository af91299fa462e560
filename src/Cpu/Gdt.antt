-- ===== src/Cpu/Gdt.antt =====
-- `create_gdt_entry` of kernel/arch/x86_64/gdt.c. `k_panic` halts the machine: it is `none`.
pub mod Fields
use project_luciano.Base.{
  ℕ, zero, suc, ◌+◌, ◌-◌, ◌*◌, ◌/◌, ◌%◌, ◌^◌, ◌≤◌, ◌<◌, min, max, bit_and, bit_or, bit_xor, ◌≡◌,
  refl, sym, ap, ap₂, ◌∙◌, fun_ext, subst, ◌≢◌, ◌↔◌, ◌⊎◌, inl, inr, Bool, true, false, not, ◌&&◌,
  ◌||◌, Option, none, some, List, [], ◌∷◌, ◌++◌, map, append-nil, append_assoc, arith, ltb, leb,
  ◌==◌, if◌then◌else◌, ltb→lt, lt→ltb, leb→le, ==_iff, ==_refl, ==_ne, Bool-cases, Option-cases,
  length, get_elem?, get_or, set, take, drop, replicate, length-append, length-set, get_or-set_self,
  get_or-set_ne, get_elem?-eq-get_or, length-take, length-drop, length-replicate, take_all,
  take-append, drop-append, All,
}

-- `gdt` of kernel/include/arch/x86_64/gdt.h: `uint32_t`, `uint32_t`, `uint8_t` and `uint8_t`.
pub record Gdt : Type 0 where
  pub base : ℕ
  pub limit : ℕ
  pub access_byte : ℕ
  pub flag : ℕ

-- The six fields, or-ed in the source's order into a `gdt_entry_t`, a `uint64_t`.
unfoldable pub packed : Gdt → ℕ
packed entry =
    let base_high = bit_and entry.base ((2 ^ 8 - 1) * 2 ^ 24) * 2 ^ 32 in
    let flags = bit_or base_high (bit_and entry.flag (2 ^ 4 - 1) * 2 ^ 52) in
    let limits = bit_or flags (bit_and (entry.limit / 2 ^ 16) (2 ^ 4 - 1) * 2 ^ 48) in
    let access = bit_or limits (entry.access_byte * 2 ^ 40) in
    let base_low = bit_or access (bit_and entry.base (2 ^ 24 - 1) * 2 ^ 16) in
    bit_or base_low (bit_and entry.limit (2 ^ 16 - 1))

unfoldable pub create_gdt_entry : Gdt → Option ℕ
unfolding packed
create_gdt_entry entry =
    if ltb 1048575 entry.limit
    then none
    else if ltb 15 entry.flag
    then none
    else some (packed entry)
