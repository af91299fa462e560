-- ===== src/Cpu/Gdt/Fields.antt =====
-- The fields of a descriptor as the processor reads them.
use project_luciano.Base.{
  ℕ, ◌+◌, ◌*◌, ◌/◌, ◌%◌, ◌^◌, ◌≤◌, ◌<◌, bit_or, ◌≡◌, sym, subst, ◌&&◌, Option, none, some, arith,
  leb, if◌then◌else◌,
}
use project_luciano.Base.Bits.{bit_or_high_low, bit_and_mask, bit_and_high}
use project_luciano.Cpu.Gdt.{Gdt, packed, create_gdt_entry}

-- The widths of the struct's members.
pub record IsGdt (e : Gdt) : Type 0 where
  pub base : e.base < 2 ^ 32
  pub limit : e.limit < 2 ^ 32
  pub access_byte : e.access_byte < 2 ^ 8
  pub flag : e.flag < 2 ^ 8

-- The layout of a segment descriptor in the processor's manual.
abbrev pub base_of : ℕ → ℕ
base_of v = v / 2 ^ 16 % 2 ^ 24 + v / 2 ^ 56 % 2 ^ 8 * 2 ^ 24

abbrev pub limit_of : ℕ → ℕ
limit_of v = v % 2 ^ 16 + v / 2 ^ 48 % 2 ^ 4 * 2 ^ 16

abbrev pub access_of : ℕ → ℕ
access_of v = v / 2 ^ 40 % 2 ^ 8

abbrev pub flag_of : ℕ → ℕ
flag_of v = v / 2 ^ 52 % 2 ^ 4

abbrev pub read_descriptor : ℕ → Gdt
read_descriptor v = record {
  base = base_of v;
  limit = limit_of v;
  access_byte = access_of v;
  flag = flag_of v;
}

abbrev laid_out : Gdt → ℕ
laid_out e =
    e.base / 2 ^ 24 % 2 ^ 8 * 2 ^ 56
    + e.flag % 2 ^ 4 * 2 ^ 52
    + e.limit / 2 ^ 16 % 2 ^ 4 * 2 ^ 48
    + e.access_byte * 2 ^ 40
    + e.base % 2 ^ 24 * 2 ^ 16
    + e.limit % 2 ^ 16

or_at : (k x y : ℕ) → x % 2 ^ k ≡ 0 → y < 2 ^ k → bit_or x y ≡ x + y
or_at k x y h l =
    let e : x ≡ x / 2 ^ k * 2 ^ k = ground arith in
    subst (λ t. bit_or t y ≡ t + y) (sym e) (bit_or_high_low k (x / 2 ^ k) y l)

packed_lem : (e : Gdt) → e.access_byte < 2 ^ 8 → packed e ≡ laid_out e
unfolding packed
packed_lem e h =
    let high = e.base / 2 ^ 24 % 2 ^ 8 * 2 ^ 24 * 2 ^ 32 in
    let flags = e.flag % 2 ^ 4 * 2 ^ 52 in
    let limits = e.limit / 2 ^ 16 % 2 ^ 4 * 2 ^ 48 in
    let access = e.access_byte * 2 ^ 40 in
    let low = e.base % 2 ^ 24 * 2 ^ 16 in
    let e1 : bit_or high flags ≡ high + flags = or_at 56 high flags (omega arith) (omega arith) in
    let e2 : bit_or (high + flags) limits ≡ high + flags + limits =
      or_at 52 (high + flags) limits (omega arith) (omega arith) in
    let e3 : bit_or (high + flags + limits) access ≡ high + flags + limits + access =
      or_at 48 (high + flags + limits) access (omega arith) (omega arith) in
    let e4 : bit_or (high + flags + limits + access) low ≡ high + flags + limits + access + low =
      or_at 40 (high + flags + limits + access) low (omega arith) (omega arith) in
    let e5 =
      or_at 16 (high + flags + limits + access + low) (e.limit % 2 ^ 16) (omega arith)
        (omega arith) in
    rw
      (
        bit_and_high 8 24 e.base,
        bit_and_mask 4 e.flag,
        bit_and_mask 4 (e.limit / 2 ^ 16),
        bit_and_mask 24 e.base,
        bit_and_mask 16 e.limit,
        e1,
        e2,
        e3,
        e4,
        e5,
      )
      (omega arith)

abbrev pub read_entry : Option ℕ → Option Gdt
read_entry none = none
read_entry (some v) = some (read_descriptor v)

read-laid_out :
    (e : Gdt) → IsGdt e → e.limit ≤ 1048575 → e.flag ≤ 15 → read_descriptor (laid_out e) ≡ e
read-laid_out e s l f =
    let b : base_of (laid_out e) ≡ e.base = omega (arith, s.base, s.access_byte) in
    let m : limit_of (laid_out e) ≡ e.limit = omega (arith, s.base, s.access_byte) in
    let a : access_of (laid_out e) ≡ e.access_byte = omega (arith, s.base, s.access_byte) in
    let g : flag_of (laid_out e) ≡ e.flag = omega (arith, s.base, s.access_byte) in
    λ i. record { base = b i; limit = m i; access_byte = a i; flag = g i }

-- A description whose limit has 20 bits and whose flags have 4 is packed, and the processor reads
-- the same description back; every other one halts the machine.
pub create_gdt_entry_lem :
    (e : Gdt)
    → IsGdt e
    → read_entry (create_gdt_entry e)
      ≡ (if leb e.limit 1048575 && leb e.flag 15 then some e else none)
unfolding create_gdt_entry
create_gdt_entry_lem e s = ground (arith, packed_lem e s.access_byte, read-laid_out e s)
