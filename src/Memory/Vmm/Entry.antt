-- ===== src/Memory/Vmm/Entry.antt =====
-- Entries and slots of the page tables as arithmetic.
use project_luciano.Base.{
  ℕ, ◌+◌, ◌*◌, ◌/◌, ◌%◌, ◌^◌, ◌<◌, bit_or, ◌≡◌, sym, ◌∙◌, subst, arith, ◌==◌,
}
use project_luciano.Base.Bits.{bit_and_mask, bit_and_high, bit_or_high_low}
use project_luciano.Memory.Pmm.{frame_size}
use project_luciano.Memory.Vmm.{entry_present, address_of, pml4_idx, pdpt_idx, pd_idx, pt_idx}

pub present_lem : (e : ℕ) → entry_present e ≡ (e % 2 == 1)
unfolding entry_present
present_lem e = ground (arith, bit_and_mask 1 e)

-- The frame that an entry points to.
abbrev pub target : ℕ → ℕ
target e = e / 2 ^ 12 % 2 ^ 40

pub address_of_lem : (e : ℕ) → address_of e ≡ frame_size * target e
unfolding address_of
address_of_lem e = bit_and_high 40 12 e ∙ omega arith

pub or_flags : (pa flags : ℕ) → pa % 4096 ≡ 0 → flags < 4096 → bit_or pa flags ≡ pa + flags
or_flags pa flags h l =
    let e : pa ≡ pa / 4096 * 2 ^ 12 = omega arith in
    subst (λ t. bit_or t flags ≡ t + flags) (sym e) (bit_or_high_low 12 (pa / 4096) flags l)

-- The four indices, as the digits of the page number to the base 512.
pub pml4_lem : (va : ℕ) → pml4_idx va ≡ va / 2 ^ 39 % 512
unfolding pml4_idx
pml4_lem va = bit_and_mask 9 (va / 2 ^ 39)

pub pdpt_lem : (va : ℕ) → pdpt_idx va ≡ va / 2 ^ 30 % 512
unfolding pdpt_idx
pdpt_lem va = bit_and_mask 9 (va / 2 ^ 30)

pub pd_lem : (va : ℕ) → pd_idx va ≡ va / 2 ^ 21 % 512
unfolding pd_idx
pd_lem va = bit_and_mask 9 (va / 2 ^ 21)

pub pt_lem : (va : ℕ) → pt_idx va ≡ va / 2 ^ 12 % 512
unfolding pt_idx
pt_lem va = bit_and_mask 9 (va / 2 ^ 12)

abbrev pub page : ℕ → ℕ
page va = va / 4096 % 2 ^ 36

pub page_digits :
    (va : ℕ) → page va ≡ ((pml4_idx va * 512 + pdpt_idx va) * 512 + pd_idx va) * 512 + pt_idx va
page_digits va = omega (arith, pml4_lem va, pdpt_lem va, pd_lem va, pt_lem va)
