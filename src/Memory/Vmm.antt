-- ===== src/Memory/Vmm.antt =====
-- kernel/arch/x86_64/vmm.c: the four levels of page tables, in memory that is seen through the
-- direct map. A run is `none` where `pmm_alloc` panics or `pmm_free` writes behind its bitmap.
pub mod Space
pub mod Boot
pub mod Entry
pub mod Tree
pub mod Descend
pub mod Leaf
pub mod Map
pub mod Write
pub mod Translate
pub mod Unmap
pub mod Create
use project_luciano.Base.{
  ℕ, zero, suc, ◌+◌, ◌-◌, ◌*◌, ◌/◌, ◌%◌, ◌^◌, ◌≤◌, ◌<◌, min, max, bit_and, bit_or, bit_xor, ◌≡◌,
  refl, sym, ap, ap₂, ◌∙◌, fun_ext, subst, ◌≢◌, ◌↔◌, ◌⊎◌, inl, inr, Bool, true, false, not, ◌&&◌,
  ◌||◌, Option, none, some, List, [], ◌∷◌, ◌++◌, map, append-nil, append_assoc, arith, ltb, leb,
  ◌==◌, if◌then◌else◌, ltb→lt, lt→ltb, leb→le, ==_iff, ==_refl, ==_ne, Bool-cases, Option-cases,
  length, get_elem?, get_or, set, take, drop, replicate, length-append, length-set, get_or-set_self,
  get_or-set_ne, get_elem?-eq-get_or, length-take, length-drop, length-replicate, take_all,
  take-append, drop-append, All,
}
use mathlib.Core.Option
use project_luciano.Memory.Pmm.{frame_size, word, Pmm, pmm_alloc, pmm_free}

-- The memory: the 64-bit words at virtual addresses of the direct map (a table's words stand at
-- multiples of 8, so two of them never overlap), the frame allocator, `vmm_hhdm_offset`, the
-- register cr3, and the addresses whose translation was flushed, the last one first.
pub record Vm : Type 0 where
  pub mem : ℕ → ℕ
  pub pmm : Pmm
  pub hhdm : ℕ
  pub cr3 : ℕ
  pub flushed : List ℕ

abbrev pub Cmd : Type 0 → Type 0
Cmd A = Vm → Option (A × Vm)

abbrev pub pure : {A : Type 0} → A → Cmd A
pure a m = some (a, m)

module _ {A B : Type 0} where
  abbrev pub and_then : Option (A × Vm) → (A → Cmd B) → Option (B × Vm)
  and_then none k = none
  and_then (some (a, m)) k = k a m

  infixl 5 ◌>>=◌ ◌>>◌
  abbrev pub ◌>>=◌ : Cmd A → (A → Cmd B) → Cmd B
  c >>= k = λ m. and_then (c m) k

  abbrev pub ◌>>◌ : Cmd A → Cmd B → Cmd B
  c >> k = c >>= λ _. k

-- PML4_IDX, PDPT_IDX, PD_IDX and PT_IDX
unfoldable pub pml4_idx : ℕ → ℕ
pml4_idx va = bit_and (va / 2 ^ 39) 511

unfoldable pub pdpt_idx : ℕ → ℕ
pdpt_idx va = bit_and (va / 2 ^ 30) 511

unfoldable pub pd_idx : ℕ → ℕ
pd_idx va = bit_and (va / 2 ^ 21) 511

unfoldable pub pt_idx : ℕ → ℕ
pt_idx va = bit_and (va / 2 ^ 12) 511

-- ENTRY_PRESENT and ADDRESS_MASK
unfoldable pub entry_present : ℕ → Bool
entry_present entry = not (bit_and entry 1 == 0)

unfoldable pub address_of : ℕ → ℕ
address_of entry = bit_and entry ((2 ^ 40 - 1) * 2 ^ 12)

-- `&table[i]`
abbrev pub slot : ℕ → ℕ → ℕ
slot table i = (table + 8 * i) % word

unfoldable pub load : ℕ → ℕ → Vm → ℕ
load table i m = m.mem (slot table i)

unfoldable pub store : ℕ → ℕ → ℕ → Vm → Vm
store table i v m = record m { mem = λ a. if a == slot table i then v else m.mem a }

-- `(vmm_page_entry *)((table[i] & ADDRESS_MASK) + vmm_hhdm_offset)`
unfoldable pub next_table : ℕ → ℕ → Vm → ℕ
unfolding load address_of
next_table table i m = (address_of (load table i m) + m.hhdm) % word

-- The calls of the frame allocator.
unfoldable pub alloc_frame : Cmd ℕ
alloc_frame m = elim (pmm_alloc m.pmm.bitmap) [
  | none ↦ none
  | some (f, after) ↦ some (f, record m { pmm = record m.pmm { bitmap = after } })
]

unfoldable pub free_frame : ℕ → Cmd (Unit {0})
free_frame addr m = elim (pmm_free m.pmm.bitmap addr) [
  | none ↦ none
  | some after ↦ some (tt, record m { pmm = record m.pmm { bitmap = after } })
]

-- One level of the walk in `vmm_map`: a missing table gets a frame, whose words are not cleared.
unfoldable pub ensure : ℕ → ℕ → ℕ → Cmd (Unit {0})
ensure table i flags m =
    if entry_present (load table i m)
    then some (tt, m)
    else (do f ← alloc_frame; λ u. some (tt, store table i (bit_or f flags) u)) m

-- The last level: an entry that is there stays.
unfoldable pub put_leaf : ℕ → ℕ → ℕ → Vm → Vm
put_leaf table i v m = if entry_present (load table i m) then m else store table i v m

abbrev pub enter_table : ℕ → ℕ → Cmd ℕ
enter_table table i m = some (next_table table i m, m)

unfoldable pub vmm_map : ℕ → ℕ → ℕ → ℕ → Cmd (Unit {0})
vmm_map address_space va pa flags = do
  ensure address_space (pml4_idx va) flags
  pdpt ← enter_table address_space (pml4_idx va)
  ensure pdpt (pdpt_idx va) flags
  pd ← enter_table pdpt (pdpt_idx va)
  ensure pd (pd_idx va) flags
  pt ← enter_table pd (pd_idx va)
  λ m. some (tt, put_leaf pt (pt_idx va) (bit_or pa flags) m)

-- The walk that `vmm_get_paddr` and `vmm_unmap` share: the last table, if the others are there.
unfoldable pub step_down : ℕ → ℕ → Vm → Option ℕ
step_down table i m = if entry_present (load table i m) then some (next_table table i m) else none

abbrev pub or_missing : Option ℕ → (ℕ → Option ℕ) → Option ℕ
or_missing none k = none
or_missing (some t) k = k t

unfoldable pub find_pt : ℕ → ℕ → Vm → Option ℕ
find_pt address_space va m =
    or_missing (step_down address_space (pml4_idx va) m)
      λ pdpt. or_missing (step_down pdpt (pdpt_idx va) m) λ pd. step_down pd (pd_idx va) m

-- VMM_FAIL is 0.
unfoldable pub vmm_get_paddr : ℕ → ℕ → Vm → ℕ
vmm_get_paddr address_space va m = elim (find_pt address_space va m) [
  | none ↦ 0
  | some pt ↦ address_of (load pt (pt_idx va) m)
]

unfoldable pub vmm_unmap : ℕ → ℕ → Vm → Vm
vmm_unmap address_space va m = elim (find_pt address_space va m) [
  | none ↦ m
  | some pt ↦
      let cleared = store pt (pt_idx va) 0 m in record cleared { flushed = va ∷ cleared.flushed }
]

unfoldable pub vmm_get_current_space : Vm → ℕ
vmm_get_current_space m = (m.cr3 + m.hhdm) % word

unfoldable pub vmm_switch : ℕ → Vm → Vm
vmm_switch address_space m = record m { cr3 = (address_space + word - m.hhdm) % word }
