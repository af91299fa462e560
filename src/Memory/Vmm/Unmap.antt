-- ===== src/Memory/Vmm/Unmap.antt =====
-- What `vmm_unmap` of kernel/arch/x86_64/vmm.c does to what `vmm_get_paddr` answers.
use project_luciano.Base.{ℕ, ◌≡◌, Option, none, some, [], ◌∷◌}
use project_luciano.Memory.Vmm.{Vm, pml4_idx, pdpt_idx, pd_idx}
use project_luciano.Memory.Vmm.Tree.{base, Labels, lookup, path}
use project_luciano.Memory.Vmm.Map.{Chain}

-- How the walk of an address ends: at a last table, or where one is missing.
data Found (m : Vm) (at : Labels) (root va : ℕ) : Option ℕ → Type 0 where
  missing : lookup m root (path va) ≡ 0 → Found m at root va none
  found :
      (f3 f2 f1 : ℕ)
      → at f3 ≡ some (pml4_idx va ∷ [])
      → at f2 ≡ some (pdpt_idx va ∷ pml4_idx va ∷ [])
      → at f1 ≡ some (pd_idx va ∷ pdpt_idx va ∷ pml4_idx va ∷ [])
      → Chain m root va f3 f2 f1
      → Found m at root va (some (base m f1))

-- A flush changes no table.
abbrev flush : Vm → ℕ → Vm
flush m va = record m { flushed = va ∷ m.flushed }
