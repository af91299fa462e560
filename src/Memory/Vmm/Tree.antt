-- ===== src/Memory/Vmm/Tree.antt =====
-- When page tables form a tree: every table that an entry leads to has a place of its own.
use project_luciano.Base.{
  ℕ, ◌+◌, ◌*◌, ◌%◌, ◌^◌, ◌≤◌, ◌<◌, ◌≡◌, refl, ap, inl, inr, Bool, true, false, Option, none, some,
  List, [], ◌∷◌, arith, if◌then◌else◌, Bool-cases, length,
}
use project_luciano.Memory.Pmm.{frame_size, word}
use project_luciano.Memory.Pmm.Frames.{IsBitmap, used, frames}
use project_luciano.Memory.Vmm.{
  Vm, entry_present, address_of, slot, load, next_table, step_down, find_pt, vmm_get_paddr,
  pml4_idx, pdpt_idx, pd_idx, pt_idx,
}
use project_luciano.Memory.Vmm.Entry.{target, address_of_lem, pml4_lem, pdpt_lem, pd_lem, pt_lem}

-- Entry `i` of the table in a frame, and the frame's address in the direct map.
abbrev pub base : Vm → ℕ → ℕ
base m f = (frame_size * f + m.hhdm) % word

abbrev pub entry : Vm → ℕ → ℕ → ℕ
entry m f i = m.mem (frame_size * f + m.hhdm + 8 * i)

-- The direct map reaches every frame without wrapping, and a frame's address fits an entry.
pub record IsDirect (m : Vm) : Type 0 where
  pub bytes : IsBitmap m.pmm.bitmap
  pub reach : m.hhdm + frame_size * frames m.pmm.bitmap ≤ word
  pub small : frames m.pmm.bitmap ≤ 2 ^ 40

-- A label says which indices lead to a table, the last one first; a top table has none.
abbrev pub Labels : Type 0
Labels = ℕ → Option (List ℕ)

-- A labelled frame is a table in use. An entry of a table above the last level leads to the table
-- with its index put in front.
pub record IsTables (m : Vm) (at : Labels) : Type 0 where
  pub direct : IsDirect m
  pub inside : (f : ℕ) (ps : List ℕ) → at f ≡ some ps → f < frames m.pmm.bitmap
  pub in_use : (f : ℕ) (ps : List ℕ) → at f ≡ some ps → used m.pmm.bitmap f ≡ true
  pub child :
      (f i : ℕ) (ps : List ℕ)
      → at f ≡ some ps
      → length ps < 3
      → i < 512
      → entry_present (entry m f i) ≡ true
      → at (target (entry m f i)) ≡ some (i ∷ ps)

-- The same, and frames that are free are cleared.
pub record IsTree (m : Vm) (at : Labels) : Type 0 where
  pub direct : IsDirect m
  pub inside : (f : ℕ) (ps : List ℕ) → at f ≡ some ps → f < frames m.pmm.bitmap
  pub in_use : (f : ℕ) (ps : List ℕ) → at f ≡ some ps → used m.pmm.bitmap f ≡ true
  pub child :
      (f i : ℕ) (ps : List ℕ)
      → at f ≡ some ps
      → length ps < 3
      → i < 512
      → entry_present (entry m f i) ≡ true
      → at (target (entry m f i)) ≡ some (i ∷ ps)
  pub clean :
      (f i : ℕ) → f < frames m.pmm.bitmap → used m.pmm.bitmap f ≡ false → i < 512 → entry m f i ≡ 0

pub tables : {m : Vm} {at : Labels} → IsTree m at → IsTables m at
tables t = record { direct = t.direct; inside = t.inside; in_use = t.in_use; child = t.child }

-- The entry that a path of indices leads to, read level by level; 0 where a table is missing.
abbrev pub follow : Bool → ℕ → ℕ
follow true r = r
follow false r = 0

unfoldable pub lookup : Vm → ℕ → List ℕ → ℕ
lookup m f [] = 0
lookup m f (i ∷ []) = entry m f i
lookup m f (i ∷ j ∷ is) =
    follow (entry_present (entry m f i)) (lookup m (target (entry m f i)) (j ∷ is))

abbrev pub path : ℕ → List ℕ
path va = pml4_idx va ∷ pdpt_idx va ∷ pd_idx va ∷ pt_idx va ∷ []

pub load-base :
    (m : Vm) (f i : ℕ)
    → IsDirect m
    → f < frames m.pmm.bitmap
    → i < 512
    → load (base m f) i m ≡ entry m f i
unfolding load
load-base m f i d h k =
    let e : slot (base m f) i ≡ frame_size * f + m.hhdm + 8 * i = omega (arith, d.reach) in
    ap m.mem e

pub next_table-base :
    (m : Vm) (f i : ℕ)
    → IsDirect m
    → f < frames m.pmm.bitmap
    → i < 512
    → next_table (base m f) i m ≡ base m (target (entry m f i))
unfolding next_table
next_table-base m f i d h k = rw (load-base m f i d h k, address_of_lem (entry m f i)) refl

pub step_down-base :
    (m : Vm) (f i : ℕ)
    → IsDirect m
    → f < frames m.pmm.bitmap
    → i < 512
    → step_down (base m f) i m
      ≡ (if entry_present (entry m f i) then some (base m (target (entry m f i))) else none)
unfolding step_down
step_down-base m f i d h k = ground (arith, load-base m f i d h k, next_table-base m f i d h k)

pub idx-lt :
    (va : ℕ) → (pml4_idx va < 512) × (pdpt_idx va < 512) × (pd_idx va < 512) × (pt_idx va < 512)
idx-lt va = (
  omega (arith, pml4_lem va),
  omega (arith, pdpt_lem va),
  omega (arith, pd_lem va),
  omega (arith, pt_lem va),
)

-- `vmm_get_paddr` reads the path of an address in the tree.
pub vmm_get_paddr-lookup :
    (m : Vm) (at : Labels) (root va : ℕ)
    → IsTables m at
    → at root ≡ some []
    → vmm_get_paddr (base m root) va m ≡ address_of (lookup m root (path va))
unfolding vmm_get_paddr find_pt lookup
vmm_get_paddr-lookup m at root va t h =
    let nothing : address_of 0 ≡ 0 = address_of_lem 0 in
    let (b4, b3, b2, b1) = idx-lt va in
    let s4 = step_down-base m root (pml4_idx va) t.direct (t.inside root [] h) b4 in
    elim (Bool-cases (entry_present (entry m root (pml4_idx va)))) [
      | inr no4 ↦ ground (arith, nothing, s4, no4)
      | inl yes4 ↦
          let f3 = target (entry m root (pml4_idx va)) in
          let h3 = t.child root (pml4_idx va) [] h (omega arith) b4 yes4 in
          let s3 = step_down-base m f3 (pdpt_idx va) t.direct (t.inside f3 _ h3) b3 in
          elim (Bool-cases (entry_present (entry m f3 (pdpt_idx va)))) [
            | inr no3 ↦ ground (arith, nothing, s4, yes4, s3, no3)
            | inl yes3 ↦
                let f2 = target (entry m f3 (pdpt_idx va)) in
                let h2 = t.child f3 (pdpt_idx va) _ h3 (omega arith) b3 yes3 in
                let s2 = step_down-base m f2 (pd_idx va) t.direct (t.inside f2 _ h2) b2 in
                elim (Bool-cases (entry_present (entry m f2 (pd_idx va)))) [
                  | inr no2 ↦ ground (arith, nothing, s4, yes4, s3, yes3, s2, no2)
                  | inl yes2 ↦
                      let f1 = target (entry m f2 (pd_idx va)) in
                      let h1 = t.child f2 (pd_idx va) _ h2 (omega arith) b2 yes2 in
                      let s1 = load-base m f1 (pt_idx va) t.direct (t.inside f1 _ h1) b1 in
                      ground (arith, nothing, s4, yes4, s3, yes3, s2, yes2, s1)
                ]
          ]
    ]
