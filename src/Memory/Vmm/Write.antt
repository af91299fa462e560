-- ===== src/Memory/Vmm/Write.antt =====
-- A write to the last entry on the path of an address: what every path reads afterwards.
use project_luciano.Base.{
  ℕ, ◌<◌, ◌≡◌, refl, sym, ap, ◌∙◌, ◌≢◌, some, List, [], ◌∷◌, arith, get_or, All,
}
use project_luciano.Memory.Vmm.{Vm, entry_present, pml4_idx, pdpt_idx, pd_idx, pt_idx}
use project_luciano.Memory.Vmm.Entry.{target, page, page_digits}
use project_luciano.Memory.Vmm.Tree.{Labels, IsTree, lookup, path, idx-lt}
use project_luciano.Memory.Vmm.Leaf.{
  labelled, with_leaf, leaf-IsTree, leaf-same, leaf-here, upper-away,
}
use project_luciano.Memory.Vmm.Map.{Chain, lookup-Chain}

path-ne :
    (va va' : ℕ)
    → page va' ≢ page va
    → labelled (path va') [] ≢ pt_idx va ∷ pd_idx va ∷ pdpt_idx va ∷ pml4_idx va ∷ []
path-ne va va' ne e = ne (
    page_digits va'
    ∙ omega (
      arith,
      ap (λ (l : List ℕ). get_or l 0 0) e,
      ap (λ (l : List ℕ). get_or l 1 0) e,
      ap (λ (l : List ℕ). get_or l 2 0) e,
      ap (λ (l : List ℕ). get_or l 3 0) e,
    )
    ∙ sym (page_digits va))

pub path_bounds : (va : ℕ) → All (λ i. i < 512) (path va)
path_bounds va = let (b4, b3, b2, b1) = idx-lt va in (b4, (b3, (b2, (b1, tt))))

module _ (m : Vm) (at : Labels) (t : IsTree m at) (root va f3 f2 f1 : ℕ) (here : at root ≡ some [])
    (l3 : at f3 ≡ some (pml4_idx va ∷ [])) (l2 : at f2 ≡ some (pdpt_idx va ∷ pml4_idx va ∷ []))
    (l1 : at f1 ≡ some (pd_idx va ∷ pdpt_idx va ∷ pml4_idx va ∷ [])) (c : Chain m root va f3 f2 f1)
    (v : ℕ) where
  abbrev pub replaced : Vm
  replaced = with_leaf m at t f1 (pt_idx va) _ l1 refl (idx-lt va).3 v

  pub replaced-IsTree : IsTree replaced at
  replaced-IsTree = leaf-IsTree m at t f1 (pt_idx va) _ l1 refl (idx-lt va).3 v

  replaced-Chain : Chain replaced root va f3 f2 f1
  replaced-Chain =
      let b = idx-lt va in
      let away = upper-away m at t f1 (pt_idx va) _ l1 refl b.3 v in
      let s4 = away root (pml4_idx va) [] here (omega arith) b.0 in
      let s3 = away f3 (pdpt_idx va) _ l3 (omega arith) b.1 in
      let s2 = away f2 (pd_idx va) _ l2 (omega arith) b.2 in
      record {
        there4 = ap entry_present s4 ∙ c.there4;
        there3 = ap entry_present s3 ∙ c.there3;
        there2 = ap entry_present s2 ∙ c.there2;
        to3 = ap target s4 ∙ c.to3;
        to2 = ap target s3 ∙ c.to2;
        to1 = ap target s2 ∙ c.to1;
      }

  pub replaced-reads : lookup replaced root (path va) ≡ v
  replaced-reads =
      lookup-Chain replaced root va f3 f2 f1 replaced-Chain
      ∙ leaf-here m at t f1 (pt_idx va) _ l1 refl (idx-lt va).3 v

  pub replaced-others :
      (space va' : ℕ)
      → at space ≡ some []
      → page va' ≢ page va
      → lookup replaced space (path va') ≡ lookup m space (path va')
  replaced-others space va' h ne =
      leaf-same m at t f1 (pt_idx va) _ l1 refl (idx-lt va).3 v space [] (path va') h refl
        (path_bounds va') (path-ne va va' ne)
