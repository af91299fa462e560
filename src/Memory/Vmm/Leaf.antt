-- ===== src/Memory/Vmm/Leaf.antt =====
-- A write to an entry of the last level, by `vmm_map` or by `vmm_unmap`.
use project_luciano.Base.{
  ℕ, ◌+◌, ◌<◌, ◌≡◌, refl, sym, ap, ap₂, ◌∙◌, ◌≢◌, inl, inr, false, ◌&&◌, some, List, [], ◌∷◌, arith,
  ◌==◌, ==_ne, Bool-cases, length, All,
}
use project_luciano.Memory.Pmm.Frames.{used}
use project_luciano.Memory.Vmm.{Vm, entry_present}
use project_luciano.Memory.Vmm.Entry.{target}
use project_luciano.Memory.Vmm.Tree.{entry, Labels, IsTree, lookup, follow}
use project_luciano.Memory.Vmm.Descend.{written, entry-written}

-- The label of what a path leads to from a table with label `qs`.
abbrev pub labelled : List ℕ → List ℕ → List ℕ
labelled [] qs = qs
labelled (i ∷ is) qs = labelled is (i ∷ qs)

module _ (m : Vm) (at : Labels) (t : IsTree m at) (f i : ℕ) (ps : List ℕ) (here : at f ≡ some ps)
    (last : length ps ≡ 3) (hi : i < 512) (v : ℕ) where
  abbrev pub with_leaf : Vm
  with_leaf = written m f i v m.pmm.bitmap

  level_ne : (h : ℕ) (qs : List ℕ) → at h ≡ some qs → length qs < 3 → (h == f) ≡ false
  level_ne h qs e l = ==_ne h f (λ hf.
      let q : some ps ≡ some qs = sym here ∙ ap at (sym hf) ∙ e in
      let same : ps ≡ qs = ground arith in omega (arith, ap (λ (x : List ℕ). length x) same))

  pub leaf-away :
      (h j : ℕ) → j < 512 → ((h == f) && (j == i)) ≡ false → entry with_leaf h j ≡ entry m h j
  leaf-away h j k away = entry-written m f i v m.pmm.bitmap h j hi k ∙ rw away refl

  pub leaf-here : entry with_leaf f i ≡ v
  leaf-here = ground (arith, entry-written m f i v m.pmm.bitmap f i hi hi)

  -- Tables above the last level are as before.
  pub upper-away :
      (h j : ℕ) (qs : List ℕ)
      → at h ≡ some qs
      → length qs < 3
      → j < 512
      → entry with_leaf h j ≡ entry m h j
  upper-away h j qs e l k = leaf-away h j k (rw (level_ne h qs e l) refl)

  pub leaf-IsTree : IsTree with_leaf at
  leaf-IsTree = record {
    direct = record { bytes = t.direct.bytes; reach = t.direct.reach; small = t.direct.small };
    inside = t.inside;
    in_use = t.in_use;
    child = λ h j qs e l k p.
        let z = upper-away h j qs e l k in
        ap (λ (x : ℕ). at (target x)) z ∙ t.child h j qs e l k (ap entry_present (sym z) ∙ p);
    clean = λ h j l u k.
        let hf = ==_ne h f (λ e. ground (arith, t.in_use f ps here, ap (used m.pmm.bitmap) e)) in
        leaf-away h j k (rw hf refl) ∙ t.clean h j l u k;
  }

  -- A path that does not lead to the entry reads what it read before.
  pub leaf-same :
      (h : ℕ) (qs is : List ℕ)
      → at h ≡ some qs
      → length is + length qs ≡ 4
      → All (λ j. j < 512) is
      → labelled is qs ≢ i ∷ ps
      → lookup with_leaf h is ≡ lookup m h is
  unfolding lookup
  leaf-same h qs [] e l b ne = refl
  leaf-same h qs (j ∷ []) e l (b, _) ne = elim (Bool-cases ((h == f) && (j == i))) [
    | inr away ↦ leaf-away h j b away
    | inl hit ↦
        let hf : h ≡ f = ground arith in
        let q : some ps ≡ some qs = sym here ∙ ap at (sym hf) ∙ e in
        let same : qs ≡ ps = ground arith in
        let ji : j ≡ i = ground arith in absurd (ne (ap₂ (λ (x : ℕ) (xs : List ℕ). x ∷ xs) ji same))
  ]
  leaf-same h qs (j ∷ k ∷ is) e l (b, bs) ne =
      let z = upper-away h j qs e (omega arith) b in
      elim (Bool-cases (entry_present (entry m h j))) [
        | inl there ↦
            let c = t.child h j qs e (omega arith) b there in
            let rest = leaf-same (target (entry m h j)) (j ∷ qs) (k ∷ is) c (omega arith) bs ne in
            ap (λ (x : ℕ). follow (entry_present x) (lookup with_leaf (target x) (k ∷ is))) z
            ∙ ap (follow (entry_present (entry m h j))) rest
        | inr nothing ↦ let gone = ap entry_present z ∙ nothing in ground (arith, gone, nothing)
      ]
