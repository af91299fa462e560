-- ===== src/Memory/Vmm/Descend/Fresh.antt =====
-- A fresh frame becomes a page table: the tree that this leaves.
use project_luciano.Base.{
  ℕ, ◌+◌, ◌*◌, ◌%◌, ◌<◌, ◌≡◌, refl, sym, ap, ap₂, ◌∙◌, ◌≢◌, ◌⊎◌, inl, inr, true, false, ◌&&◌, some,
  List, [], ◌∷◌, arith, ◌==◌, if◌then◌else◌, ==_refl, ==_ne, Bool-cases, length, All,
}
use project_luciano.Memory.Pmm.{Bitmap, frame_size}
use project_luciano.Memory.Pmm.Frames.{used, frames, Marked}
use project_luciano.Memory.Pmm.Count.{spare, spare-Marked}
use project_luciano.Memory.Vmm.{Vm, entry_present}
use project_luciano.Memory.Vmm.Entry.{present_lem, target}
use project_luciano.Memory.Vmm.Tree.{entry, Labels, IsTree, lookup, follow}
use project_luciano.Memory.Vmm.Descend.Grown.{written, entry-written, Grows}

-- A fresh frame `g` becomes the table behind entry `i` of the table in `f`.
module _ (m : Vm) (at : Labels) (t : IsTree m at) (f i : ℕ) (ps : List ℕ) (here : at f ≡ some ps)
    (upper : length ps < 3) (hi : i < 512) (absent : entry_present (entry m f i) ≡ false)
    (flags : ℕ) (odd : flags % 2 ≡ 1) (byte : flags < 256) (g : ℕ) (after : Bitmap)
    (inside_g : g < frames m.pmm.bitmap) (free : used m.pmm.bitmap g ≡ false)
    (mark : Marked m.pmm.bitmap g true after) where
  abbrev pub value : ℕ
  value = g * frame_size + flags

  abbrev pub next : Vm
  next = written m f i value after

  abbrev pub labels : Labels
  labels h = if h == g then some (i ∷ ps) else at h

  pub value-target : target value ≡ g
  value-target = omega (arith, t.direct.small)

  pub value_present : entry_present value ≡ true
  value_present = ground (arith, present_lem value)

  pub no_label : (qs : List ℕ) → at g ≢ some qs
  no_label qs e = ground (arith, t.in_use g qs e)

  pub f_ne : f ≢ g
  f_ne e = ground (arith, t.in_use f ps here, ap (used m.pmm.bitmap) e)

  pub fresh_entry : (j : ℕ) → j < 512 → entry next g j ≡ 0
  fresh_entry j h =
      ground (arith, entry-written m f i value after g j hi h, t.clean g j inside_g free h, f_ne)

  pub keep : (h : ℕ) (qs : List ℕ) → at h ≡ some qs → labels h ≡ some qs
  keep h qs e = elim (Bool-cases (h == g)) [
    | inl is ↦ let same : h ≡ g = ground arith in absurd (no_label qs (ap at (sym same) ∙ e))
    | inr other ↦ rw other e
  ]

  pub label-inv :
      (h : ℕ) (qs : List ℕ)
      → labels h ≡ some qs
      → (h ≡ g) × (i ∷ ps ≡ qs) ⊎ (h ≢ g) × (at h ≡ some qs)
  label-inv h qs e = elim (Bool-cases (h == g)) [
    | inl is ↦ inl (ground arith, ground arith)
    | inr other ↦ inr (ground arith, ground arith)
  ]

  pub label-g : labels g ≡ some (i ∷ ps)
  label-g = rw (==_refl g) refl

  pub next-here : entry next f i ≡ value
  next-here = ground (arith, entry-written m f i value after f i hi hi)

  pub next-away :
      (h j : ℕ) → j < 512 → ((h == f) && (j == i)) ≡ false → entry next h j ≡ entry m h j
  next-away h j k away = entry-written m f i value after h j hi k ∙ rw away refl

  pub next-child :
      (h j : ℕ) (qs : List ℕ)
      → labels h ≡ some qs
      → length qs < 3
      → j < 512
      → entry_present (entry next h j) ≡ true
      → labels (target (entry next h j)) ≡ some (j ∷ qs)
  next-child h j qs e l k p = elim (label-inv h qs e) [
    | inl (fresh, _) ↦
        let z : entry next h j ≡ 0 = ap (λ (x : ℕ). entry next x j) fresh ∙ fresh_entry j k in
        let bad : false ≡ true = sym (present_lem 0) ∙ ap entry_present (sym z) ∙ p in
        absurd (ground arith)
    | inr (old, e') ↦ elim (Bool-cases ((h == f) && (j == i))) [
      | inl hit ↦
          let hf : h ≡ f = ground arith in
          let ji : j ≡ i = ground arith in
          let q : some ps ≡ some qs = sym here ∙ ap at (sym hf) ∙ e' in
          let z : entry next h j ≡ value = ap₂ (λ (x y : ℕ). entry next x y) hf ji ∙ next-here in
          ap (λ (x : ℕ). labels (target x)) z
          ∙ ap labels value-target
          ∙ label-g
          ∙ ap (λ (x : List ℕ). some (i ∷ x)) (ground arith)
          ∙ ap (λ (x : ℕ). some (x ∷ qs)) (sym ji)
      | inr miss ↦
          let z = next-away h j k miss in
          let c = t.child h j qs e' l k (ap entry_present (sym z) ∙ p) in
          ap (λ (x : ℕ). labels (target x)) z ∙ keep (target (entry m h j)) (j ∷ qs) c
    ]
  ]

  pub next-clean :
      (h j : ℕ) → h < frames after → used after h ≡ false → j < 512 → entry next h j ≡ 0
  next-clean h j l u k =
      let s = mark.state h in
      let hf : (h == f) ≡ false =
        ==_ne h f (λ e. ground (arith, t.in_use f ps here, ap (used m.pmm.bitmap) e)) in
      next-away h j k (rw hf refl) ∙ t.clean h j (omega (arith, mark.size)) (ground arith) k

  pub next-IsTree : IsTree next labels
  next-IsTree = record {
    direct = record {
      bytes = mark.bytes;
      reach = omega (arith, mark.size, t.direct.reach);
      small = omega (arith, mark.size, t.direct.small);
    };
    inside = λ h qs e. elim (label-inv h qs e) [
      | inl (fresh, _) ↦ omega (arith, fresh, mark.size)
      | inr (old, e') ↦ omega (arith, t.inside h qs e', mark.size)
    ];
    in_use = λ h qs e. elim (label-inv h qs e) [
      | inl (fresh, _) ↦ ground (arith, mark.state h)
      | inr (old, e') ↦ ground (arith, mark.state h, t.in_use h qs e')
    ];
    child = next-child;
    clean = next-clean;
  }

  -- Every path through the fresh table reads nothing there.
  pub lookup_fresh : (is : List ℕ) → All (λ j. j < 512) is → lookup next g is ≡ 0
  unfolding lookup
  lookup_fresh [] h = refl
  lookup_fresh (j ∷ []) (h, _) = fresh_entry j h
  lookup_fresh (j ∷ k ∷ is) (h, _) =
      let z : entry_present (entry next g j) ≡ false =
        ap entry_present (fresh_entry j h) ∙ present_lem 0 in
      ground (arith, z)

  -- The table in `f` is above the last level, so a path that ends there is in another table.
  pub f_level :
      (h : ℕ) (qs : List ℕ) (j : ℕ)
      → at h ≡ some qs
      → 1 + length qs ≡ 4
      → ((h == f) && (j == i)) ≡ false
  f_level h qs j e l = elim (Bool-cases (h == f)) [
    | inl is ↦
        let hf : h ≡ f = ground arith in
        let q : some ps ≡ some qs = sym here ∙ ap at (sym hf) ∙ e in
        let same : ps ≡ qs = ground arith in
        absurd (omega (arith, ap (λ (x : List ℕ). length x) same))
    | inr other ↦ rw other refl
  ]

  pub next-same :
      (h : ℕ) (qs is : List ℕ)
      → at h ≡ some qs
      → length is + length qs ≡ 4
      → All (λ j. j < 512) is
      → lookup next h is ≡ lookup m h is
  unfolding lookup
  next-same h qs [] e l b = refl
  next-same h qs (j ∷ []) e l (b, _) = next-away h j b (f_level h qs j e l)
  next-same h qs (j ∷ k ∷ is) e l (b, bs) = elim (Bool-cases ((h == f) && (j == i))) [
    | inl hit ↦
        let hf : h ≡ f = ground arith in
        let ji : j ≡ i = ground arith in
        let z : entry next h j ≡ value = ap₂ (λ (x y : ℕ). entry next x y) hf ji ∙ next-here in
        let zero_below =
          ap (λ (x : ℕ). lookup next (target x) (k ∷ is)) z
          ∙ ap (λ (x : ℕ). lookup next x (k ∷ is)) value-target
          ∙ lookup_fresh (k ∷ is) bs in
        let there = ap entry_present z ∙ value_present in
        let before = ap₂ (λ (x y : ℕ). entry_present (entry m x y)) hf ji ∙ absent in
        ground (arith, zero_below, there, before)
    | inr miss ↦
        let z = next-away h j b miss in
        elim (Bool-cases (entry_present (entry m h j))) [
          | inl yes_there ↦
              let c = t.child h j qs e (omega arith) b yes_there in
              let rest = next-same (target (entry m h j)) (j ∷ qs) (k ∷ is) c (omega arith) bs in
              ap (λ (x : ℕ). follow (entry_present x) (lookup next (target x) (k ∷ is))) z
              ∙ ap (follow (entry_present (entry m h j))) rest
          | inr nothing ↦ let there = ap entry_present z ∙ nothing in ground (arith, there, nothing)
        ]
  ]

  pub fixed_away : (h j : ℕ) → entry_present (entry m h j) ≡ true → ((h == f) && (j == i)) ≡ false
  fixed_away h j p = elim (Bool-cases ((h == f) && (j == i))) [
    | inr away ↦ away
    | inl hit ↦
        let hf : h ≡ f = ground arith in
        let ji : j ≡ i = ground arith in
        let before = ap₂ (λ (x y : ℕ). entry_present (entry m x y)) hf ji ∙ absent in
        absurd (ground arith)
  ]

  pub next-Grows : Grows 1 m at next labels
  next-Grows = record {
    tree = next-IsTree;
    keeps = keep;
    same = next-same;
    fixed = λ h j qs e k p. next-away h j k (fixed_away h j p);
    uses = λ h u. ground (arith, mark.state h);
    hhdm = refl;
    cr3 = refl;
    size = mark.size;
    left = ground (
      arith,
      spare-Marked m.pmm.bitmap after g (frames m.pmm.bitmap) mark free,
      mark.size,
      ap (λ (x : ℕ). spare after (8 * x)) mark.size,
    );
  }
