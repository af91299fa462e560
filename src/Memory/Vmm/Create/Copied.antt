-- ===== src/Memory/Vmm/Create/Copied.antt =====
-- The new top table of `vmm_create`: its lower half is empty, and its upper half is the kernel's.
use project_luciano.Base.{
  ℕ, ◌+◌, ◌*◌, ◌%◌, ◌≤◌, ◌<◌, ◌≡◌, refl, sym, ap, ap₂, ◌∙◌, ◌≢◌, ◌⊎◌, inl, inr, true, false, some,
  List, [], ◌∷◌, arith, ltb, ◌==◌, if◌then◌else◌, Bool-cases, length, All,
}
use project_luciano.Memory.Pmm.{Bitmap, frame_size, word, pmm_alloc}
use project_luciano.Memory.Pmm.Frames.{used, frames, Marked}
use project_luciano.Memory.Vmm.{Vm, and_then, entry_present, alloc_frame, vmm_get_current_space}
use project_luciano.Memory.Vmm.Entry.{present_lem, target}
use project_luciano.Memory.Vmm.Tree.{base, entry, IsDirect, Labels, IsTables, lookup}
use project_luciano.Memory.Vmm.Space.{behind, zero_page, copy_upper, vmm_create}

-- Where the entries of every labelled table stay, a path from one leads where it did.
pub lookup-same :
    (m m' : Vm) (at : Labels) (h : ℕ) (qs is : List ℕ)
    → IsTables m at
    → ((g j : ℕ) (ps : List ℕ) → at g ≡ some ps → j < 512 → entry m' g j ≡ entry m g j)
    → at h ≡ some qs
    → length is + length qs ≡ 4
    → All (λ i. i < 512) is
    → lookup m' h is ≡ lookup m h is
unfolding lookup
lookup-same m m' at h qs [] t same e l b = refl
lookup-same m m' at h qs (j ∷ []) t same e l b = same h j qs e b.0
lookup-same m m' at h qs (j ∷ k ∷ is) t same e l b =
    let here = same h j qs e b.0 in
    elim (Bool-cases (entry_present (entry m h j))) [
      | inl there ↦
          rw (here, there)
            (lookup-same m m' at (target (entry m h j)) (j ∷ qs) (k ∷ is) t same
              (t.child h j qs e (omega arith) b.0 there) (omega arith) b.1)
      | inr gone ↦ rw (here, gone) refl
    ]

-- The offset of a word behind the start of a table: below a page only in its own frame.
pub behind_self :
    (m : Vm) (f j : ℕ)
    → IsDirect m
    → f < frames m.pmm.bitmap
    → j < 512
    → behind (base m f) (frame_size * f + m.hhdm + 8 * j) ≡ 8 * j
behind_self m f j d h k = omega (arith, d.reach)

pub behind_other :
    (m : Vm) (f g j : ℕ)
    → IsDirect m
    → f < frames m.pmm.bitmap
    → g < frames m.pmm.bitmap
    → j < 512
    → g ≢ f
    → frame_size ≤ behind (base m f) (frame_size * g + m.hhdm + 8 * j)
behind_other m f g j d h k l ne = omega (arith, d.reach, ne)

module _ (m : Vm) (at : Labels) (t : IsTables m at) (root : ℕ) (here : at root ≡ some []) (f : ℕ)
    (after : Bitmap) (inside_f : f < frames m.pmm.bitmap) (free : used m.pmm.bitmap f ≡ false)
    (mark : Marked m.pmm.bitmap f true after) where
  abbrev pub taken : Vm
  taken = record m { pmm = record m.pmm { bitmap = after } }

  abbrev pub created : Vm
  created = copy_upper (base m f) (base m root) (zero_page (base m f) taken)

  pub root_ne : (h : ℕ) (ps : List ℕ) → at h ≡ some ps → h ≢ f
  root_ne h ps e q = ground (arith, t.in_use h ps e, free, ap (used m.pmm.bitmap) q)

  pub entry-other :
      (g j : ℕ) → g < frames m.pmm.bitmap → j < 512 → g ≢ f → entry created g j ≡ entry m g j
  unfolding copy_upper zero_page
  entry-other g j l k ne = let far = behind_other m f g j t.direct inside_f l k ne in ground arith

  pub entry-copied : (j : ℕ) → j < 512 → 256 ≤ j → entry created f j ≡ entry m root j
  unfolding copy_upper zero_page
  entry-copied j k l =
      let near = behind_self m f j t.direct inside_f k in
      let far =
        behind_other m f root j t.direct inside_f (t.inside root [] here) k
          (root_ne root [] here) in
      let from : (base m root + 8 * j) % word ≡ frame_size * root + m.hhdm + 8 * j =
        omega (arith, t.direct.reach, t.inside root [] here) in
      rw (near, from) (ground arith)

  pub entry-cleared : (j : ℕ) → j < 256 → entry created f j ≡ 0
  unfolding copy_upper zero_page
  entry-cleared j k = let near = behind_self m f j t.direct inside_f (omega arith) in ground arith

  abbrev pub labels : Labels
  labels h = if h == f then some [] else at h

  pub keeps : (h : ℕ) (ps : List ℕ) → at h ≡ some ps → labels h ≡ some ps
  keeps h ps e = ground (arith, e, root_ne h ps e)

  pub entry-kept :
      (h j : ℕ) (ps : List ℕ) → at h ≡ some ps → j < 512 → entry created h j ≡ entry m h j
  entry-kept h j ps e k = entry-other h j (t.inside h ps e) k (root_ne h ps e)

  pub labels_cases :
      (h : ℕ) (ps : List ℕ) → labels h ≡ some ps → (h ≡ f) × (ps ≡ []) ⊎ (h ≢ f) × (at h ≡ some ps)
  labels_cases h ps e = ground (arith, e)

  pub child_from :
      (h g j : ℕ) (ps qs : List ℕ)
      → at g ≡ some qs
      → ps ≡ qs
      → entry created h j ≡ entry m g j
      → length ps < 3
      → j < 512
      → entry_present (entry created h j) ≡ true
      → labels (target (entry created h j)) ≡ some (j ∷ ps)
  child_from h g j ps qs e q same l k there =
      let below =
        t.child g j qs e (omega (arith, ap length q)) k (ap entry_present (sym same) ∙ there) in
      ap (λ (x : ℕ). labels (target x)) same
      ∙ keeps (target (entry m g j)) (j ∷ qs) below
      ∙ ap (λ u. some (j ∷ u)) (sym q)

  pub child_of :
      (h j : ℕ) (ps : List ℕ)
      → labels h ≡ some ps
      → length ps < 3
      → j < 512
      → entry_present (entry created h j) ≡ true
      → labels (target (entry created h j)) ≡ some (j ∷ ps)
  child_of h j ps e l k there = elim (labels_cases h ps e) [
    | inr (ne, old) ↦ child_from h h j ps ps old refl (entry-kept h j ps old k) l k there
    | inl (new, top) ↦
        let moved : entry created h j ≡ entry created f j = ap (λ (x : ℕ). entry created x j) new in
        elim (Bool-cases (ltb j 256)) [
          | inl low ↦
              let nothing = moved ∙ entry-cleared j (ground arith) in
              absurd (ground (arith, there, ap entry_present nothing, present_lem 0))
          | inr high ↦
              child_from h root j ps [] here top (moved ∙ entry-copied j k (ground arith)) l k there
        ]
  ]

  pub created-IsTables : IsTables created labels
  unfolding copy_upper zero_page
  created-IsTables = record {
    direct = record {
      bytes = mark.bytes;
      reach = omega (arith, mark.size, t.direct.reach);
      small = omega (arith, mark.size, t.direct.small);
    };
    inside = λ h ps e. elim (labels_cases h ps e) [
      | inr (ne, old) ↦ omega (arith, mark.size, t.inside h ps old)
      | inl (new, top) ↦ omega (arith, mark.size)
    ];
    in_use = λ h ps e. elim (labels_cases h ps e) [
      | inr (ne, old) ↦ ground (arith, mark.state h, t.in_use h ps old)
      | inl (new, top) ↦ ground (arith, mark.state h)
    ];
    child = child_of;
  }

  -- The frames that are still free hold what they held.
  pub entry-free :
      (h j : ℕ)
      → h < frames created.pmm.bitmap
      → used created.pmm.bitmap h ≡ false
      → j < 512
      → entry created h j ≡ entry m h j
  unfolding copy_upper zero_page
  entry-free h j l u k =
      let ne : h ≢ f = ground (arith, mark.state h) in
      entry-other h j (omega (arith, mark.size)) k ne

  -- The new space leads where `root` leads from its upper half on, and nowhere below.
  pub lookup-upper :
      (j k : ℕ) (is : List ℕ)
      → 256 ≤ j
      → length is ≡ 2
      → All (λ i. i < 512) (j ∷ k ∷ is)
      → lookup created f (j ∷ k ∷ is) ≡ lookup m root (j ∷ k ∷ is)
  unfolding lookup
  lookup-upper j k is high l b =
      let copied = entry-copied j b.0 high in
      elim (Bool-cases (entry_present (entry m root j))) [
        | inl there ↦
            rw (copied, there)
              (lookup-same m created at (target (entry m root j)) (j ∷ []) (k ∷ is) t entry-kept
                (t.child root j [] here (omega arith) b.0 there) (omega arith) b.1)
        | inr gone ↦ rw (copied, gone) refl
      ]

  pub lookup-lower : (j k : ℕ) (is : List ℕ) → j < 256 → lookup created f (j ∷ k ∷ is) ≡ 0
  unfolding lookup
  lookup-lower j k is low =
      let absent : entry_present 0 ≡ false = ground (arith, present_lem 0) in
      rw (entry-cleared j low, absent) refl

pub create_run :
    (m : Vm) (root f : ℕ) (after : Bitmap)
    → pmm_alloc m.pmm.bitmap ≡ some (f * frame_size, after)
    → vmm_get_current_space m ≡ base m root
    → vmm_create m
      ≡ some (
        base m f,
        copy_upper
            (base m f)
            (base m root)
            (zero_page (base m f) (record m { pmm = record m.pmm { bitmap = after } })),
      )
unfolding vmm_create alloc_frame vmm_get_current_space
create_run m root f after e current =
    let taken : Vm = record m { pmm = record m.pmm { bitmap = after } } in
    let alloced : alloc_frame m ≡ some (f * frame_size, taken) = ground (arith, e) in
    let place : (f * frame_size + m.hhdm) % word ≡ base m f =
      ap (λ (x : ℕ). (x + m.hhdm) % word) (omega arith) in
    ap
      (λ o. and_then o (λ g u.
        let pml4 = (g + u.hhdm) % word in
        some (pml4, copy_upper pml4 (vmm_get_current_space u) (zero_page pml4 u))))
      alloced
    ∙ ap₂ (λ b c. some (b, copy_upper b c (zero_page b taken))) place current

-- From `m` to `m'` the address space with the top table in frame `f` was made, which was free: the
-- kernel's half, where the first index is 256 or more, is that of `root`, the other half is empty, and
