-- ===== src/Fs/Vfs/Tree/Attach.antt =====
-- A new entry is put behind the children of a directory: the tree that this leaves.
use project_luciano.Base.{
  ℕ, ◌≤◌, ◌<◌, ◌≡◌, refl, sym, ap, ap₂, ◌∙◌, subst, ◌≢◌, ◌⊎◌, inl, inr, true, false, none, some,
  List, [], ◌∷◌, ◌++◌, arith, ◌==◌, if◌then◌else◌, ==_iff, ==_refl, ==_ne, Bool-cases, Option-cases,
  length,
}
use project_luciano.Libc.{Bytes}
use project_luciano.Libc.Compare.{NoNul}
use project_luciano.Fs.World.{Ptr, inode_dir, Inode, Dentry, PrivateInode, World, put_priv}
use project_luciano.Fs.Ramfs.Lookup.{IsChild, ptrs}
use project_luciano.Fs.Vfs.Tree.{
  name_eq, path_eq, pick, has_name, child_of, locate, node_of, view, kind_of, kind_at, IsEntry,
  Entry, entry, IsFs,
}
use project_luciano.Fs.Vfs.Tree.Names.{name_eq_iff, path_eq_iff, name_eq_comm}
use project_luciano.Fs.Vfs.Tree.Frame.{All-mono, child_of-entry, node_of-entry}
use project_luciano.Fs.Vfs.Tree.Search.{
  or_else, and_false, and_true, or_else-none, pick-append, ptrs-append, All-append,
}

module _ (b b' : ℕ) (w : World) (fs : IsFs b w) (more : b ≤ b') (st : List Bytes) (dd : Ptr)
    (at : locate w st ≡ some dd) (e : Dentry) (n : Inode) (p : PrivateInode)
    (kids : List (Ptr × Bytes)) (i : IsEntry b w dd e n p kids) (mode : n.mode ≡ inode_dir)
    (name : Bytes) (chars : NoNul name) (absent : locate w (name ∷ st) ≡ none) (c : Ptr)
    (f : Dentry) (m : Inode) (r : PrivateInode) (j : IsEntry b' w c f m r [])
    (called : f.name ≡ some name) (fresh : b ≤ m.private_field) where
  abbrev pub joined : World
  joined = put_priv n.private_field (record p { children = p.children ++ (c ∷ []) }) w

  priv-other : (a : Ptr) → a ≢ n.private_field → joined.priv a ≡ w.priv a
  priv-other a ne = rw (==_ne a n.private_field ne) refl

  -- An entry with another private node stays.
  IsEntry-other :
      {d : Ptr} {e1 : Dentry} {n1 : Inode} {p1 : PrivateInode} {kids1 : List (Ptr × Bytes)} (k : ℕ)
      → k ≤ b'
      → n1.private_field ≢ n.private_field
      → IsEntry k w d e1 n1 p1 kids1
      → IsEntry b' joined d e1 n1 p1 kids1
  IsEntry-other {d} {e1} {n1} {p1} {kids1} k l ne h = record {
    dentry_ne = h.dentry_ne;
    dentry = h.dentry;
    inode_ne = h.inode_ne;
    inode = h.inode;
    ops = h.ops;
    node_ne = h.node_ne;
    node = priv-other n1.private_field ne ∙ h.node;
    children = h.children;
    named = h.named;
    below = All-mono (λ (c, _). c < k) (λ (c, _). c < b') kids1 (λ (a, _) q. omega arith) h.below;
    small = (omega (arith, h.small.0), omega (arith, h.small.1), omega (arith, h.small.2));
  }

  -- The directory, with the new child behind the others.
  IsEntry-joined :
      IsEntry b' joined dd e n
        (record p { children = p.children ++ (c ∷ []) })
        (kids ++ ((c, name) ∷ []))
  IsEntry-joined = record {
    dentry_ne = i.dentry_ne;
    dentry = i.dentry;
    inode_ne = i.inode_ne;
    inode = i.inode;
    ops = i.ops;
    node_ne = i.node_ne;
    node = rw (==_refl n.private_field) refl;
    children = ap (λ cs. cs ++ (c ∷ [])) i.children ∙ sym (ptrs-append kids ((c, name) ∷ []));
    named =
        All-append (IsChild joined) kids ((c, name) ∷ []) i.named
          ((j.dentry_ne, f, j.dentry, called, chars), tt);
    below =
        All-append (λ (a, _). a < b') kids ((c, name) ∷ [])
          (All-mono (λ (c, _). c < b) (λ (c, _). c < b') kids (λ (a, _) q. omega arith) i.below)
          (j.small.0, tt);
    small = (omega (arith, i.small.0), omega (arith, i.small.1), omega (arith, i.small.2));
  }

  new_node_ne : m.private_field ≢ n.private_field
  new_node_ne q = omega (arith, i.small.2)

  pick-joined : (x : Bytes) (cs : List Ptr) → pick joined cs x ≡ pick w cs x
  unfolding pick
  pick-joined x [] = refl
  pick-joined x (a ∷ cs) =
      ap (λ o. if has_name (w.dentry a) x then some a else o) (pick-joined x cs)

  child_of-other :
      (d : Ptr) (x : Bytes)
      → Entry b w d
      → node_of w d ≢ node_of w dd
      → child_of joined (some d) x ≡ child_of w (some d) x
  child_of-other d x (entry e1 n1 p1 kids1 h) ne =
      let differ : n1.private_field ≢ n.private_field =
        λ q. ne (node_of-entry h ∙ ap some q ∙ sym (node_of-entry i)) in
      child_of-entry x (IsEntry-other b more differ h)
      ∙ ap (λ o. if n1.mode == inode_dir then o else none) (pick-joined x (ptrs kids1))
      ∙ sym (child_of-entry x h)

  child_of-new : (x : Bytes) → child_of joined (some c) x ≡ none
  unfolding pick
  child_of-new x =
      child_of-entry x (IsEntry-other b' (omega arith) new_node_ne j)
      ∙ (elim (Bool-cases (m.mode == inode_dir)) [
        | inl dir ↦ rw dir refl
        | inr file ↦ rw file refl
      ])

  pick-new : (x : Bytes) → pick joined (c ∷ []) x ≡ (if name_eq x name then some c else none)
  unfolding pick
  pick-new x = rw (j.dentry, called, name_eq_comm name x) refl

  pick-both :
      (x : Bytes)
      → pick joined (ptrs (kids ++ ((c, name) ∷ []))) x
        ≡ or_else (pick w (ptrs kids) x) (if name_eq x name then some c else none)
  pick-both x =
      ap (λ cs. pick joined cs x) (ptrs-append kids ((c, name) ∷ []))
      ∙ pick-append joined (ptrs kids) (c ∷ []) x
      ∙ ap₂ or_else (pick-joined x (ptrs kids)) (pick-new x)

  pick-old : (x : Bytes) → pick w (ptrs kids) x ≡ child_of w (some dd) x
  pick-old x =
      let dir : (n.mode == inode_dir) ≡ true = rw mode refl in
      ap (λ u. if u then pick w (ptrs kids) x else none) (sym dir) ∙ sym (child_of-entry x i)

  gone_at : child_of w (locate w st) name ≡ none
  unfolding locate
  gone_at = absent

  -- In the directory: the new child under its name, and the others under theirs.
  child_of-joined :
      (x : Bytes)
      → child_of joined (some dd) x ≡ (if name_eq x name then some c else child_of w (some dd) x)
  child_of-joined x =
      let dir : (n.mode == inode_dir) ≡ true = rw mode refl in
      let new : child_of joined (some dd) x
          ≡ or_else (child_of w (some dd) x) (if name_eq x name then some c else none) =
        child_of-entry x IsEntry-joined
        ∙ ap (λ u. if u then pick joined (ptrs (kids ++ ((c, name) ∷ []))) x else none) dir
        ∙ pick-both x
        ∙ ap (λ o. or_else o (if name_eq x name then some c else none)) (pick-old x) in
      new ∙ (elim (Bool-cases (name_eq x name)) [
        | inl same ↦
            let gone : child_of w (some dd) x ≡ none =
              ap (child_of w (some dd)) ((name_eq_iff x name).0 same)
              ∙ ap (λ o. child_of w o name) (sym at)
              ∙ gone_at in
            rw (same, gone) refl
        | inr differ ↦ rw differ (or_else-none (child_of w (some dd) x))
      ])

  not_longer : (s : List Bytes) → s ≡ name ∷ st → path_eq s st ≡ false
  not_longer s q = elim (Bool-cases (path_eq s st)) [
    | inl same ↦ absurd (omega (arith, ap length q, ap length ((path_eq_iff s st).0 same)))
    | inr differ ↦ differ
  ]

  not_parent : (s : List Bytes) → locate w s ≡ none → path_eq s st ≡ false
  not_parent s nothing = elim (Bool-cases (path_eq s st)) [
    | inl same ↦ absurd (ground (arith, nothing, ap (locate w) ((path_eq_iff s st).0 same), at))
    | inr differ ↦ differ
  ]

  node_ne :
      (s : List Bytes) (d : Ptr)
      → locate w s ≡ some d
      → path_eq s st ≡ false
      → node_of w d ≢ node_of w dd
  node_ne s d found other q =
      ground (arith, other, (path_eq_iff s st).1 (fs.apart s st d dd found at q))

  -- The new path leads to the new entry, and every other path where it did.
  pub locate-joined :
      (s : List Bytes) → locate joined s ≡ (if path_eq s (name ∷ st) then some c else locate w s)
  unfolding locate path_eq
  locate-joined [] = refl
  locate-joined (x ∷ s) =
      ap (λ o. child_of joined o x) (locate-joined s) ∙ (elim (Bool-cases (path_eq s (name ∷ st))) [
        | inl new ↦
            let here = (path_eq_iff s (name ∷ st)).0 new in
            rw (new, not_longer s here, ap (locate w) here ∙ absent, and_false (name_eq x name))
              (child_of-new x)
        | inr old ↦ elim (Option-cases (locate w s)) [
          | inl nothing ↦ rw (old, not_parent s nothing, nothing, and_false (name_eq x name)) refl
          | inr (d, found) ↦ elim (Bool-cases (path_eq s st)) [
            | inl parent ↦
                let there = ap (locate w) ((path_eq_iff s st).0 parent) ∙ at in
                rw (old, parent, there, and_true (name_eq x name)) (child_of-joined x)
            | inr other ↦
                rw (old, other, found, and_false (name_eq x name))
                  (child_of-other d x (fs.entries s d found) (node_ne s d found other))
          ]
        ]
      ])

  node_of-new : node_of w c ≡ some m.private_field
  node_of-new = node_of-entry j

  -- What stands at a path afterwards is the new entry, or was there.
  joined_cases :
      (s : List Bytes) (d : Ptr)
      → locate joined s ≡ some d
      → (s ≡ name ∷ st) × (c ≡ d) ⊎ (locate w s ≡ some d)
  joined_cases s d e =
      let now = sym (locate-joined s) ∙ e in
      elim (Bool-cases (path_eq s (name ∷ st))) [
        | inl new ↦ inl ((path_eq_iff s (name ∷ st)).0 new, ground (arith, now, new))
        | inr old ↦ inr (ground (arith, now, old))
      ]

  Entry-old : (s : List Bytes) (d : Ptr) → locate w s ≡ some d → Entry b w d → Entry b' joined d
  Entry-old s d old (entry e1 n1 p1 kids1 h) =
      elim (Bool-cases (n1.private_field == n.private_field)) [
        | inl same ↦
            let node =
              node_of-entry h
              ∙ ap some ((==_iff n1.private_field n.private_field).0 same)
              ∙ sym (node_of-entry i) in
            let here : dd ≡ d =
              ground (arith, ap (locate w) (fs.apart s st d dd old at node), old, at) in
            subst (Entry b' joined) here (entry e n _ _ IsEntry-joined)
        | inr differ ↦ entry e1 n1 p1 kids1 (
            IsEntry-other b more
              (λ q. ground (arith, differ, (==_iff n1.private_field n.private_field).1 q)) h)
      ]

  node_old_ne : (d : Ptr) → Entry b w d → node_of w d ≢ some m.private_field
  node_old_ne d (entry e1 n1 p1 kids1 h) q = ground (arith, node_of-entry h, q, h.small.2)

  apart_cases :
      (s t : List Bytes) (d a : Ptr)
      → (s ≡ name ∷ st) × (c ≡ d) ⊎ (locate w s ≡ some d)
      → (t ≡ name ∷ st) × (c ≡ a) ⊎ (locate w t ≡ some a)
      → node_of w d ≡ node_of w a
      → s ≡ t
  apart_cases s t d a (inl (q, u)) (inl (r, v)) same = q ∙ sym r
  apart_cases s t d a (inl (q, u)) (inr v) same =
      absurd (node_old_ne a (fs.entries t a v) (sym same ∙ ap (node_of w) (sym u) ∙ node_of-new))
  apart_cases s t d a (inr u) (inl (r, v)) same =
      absurd (node_old_ne d (fs.entries s d u) (same ∙ ap (node_of w) (sym v) ∙ node_of-new))
  apart_cases s t d a (inr u) (inr v) same = fs.apart s t d a u v same

  pub IsFs-joined : IsFs b' joined
  IsFs-joined = record {
    entries = λ s d e. elim (joined_cases s d e) [
      | inl (q, new) ↦
          subst (Entry b' joined) new
            (entry f m r [] (IsEntry-other b' (omega arith) new_node_ne j))
      | inr old ↦ Entry-old s d old (fs.entries s d old)
    ];
    apart = λ s t d a g h same. apart_cases s t d a (joined_cases s d g) (joined_cases t a h) same;
  }

  -- What each path is afterwards.
  pub view-joined :
      (s : List Bytes)
      → view joined s ≡ (if path_eq s (name ∷ st) then kind_of (some m) else view w s)
  unfolding view
  view-joined s =
      ap (kind_at joined) (locate-joined s) ∙ (elim (Bool-cases (path_eq s (name ∷ st))) [
        | inl new ↦ rw (new, j.dentry, j.inode) refl
        | inr old ↦ rw old refl
      ])
