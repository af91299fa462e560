-- ===== src/Fs/Vfs/Tree/Grow.antt =====
-- `hang` of kernel/drivers/ramfs/ramfs.c on a mounted tree: a new inode behind a new dentry gets its
-- private node and becomes a child of a directory.
use project_luciano.Base.{
  ℕ, ◌+◌, ◌<◌, ◌≡◌, refl, sym, ap, ◌∙◌, subst, inl, inr, true, false, ◌&&◌, ◌||◌, Option, none,
  some, List, [], ◌∷◌, ◌++◌, arith, leb, ◌==◌, if◌then◌else◌, ==_refl, ==_ne, Bool-cases, length,
}
use project_luciano.Libc.{Bytes}
use project_luciano.Libc.Compare.{NoNul}
use project_luciano.Fs.World.{
  Ptr, null, Flag, vfs_ok, vfs_enospc, inode_dir, Inode, Dentry, PrivateInode, World, done,
  put_inode, put_priv, load_inode, store_inode, store_priv,
}
use project_luciano.Fs.Ramfs.{ramfs_ops, max_child, hang, ramfs_putchild}
use project_luciano.Fs.Ramfs.Lookup.{ptrs, ramfs_putchild_lem, put_answer}
use project_luciano.Fs.Vfs.Tree.{path_eq, pick, child_of, locate, view, kind_of, IsEntry, IsFs}
use project_luciano.Fs.Vfs.Tree.Names.{Picks-pick, path_eq_iff}
use project_luciano.Fs.Vfs.Tree.Frame.{
  Agrees, child_of-entry, pick-Agrees, IsEntry-Agrees, locate-Agrees, view-Agrees, IsFs-Agrees,
  IsFs-more,
}
use project_luciano.Fs.Vfs.Tree.Attach.{locate-joined, IsFs-joined, view-joined}
use project_luciano.Fs.Vfs.Tree.Walk.{IsDir-entry}

module _ (a : ℕ) (w : World) (fs : IsFs a w) (some_address : 0 < a) (st : List Bytes) (dd : Ptr)
    (at : locate w st ≡ some dd) (e : Dentry) (n : Inode) (p : PrivateInode)
    (kids : List (Ptr × Bytes)) (i : IsEntry a w dd e n p kids) (mode : n.mode ≡ inode_dir)
    (name : Bytes) (chars : NoNul name) (absent : locate w (name ∷ st) ≡ none) (v : World)
    (same : Agrees a w v) (m : Inode)
    (leaf : v.dentry a ≡ some (record { name = some name; parent = dd; inode = a + 1 }))
    (inode : v.inode (a + 1) ≡ some m) (r : PrivateInode) (empty : r.children ≡ []) where
  abbrev with_node : Inode
  with_node = record m { ops = ramfs_ops; private_field = a + 3 }

  abbrev leaf_entry : Dentry
  leaf_entry = record { name = some name; parent = dd; inode = a + 1 }

  abbrev hung : World
  hung = put_inode (a + 1) with_node (put_priv (a + 3) r v)

  abbrev grown : World
  grown = put_priv n.private_field (record p { children = p.children ++ (a ∷ []) }) hung

  -- The world where the directory was full: the inode has lost its node again.
  abbrev undone : World
  undone = put_inode (a + 1) (record with_node { private_field = null }) hung

  Agrees-hung : Agrees a w hung
  Agrees-hung = record {
    dentry = same.dentry;
    inode = λ x l. rw (==_ne x (a + 1) (omega arith)) (same.inode x l);
    priv = λ x l. rw (==_ne x (a + 3) (omega arith)) (same.priv x l);
  }

  Agrees-undone : Agrees a w undone
  Agrees-undone = record {
    dentry = same.dentry;
    inode = λ x l. rw (==_ne x (a + 1) (omega arith)) (same.inode x l);
    priv = Agrees-hung.priv;
  }

  IsEntry-new : IsEntry (a + 4) hung a leaf_entry with_node r []
  IsEntry-new = record {
    dentry_ne = omega arith;
    dentry = leaf;
    inode_ne = omega arith;
    inode = rw (==_refl (a + 1)) refl;
    ops = refl;
    node_ne = omega arith;
    node = rw (==_refl (a + 3)) refl;
    children = empty;
    named = tt;
    below = tt;
    small = (omega arith, omega arith, omega arith);
  }

  nothing_there : (o : Option Ptr) → pick hung (ptrs kids) name ≡ o → o ≡ none
  unfolding locate
  nothing_there o q =
      sym q
      ∙ pick-Agrees a w hung Agrees-hung kids name i.below
      ∙ ap (λ u. if u then pick w (ptrs kids) name else none) (sym (ap (λ k. k == inode_dir) mode))
      ∙ sym (child_of-entry name i)
      ∙ ap (λ u. child_of w u name) (sym at)
      ∙ absent

  put_lem :
      ramfs_putchild e.inode a hung
      ≡ (if leb max_child (length kids) then done vfs_enospc hung else done vfs_ok grown)
  put_lem =
      let here = IsEntry-Agrees a w hung Agrees-hung i in
      let (o, q, run) =
        ramfs_putchild_lem a name (IsDir-entry here mode)
          (IsEntry-new.dentry_ne, leaf_entry, leaf, refl, chars) in
      let free = nothing_there o (Picks-pick hung kids name o here.named q) in
      run
      ∙ ap
          (λ u.
            if leb max_child (length kids)
            then done vfs_enospc hung
            else put_answer n.private_field p a u hung)
          free

  hang-room :
      leb max_child (length kids) ≡ false → hang e.inode a (a + 1) (a + 3) r v ≡ done vfs_ok grown
  unfolding hang load_inode store_inode store_priv
  hang-room room =
      ground
        (arith, inode, put_lem, room, ==_ne (a + 1) 0 (omega arith), ==_ne (a + 3) 0 (omega arith))

  hang-full :
      leb max_child (length kids) ≡ true
      → hang e.inode a (a + 1) (a + 3) r v ≡ done vfs_enospc undone
  unfolding hang load_inode store_inode store_priv
  hang-full full = ground (
    arith,
    inode,
    put_lem,
    full,
    ==_ne (a + 1) 0 (omega arith),
    ==_ne (a + 3) 0 (omega arith),
    ==_refl (a + 1),
  )

  IsFs-grown : IsFs (a + 4) grown
  IsFs-grown =
      IsFs-joined a (a + 4) hung (IsFs-Agrees a w hung Agrees-hung fs) (omega arith) st dd
        (locate-Agrees a w hung Agrees-hung fs st ∙ at) e n p kids
        (IsEntry-Agrees a w hung Agrees-hung i) mode name chars
        (locate-Agrees a w hung Agrees-hung fs (name ∷ st) ∙ absent) a leaf_entry with_node r
        IsEntry-new refl (omega arith)

  view-grown :
      (s : List Bytes)
      → view grown s ≡ (if path_eq s (name ∷ st) then kind_of (some m) else view w s)
  view-grown s =
      view-joined a (a + 4) hung (IsFs-Agrees a w hung Agrees-hung fs) (omega arith) st dd
        (locate-Agrees a w hung Agrees-hung fs st ∙ at) e n p kids
        (IsEntry-Agrees a w hung Agrees-hung i) mode name chars
        (locate-Agrees a w hung Agrees-hung fs (name ∷ st) ∙ absent) a leaf_entry with_node r
        IsEntry-new refl (omega arith) s
      ∙ ap (λ u. if path_eq s (name ∷ st) then kind_of (some m) else u)
          (view-Agrees a w hung Agrees-hung fs s)

  locate-grown : locate grown (name ∷ st) ≡ some a
  locate-grown =
      locate-joined a (a + 4) hung (IsFs-Agrees a w hung Agrees-hung fs) (omega arith) st dd
        (locate-Agrees a w hung Agrees-hung fs st ∙ at) e n p kids
        (IsEntry-Agrees a w hung Agrees-hung i) mode name chars
        (locate-Agrees a w hung Agrees-hung fs (name ∷ st) ∙ absent) a leaf_entry with_node r
        IsEntry-new refl (omega arith) (name ∷ st)
      ∙ rw ((path_eq_iff (name ∷ st) (name ∷ st)).1 refl) refl

  IsFs-undone : IsFs (a + 4) undone
  IsFs-undone = IsFs-more a (a + 4) undone (omega arith) (IsFs-Agrees a w undone Agrees-undone fs)

  view-undone : (s : List Bytes) → view undone s ≡ view w s
  view-undone = view-Agrees a w undone Agrees-undone fs

  abbrev pub full_flag : Flag
  full_flag = if leb max_child (length kids) then vfs_enospc else vfs_ok

  -- What the driver leaves: a tree again, whose inode has its node exactly if the flag is VFS_OK.
  pub record Hung (u : World) : Type 0 where
    pub run : hang e.inode a (a + 1) (a + 3) r v ≡ done full_flag u
    pub answer : u.answer ≡ v.answer
    pub next : u.next ≡ v.next
    pub node :
        (k : Inode) × (u.inode (a + 1) ≡ some k)
        × ((full_flag ≡ vfs_ok) → (k.private_field == null || k.ops == null) ≡ false)
    pub entry_there : u.dentry a ≡ some leaf_entry
    pub there : (full_flag ≡ vfs_ok) → locate u (name ∷ st) ≡ some a
    pub tree : IsFs u.next u
    pub map :
        (s : List Bytes)
        → view u s
          ≡ (if (full_flag == vfs_ok) && path_eq s (name ∷ st) then kind_of (some m) else view w s)

  -- The driver refuses the child of a full directory and leaves the tree as it was; otherwise the new
  -- path is there.
  pub hang_lem : v.next ≡ a + 4 → (u : World) × Hung u
  hang_lem next = elim (Bool-cases (leb max_child (length kids))) [
    | inl full ↦ (
      undone,
      record {
        run = hang-full full ∙ ap (λ b. done (if b then vfs_enospc else vfs_ok) undone) (sym full);
        answer = refl;
        next = refl;
        node = (
          record with_node { private_field = null },
          rw (==_refl (a + 1)) refl,
          λ q. absurd (ground (arith, full, q)),
        );
        entry_there = leaf;
        there = λ q. absurd (ground (arith, full, q));
        tree = subst (λ k. IsFs k undone) (sym next) IsFs-undone;
        map = λ s.
            view-undone s
            ∙ ap
                (λ b.
                  if ((if b then vfs_enospc else vfs_ok) == vfs_ok) && path_eq s (name ∷ st)
                  then kind_of (some m)
                  else view w s)
                (sym full);
      },
    )
    | inr room ↦ (
      grown,
      record {
        run = hang-room room ∙ ap (λ b. done (if b then vfs_enospc else vfs_ok) grown) (sym room);
        answer = refl;
        next = refl;
        node = (with_node, rw (==_refl (a + 1)) refl, λ q. rw (==_ne (a + 3) 0 (omega arith)) refl);
        entry_there = leaf;
        there = λ q. locate-grown;
        tree = subst (λ k. IsFs k grown) (sym next) IsFs-grown;
        map = λ s.
            view-grown s
            ∙ ap
                (λ b.
                  if ((if b then vfs_enospc else vfs_ok) == vfs_ok) && path_eq s (name ∷ st)
                  then kind_of (some m)
                  else view w s)
                (sym room);
      },
    )
  ]
