-- ===== src/Fs/Vfs/Reopen.antt =====
-- `vfs_open` of kernel/vfs/vfs.c with VFS_O_CREAT and without VFS_O_EXCL of a path that exists: what
-- `ramfs_open` of kernel/drivers/ramfs/ramfs.c leaves of it.
pub mod Outcome
use project_luciano.Base.{
  ℕ, ◌+◌, ◌%◌, ◌^◌, bit_and, ◌≡◌, refl, sym, ap, ◌∙◌, subst, ◌≢◌, inl, inr, true, false, Option,
  none, some, List, [], ◌∷◌, arith, leb, ◌==◌, if◌then◌else◌, ==_iff, ==_refl, ==_ne, Bool-cases,
  Option-cases, length,
}
use project_luciano.Libc.{Bytes}
use project_luciano.Libc.Compare.{NoNul}
use project_luciano.Fs.Path.{Rows, parse_path}
use project_luciano.Fs.World.{
  Ptr, null, Flag, vfs_ok, vfs_eexist, vfs_enospc, o_creat, o_excl, o_trunc, inode_dir, Inode,
  Dentry, PrivateInode, World, Run, done, put_inode, put_priv, load_inode, load_dentry, store_inode,
  store_priv, kmalloc,
}
use project_luciano.Fs.Ramfs.{ramfs_ops, max_child, hang, ramfs_open, next_file, ramfs_putchild}
use project_luciano.Fs.Ramfs.Lookup.{IsDir, ptrs, Picks, put_answer, ramfs_putchild_lem}
use project_luciano.Fs.Vfs.{Ops, FileDescriptor, open_found, open_at, table, vfs_open}
use project_luciano.Fs.Vfs.Tree.{
  Kind, view, ramfs_table, has_name, is_name, pick, child_of, locate, node_of, IsEntry, Entry,
  entry, IsFs,
}
use project_luciano.Fs.Vfs.Tree.Names.{Picks-pick, name_eq_iff}
use project_luciano.Fs.Vfs.Tree.Frame.{child_of-entry, node_of-entry}
use project_luciano.Fs.Vfs.Tree.Walk.{lookup_in-entry}
use project_luciano.Fs.Vfs.Create.{
  IsPlentiful, view-nothing, is_full, is_full-entry, path_of, some_address,
}
use project_luciano.Fs.Vfs.Parsed.{vfs_open-at, path_of-NoNul}

-- The entry at `c` has lost its private node.
abbrev pub IsLost : World → Ptr → Type 0
IsLost w c =
    (f : Dentry) × (m : Inode) × (w.dentry c ≡ some f)
    × (w.inode f.inode ≡ some m)
    × (m.private_field ≡ null)

-- A run that is refused with this flag, after which the entry at `c` has lost its private node.
abbrev pub Loses : Flag → Ptr → Run (Flag × Option FileDescriptor) → Type 0
Loses flag c run = (w' : World) × (run ≡ done (flag, none) w') × IsLost w' c

pub pick-named :
    (w : World) (cs : List Ptr) (x : Bytes) (c : Ptr) (d : Dentry)
    → pick w cs x ≡ some c
    → w.dentry c ≡ some d
    → d.name ≡ some x
unfolding pick
pick-named w [] x c d e at = absurd (ground (arith, e))
pick-named w (b ∷ cs) x c d e at = elim (Bool-cases (has_name (w.dentry b) x)) [
  | inl hit ↦
      let same : b ≡ c = ground (arith, e, hit) in
      is_name-some d.name x (sym (ap (λ o. has_name o x) (ap w.dentry same ∙ at)) ∙ hit)
  | inr miss ↦ pick-named w cs x c d (ground (arith, e, miss)) at
]
  where
    is_name-some : (o : Option Bytes) (x : Bytes) → is_name o x ≡ true → o ≡ some x
    is_name-some none x h = absurd (ground (arith, h))
    is_name-some (some n) x h = ap some ((name_eq_iff n x).0 h)

module _ (w : World) (fs : IsFs w.next w) (plenty : IsPlentiful w) (flags : ℕ)
    (creat : bit_and flags o_creat ≢ 0) (no_excl : bit_and flags o_excl ≡ 0) (st : List Bytes)
    (dd : Ptr) (at : locate w st ≡ some dd) (e : Dentry) (n : Inode) (p : PrivateInode)
    (kids : List (Ptr × Bytes)) (i : IsEntry w.next w dd e n p kids) (mode : n.mode ≡ inode_dir)
    (name : Bytes) (c : Ptr) (there : locate w (name ∷ st) ≡ some c) (f : Dentry) (m : Inode)
    (q : PrivateInode) (subs : List (Ptr × Bytes)) (j : IsEntry w.next w c f m q subs)
    (called : f.name ≡ some name) (chars : NoNul name) where
  -- The child is not its parent.
  inode_ne : e.inode ≢ f.inode
  inode_ne same =
      let one : some n ≡ some m = sym i.inode ∙ ap w.inode same ∙ j.inode in
      let node : node_of w dd ≡ node_of w c =
        node_of-entry i ∙ ground (arith, one) ∙ sym (node_of-entry j) in
      let loop : st ≡ name ∷ st = fs.apart st (name ∷ st) dd c at there node in
      omega (arith, ap length loop)

  abbrev contents : PrivateInode
  contents = record { file_index = w.ramfs_file_count; children = []; parent = e.inode }

  abbrev hung : Inode → World
  hung k =
      record (put_inode f.inode (record k { ops = ramfs_ops; private_field = w.next })
        (put_priv w.next contents (put_inode f.inode k w))) {
          next = w.next + 1;
          ramfs_file_count = (w.ramfs_file_count + 1) % 2 ^ 32;
        }

  abbrev lost : Inode → World
  lost k = put_inode f.inode (record k { ops = ramfs_ops; private_field = null }) (hung k)

  abbrev flag : Flag
  flag = if leb max_child (length kids) then vfs_enospc else vfs_eexist

  hung-IsDir : (k : Inode) → IsDir (hung k) e.inode n p kids
  hung-IsDir k = record {
    at_ne = i.inode_ne;
    inode = rw (==_ne e.inode f.inode inode_ne) i.inode;
    mode = mode;
    node_ne = i.node_ne;
    node = rw (==_ne n.private_field w.next (omega (arith, i.small.2))) i.node;
    children = i.children;
    named = i.named;
  }

  picked : (o : Option Ptr) → Picks kids name o → o ≡ some c
  unfolding locate
  picked o h =
      sym (Picks-pick w kids name o i.named h)
      ∙ ap (λ u. if u then pick w (ptrs kids) name else none) (sym (ap (λ k. k == inode_dir) mode))
      ∙ sym (child_of-entry name i)
      ∙ ap (λ u. child_of w u name) (sym at)
      ∙ there

  putchild_lem : (k : Inode) → ramfs_putchild e.inode c (hung k) ≡ done flag (hung k)
  putchild_lem k =
      let (o, h, run) =
        ramfs_putchild_lem c name (hung-IsDir k) (j.dentry_ne, f, j.dentry, called, chars) in
      run
      ∙ ap
          (λ u.
            if leb max_child (length kids)
            then done vfs_enospc (hung k)
            else put_answer n.private_field p c u (hung k))
          (picked o h)
      ∙ (elim (Bool-cases (leb max_child (length kids))) [
        | inl full ↦ rw full refl
        | inr room ↦ rw room refl
      ])

  ramfs_open-lost :
      (k : Inode) → ramfs_open e.inode c flags (put_inode f.inode k w) ≡ done flag (lost k)
  unfolding ramfs_open hang load_dentry load_inode store_inode store_priv kmalloc next_file
  ramfs_open-lost k =
      let (x, memory) = plenty w.next 8216 in
      let positive = some_address w fs in
      let refused : (flag == vfs_ok) ≡ false = elim (Bool-cases (leb max_child (length kids))) [
        | inl full ↦ rw full refl
        | inr room ↦ rw room refl
      ] in
      rw
        (
          ==_ne e.inode 0 i.inode_ne,
          ==_ne c 0 j.dentry_ne,
          ==_ne c 0 j.dentry_ne,
          j.dentry,
          ==_ne f.inode 0 j.inode_ne,
          ==_ne (bit_and flags o_creat) 0 creat,
          memory,
          ==_ne w.next 0 (omega (arith, positive)),
          ==_ne w.next 0 (omega (arith, positive)),
          ==_ne f.inode 0 j.inode_ne,
          ==_refl f.inode,
          ==_ne f.inode 0 j.inode_ne,
          putchild_lem k,
          refused,
          ==_ne f.inode 0 j.inode_ne,
          ==_refl f.inode,
          ==_ne f.inode 0 j.inode_ne,
        )
        refl

  lost-IsLost : (k : Inode) → IsLost (lost k) c
  lost-IsLost k = (
    f,
    record k { ops = ramfs_ops; private_field = null },
    j.dentry,
    rw (==_refl f.inode) refl,
    refl,
  )

  module _ (drivers : Ptr → Ops) (junk : Rows) (mounted : drivers ramfs_ops ≡ ramfs_table) where
    abbrev stored : Inode
    stored = if bit_and flags o_trunc == 0 then m else record m { size = 0 }

    open_found-Loses : Loses flag c (open_found drivers junk e c flags w)
    unfolding open_found load_dentry load_inode store_inode table
    open_found-Loses =
        let refused : (flag == vfs_ok) ≡ false = elim (Bool-cases (leb max_child (length kids))) [
          | inl full ↦ rw full refl
          | inr room ↦ rw room refl
        ] in
        let run : open_found drivers junk e c flags w ≡ done (flag, none) (lost stored) =
          rw
            (
              ==_ne c 0 j.dentry_ne,
              ==_ne (bit_and flags o_creat) 0 creat,
              no_excl,
              ==_ne c 0 j.dentry_ne,
              j.dentry,
              ==_ne f.inode 0 j.inode_ne,
              j.inode,
              ==_ne f.inode 0 j.inode_ne,
              ap (λ k. k == null) j.ops,
              ap drivers j.ops ∙ mounted,
              ramfs_open-lost stored,
              refused,
            )
            refl in
        (lost stored, run, lost-IsLost stored)

    pub open_at-Loses : Loses flag c (open_at drivers junk name flags dd w)
    unfolding open_at load_dentry locate
    open_at-Loses =
        let found : child_of w (some dd) name ≡ some c =
          ap (λ o. child_of w o name) (sym at) ∙ there in
        let run : open_at drivers junk name flags dd w ≡ open_found drivers junk e c flags w =
          rw
            (
              ==_ne dd 0 i.dentry_ne,
              ==_ne dd 0 i.dentry_ne,
              i.dentry,
              lookup_in-entry drivers junk mounted name i chars,
              found,
            )
            refl in
        subst (Loses flag c) (sym run) open_found-Loses
