-- ===== src/Fs/Vfs/Open/Made.antt =====
-- `vfs_open` past the walk: the lookup in the parent, and the descriptor of what it finds.
use project_luciano.Base.{
  ℕ, bit_and, ◌≡◌, refl, sym, ap, ◌∙◌, subst, inl, inr, none, some, List, ◌∷◌, ◌==◌, ==_iff,
  ==_refl, ==_ne, Bool-cases, Option-cases,
}
use project_luciano.Libc.{Bytes}
use project_luciano.Libc.Compare.{NoNul}
use project_luciano.Fs.Path.{Rows}
use project_luciano.Fs.World.{
  Ptr, null, vfs_ok, vfs_enoent, o_creat, o_trunc, Inode, Dentry, PrivateInode, World, done,
  put_inode, load_inode, load_dentry, store_inode,
}
use project_luciano.Fs.Ramfs.{ramfs_ops, ramfs_open}
use project_luciano.Fs.Vfs.{Ops, create_file, open_found, open_at, table, new_descriptor}
use project_luciano.Fs.Vfs.Tree.{ramfs_table, child_of, locate, IsEntry, Entry, entry, IsFs}
use project_luciano.Fs.Vfs.Tree.Frame.{Agrees}
use project_luciano.Fs.Vfs.Tree.Walk.{lookup_in-entry}
use project_luciano.Fs.Vfs.Create.{IsPlentiful}
use project_luciano.Fs.Vfs.Open.{Opens, new_descriptor_lem}

module _ (drivers : Ptr → Ops) (junk : Rows) (mounted : drivers ramfs_ops ≡ ramfs_table) (flags : ℕ)
    (no_creat : bit_and flags o_creat ≡ 0) (no_trunc : bit_and flags o_trunc ≡ 0) where
  module _ (w : World) (fs : IsFs w.next w) (plenty : IsPlentiful w) (st : List Bytes) (dd : Ptr)
      (at : locate w st ≡ some dd) (e : Dentry) (n : Inode) (p : PrivateInode)
      (kids : List (Ptr × Bytes)) (i : IsEntry w.next w dd e n p kids) (name : Bytes)
      (chars : NoNul name) where
    -- On an entry the driver has nothing to do.
    ramfs_open-entry :
        {c : Ptr} {f : Dentry} {m : Inode} {q : PrivateInode} {subs : List (Ptr × Bytes)}
        → IsEntry w.next w c f m q subs
        → ramfs_open e.inode c flags (put_inode f.inode m w) ≡ done vfs_ok (put_inode f.inode m w)
    unfolding ramfs_open load_dentry load_inode
    ramfs_open-entry {c} {f} {m} j =
        rw
          (
            ==_ne e.inode 0 i.inode_ne,
            ==_ne c 0 j.dentry_ne,
            ==_ne c 0 j.dentry_ne,
            j.dentry,
            ==_ne f.inode 0 j.inode_ne,
            no_creat,
            ==_ne f.inode 0 j.inode_ne,
            ==_refl f.inode,
            j.ops,
            ==_ne m.private_field 0 j.node_ne,
          )
          refl

    open_found-Opens :
        (c : Ptr)
        → locate w (name ∷ st) ≡ some c
        → Entry w.next w c
        → Opens w (name ∷ st) flags (some c) (open_found drivers junk e c flags w)
    unfolding open_found load_dentry load_inode store_inode table
    open_found-Opens c there (entry f m q subs j) =
        let u : World = put_inode f.inode m w in
        let same : Agrees w.next w u = record {
          dentry = λ x l. refl;
          inode = λ x l. elim (Bool-cases (x == f.inode)) [
            | inl here ↦ rw (here, (==_iff x f.inode).0 here, j.inode) refl
            | inr other ↦ rw other refl
          ];
          priv = λ x l. refl;
        } in
        let run : open_found drivers junk e c flags w ≡ new_descriptor c f.inode flags u =
          rw
            (
              ==_ne c 0 j.dentry_ne,
              no_creat,
              ==_ne c 0 j.dentry_ne,
              j.dentry,
              ==_ne f.inode 0 j.inode_ne,
              j.inode,
              ==_ne f.inode 0 j.inode_ne,
              no_trunc,
              ap (λ k. k == null) j.ops,
              ap drivers j.ops ∙ mounted,
              ramfs_open-entry j,
            )
            refl in
        subst (Opens w (name ∷ st) flags (some c)) (sym run) (
          new_descriptor_lem u w (name ∷ st) flags c f fs plenty same refl refl there j.dentry
            j.small.0)

    pub open_at-Opens :
        Opens w (name ∷ st) flags (locate w (name ∷ st)) (open_at drivers junk name flags dd w)
    unfolding open_at create_file load_dentry locate
    open_at-Opens =
        let search = lookup_in-entry drivers junk mounted name i chars in
        elim (Option-cases (child_of w (some dd) name)) [
          | inl gone ↦
              let absent : locate w (name ∷ st) ≡ none = ap (λ o. child_of w o name) at ∙ gone in
              let run : open_at drivers junk name flags dd w ≡ done (vfs_enoent, none) w =
                rw
                  (==_ne dd 0 i.dentry_ne, ==_ne dd 0 i.dentry_ne, i.dentry, search, gone, no_creat)
                  refl in
              subst (λ o. Opens w (name ∷ st) flags o (open_at drivers junk name flags dd w))
                (sym absent) run
          | inr (c, found) ↦
              let there : locate w (name ∷ st) ≡ some c = ap (λ o. child_of w o name) at ∙ found in
              let run : open_at drivers junk name flags dd w ≡ open_found drivers junk e c flags w =
                rw (==_ne dd 0 i.dentry_ne, ==_ne dd 0 i.dentry_ne, i.dentry, search, found) refl in
              subst (λ o. Opens w (name ∷ st) flags o (open_at drivers junk name flags dd w))
                (sym there)
                (subst (Opens w (name ∷ st) flags (some c)) (sym run)
                  (open_found-Opens c there (fs.entries (name ∷ st) c there)))
        ]
