-- ===== src/Fs/Vfs/Open/Outcome.antt =====
-- `vfs_open` on a whole path.
use project_luciano.Base.{
  ℕ, suc, ◌-◌, bit_and, ◌≡◌, refl, sym, ap, subst, inl, inr, Option, none, some, List, [], ◌∷◌,
  arith, ==_ne, Option-cases,
}
use project_luciano.Libc.{Bytes}
use project_luciano.Libc.Compare.{NoNul}
use project_luciano.Fs.Path.{Rows, PathBuf, parse_path, component}
use project_luciano.Fs.Path.Outcome.{components, component-NoNul}
use project_luciano.Fs.World.{Ptr, vfs_enoent, o_creat, o_trunc, World, done, load_dentry}
use project_luciano.Fs.Ramfs.{ramfs_ops}
use project_luciano.Fs.Vfs.{
  Ops, vfs_root, open_at, open_parsed, new_descriptor, vfs_walk_parent, vfs_open,
}
use project_luciano.Fs.Vfs.Tree.{ramfs_table, child_of, locate, Entry, entry, IsFs}
use project_luciano.Fs.Vfs.Tree.Frame.{Agrees}
use project_luciano.Fs.Vfs.Tree.Walk.{walk_lem}
use project_luciano.Fs.Vfs.Create.{IsPlentiful, path_of, Nat-cases}
use project_luciano.Fs.Vfs.Open.{Opens, OpensPath, new_descriptor_lem}
use project_luciano.Fs.Vfs.Open.Made.{open_at-Opens}

module _ (drivers : Ptr → Ops) (junk : Rows) (mounted : drivers ramfs_ops ≡ ramfs_table) (flags : ℕ)
    (no_creat : bit_and flags o_creat ≡ 0) (no_trunc : bit_and flags o_trunc ≡ 0) where
  module _ (w : World) (fs : IsFs w.next w) (plenty : IsPlentiful w) where
    open_at-entry :
        (st : List Bytes) (dd : Ptr) (name : Bytes)
        → locate w st ≡ some dd
        → NoNul name
        → Entry w.next w dd
        → Opens w (name ∷ st) flags (locate w (name ∷ st)) (open_at drivers junk name flags dd w)
    open_at-entry st dd name at chars (entry e n p kids i) =
        open_at-Opens drivers junk mounted flags no_creat no_trunc w fs plenty st dd at e n p kids i
          name chars

    open_below :
        (p : PathBuf) (d : ℕ)
        → p.depth ≡ suc d
        → OpensPath w flags
            (some (component p d ∷ components p d))
            (open_parsed drivers junk (some p) flags w)
    unfolding open_parsed vfs_walk_parent locate
    open_below p d deep =
        let walk = walk_lem drivers junk mounted w.next w fs p d 0 d vfs_root (omega arith) refl in
        let last : p.depth - 1 ≡ d = omega (arith, deep) in
        let below = ==_ne p.depth 0 (omega (arith, deep)) in
        elim (Option-cases (locate w (components p d))) [
          | inl gone ↦
              let nothing : locate w (component p d ∷ components p d) ≡ none =
                ap (λ o. child_of w o (component p d)) gone in
              let run : open_parsed drivers junk (some p) flags w ≡ done (vfs_enoent, none) w =
                rw (below, last, walk, gone) refl in
              subst
                (λ o.
                  Opens w (component p d ∷ components p d) flags o
                    (open_parsed drivers junk (some p) flags w))
                (sym nothing) run
          | inr (dd, at) ↦
              let run : open_parsed drivers junk (some p) flags w
                  ≡ open_at drivers junk (component p d) flags dd w =
                rw (below, last, walk, at) refl in
              subst (OpensPath w flags (some (component p d ∷ components p d))) (sym run) (
                open_at-entry (components p d) dd (component p d) at (component-NoNul p d)
                  (fs.entries (components p d) dd at))
        ]

    open_root :
        Entry w.next w vfs_root
        → (p : PathBuf) → p.depth ≡ 0
        → Opens w [] flags (some vfs_root) (open_parsed drivers junk (some p) flags w)
    unfolding open_parsed load_dentry locate
    open_root (entry e n q kids i) p top =
        let same : Agrees w.next w w = record {
          dentry = λ x l. refl;
          inode = λ x l. refl;
          priv = λ x l. refl;
        } in
        let run : open_parsed drivers junk (some p) flags w
            ≡ new_descriptor vfs_root e.inode flags w =
          rw (top, i.dentry) refl in
        subst (Opens w [] flags (some vfs_root)) (sym run) (
          new_descriptor_lem w w [] flags vfs_root e fs plenty same refl refl refl i.dentry
            i.small.0)

    open_parsed-Opens :
        (o : Option PathBuf) → OpensPath w flags (path_of o) (open_parsed drivers junk o flags w)
    unfolding open_parsed locate
    open_parsed-Opens none = refl
    open_parsed-Opens (some p) = elim (Nat-cases p.depth) [
      | inl top ↦
          subst
            (λ k.
              OpensPath w flags (some (components p k)) (open_parsed drivers junk (some p) flags w))
            (sym top) (open_root (fs.entries [] vfs_root refl) p top)
      | inr (d, deep) ↦
          subst
            (λ k.
              OpensPath w flags (some (components p k)) (open_parsed drivers junk (some p) flags w))
            (sym deep) (open_below p d deep)
    ]

    -- `vfs_open` of any string, with neither VFS_O_CREAT nor VFS_O_TRUNC, on a mounted RAM file system
    -- where kmalloc always has memory: it answers VFS_ENAMETOOLONG where the string is no path and
    -- VFS_ENOENT where nothing stands at the path, and changes nothing; otherwise it answers VFS_OK with
    -- a descriptor of the dentry and the inode there, at position 0, and leaves such a file system
    -- with the same map.
    pub vfs_open_lem :
        (path : Bytes)
        → OpensPath w flags (path_of (parse_path junk path)) (vfs_open drivers junk path flags w)
    unfolding vfs_open
    vfs_open_lem path = open_parsed-Opens (parse_path junk path)
