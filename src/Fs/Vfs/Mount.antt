-- ===== src/Fs/Vfs/Mount.antt =====
-- `vfs_init`, `ramfs_get_sb` and `vfs_mount` one after the other: the tree that a fresh mount is.
use project_luciano.Base.{
  ℕ, ◌+◌, ◌<◌, ◌≡◌, refl, ap, subst, ◌⊎◌, inl, inr, Option, none, some, List, [], ◌∷◌, arith,
  if◌then◌else◌, ==_refl, ==_ne,
}
use project_luciano.Libc.{Bytes}
use project_luciano.Fs.Path.{Rows, PathBuf, parse_path}
use project_luciano.Fs.Path.Outcome.{components}
use project_luciano.Fs.World.{
  Ptr, null, Flag, vfs_ok, inode_dir, Inode, Dentry, PrivateInode, World, done, Cmd, ◌>>=◌, ◌>>◌,
  put_inode, put_dentry, put_priv, load_inode, load_dentry, store_inode, store_dentry, store_priv,
  kmalloc,
}
use project_luciano.Fs.Ramfs.{ramfs_ops}
use project_luciano.Fs.Ramfs.Boot.{get_sb, get_mount_private_fields}
use project_luciano.Fs.Vfs.{
  Ops, vfs_root, root_name, vfs_init, next_ino, vfs_mount, mount_at, vfs_validate_ops,
}
use project_luciano.Fs.Vfs.Tree.{
  ramfs_table, Kind, directory, regular, View, path_eq, pick, child_of, locate, view, kind_of,
  kind_at, IsEntry, Entry, entry, IsFs,
}
use project_luciano.Fs.Vfs.Create.{IsPlentiful, path_of, Nat-cases}

-- The three calls that mount the RAM file system at a path.
abbrev pub mount_ramfs : (Ptr → Ops) → Rows → ℕ → Bytes → Cmd Flag
mount_ramfs drivers junk former path = do
  vfs_init former
  sb ← get_sb
  vfs_mount drivers junk path (some sb)

-- What they leave.
abbrev pub root_inode : ℕ → World → Inode
root_inode former w = record {
  ino = 1;
  mode = inode_dir;
  size = former;
  ops = ramfs_ops;
  private_field = w.next + 2;
}

abbrev pub root_entry : World → Dentry
root_entry w = record { name = some root_name; parent = vfs_root; inode = w.next }

abbrev pub root_node : PrivateInode
root_node = record { file_index = 0; children = []; parent = null }

abbrev pub mounted_world : ℕ → World → World
mounted_world former w = record w {
  inode =
      (put_inode w.next (root_inode former w) (
        put_inode w.next
          (record { ino = 1; mode = inode_dir; size = former; ops = null; private_field = null })
          w)).inode;
  dentry = (put_dentry vfs_root (root_entry w) w).dentry;
  priv = (put_priv (w.next + 2) root_node w).priv;
  vfs_inode_count = 2;
  next = w.next + 3;
}

module _ (former : ℕ) (w : World) (start : 1 < w.next) where
  IsEntry-root :
      IsEntry
        (w.next + 3)
        (mounted_world former w)
        vfs_root
        (root_entry w)
        (root_inode former w)
        root_node
        []
  IsEntry-root = record {
    dentry_ne = ground arith;
    dentry = refl;
    inode_ne = omega arith;
    inode = rw (==_refl w.next) refl;
    ops = refl;
    node_ne = omega arith;
    node = rw (==_refl (w.next + 2)) refl;
    children = refl;
    named = tt;
    below = tt;
    small = (omega arith, omega arith, omega arith);
  }

  child_of-mounted :
      (o : Option Ptr) (x : Bytes)
      → (o ≡ none) ⊎ (o ≡ some vfs_root)
      → child_of (mounted_world former w) o x ≡ none
  unfolding pick
  child_of-mounted o x (inl q) = rw q refl
  child_of-mounted o x (inr q) = rw (q, ==_refl w.next, ==_refl (w.next + 2)) refl

  locate-mounted : (x : Bytes) (s : List Bytes) → locate (mounted_world former w) (x ∷ s) ≡ none
  unfolding locate
  locate-mounted x [] = child_of-mounted (some vfs_root) x (inr refl)
  locate-mounted x (y ∷ s) = child_of-mounted _ x (inl (locate-mounted y s))

  pub IsFs-mounted : IsFs (w.next + 3) (mounted_world former w)
  unfolding locate
  IsFs-mounted = record { entries = at; apart = apart }
    where
      at :
          (s : List Bytes) (d : Ptr)
          → locate (mounted_world former w) s ≡ some d
          → Entry (w.next + 3) (mounted_world former w) d
      at [] d q =
          subst (Entry (w.next + 3) (mounted_world former w)) (ground (arith, q))
            (entry _ _ _ _ IsEntry-root)
      at (x ∷ s) d q = absurd (ground (arith, q, locate-mounted x s))

      apart :
          (s t : List Bytes) (d e : Ptr)
          → locate (mounted_world former w) s ≡ some d
          → locate (mounted_world former w) t ≡ some e
          → project_luciano.Fs.Vfs.Tree.node_of (mounted_world former w) d
            ≡ project_luciano.Fs.Vfs.Tree.node_of (mounted_world former w) e
          → s ≡ t
      apart [] [] d e p q k = refl
      apart [] (y ∷ t) d e p q k = absurd (ground (arith, q, locate-mounted y t))
      apart (x ∷ s) t d e p q k = absurd (ground (arith, p, locate-mounted x s))

  pub view-mounted :
      (s : List Bytes)
      → view (mounted_world former w) s ≡ (if path_eq s [] then some directory else none)
  unfolding view locate path_eq
  view-mounted [] = rw (==_refl w.next) refl
  view-mounted (x ∷ s) = rw (locate-mounted x s) refl

  top_of : (o : Option PathBuf) → path_of o ≡ some [] → (p : PathBuf) × (o ≡ some p) × (p.depth ≡ 0)
  top_of none q = absurd (ground (arith, q))
  top_of (some p) q = elim (Nat-cases p.depth) [
    | inl top ↦ (p, refl, top)
    | inr (d, deep) ↦ absurd (ground (arith, q, ap (components p) deep))
  ]

  -- From any memory whose next address is free of the root's, whatever its blocks hold where `vfs_init`
  -- does not set the size of the root's inode, and where kmalloc always has memory,
  -- `vfs_init`, `ramfs_get_sb` and `vfs_mount` at any path that is parsed into the root answer VFS_OK,
  -- and leave a RAM file system whose map has a directory at the root and nothing else.
  pub mount_ramfs_lem :
      (drivers : Ptr → Ops) (junk : Rows)
      → drivers ramfs_ops ≡ ramfs_table
      → IsPlentiful w
      → (path : Bytes) → path_of (parse_path junk path) ≡ some []
      → (w' : World) × (mount_ramfs drivers junk former path w ≡ done vfs_ok w')
        × (w'.answer ≡ w.answer)
        × IsFs w'.next w'
        × ((s : List Bytes) → view w' s ≡ (if path_eq s [] then some directory else none))
  unfolding vfs_init next_ino get_sb get_mount_private_fields vfs_mount mount_at vfs_validate_ops
      kmalloc store_inode store_dentry store_priv load_inode load_dentry
  mount_ramfs_lem drivers junk mounted plenty path parsed =
      let (p, got, top) = top_of (parse_path junk path) parsed in
      let (x, first) = plenty w.next 40 in
      let (y, second) = plenty (w.next + 1) 24 in
      let (z, third) = plenty (w.next + 1 + 1) 8216 in
      let two : w.next + 1 + 1 ≡ w.next + 2 = omega arith in
      let three : w.next + 2 + 1 ≡ w.next + 3 = omega arith in
      let run : mount_ramfs drivers junk former path w ≡ done vfs_ok (mounted_world former w) =
        rw
          (
            first,
            ==_ne w.next 0 (omega arith),
            second,
            ==_ne (w.next + 1) 0 (omega arith),
            third,
            ==_ne (w.next + 1 + 1) 0 (omega arith),
            mounted,
            got,
            top,
            ==_ne w.next 0 (omega arith),
            ==_refl w.next,
            ==_ne w.next 0 (omega arith),
            two,
            three,
          )
          refl in
      (mounted_world former w, run, refl, IsFs-mounted, view-mounted)
