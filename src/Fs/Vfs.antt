-- ===== src/Fs/Vfs.antt =====
-- kernel/vfs/vfs.c over tables of driver functions: walking, creating and opening.
pub mod Io
pub mod Tree
pub mod Create
pub mod Mkdir
pub mod Open
pub mod Parsed
pub mod CreateFile
pub mod Mount
pub mod Reopen
pub mod RoundTrip
pub mod History
mod Tests
use project_luciano.Base.{
  ℕ, zero, suc, ◌+◌, ◌-◌, ◌*◌, ◌/◌, ◌%◌, ◌^◌, ◌≤◌, ◌<◌, min, max, bit_and, bit_or, bit_xor, ◌≡◌,
  refl, sym, ap, ap₂, ◌∙◌, fun_ext, subst, ◌≢◌, ◌↔◌, ◌⊎◌, inl, inr, Bool, true, false, not, ◌&&◌,
  ◌||◌, Option, none, some, List, [], ◌∷◌, ◌++◌, map, append-nil, append_assoc, arith, ltb, leb,
  ◌==◌, if◌then◌else◌, ltb→lt, lt→ltb, leb→le, ==_iff, ==_refl, ==_ne, Bool-cases, Option-cases,
  length, get_elem?, get_or, set, take, drop, replicate, length-append, length-set, get_or-set_self,
  get_or-set_ne, get_elem?-eq-get_or, length-take, length-drop, length-replicate, take_all,
  take-append, drop-append, All,
}
use project_luciano.Base.Int.{ℤ}
use project_luciano.Libc.{Bytes}
use project_luciano.Fs.Path.{Rows, PathBuf, parse_path, component}
use project_luciano.Fs.World.{
  Ptr, null, Flag, vfs_ok, vfs_enoent, vfs_eexist, vfs_einval, vfs_enametoolong, vfs_error,
  inode_reg, inode_dir, o_creat, o_excl, o_trunc, Inode, Dentry, World, Run, done, fault, stuck,
  Cmd, pure, crash, ◌>>=◌, ◌>>◌, give, load_inode, load_dentry, store_inode, store_dentry, kmalloc,
  sizeof_inode, sizeof_dentry, sizeof_file_descriptor,
}
use project_luciano.Fs.Ramfs.Boot.{Superblock}

-- `vfs_ops_t`: each function pointer may be NULL. A lookup gives its flag and what it wrote to `out`.
pub record Ops : Type 0 where
  pub lookup : Option (Ptr → Bytes → Cmd (Flag × Option Ptr))
  pub mkdir : Option (Ptr → Ptr → Cmd Flag)
  pub open_entry : Option (Ptr → Ptr → ℕ → Cmd Flag)
  pub read : Option (Ptr → ℕ → ℕ → Option Bytes → Cmd (ℤ × Option Bytes))
  pub write : Option (Ptr → ℕ → ℕ → Option Bytes → Cmd ℤ)
  pub readdir : Option (Ptr → ℕ → ℕ → Option Bytes → Cmd (ℤ × Option Bytes))
  pub close : Option (Ptr → Cmd Flag)
  pub fs_driver_name : Option Bytes

-- `struct file_descriptor`
pub record FileDescriptor : Type 0 where
  pub inode : Ptr
  pub dentry : Ptr
  pub pos : ℕ
  pub flags : ℕ

-- The address of the static `vfs_root`.
abbrev pub vfs_root : Ptr
vfs_root = 1

abbrev pub is_some {ℓ} : {A : Type ℓ} → Option A → Bool
is_some none = false
is_some (some _) = true

-- `out` after a call that may have written to it.
abbrev pub written : Option Ptr → Ptr → Ptr
written none old = old
written (some p) old = p

-- `vfs_inode_count++` on a `uint32_t`.
unfoldable pub next_ino : Cmd ℕ
next_ino w =
    done w.vfs_inode_count (record w { vfs_inode_count = (w.vfs_inode_count + 1) % 2 ^ 32 })

abbrev pub root_name : Bytes
root_name = b'R' ∷ b'O' ∷ b'O' ∷ b'T' ∷ []

-- `vfs_init`. It does not set the size of the root's inode: `former` is what the block of `kmalloc`
-- held there.
unfoldable pub vfs_init : ℕ → Cmd (Unit {0})
unfolding next_ino
vfs_init former w =
    (do
      root ← kmalloc sizeof_inode
      store_dentry vfs_root (record { name = some root_name; parent = vfs_root; inode = root })
      ino ← next_ino
      store_inode root
          (record { ino = ino; mode = inode_dir; size = former; ops = null; private_field = null }))
      (record w { vfs_inode_count = 1 })

-- `kstrdup` of a name: a copy, or NULL where there is no memory.
unfoldable pub kstrdup : Bytes → Cmd (Option Bytes)
kstrdup s = do p ← kmalloc (length s + 1); pure (if p == null then none else some s)

-- The allocations and stores that `vfs_mkdir` and `vfs_open` share: a dentry and an inode without a
-- driver. The stores fault where `kmalloc` gave NULL.
unfoldable pub new_entry : Ptr → Bytes → ℕ → Cmd (Ptr × Ptr)
unfolding next_ino kstrdup
new_entry dir name mode = do
  new_dentry ← kmalloc sizeof_dentry
  new_inode ← kmalloc sizeof_inode
  ino ← next_ino
  store_inode new_inode
      (record { ino = ino; mode = mode; size = 0; ops = null; private_field = null })
  copy ← kstrdup name
  store_dentry new_dentry (record { name = copy; parent = dir; inode = new_inode })
  pure (new_dentry, new_inode)

unfoldable pub new_descriptor : Ptr → Ptr → ℕ → Cmd (Flag × Option FileDescriptor)
new_descriptor dentry inode flags = do
  out ← kmalloc sizeof_file_descriptor
  if out == null
      then crash
      else pure (vfs_ok, some (record { inode = inode; dentry = dentry; pos = 0; flags = flags }))

-- `drivers` is what each address of a table holds; `junk` is what the caller's array of path
-- components holds before it is parsed.
module _ (drivers : Ptr → Ops) (junk : Rows) where
  -- `inode->ops`, a fault for NULL.
  unfoldable pub table : Ptr → Cmd Ops
  table p = if p == null then crash else pure (drivers p)

  -- The tests of `vfs_walk_parent` before a lookup, and the lookup.
  unfoldable pub walk_step : Bytes → Ptr → Cmd (Flag × Ptr)
  walk_step name dir = if dir == null then pure (vfs_einval, dir) else do
    d ← load_dentry dir
    if d.inode == null then pure (vfs_einval, dir) else do
      n ← load_inode d.inode
      if n.ops == null || not (is_some (drivers n.ops).lookup) then pure (vfs_einval, dir) else do
        lookup ← give (drivers n.ops).lookup
        (res, out) ← lookup d.inode name
        pure (res, written out dir)

  -- The loop, with the rounds that are left.
  unfoldable pub walk : PathBuf → ℕ → ℕ → Ptr → Cmd (Flag × Ptr)
  unfolding walk_step
  walk p zero i dir = pure (vfs_ok, dir)
  walk p (suc rounds) i dir = do
    (res, next) ← walk_step (component p i) dir
    if res == vfs_ok then walk p rounds (i + 1) next else pure (res, null)

  -- `vfs_walk_parent`, called at a depth that is not 0; the directory is NULL on an error.
  unfoldable pub vfs_walk_parent : PathBuf → Cmd (Flag × Ptr)
  unfolding walk
  vfs_walk_parent p = walk p (p.depth - 1) 0 vfs_root

  -- `dir->inode->ops->lookup(dir->inode, name, &leaf)`
  unfoldable pub lookup_in : Dentry → Bytes → Cmd (Flag × Option Ptr)
  unfolding table
  lookup_in d name = do
    n ← load_inode d.inode
    ops ← table n.ops
    lookup ← give ops.lookup
    lookup d.inode name

  -- What `vfs_mkdir` does once the name is known to be free.
  unfoldable pub make_dir : Ptr → Dentry → Bytes → Cmd Flag
  unfolding new_entry table
  make_dir dir d name = do
    (new_dentry, new_inode) ← new_entry dir name inode_dir
    n ← load_inode d.inode
    ops ← table n.ops
    mkdir ← give ops.mkdir
    res ← mkdir d.inode new_dentry
    m ← load_inode new_inode
    pure (if m.private_field == null || m.ops == null || not (res == vfs_ok) then res else vfs_ok)

  unfoldable pub mkdir_at : Bytes → Ptr → Cmd Flag
  unfolding lookup_in make_dir
  mkdir_at name dir = if dir == null then pure vfs_einval else do
    d ← load_dentry dir
    (res, leaf) ← lookup_in d name
    if res == vfs_ok
        then (do load_dentry (written leaf null); pure vfs_eexist)
        else make_dir dir d name

  unfoldable pub mkdir_parsed : Option PathBuf → Cmd Flag
  unfolding vfs_walk_parent mkdir_at
  mkdir_parsed none = pure vfs_enametoolong
  mkdir_parsed (some p) = if p.depth == 0 then pure vfs_eexist else do
    (res, dir) ← vfs_walk_parent p
    if res == vfs_ok then mkdir_at (component p (p.depth - 1)) dir else pure res

  unfoldable pub vfs_mkdir : Bytes → Cmd Flag
  unfolding mkdir_parsed
  vfs_mkdir path = mkdir_parsed (parse_path junk path)

  -- `vfs_open` of a name that the lookup did not find.
  unfoldable pub create_file : Ptr → Dentry → Bytes → ℕ → Cmd (Flag × Option FileDescriptor)
  unfolding new_entry table new_descriptor
  create_file dir d name flags = if bit_and flags o_creat == 0 then pure (vfs_enoent, none) else do
    (new_dentry, new_inode) ← new_entry dir name inode_reg
    n ← load_inode d.inode
    ops ← table n.ops
    open_entry ← give ops.open_entry
    res ← open_entry d.inode new_dentry flags
    m ← load_inode new_inode
    if m.private_field == null || m.ops == null || not (res == vfs_ok)
        then pure (if res == vfs_ok then vfs_einval else res, none)
        else new_descriptor new_dentry new_inode flags

  -- `vfs_open` of a name that the lookup found.
  unfoldable pub open_found : Dentry → Ptr → ℕ → Cmd (Flag × Option FileDescriptor)
  unfolding table new_descriptor
  open_found d file flags =
      if file == null
      then pure (vfs_einval, none)
      else if not (bit_and flags o_creat == 0) && not (bit_and flags o_excl == 0)
      then pure (vfs_eexist, none)
      else (do
        f ← load_dentry file
        n ← load_inode f.inode
        store_inode f.inode (if bit_and flags o_trunc == 0 then n else record n { size = 0 })
        ops ← table n.ops
        open_entry ← give ops.open_entry
        res ← open_entry d.inode file flags
        if res == vfs_ok then new_descriptor file f.inode flags else pure (res, none))

  unfoldable pub open_at : Bytes → ℕ → Ptr → Cmd (Flag × Option FileDescriptor)
  unfolding lookup_in create_file open_found
  open_at name flags dir = if dir == null then pure (vfs_einval, none) else do
    d ← load_dentry dir
    (res, file) ← lookup_in d name
    if res == vfs_ok then open_found d (written file null) flags else create_file dir d name flags

  unfoldable pub open_parsed : Option PathBuf → ℕ → Cmd (Flag × Option FileDescriptor)
  unfolding vfs_walk_parent open_at new_descriptor
  open_parsed none flags = pure (vfs_enametoolong, none)
  open_parsed (some p) flags =
      if p.depth == 0
      then (do r ← load_dentry vfs_root; new_descriptor vfs_root r.inode flags)
      else (do
        (res, dir) ← vfs_walk_parent p
        if res == vfs_ok then open_at (component p (p.depth - 1)) flags dir else pure (res, none))

  unfoldable pub vfs_open : Bytes → ℕ → Cmd (Flag × Option FileDescriptor)
  unfolding open_parsed
  vfs_open path flags = open_parsed (parse_path junk path) flags

  -- `vfs_validate_ops`; the table itself was tested before.
  unfoldable pub vfs_validate_ops : Ops → Flag
  vfs_validate_ops ops =
      if not (is_some ops.lookup)
        || not (is_some ops.mkdir)
        || not (is_some ops.open_entry)
        || not (is_some ops.read)
        || not (is_some ops.write)
        || not (is_some ops.readdir)
        || not (is_some ops.close)
        || not (is_some ops.fs_driver_name)
      then vfs_einval
      else vfs_ok

  -- The mount itself: at the root only, and only once.
  unfoldable pub mount_at : Option PathBuf → Superblock → Cmd Flag
  mount_at none sb = pure vfs_enametoolong
  mount_at (some p) sb =
      if p.depth == 0
      then (do
        r ← load_dentry vfs_root
        n ← load_inode r.inode
        if not (n.ops == null) && not (n.private_field == null) then pure vfs_einval else (do
          store_inode r.inode (record n { ops = sb.fs_ops; private_field = sb.private_fields })
          pure vfs_ok))
      else pure vfs_error

  unfoldable pub vfs_mount : Bytes → Option Superblock → Cmd Flag
  unfolding mount_at vfs_validate_ops
  vfs_mount path none = pure vfs_einval
  vfs_mount path (some sb) =
      if sb.fs_ops == null
      then pure vfs_einval
      else if vfs_validate_ops (drivers sb.fs_ops) == vfs_ok
      then mount_at (parse_path junk path) sb
      else pure (vfs_validate_ops (drivers sb.fs_ops))
