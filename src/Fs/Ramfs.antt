-- ===== src/Fs/Ramfs.antt =====
-- kernel/drivers/ramfs/ramfs.c: directories and files in memory.
pub mod Files
pub mod Readdir
pub mod Boot
pub mod Lookup
pub mod WriteRead
pub mod RoundTrip
mod Tests
use project_luciano.Base.{
  ℕ, zero, suc, ◌+◌, ◌-◌, ◌*◌, ◌/◌, ◌%◌, ◌^◌, ◌≤◌, ◌<◌, min, max, bit_and, bit_or, bit_xor, ◌≡◌,
  refl, sym, ap, ap₂, ◌∙◌, fun_ext, subst, ◌≢◌, ◌↔◌, ◌⊎◌, inl, inr, Bool, true, false, not, ◌&&◌,
  ◌||◌, Option, none, some, List, [], ◌∷◌, ◌++◌, map, append-nil, append_assoc, arith, ltb, leb,
  ◌==◌, if◌then◌else◌, ltb→lt, lt→ltb, leb→le, ==_iff, ==_refl, ==_ne, Bool-cases, Option-cases,
  length, get_elem?, get_or, set, take, drop, replicate, length-append, length-set, get_or-set_self,
  get_or-set_ne, get_elem?-eq-get_or, length-take, length-drop, length-replicate, take_all,
  take-append, drop-append, All,
}
use project_luciano.Base.Int.{ℤ, pos, negsuc, signed64}
use project_luciano.Libc.{Bytes, cstr, strcmp, memcpy}
use project_luciano.Kbuf.{
  Kbuf, KStatus, k_ok, Grown, fits, refused, bad_copy, out_of_fuel, grow_to, kbuf_init,
}
use project_luciano.Fs.World.{
  Ptr, null, Flag, vfs_ok, vfs_enoent, vfs_enomem, vfs_eexist, vfs_einval, vfs_enospc, inode_reg,
  inode_dir, o_creat, Inode, Dentry, PrivateInode, World, Run, done, fault, stuck, Cmd, pure, crash,
  ◌>>=◌, ◌>>◌, give, load_inode, load_dentry, load_priv, store_inode, store_priv, put_inode,
  put_file, kmalloc, sizeof_private_inode,
}

-- RAMFS_MAX_CHILD, RAMDISK_MAX_FILES and RAMDISK_INITIAL_FILE_ALLOC of ramfs.h.
abbrev pub max_child : ℕ
max_child = 1024

abbrev pub max_files : ℕ
max_files = 4096

abbrev pub initial_file_alloc : ℕ
initial_file_alloc = 16

-- The address of the one table of functions, `ops`.
abbrev pub ramfs_ops : Ptr
ramfs_ops = 1

-- `strcmp(..) == 0` on a name that may be NULL.
abbrev pub is_zero : Option ℤ → Cmd Bool
is_zero none w = fault
is_zero (some (pos n)) w = done (n == 0) w
is_zero (some (negsuc n)) w = done false w

unfoldable pub same_name : Option Bytes → Bytes → Cmd Bool
same_name none name = crash
same_name (some s) name = is_zero (strcmp (cstr s) (cstr name))

-- The loop of `ramfs_lookup` over the children: the first with the name.
unfoldable pub find_child : List Ptr → Bytes → Cmd (Option Ptr)
find_child [] name = pure none
find_child (c ∷ cs) name = do
  d ← load_dentry c
  same ← same_name d.name name
  if same then pure (some c) else find_child cs name

-- The flag and what is written to `out`.
abbrev pub lookup_answer : Option Ptr → Flag × Option Ptr
lookup_answer none = (vfs_enoent, none)
lookup_answer (some c) = (vfs_ok, some c)

-- `ramfs_lookup`; the log line reads the private node before the mode is tested.
unfoldable pub ramfs_lookup : Ptr → Bytes → Cmd (Flag × Option Ptr)
unfolding find_child
ramfs_lookup inode name = do
  n ← load_inode inode
  p ← load_priv n.private_field
  if n.mode == inode_dir
      then (do found ← find_child p.children name; pure (lookup_answer found))
      else pure (vfs_enoent, none)

-- The write behind the last child.
abbrev pub attach : Ptr → PrivateInode → Ptr → Option Ptr → Cmd Flag
attach at p child none = do
  store_priv at (record p { children = p.children ++ (child ∷ []) })
  pure vfs_ok
attach at p child (some _) = pure vfs_eexist

-- The loop of `ramfs_putchild`, which compares with the child's own name.
unfoldable pub find_same : List Ptr → Option Bytes → Cmd (Option Ptr)
find_same [] name = pure none
find_same (c ∷ cs) none = crash
find_same (c ∷ cs) (some s) = find_child (c ∷ cs) s

unfoldable pub ramfs_putchild : Ptr → Ptr → Cmd Flag
unfolding find_same
ramfs_putchild inode child = do
  d ← load_dentry child
  n ← load_inode inode
  p ← load_priv n.private_field
  if leb max_child (length p.children)
      then pure vfs_enospc
      else (do found ← find_same p.children d.name; attach n.private_field p child found)

-- What `ramfs_mkdir` and `ramfs_open` do once `kmalloc` gave a private node for the new inode.
unfoldable pub hang : Ptr → Ptr → Ptr → Ptr → PrivateInode → Cmd Flag
hang parent_inode new_dentry new_inode node contents = do
  store_priv node contents
  n ← load_inode new_inode
  store_inode new_inode (record n { ops = ramfs_ops; private_field = node })
  res ← ramfs_putchild parent_inode new_dentry
  if res == vfs_ok then pure vfs_ok else (do
    m ← load_inode new_inode
    store_inode new_inode (record m { private_field = null })
    pure res)

unfoldable pub ramfs_mkdir : Ptr → Ptr → Cmd Flag
unfolding hang
ramfs_mkdir parent_inode new_dir =
    if parent_inode == null || new_dir == null then pure vfs_einval else do
      d ← load_dentry new_dir
      if d.inode == null then pure vfs_einval else do
        n ← load_inode parent_inode
        if n.mode == inode_dir
            then (do
              node ← kmalloc sizeof_private_inode
              if node == null
                  then pure vfs_enomem
                  else hang parent_inode new_dir d.inode node
                      (record { file_index = 0; children = []; parent = parent_inode }))
            else pure vfs_einval

-- `ramfs_file_count++` on a `uint32_t`.
unfoldable pub next_file : Cmd ℕ
next_file w =
    done w.ramfs_file_count (record w { ramfs_file_count = (w.ramfs_file_count + 1) % 2 ^ 32 })

unfoldable pub ramfs_open : Ptr → Ptr → ℕ → Cmd Flag
unfolding hang next_file
ramfs_open parent_inode new_dentry flags =
    if parent_inode == null || new_dentry == null then pure vfs_einval else do
      d ← load_dentry new_dentry
      if d.inode == null
          then pure vfs_einval
          else if not (bit_and flags o_creat == 0)
          then (do
            node ← kmalloc sizeof_private_inode
            if node == null then pure vfs_enomem else (do
              index ← next_file
              hang parent_inode new_dentry d.inode node
                  (record { file_index = index; children = []; parent = parent_inode })))
          else (do
            n ← load_inode d.inode
            if n.ops == null || n.private_field == null then pure vfs_einval else pure vfs_ok)

unfoldable pub ramfs_close : Ptr → Cmd Flag
ramfs_close inode = pure vfs_ok
