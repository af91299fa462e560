-- ===== src/Fs/Vfs/Tree.antt =====
-- A mounted RAM file system as a tree of names, for kernel/vfs/vfs.c over kernel/drivers/ramfs: where a
-- path leads, read from the memory without the code, and when the memory is such a tree.
pub mod Names
pub mod Frame
pub mod Search
pub mod Attach
pub mod Walk
pub mod Grow
use project_luciano.Base.{
  ℕ, zero, suc, ◌+◌, ◌-◌, ◌*◌, ◌/◌, ◌%◌, ◌^◌, ◌≤◌, ◌<◌, min, max, bit_and, bit_or, bit_xor, ◌≡◌,
  refl, sym, ap, ap₂, ◌∙◌, fun_ext, subst, ◌≢◌, ◌↔◌, ◌⊎◌, inl, inr, Bool, true, false, not, ◌&&◌,
  ◌||◌, Option, none, some, List, [], ◌∷◌, ◌++◌, map, append-nil, append_assoc, arith, ltb, leb,
  ◌==◌, if◌then◌else◌, ltb→lt, lt→ltb, leb→le, ==_iff, ==_refl, ==_ne, Bool-cases, Option-cases,
  length, get_elem?, get_or, set, take, drop, replicate, length-append, length-set, get_or-set_self,
  get_or-set_ne, get_elem?-eq-get_or, length-take, length-drop, length-replicate, take_all,
  take-append, drop-append, All,
}
use project_luciano.Libc.{Bytes}
use project_luciano.Libc.Compare.{NoNul}
use project_luciano.Fs.World.{Ptr, null, inode_dir, Inode, Dentry, PrivateInode, World}
use project_luciano.Fs.Ramfs.{ramfs_ops, ramfs_lookup, ramfs_mkdir, ramfs_open, ramfs_close}
use project_luciano.Fs.Ramfs.Files.{ramfs_read, ramfs_write}
use project_luciano.Fs.Ramfs.Readdir.{ramfs_readdir}
use project_luciano.Fs.Ramfs.Lookup.{IsChild, ptrs}
use project_luciano.Fs.Vfs.{Ops, vfs_root}

abbrev pub driver_name : Bytes
driver_name = b'r' ∷ b'a' ∷ b'm' ∷ b'f' ∷ b's' ∷ []

-- The static table `ops` of ramfs.c.
abbrev pub ramfs_table : Ops
ramfs_table = record {
  lookup = some ramfs_lookup;
  mkdir = some ramfs_mkdir;
  open_entry = some ramfs_open;
  read = some ramfs_read;
  write = some ramfs_write;
  readdir = some ramfs_readdir;
  close = some ramfs_close;
  fs_driver_name = some driver_name;
}

-- Equality of names, and of paths, whose innermost name stands first.
unfoldable pub name_eq : Bytes → Bytes → Bool
name_eq [] [] = true
name_eq [] (d ∷ t) = false
name_eq (c ∷ s) [] = false
name_eq (c ∷ s) (d ∷ t) = (c == d) && name_eq s t

unfoldable pub path_eq : List Bytes → List Bytes → Bool
path_eq [] [] = true
path_eq [] (n ∷ t) = false
path_eq (m ∷ s) [] = false
path_eq (m ∷ s) (n ∷ t) = name_eq m n && path_eq s t

module _ {A B : Type 0} where
  abbrev pub behind : Option A → (A → Option B) → Option B
  behind none k = none
  behind (some a) k = k a

-- The first of some dentries with a name.
abbrev pub is_name : Option Bytes → Bytes → Bool
is_name none x = false
is_name (some n) x = name_eq n x

abbrev pub has_name : Option Dentry → Bytes → Bool
has_name none x = false
has_name (some d) x = is_name d.name x

unfoldable pub pick : World → List Ptr → Bytes → Option Ptr
pick w [] x = none
pick w (c ∷ cs) x = if has_name (w.dentry c) x then some c else pick w cs x

-- The inode behind a dentry, and its private node.
abbrev pub inode_of : World → Ptr → Option Inode
inode_of w d = behind (w.dentry d) (λ e. w.inode e.inode)

abbrev pub listed : Option PrivateInode → List Ptr
listed none = []
listed (some p) = p.children

abbrev pub children_of : World → Inode → List Ptr
children_of w n = listed (w.priv n.private_field)

-- The child of a directory.
abbrev pub child_in : World → Option Inode → Bytes → Option Ptr
child_in w none x = none
child_in w (some n) x = if n.mode == inode_dir then pick w (children_of w n) x else none

abbrev pub child_of : World → Option Ptr → Bytes → Option Ptr
child_of w none x = none
child_of w (some d) x = child_in w (inode_of w d) x

-- The dentry that a path leads to from the root.
unfoldable pub locate : World → List Bytes → Option Ptr
locate w [] = some vfs_root
locate w (x ∷ s) = child_of w (locate w s) x

-- What a path is.
pub data Kind : Type 0 where
  directory regular : Kind

abbrev pub kind_of : Option Inode → Option Kind
kind_of none = none
kind_of (some n) = some (if n.mode == inode_dir then directory else regular)

abbrev pub kind_at : World → Option Ptr → Option Kind
kind_at w none = none
kind_at w (some d) = kind_of (inode_of w d)

-- The file system as a partial map from paths.
abbrev pub View : Type 0
View = List Bytes → Option Kind

unfoldable pub view : World → View
view w s = kind_at w (locate w s)

-- A dentry with its inode and its private node, all below the address `b`.
pub record IsEntry (b : ℕ) (w : World) (d : Ptr) (e : Dentry) (n : Inode) (p : PrivateInode)
    (kids : List (Ptr × Bytes)) : Type 0 where
  pub dentry_ne : d ≢ null
  pub dentry : w.dentry d ≡ some e
  pub inode_ne : e.inode ≢ null
  pub inode : w.inode e.inode ≡ some n
  pub ops : n.ops ≡ ramfs_ops
  pub node_ne : n.private_field ≢ null
  pub node : w.priv n.private_field ≡ some p
  pub children : p.children ≡ ptrs kids
  pub named : All (IsChild w) kids
  pub below : All (λ (c, _). c < b) kids
  pub small : (d < b) × (e.inode < b) × (n.private_field < b)

pub data Entry (b : ℕ) (w : World) (d : Ptr) : Type 0 where
  entry :
      (e : Dentry) (n : Inode) (p : PrivateInode) (kids : List (Ptr × Bytes))
      → IsEntry b w d e n p kids
      → Entry b w d

-- The private node behind a dentry.
abbrev pub node_of : World → Ptr → Option Ptr
node_of w d = behind (inode_of w d) (λ n. some n.private_field)

-- Every path leads to an entry, and no two paths to the same private node.
pub record IsFs (b : ℕ) (w : World) : Type 0 where
  pub entries : (s : List Bytes) (d : Ptr) → locate w s ≡ some d → Entry b w d
  pub apart :
      (s t : List Bytes) (d e : Ptr)
      → locate w s ≡ some d
      → locate w t ≡ some e
      → node_of w d ≡ node_of w e
      → s ≡ t
