-- ===== src/Fs/Vfs/Create.antt =====
-- The allocations of kernel/vfs/vfs.c for a new entry, on a mounted RAM file system.
use project_luciano.Base.{
  ℕ, zero, suc, ◌+◌, ◌%◌, ◌^◌, ◌<◌, ◌≡◌, refl, ◌⊎◌, inl, inr, Bool, Option, none, some, List, [],
  arith, leb, ◌==◌, if◌then◌else◌, ==_ne, length,
}
use project_luciano.Libc.{Bytes}
use project_luciano.Fs.Path.{PathBuf}
use project_luciano.Fs.Path.Outcome.{components}
use project_luciano.Fs.World.{
  Ptr, null, inode_dir, Inode, Dentry, PrivateInode, World, done, put_inode, put_dentry,
  store_inode, store_dentry, kmalloc,
}
use project_luciano.Fs.Ramfs.{max_child}
use project_luciano.Fs.Ramfs.Lookup.{length-ptrs}
use project_luciano.Fs.Vfs.{vfs_root, next_ino, kstrdup, new_entry}
use project_luciano.Fs.Vfs.Tree.{
  directory, regular, locate, view, children_of, inode_of, IsEntry, entry, IsFs,
}
use project_luciano.Fs.Vfs.Tree.Frame.{Agrees}

-- `kmalloc` always has memory.
abbrev pub IsPlentiful : World → Type 0
IsPlentiful w = (k size : ℕ) → (bs : Bytes) × (w.answer k size ≡ some bs)

-- What `new_entry` leaves.
abbrev pub blank : ℕ → ℕ → Inode
blank ino mode = record { ino = ino; mode = mode; size = 0; ops = null; private_field = null }

abbrev pub entered : Ptr → Bytes → ℕ → World → World
entered dir name mode w = record w {
  inode = (put_inode (w.next + 1) (blank w.vfs_inode_count mode) w).inode;
  dentry =
      (put_dentry w.next (record { name = some name; parent = dir; inode = w.next + 1 }) w).dentry;
  vfs_inode_count = (w.vfs_inode_count + 1) % 2 ^ 32;
  next = w.next + 3;
}

pub new_entry_lem :
    (dir : Ptr) (name : Bytes) (mode : ℕ) (w : World)
    → IsPlentiful w
    → 0 < w.next
    → new_entry dir name mode w ≡ done (w.next, w.next + 1) (entered dir name mode w)
unfolding new_entry kmalloc next_ino kstrdup store_inode store_dentry
new_entry_lem dir name mode w plenty l =
    let (x, first) = plenty w.next 24 in
    let (y, second) = plenty (w.next + 1) 40 in
    let (z, third) = plenty (w.next + 1 + 1) (length name + 1) in
    let three : w.next + 1 + 1 + 1 ≡ w.next + 3 = omega arith in
    rw
      (
        first,
        second,
        ==_ne (w.next + 1) 0 (omega arith),
        third,
        ==_ne (w.next + 1 + 1) 0 (omega arith),
        ==_ne w.next 0 (omega arith),
        three,
      )
      refl

pub Agrees-entered :
    (dir : Ptr) (name : Bytes) (mode : ℕ) (w : World) → Agrees w.next w (entered dir name mode w)
Agrees-entered dir name mode w = record {
  dentry = λ x l. rw (==_ne x w.next (omega arith)) refl;
  inode = λ x l. rw (==_ne x (w.next + 1) (omega arith)) refl;
  priv = λ x l. refl;
}

-- How many children a path has, for the limit of the driver.
abbrev pub listed_in : World → Option Inode → List Ptr
listed_in w none = []
listed_in w (some n) = children_of w n

abbrev pub listed_at : World → Option Ptr → List Ptr
listed_at w none = []
listed_at w (some d) = listed_in w (inode_of w d)

unfoldable pub is_full : World → List Bytes → Bool
is_full w s = leb max_child (length (listed_at w (locate w s)))

pub is_full-entry :
    {b : ℕ} {w : World} {d : Ptr} {e : Dentry} {n : Inode} {p : PrivateInode}
    {kids : List (Ptr × Bytes)} (s : List Bytes)
    → locate w s ≡ some d
    → IsEntry b w d e n p kids
    → is_full w s ≡ leb max_child (length kids)
unfolding is_full
is_full-entry {b} {w} {d} {e} {n} {p} {kids} s at i =
    rw (at, i.dentry, i.inode, i.node, i.children, length-ptrs kids) refl

pub view-entry :
    {b : ℕ} {w : World} {d : Ptr} {e : Dentry} {n : Inode} {p : PrivateInode}
    {kids : List (Ptr × Bytes)} (s : List Bytes)
    → locate w s ≡ some d
    → IsEntry b w d e n p kids
    → view w s ≡ some (if n.mode == inode_dir then directory else regular)
unfolding view
view-entry {b} {w} {d} {e} {n} {p} {kids} s at i = rw (at, i.dentry, i.inode) refl

pub view-nothing : (w : World) (s : List Bytes) → locate w s ≡ none → view w s ≡ none
unfolding view
view-nothing w s gone = rw gone refl

-- What the parser leaves, as the specification reads it.
abbrev pub path_of : Option PathBuf → Option (List Bytes)
path_of none = none
path_of (some p) = some (components p p.depth)

pub Nat-cases : (k : ℕ) → (k ≡ 0) ⊎ (d : ℕ) × (k ≡ suc d)
Nat-cases zero = inl refl
Nat-cases (suc d) = inr (d, refl)

-- The addresses start behind the root.
pub some_address : (w : World) → IsFs w.next w → 0 < w.next
unfolding locate
some_address w fs = elim (fs.entries [] vfs_root refl) [
  | entry e n p kids i ↦ omega (arith, i.small.0)
]
