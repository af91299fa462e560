-- ===== src/Fs/World.antt =====
-- The objects that the file systems share, on explicit heaps: inodes, dentries, the private nodes
-- of the RAM file system, and its file buffers (kernel/include/vfs.h, kernel/drivers/ramfs/ramfs.c).
use project_luciano.Base.{ℕ, ◌+◌, Option, none, some, List, ◌==◌, if◌then◌else◌}
use project_luciano.Libc.{Bytes}
use project_luciano.Kbuf.{Kbuf, Alloc}

abbrev pub Ptr : Type 0
Ptr = ℕ

abbrev pub null : Ptr
null = 0

-- Return flags and modes of kernel/include/vfs.h.
abbrev pub Flag : Type 0
Flag = ℕ

abbrev pub vfs_ok : Flag
vfs_ok = 0

abbrev pub vfs_enoent : Flag
vfs_enoent = 2

abbrev pub vfs_enomem : Flag
vfs_enomem = 12

abbrev pub vfs_eexist : Flag
vfs_eexist = 17

abbrev pub vfs_einval : Flag
vfs_einval = 22

abbrev pub vfs_enospc : Flag
vfs_enospc = 28

abbrev pub vfs_enametoolong : Flag
vfs_enametoolong = 36

abbrev pub vfs_error : Flag
vfs_error = 42

abbrev pub inode_reg : ℕ
inode_reg = 0x8000

abbrev pub inode_dir : ℕ
inode_dir = 0x4000

abbrev pub o_creat : ℕ
o_creat = 0x040

abbrev pub o_excl : ℕ
o_excl = 0x080

abbrev pub o_trunc : ℕ
o_trunc = 0x200

-- `vfs_inode_t`; `ops` is the address of a table of driver functions.
pub record Inode : Type 0 where
  pub ino : ℕ
  pub mode : ℕ
  pub size : ℕ
  pub ops : Ptr
  pub private_field : Ptr

-- `vfs_dentry_t`; the name is `none` where the pointer is NULL.
pub record Dentry : Type 0 where
  pub name : Option Bytes
  pub parent : Ptr
  pub inode : Ptr

-- `ramfs_private_inode_t`; the list is `children[0]` to `children[child_count - 1]`.
pub record PrivateInode : Type 0 where
  pub file_index : ℕ
  pub children : List Ptr
  pub parent : Ptr

-- The memory with the static variables of the two files. `answer n size` is what the `n`-th call of
-- `kmalloc` gives (NULL, or a block with any contents), and `next` counts the calls; the address of
-- a new object is its call's number, so addresses never repeat. `kfree` gives nothing back, as in
-- the kernel build.
pub record World : Type 0 where
  pub inode : Ptr → Option Inode
  pub dentry : Ptr → Option Dentry
  pub priv : Ptr → Option PrivateInode
  pub file : ℕ → Kbuf
  pub vfs_inode_count : ℕ
  pub ramfs_file_count : ℕ
  pub answer : Alloc
  pub next : ℕ

-- A run ends with a result, or in a fault: an access through NULL or out of bounds. `stuck` is a
-- loop that ran out of rounds.
pub data Run (A : Type 0) : Type 0 where
  done : A → World → Run A
  fault : Run A
  stuck : Run A

abbrev pub Cmd : Type 0 → Type 0
Cmd A = World → Run A

abbrev pub pure : {A : Type 0} → A → Cmd A
pure a w = done a w

abbrev pub crash : {A : Type 0} → Cmd A
crash w = fault

module _ {A B : Type 0} where
  abbrev pub and_then : Run A → (A → Cmd B) → Run B
  and_then (done a w) k = k a w
  and_then fault k = fault
  and_then stuck k = stuck

  infixl 5 ◌>>=◌ ◌>>◌
  abbrev pub ◌>>=◌ : Cmd A → (A → Cmd B) → Cmd B
  m >>= k = λ w. and_then (m w) k

  abbrev pub ◌>>◌ : Cmd A → Cmd B → Cmd B
  m >> k = m >>= λ _. k

-- A read of an address: a fault where nothing is.
abbrev pub give : {A : Type 0} → Option A → Cmd A
give none w = fault
give (some a) w = done a w

abbrev pub update : {A : Type 0} → (Ptr → Option A) → Ptr → A → Ptr → Option A
update f p a q = if q == p then some a else f q

-- `*p` of each kind; a NULL pointer is a fault.
unfoldable pub load_inode : Ptr → Cmd Inode
load_inode p w = if p == null then fault else give (w.inode p) w

unfoldable pub load_dentry : Ptr → Cmd Dentry
load_dentry p w = if p == null then fault else give (w.dentry p) w

unfoldable pub load_priv : Ptr → Cmd PrivateInode
load_priv p w = if p == null then fault else give (w.priv p) w

abbrev pub put_inode : Ptr → Inode → World → World
put_inode p n w = record w { inode = update w.inode p n }

abbrev pub put_dentry : Ptr → Dentry → World → World
put_dentry p d w = record w { dentry = update w.dentry p d }

abbrev pub put_priv : Ptr → PrivateInode → World → World
put_priv p q w = record w { priv = update w.priv p q }

abbrev pub put_file : ℕ → Kbuf → World → World
put_file i b w = record w { file = λ j. if j == i then b else w.file j }

-- A write through a pointer.
unfoldable pub store_inode : Ptr → Inode → Cmd (Unit {0})
store_inode p n w = if p == null then fault else done tt (put_inode p n w)

unfoldable pub store_dentry : Ptr → Dentry → Cmd (Unit {0})
store_dentry p d w = if p == null then fault else done tt (put_dentry p d w)

unfoldable pub store_priv : Ptr → PrivateInode → Cmd (Unit {0})
store_priv p q w = if p == null then fault else done tt (put_priv p q w)

-- The address that an answer of `kmalloc` stands for.
abbrev pub address : Option Bytes → ℕ → Ptr
address none n = null
address (some _) n = n

-- `kmalloc` of an object of the given size.
unfoldable pub kmalloc : ℕ → Cmd Ptr
kmalloc size w = done (address (w.answer w.next size) w.next) (record w { next = w.next + 1 })

-- `sizeof` of the objects, with the padding of the x86-64 ABI.
abbrev pub sizeof_inode : ℕ
sizeof_inode = 40

abbrev pub sizeof_dentry : ℕ
sizeof_dentry = 24

abbrev pub sizeof_private_inode : ℕ
sizeof_private_inode = 8216

abbrev pub sizeof_file_descriptor : ℕ
sizeof_file_descriptor = 32

abbrev pub sizeof_stat : ℕ
sizeof_stat = 16

abbrev pub sizeof_superblock : ℕ
sizeof_superblock = 24
