-- ===== src/Fs/Ramfs/Boot.antt =====
-- `ramfs_init` and `ramfs_get_sb`: the file buffers, and what a mount is given.
use project_luciano.Base.{ℕ, zero, suc, ◌+◌, [], ltb, ◌==◌, if◌then◌else◌}
use project_luciano.Kbuf.{Kbuf, KStatus, kbuf_init}
use project_luciano.Fs.World.{
  Ptr, null, World, Cmd, pure, crash, ◌>>=◌, ◌>>◌, store_priv, kmalloc, put_file,
  sizeof_private_inode, sizeof_superblock,
}
use project_luciano.Fs.Ramfs.{max_files, initial_file_alloc, ramfs_ops}

-- `kbuf_init(&data[i], 16)`; the status is dropped, as in the code.
abbrev pub keep_buffer : KStatus × Kbuf → Kbuf
keep_buffer (status, b) = b

-- One call of the allocator is made unless the buffer is already larger.
unfoldable pub init_file : ℕ → World → World
init_file i w =
    record (put_file i (keep_buffer (kbuf_init (w.file i) initial_file_alloc (w.answer w.next)))
      w) { next = if ltb initial_file_alloc (w.file i).allocated then w.next else w.next + 1 }

-- The loop over the indices from `i` on, with the rounds that are left.
unfoldable pub init_files : ℕ → ℕ → World → World
unfolding init_file
init_files zero i w = w
init_files (suc rounds) i w = init_files rounds (i + 1) (init_file i w)

unfoldable pub ramfs_init : World → World
unfolding init_files
ramfs_init = init_files max_files 0

-- `vfs_superblock_t`, without the volume, which no code reads.
pub record Superblock : Type 0 where
  pub fs_ops : Ptr
  pub private_fields : Ptr

-- The three stores into a new private node; a NULL answer is a fault.
unfoldable pub get_mount_private_fields : Cmd Ptr
get_mount_private_fields = do
  node ← kmalloc sizeof_private_inode
  store_priv node (record { file_index = 0; children = []; parent = null })
  pure node

-- `ramfs_get_sb`
unfoldable pub get_sb : Cmd Superblock
unfolding get_mount_private_fields
get_sb = do
  sb ← kmalloc sizeof_superblock
  if sb == null then crash else (do
    node ← get_mount_private_fields
    pure (record { fs_ops = ramfs_ops; private_fields = node }))
