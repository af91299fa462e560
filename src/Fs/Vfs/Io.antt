-- ===== src/Fs/Vfs/Io.antt =====
-- The calls of kernel/vfs/vfs.c on an open file: read, write, stat, readdir, close.
use project_luciano.Base.{ℕ, ◌+◌, ◌%◌, ◌^◌, not, ◌||◌, Option, none, some, ltb, ◌==◌, if◌then◌else◌}
use project_luciano.Base.Int.{ℤ}
use project_luciano.Libc.{Bytes}
use project_luciano.Fs.World.{
  Ptr, null, Flag, vfs_ok, vfs_einval, inode_dir, Inode, Cmd, pure, crash, ◌>>=◌, ◌>>◌, give,
  load_inode, kmalloc, sizeof_stat,
}
use project_luciano.Fs.Ramfs.Files.{size_err}
use project_luciano.Fs.Vfs.{Ops, FileDescriptor, is_some}

-- `vfs_stat_t`
pub record Stat : Type 0 where
  pub st_size : ℕ
  pub st_ino : ℕ
  pub st_mode : ℕ

-- `st_ino` and `st_mode` are narrower than the inode's fields.
abbrev pub stat_of : Inode → Stat
stat_of n = record { st_size = n.size; st_ino = n.ino % 2 ^ 32; st_mode = n.mode % 2 ^ 16 }

-- `vfs_stat`: nothing is tested before the stores, so a NULL answer of `kmalloc` is a fault.
unfoldable pub vfs_stat : Option FileDescriptor → Cmd (Flag × Stat)
vfs_stat fd = do
  out ← kmalloc sizeof_stat
  if out == null then crash else (do f ← give fd; n ← load_inode f.inode; pure (vfs_ok, stat_of n))

module _ (drivers : Ptr → Ops) where
  unfoldable pub vfs_read : Option FileDescriptor → ℕ → ℕ → Option Bytes → Cmd (ℤ × Option Bytes)
  vfs_read none offset limit buffer = pure (size_err, buffer)
  vfs_read (some fd) offset limit buffer = if fd.inode == null then pure (size_err, buffer) else do
    n ← load_inode fd.inode
    if n.ops == null || not (is_some (drivers n.ops).read) || not (is_some buffer)
        then pure (size_err, buffer)
        else (do read ← give (drivers n.ops).read; read fd.inode offset limit buffer)

  unfoldable pub vfs_write : Option FileDescriptor → ℕ → ℕ → Option Bytes → Cmd ℤ
  vfs_write none offset limit buffer = pure size_err
  vfs_write (some fd) offset limit buffer = if fd.inode == null then pure size_err else do
    n ← load_inode fd.inode
    if n.ops == null || not (is_some (drivers n.ops).write) || not (is_some buffer)
        then pure size_err
        else if ltb ((offset + limit) % 2 ^ 64) offset
        then pure size_err
        else (do write ← give (drivers n.ops).write; write fd.inode offset limit buffer)

  unfoldable pub vfs_readdir : Option FileDescriptor → ℕ → ℕ → Option Bytes → Cmd (ℤ × Option Bytes)
  vfs_readdir none offset size buffer = pure (size_err, buffer)
  vfs_readdir (some fd) offset size buffer =
      if size == 0 || not (is_some buffer) || fd.inode == null then pure (size_err, buffer) else do
        n ← load_inode fd.inode
        if n.ops == null || not (is_some (drivers n.ops).readdir)
            then pure (size_err, buffer)
            else if n.mode == inode_dir
            then (do readdir ← give (drivers n.ops).readdir; readdir fd.inode offset size buffer)
            else pure (size_err, buffer)

  -- The driver's flag is dropped.
  unfoldable pub vfs_close : Option FileDescriptor → Cmd Flag
  vfs_close none = pure vfs_einval
  vfs_close (some fd) = if fd.inode == null then pure vfs_einval else do
    n ← load_inode fd.inode
    if n.ops == null || not (is_some (drivers n.ops).close)
        then pure vfs_einval
        else (do close ← give (drivers n.ops).close; close fd.inode; pure vfs_ok)
