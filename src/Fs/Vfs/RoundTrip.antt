-- ===== src/Fs/Vfs/RoundTrip.antt =====
-- `vfs_write` and then `vfs_read` of kernel/vfs/vfs.c through a descriptor, over the RAM file system.
use project_luciano.Base.{
  ℕ, ◌+◌, ◌%◌, ◌^◌, ◌≤◌, ◌<◌, ◌≡◌, refl, sym, ap, ◌∙◌, subst, ◌⊎◌, inl, inr, false, some, ◌++◌,
  arith, ltb, ◌==◌, ==_refl, ==_ne, length, drop,
}
use project_luciano.Base.Int.{ℤ, signed64}
use project_luciano.Libc.{Bytes}
use project_luciano.Fs.World.{Ptr, Inode, PrivateInode, World, Run, done, fault, stuck, load_inode}
use project_luciano.Fs.Ramfs.{ramfs_ops}
use project_luciano.Fs.Ramfs.Files.{size_err, ramfs_read, ramfs_write}
use project_luciano.Fs.Ramfs.WriteRead.{
  IsFile, Wrote, wrote, full, stretched, after_write, ramfs_write_lem,
}
use project_luciano.Fs.Ramfs.RoundTrip.{ReadsBack, write-read}
use project_luciano.Fs.Vfs.{Ops, FileDescriptor}
use project_luciano.Fs.Vfs.Io.{vfs_read, vfs_write}
use project_luciano.Fs.Vfs.Tree.{ramfs_table}

-- A read through the descriptor after a write that ended like this gives the written bytes, or the
-- write was refused.
abbrev pub VfsReadsBack : (Ptr → Ops) → FileDescriptor → ℕ → Bytes → Bytes → Run ℤ → Type 0
VfsReadsBack drivers fd offset bytes out (done r w') =
    (r ≡ size_err)
    ⊎ (vfs_read drivers (some fd) offset (length bytes) (some out) w'
        ≡ done (signed64 (length bytes), some (bytes ++ drop (length bytes) out)) w')
VfsReadsBack drivers fd offset bytes out fault = ⊥
VfsReadsBack drivers fd offset bytes out stuck = ⊥

module _ (drivers : Ptr → Ops) (mounted : drivers ramfs_ops ≡ ramfs_table) (fd : FileDescriptor)
    {w : World} {n : Inode} {p : PrivateInode} (f : IsFile w fd.inode n p)
    (ops : n.ops ≡ ramfs_ops) where
  vfs_write-ramfs :
      (offset : ℕ) (bytes : Bytes)
      → offset + length bytes < 2 ^ 64
      → vfs_write drivers (some fd) offset (length bytes) (some bytes) w
        ≡ ramfs_write fd.inode offset (length bytes) (some bytes) w
  unfolding vfs_write load_inode
  vfs_write-ramfs offset bytes h =
      let fits : ltb ((offset + length bytes) % 2 ^ 64) offset ≡ false = ground arith in
      rw
        (
          ==_ne fd.inode 0 f.at_ne,
          ==_ne fd.inode 0 f.at_ne,
          f.inode,
          ap (λ k. k == 0) ops,
          ap drivers ops ∙ mounted,
          fits,
        )
        refl

  vfs_read-ramfs :
      (u : World) (m : Inode) (offset limit : ℕ) (out : Bytes)
      → u.inode fd.inode ≡ some m
      → m.ops ≡ ramfs_ops
      → vfs_read drivers (some fd) offset limit (some out) u
        ≡ ramfs_read fd.inode offset limit (some out) u
  unfolding vfs_read load_inode
  vfs_read-ramfs u m offset limit out inode same =
      rw
        (
          ==_ne fd.inode 0 f.at_ne,
          ==_ne fd.inode 0 f.at_ne,
          inode,
          ap (λ k. k == 0) same,
          ap drivers same ∙ mounted,
        )
        refl

  stretched-ops : (last : ℕ) → (stretched n last).ops ≡ ramfs_ops
  stretched-ops last = ground (arith, ops)

  Wrote-VfsReadsBack :
      (offset : ℕ) (bytes out : Bytes) (r : Run ℤ)
      → Wrote w fd.inode n p.file_index offset bytes r
      → ReadsBack fd.inode offset bytes out r
      → VfsReadsBack drivers fd offset bytes out r
  Wrote-VfsReadsBack offset bytes out r (wrote b next v room ext) (inl bad) = inl bad
  Wrote-VfsReadsBack offset bytes out r (wrote b next v room ext) (inr back) =
      let last = offset + length bytes in
      inr (
        vfs_read-ramfs (after_write w fd.inode n p.file_index b next offset bytes)
          (stretched n last) offset (length bytes) out (rw (==_refl fd.inode) refl)
          (stretched-ops last)
        ∙ back)
  Wrote-VfsReadsBack offset bytes out r (full b next v ext) back = inl refl

  -- Through a descriptor of a regular file of the RAM file system, `vfs_write` either answers
  -- VFS_SIZE_ERR, or a `vfs_read` of the same range into a large enough buffer gives the written bytes
  -- and leaves the rest of the reader's buffer as it was. The condition is that the file's bytes lie in
  -- its buffer and that the range ends below 2 ^ 64.
  pub vfs_read-vfs_write :
      (offset : ℕ) (bytes out : Bytes)
      → n.size ≤ (w.file p.file_index).allocated
      → offset + length bytes < 2 ^ 64
      → length bytes ≤ length out
      → VfsReadsBack drivers fd offset bytes out
          (vfs_write drivers (some fd) offset (length bytes) (some bytes) w)
  vfs_read-vfs_write offset bytes out sized h l =
      subst (VfsReadsBack drivers fd offset bytes out) (sym (vfs_write-ramfs offset bytes h)) (
        Wrote-VfsReadsBack offset bytes out _ (ramfs_write_lem f offset bytes h)
          (write-read f offset bytes out sized h l))
