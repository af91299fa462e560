-- ===== src/Fs/Ramfs/WriteRead.antt =====
-- Theorems about ramfs_write and ramfs_read of kernel/drivers/ramfs/ramfs.c on a regular file.
use project_luciano.Base.{
  ℕ, ◌+◌, ◌-◌, ◌%◌, ◌^◌, ◌≤◌, ◌<◌, min, ◌≡◌, sym, subst, ◌≢◌, inl, inr, some, ◌++◌, arith, ltb, leb,
  if◌then◌else◌, Bool-cases, length, take, drop, length-drop, take_all,
}
use project_luciano.Base.Int.{ℤ, signed64}
use project_luciano.Libc.{Bytes, memcpy}
use project_luciano.Libc.Copy.{memcpy_lem}
use project_luciano.Kbuf.{Kbuf, Grown, fits, refused, bad_copy, out_of_fuel, grow_to}
use project_luciano.Kbuf.Grow.{IsValid, IsSized, Extends, Ends, grow_to-Ends}
use project_luciano.Fs.World.{
  Ptr, null, inode_reg, Inode, PrivateInode, World, Run, done, and_then, load_inode, load_priv,
  store_inode, put_inode, put_file,
}
use project_luciano.Fs.Ramfs.{max_files}
use project_luciano.Fs.Ramfs.Files.{
  size_err, load_file, read_size, read_file, read_node, ramfs_read, overwrite, settle, make_room,
  commit, write_node, ramfs_write,
}

-- A regular file as the memory holds it, with a valid buffer.
pub record IsFile (w : World) (at : Ptr) (n : Inode) (p : PrivateInode) : Type 0 where
  pub at_ne : at ≢ null
  pub inode : w.inode at ≡ some n
  pub mode : n.mode ≡ inode_reg
  pub node_ne : n.private_field ≢ null
  pub node : w.priv n.private_field ≡ some p
  pub index : p.file_index < max_files
  pub buffer : IsValid (w.file p.file_index)
  pub sized : IsSized w.answer

-- The block after the copy.
abbrev pub patched : Kbuf → ℕ → Bytes → Kbuf
patched b offset bytes = record b {
  bytes = take offset b.bytes ++ (bytes ++ drop (length bytes) (drop offset b.bytes));
}

overwrite_lem :
    (b : Kbuf) (offset : ℕ) (bytes : Bytes)
    → offset + length bytes ≤ length b.bytes
    → overwrite b offset (length bytes) bytes ≡ some (patched b offset bytes)
unfolding overwrite
overwrite_lem b offset bytes h = ground (
  arith,
  memcpy_lem (drop offset b.bytes) bytes (length bytes),
  length-drop offset b.bytes,
  take_all (length bytes) bytes,
)

-- The inode after a write that ends at `last`.
abbrev pub stretched : Inode → ℕ → Inode
stretched n last = if ltb n.size last then record n { size = last } else n

-- The memory after a write that found room in `b`, and after one that did not.
abbrev pub after_write : World → Ptr → Inode → ℕ → Kbuf → ℕ → ℕ → Bytes → World
after_write w at n index b next offset bytes = put_file index (patched b offset bytes) (
    put_inode at (stretched n (offset + length bytes))
      (record (put_file index b w) { next = next }))

abbrev pub after_refusal : World → ℕ → Kbuf → ℕ → World
after_refusal w index b next = record (put_file index b w) { next = next }

-- How a write ends: with its length, or with an error where the buffer could not grow.
pub data Wrote (w : World) (at : Ptr) (n : Inode) (index offset : ℕ) (bytes : Bytes)
    : Run ℤ → Type 0 where
  wrote :
      (b : Kbuf) (next : ℕ)
      → IsValid b
      → offset + length bytes ≤ b.allocated
      → Extends (w.file index) b
      → Wrote w at n index offset bytes
          (done (signed64 (length bytes)) (after_write w at n index b next offset bytes))
  full :
      (b : Kbuf) (next : ℕ)
      → IsValid b
      → Extends (w.file index) b
      → Wrote w at n index offset bytes (done size_err (after_refusal w index b next))

module _ {w : World} {at : Ptr} {n : Inode} {p : PrivateInode} (f : IsFile w at n p) where
  commit_room :
      (offset : ℕ) (bytes : Bytes) (b : Kbuf) (next : ℕ)
      → IsValid b
      → offset + length bytes ≤ b.allocated
      → commit at p.file_index offset
          (length bytes)
          bytes
          (some b)
          (record (put_file p.file_index b w) { next = next })
        ≡ done (signed64 (length bytes)) (after_write w at n p.file_index b next offset bytes)
  unfolding commit load_inode store_inode
  commit_room offset bytes b next v room =
      ground (arith, f.at_ne, f.inode, overwrite_lem b offset bytes (omega (arith, v.size)))

  commit-Wrote :
      (offset : ℕ) (bytes : Bytes) (g : Grown)
      → Ends w.answer (w.file p.file_index) (offset + length bytes) g
      → Wrote w at n p.file_index offset bytes
          (and_then (settle p.file_index g w) (commit at p.file_index offset (length bytes) bytes))
  unfolding commit
  commit-Wrote offset bytes (fits b next) (v, room, ext) =
      subst (Wrote w at n p.file_index offset bytes) (sym (commit_room offset bytes b next v room))
        (wrote b next v room ext)
  commit-Wrote offset bytes (refused b next) (v, ext, below, stuck) = full b next v ext
  commit-Wrote offset bytes bad_copy h = absurd h
  commit-Wrote offset bytes out_of_fuel h = absurd h

  write-eq :
      (offset : ℕ) (bytes : Bytes)
      → offset + length bytes < 2 ^ 64
      → ramfs_write at offset (length bytes) (some bytes) w
        ≡ and_then
            (settle p.file_index
              (grow_to 66 w.answer w.next (offset + length bytes) (w.file p.file_index))
              w)
            (commit at p.file_index offset (length bytes) bytes)
  unfolding ramfs_write write_node make_room load_file load_inode load_priv
  write-eq offset bytes h =
      let e : (offset + length bytes) % 2 ^ 64 ≡ offset + length bytes = omega arith in
      ground (arith, f.at_ne, f.inode, f.mode, f.node_ne, f.node, f.index)

  -- A write to a regular file that ends below 2 ^ 64 either copies all its bytes, into a buffer that
  -- starts with the old one, and makes the file at least as long as its end, or it answers
  -- VFS_SIZE_ERR, and then the inode and the old bytes are as before. It never runs out of rounds
  -- and never accesses memory out of bounds.
  pub ramfs_write_lem :
      (offset : ℕ) (bytes : Bytes)
      → offset + length bytes < 2 ^ 64
      → Wrote w at n p.file_index offset bytes (ramfs_write at offset (length bytes) (some bytes) w)
  ramfs_write_lem offset bytes h =
      subst (Wrote w at n p.file_index offset bytes) (sym (write-eq offset bytes h)) (
        commit-Wrote offset bytes _ (
          grow_to-Ends w.answer w.next (offset + length bytes) (w.file p.file_index) f.buffer
            f.sized))

  copy_out :
      (offset got : ℕ) (out : Bytes)
      → offset + got ≤ (w.file p.file_index).allocated
      → got ≤ length out
      → memcpy out (drop offset (w.file p.file_index).bytes) got
        ≡ some (take got (drop offset (w.file p.file_index).bytes) ++ drop got out)
  copy_out offset got out h l =
      let m = length-drop offset (w.file p.file_index).bytes in
      memcpy_lem out (drop offset (w.file p.file_index).bytes) got l (omega (arith, f.buffer.size))

  read_node_lem :
      (offset limit : ℕ) (out : Bytes)
      → n.size ≤ (w.file p.file_index).allocated
      → limit ≤ length out
      → let got = min limit (n.size - offset) in
        read_node n offset limit out w
        ≡ done (signed64 got, take got (drop offset (w.file p.file_index).bytes) ++ drop got out) w
  unfolding read_node read_file load_file load_priv
  read_node_lem offset limit out h l =
      let got = min limit (n.size - offset) in
      elim (Bool-cases (leb n.size offset)) [
        | inl e ↦ ground (arith, f.mode)
        | inr e ↦
            let k : read_size n.size offset limit ≡ got = ground arith in
            let c = copy_out offset got out (ground arith) (omega arith) in
            rw (f.mode, e, k) ground (arith, f.node_ne, f.node, f.index, c)
      ]

  -- A read of a regular file at `offset` copies the bytes from there up to `limit` or to the end of
  -- the file, keeps the rest of the reader's block, and changes nothing in the memory.
  pub ramfs_read_lem :
      (offset limit : ℕ) (out : Bytes)
      → n.size ≤ (w.file p.file_index).allocated
      → limit ≤ length out
      → let got = min limit (n.size - offset) in
        ramfs_read at offset limit (some out) w
        ≡ done
            (
              signed64 got,
              some (take got (drop offset (w.file p.file_index).bytes) ++ drop got out),
            )
            w
  unfolding ramfs_read load_inode
  ramfs_read_lem offset limit out h l =
      ground (arith, f.at_ne, f.inode, read_node_lem offset limit out h l)
