-- ===== src/Fs/Ramfs/Files.antt =====
-- `ramfs_read` and `ramfs_write`. A caller's buffer is the block behind the pointer, `none` for
-- NULL; a read returns the buffer as it stands after the copy.
use project_luciano.Base.{
  ℕ, ◌+◌, ◌-◌, ◌%◌, ◌^◌, Option, none, some, ◌++◌, ltb, leb, ◌==◌, if◌then◌else◌, take, drop,
}
use project_luciano.Base.Int.{ℤ, pos, negsuc, signed64}
use project_luciano.Libc.{Bytes, memcpy}
use project_luciano.Kbuf.{Kbuf, Grown, fits, refused, bad_copy, out_of_fuel, grow_to}
use project_luciano.Fs.World.{
  Ptr, null, inode_reg, Inode, done, fault, stuck, Cmd, pure, ◌>>=◌, ◌>>◌, give, load_inode,
  load_priv, store_inode, put_file,
}
use project_luciano.Fs.Ramfs.{max_files}

-- VFS_SIZE_ERR and VFS_SIZE_ZERO
abbrev pub size_err : ℤ
size_err = negsuc 0

abbrev pub size_zero : ℤ
size_zero = pos 0

-- `data[index]`, a fault behind the end of the array.
unfoldable pub load_file : ℕ → Cmd Kbuf
load_file index w = if ltb index max_files then done (w.file index) w else fault

-- `size_limit`: what is left behind the offset, but at most `limit`.
abbrev pub read_size : ℕ → ℕ → ℕ → ℕ
read_size size offset limit = if ltb limit (size - offset) then limit else size - offset

unfoldable pub read_file : Ptr → ℕ → ℕ → Bytes → Cmd (ℤ × Bytes)
unfolding load_file
read_file node offset count buffer = do
  p ← load_priv node
  b ← load_file p.file_index
  filled ← give (memcpy buffer (drop offset b.bytes) count)
  pure (signed64 count, filled)

-- The part of `ramfs_read` behind the tests of the arguments.
unfoldable pub read_node : Inode → ℕ → ℕ → Bytes → Cmd (ℤ × Bytes)
unfolding read_file
read_node n offset limit buffer =
    if n.mode == inode_reg
    then if leb n.size offset
      then pure (size_zero, buffer)
      else if n.private_field == null
      then pure (size_err, buffer)
      else read_file n.private_field offset (read_size n.size offset limit) buffer
    else pure (size_err, buffer)

unfoldable pub ramfs_read : Ptr → ℕ → ℕ → Option Bytes → Cmd (ℤ × Option Bytes)
unfolding read_node
ramfs_read inode offset limit none = pure (size_err, none)
ramfs_read inode offset limit (some buffer) =
    if inode == null then pure (size_err, some buffer) else do
      n ← load_inode inode
      (r, filled) ← read_node n offset limit buffer
      pure (r, some filled)

-- `memcpy(data + offset, buffer, limit)` into the block.
unfoldable pub overwrite : Kbuf → ℕ → ℕ → Bytes → Option Kbuf
overwrite b offset limit buffer = elim (memcpy (drop offset b.bytes) buffer limit) [
  | none ↦ none
  | some tail ↦ some (record b { bytes = take offset b.bytes ++ tail })
]

-- The loop that makes room; its result goes back into `data[index]`, with the calls counted.
abbrev pub settle : ℕ → Grown → Cmd (Option Kbuf)
settle index (fits b next) w = done (some b) (record (put_file index b w) { next = next })
settle index (refused b next) w = done none (record (put_file index b w) { next = next })
settle index bad_copy w = fault
settle index out_of_fuel w = stuck

unfoldable pub make_room : ℕ → ℕ → Cmd (Option Kbuf)
unfolding load_file
make_room index limit = do
  b ← load_file index
  λ w. settle index (grow_to 66 w.answer w.next limit b) w

abbrev pub store_file : ℕ → Kbuf → Cmd (Unit {0})
store_file index b w = done tt (put_file index b w)

-- What follows the loop: the size grows, and the bytes are copied.
unfoldable pub commit : Ptr → ℕ → (offset limit : ℕ) → Bytes → Option Kbuf → Cmd ℤ
unfolding overwrite
commit inode index offset limit buffer none = pure size_err
commit inode index offset limit buffer (some b) = do
  n ← load_inode inode
  store_inode inode (if ltb n.size (offset + limit) then record n { size = offset + limit } else n)
  b' ← give (overwrite b offset limit buffer)
  store_file index b'
  pure (signed64 limit)

unfoldable pub write_node : Ptr → Inode → (offset limit : ℕ) → Bytes → Cmd ℤ
unfolding make_room commit
write_node inode n offset limit buffer =
    if n.mode == inode_reg
    then if ltb ((offset + limit) % 2 ^ 64) offset
      then pure size_err
      else if n.private_field == null
      then pure size_err
      else (do
        p ← load_priv n.private_field
        room ← make_room p.file_index (offset + limit)
        commit inode p.file_index offset limit buffer room)
    else pure size_err

-- The sum `offset + limit` is taken modulo 2 ^ 64, and a sum that wrapped is refused: from there on
-- it is the plain sum.
unfoldable pub ramfs_write : Ptr → (offset limit : ℕ) → Option Bytes → Cmd ℤ
unfolding write_node
ramfs_write inode offset limit none = pure size_err
ramfs_write inode offset limit (some buffer) =
    if inode == null
    then pure size_err
    else do n ← load_inode inode; write_node inode n offset limit buffer
