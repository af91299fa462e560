-- ===== src/Fs/Ramfs/Readdir.antt =====
-- `ramfs_emit_entry` and `ramfs_readdir`: packed directory entries in the caller's buffer.
use project_luciano.Base.{
  ℕ, zero, suc, ◌+◌, ◌-◌, ◌*◌, ◌/◌, ◌%◌, ◌^◌, bit_and, ◌||◌, Option, none, some, [], ◌∷◌, ◌++◌, ltb,
  leb, ◌==◌, if◌then◌else◌, length, get_elem?, take, drop,
}
use project_luciano.Base.Int.{ℤ, signed64}
use project_luciano.Libc.{Bytes, cstr, strlen, memcpy}
use project_luciano.Fs.World.{
  Ptr, null, inode_dir, Inode, PrivateInode, Cmd, pure, crash, ◌>>=◌, give, load_inode, load_dentry,
  load_priv,
}
use project_luciano.Fs.Ramfs.Files.{size_err, size_zero}

-- RAMFS_RESERVED_SUB: the entries "." and "..".
abbrev pub reserved_sub : ℕ
reserved_sub = 2

-- `offsetof(vfs_dir_entry_t, name)`: ino (8), type, name_len, rec_len and _pad (2 each).
abbrev pub name_offset : ℕ
name_offset = 16

-- The `k` bytes of a number, lowest first.
unfoldable pub little_endian : ℕ → ℕ → Bytes
little_endian zero n = []
little_endian (suc k) n = (n % 256) ∷ little_endian k (n / 256)

-- A write of some bytes at an offset of the buffer.
unfoldable pub poke : Bytes → ℕ → Bytes → Option Bytes
poke buffer zero bytes = memcpy buffer bytes (length bytes)
poke [] (suc at) bytes = none
poke (b ∷ buffer) (suc at) bytes = elim (poke buffer at bytes) [
  | none ↦ none
  | some rest ↦ some (b ∷ rest)
]

-- `size = (size + 7) & ~7` on a `uint16_t`.
unfoldable pub record_size : ℕ → ℕ
record_size name_len =
    bit_and ((name_offset + name_len + 1) % 2 ^ 16 + 8 - 1) ((2 ^ 29 - 1) * 2 ^ 3) % 2 ^ 16

-- The stores into the entry, in order; the padding keeps what stood there.
unfoldable pub fill_entry : Bytes → Inode → Bytes → ℕ → ℕ → Cmd Bytes
unfolding little_endian poke
fill_entry buffer n name name_len size = do
  b ← give (poke buffer 0 (little_endian 8 n.ino))
  b ← give (poke b 8 (little_endian 2 n.mode))
  b ← give (poke b 10 (little_endian 2 name_len))
  b ← give (poke b 12 (little_endian 2 size))
  b ← give (poke b name_offset (take name_len name))
  b ← give (poke b (name_offset + name_len) (0 ∷ []))
  pure b

unfoldable pub emit : Bytes → ℕ → Inode → Bytes → ℕ → ℕ → Cmd (ℕ × Bytes)
unfolding fill_entry
emit buffer limit n name name_len size =
    if ltb limit size
    then pure (0, buffer)
    else (do filled ← fill_entry buffer n name name_len size; pure (size, filled))

unfoldable pub ramfs_emit_entry : Bytes → ℕ → Inode → Option Bytes → Cmd (ℕ × Bytes)
unfolding emit record_size
ramfs_emit_entry buffer limit n none = crash
ramfs_emit_entry buffer limit n (some name) = do
  len ← give (strlen (cstr name))
  emit buffer limit n name (len % 2 ^ 16) (record_size (len % 2 ^ 16))

-- The entry at an offset: "." for the directory, ".." for its parent (itself at the root), then the
-- children.
unfoldable pub entry_at : Inode → PrivateInode → ℕ → Cmd (Inode × Option Bytes)
entry_at n p zero = pure (n, some (b'.' ∷ []))
entry_at n p (suc zero) =
    if p.parent == null
    then pure (n, some (b'.' ∷ b'.' ∷ []))
    else (do up ← load_inode p.parent; pure (up, some (b'.' ∷ b'.' ∷ [])))
entry_at n p (suc (suc i)) = do
  c ← give (get_elem? p.children i)
  d ← load_dentry c
  m ← load_inode d.inode
  pure (m, d.name)

-- The loop, with the rounds that are left; `buffer` is what lies from `buffer_p` on, and the result
-- is the number of bytes written and that part of the buffer.
unfoldable pub readdir_loop : ℕ → Inode → PrivateInode → ℕ → ℕ → Bytes → Cmd (ℕ × Bytes)
unfolding ramfs_emit_entry entry_at
readdir_loop zero n p offset size buffer = pure (0, buffer)
readdir_loop (suc rounds) n p offset size buffer = do
  (m, name) ← entry_at n p offset
  (written, b) ← ramfs_emit_entry buffer size m name
  if written == 0 then pure (0, b) else (do
    (more, rest) ← readdir_loop rounds n p (offset + 1) (size - written) (drop written b)
    pure (written + more, take written b ++ rest))

unfoldable pub ramfs_readdir : Ptr → ℕ → ℕ → Option Bytes → Cmd (ℤ × Option Bytes)
unfolding readdir_loop
ramfs_readdir inode offset size none = pure (size_err, none)
ramfs_readdir inode offset size (some buffer) =
    if size == 0 || inode == null then pure (size_err, some buffer) else do
      n ← load_inode inode
      if n.mode == inode_dir
          then if n.private_field == null then pure (size_err, some buffer) else (do
            p ← load_priv n.private_field
            if leb (reserved_sub + length p.children) offset
                then pure (size_zero, some buffer)
                else (do
                  (total, filled) ←
                      readdir_loop (reserved_sub + length p.children - offset) n p offset size
                        buffer
                  pure (signed64 total, some filled)))
          else pure (size_err, some buffer)
