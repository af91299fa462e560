-- ===== src/Fs/Ramfs/RoundTrip.antt =====
-- A write to a regular file, and the read of the same range after it.
use project_luciano.Base.{
  ℕ, ◌+◌, ◌-◌, ◌^◌, ◌≤◌, ◌<◌, min, max, ◌≡◌, refl, sym, ap, ◌∙◌, subst, ◌⊎◌, inl, inr, some, ◌++◌,
  arith, ==_refl, length, take, drop, length-append, length-take, length-drop, take-append,
  drop-append,
}
use project_luciano.Base.Int.{ℤ, signed64}
use project_luciano.Libc.{Bytes}
use project_luciano.Kbuf.{Kbuf}
use project_luciano.Kbuf.Grow.{IsValid}
use project_luciano.Fs.World.{Ptr, inode_reg, Inode, PrivateInode, World, Run, done, fault, stuck}
use project_luciano.Fs.Ramfs.Files.{size_err, ramfs_read, ramfs_write}
use project_luciano.Fs.Ramfs.WriteRead.{
  IsFile, patched, stretched, after_write, Wrote, wrote, full, ramfs_write_lem, ramfs_read_lem,
}

-- A read after a write that ended like this gives the written bytes, or the write was refused.
abbrev pub ReadsBack : Ptr → ℕ → Bytes → Bytes → Run ℤ → Type 0
ReadsBack at offset bytes out (done r w') =
    (r ≡ size_err)
    ⊎ (ramfs_read at offset (length bytes) (some out) w'
        ≡ done (signed64 (length bytes), some (bytes ++ drop (length bytes) out)) w')
ReadsBack at offset bytes out fault = ⊥
ReadsBack at offset bytes out stuck = ⊥

module _ {w : World} {at : Ptr} {n : Inode} {p : PrivateInode} (f : IsFile w at n p) where
  patched-IsValid :
      (b : Kbuf) (offset : ℕ) (bytes : Bytes)
      → IsValid b
      → offset + length bytes ≤ b.allocated
      → IsValid (patched b offset bytes)
  patched-IsValid b offset bytes v h =
      let rest = drop offset b.bytes in
      let l1 = length-append (take offset b.bytes) (bytes ++ drop (length bytes) rest) in
      let l2 = length-append bytes (drop (length bytes) rest) in
      let l3 = length-take offset b.bytes in
      let l4 = length-drop (length bytes) rest in
      let l5 = length-drop offset b.bytes in
      record { size = omega (arith, v.size); small = v.small }

  stretched-mode : (last : ℕ) → (stretched n last).mode ≡ inode_reg
  stretched-mode last = ground (arith, f.mode)

  stretched-field : (last : ℕ) → (stretched n last).private_field ≡ n.private_field
  stretched-field last = ground arith

  stretched-size : (last : ℕ) → (stretched n last).size ≡ max n.size last
  stretched-size last = ground arith

  after_write-file :
      (b : Kbuf) (next offset : ℕ) (bytes : Bytes)
      → (after_write w at n p.file_index b next offset bytes).file p.file_index
        ≡ patched b offset bytes
  after_write-file b next offset bytes = rw (==_refl p.file_index) refl

  after_write-IsFile :
      (b : Kbuf) (next offset : ℕ) (bytes : Bytes)
      → IsValid b
      → offset + length bytes ≤ b.allocated
      → IsFile
          (after_write w at n p.file_index b next offset bytes)
          at
          (stretched n (offset + length bytes))
          p
  after_write-IsFile b next offset bytes v h =
      let last = offset + length bytes in
      let same = stretched-field last in
      record {
        at_ne = f.at_ne;
        inode = rw (==_refl at) refl;
        mode = stretched-mode last;
        node_ne = λ e. f.node_ne (sym same ∙ e);
        node = ap w.priv same ∙ f.node;
        index = f.index;
        buffer =
            subst IsValid (sym (after_write-file b next offset bytes))
              (patched-IsValid b offset bytes v h);
        sized = f.sized;
      }

  read_back :
      (b : Kbuf) (offset : ℕ) (bytes : Bytes)
      → offset + length bytes ≤ length b.bytes
      → take (length bytes) (drop offset (patched b offset bytes).bytes) ≡ bytes
  read_back b offset bytes h =
      let rest = drop offset b.bytes in
      let tail = drop (length bytes) rest in
      let front =
        drop-append (take offset b.bytes) (bytes ++ tail) offset
          (omega (arith, length-take offset b.bytes)) in
      ap (take (length bytes)) front ∙ take-append bytes tail (length bytes) refl

  read-after_write :
      (b : Kbuf) (next offset : ℕ) (bytes out : Bytes)
      → IsValid b
      → offset + length bytes ≤ b.allocated
      → n.size ≤ b.allocated
      → length bytes ≤ length out
      → let w' = after_write w at n p.file_index b next offset bytes in
        ramfs_read at offset (length bytes) (some out) w'
        ≡ done (signed64 (length bytes), some (bytes ++ drop (length bytes) out)) w'
  read-after_write b next offset bytes out v h k l =
      let last = offset + length bytes in
      let w' = after_write w at n p.file_index b next offset bytes in
      let here = after_write-file b next offset bytes in
      let size = stretched-size last in
      let count : min (length bytes) ((stretched n last).size - offset) ≡ length bytes =
        omega arith in
      let room : (stretched n last).size ≤ (w'.file p.file_index).allocated =
        subst (λ (q : Kbuf). (stretched n last).size ≤ q.allocated) (sym here) (omega arith) in
      let read =
        ramfs_read_lem (after_write-IsFile b next offset bytes v h) offset (length bytes) out room
          l in
      let front : take (length bytes) (drop offset (w'.file p.file_index).bytes) ≡ bytes =
        ap (λ (q : Kbuf). take (length bytes) (drop offset q.bytes)) here
        ∙ read_back b offset bytes (omega (arith, v.size)) in
      read
      ∙ ap
          (λ (c : ℕ).
            done
              (signed64 c, some (take c (drop offset (w'.file p.file_index).bytes) ++ drop c out))
              w')
          count
      ∙ ap (λ (t : Bytes). done (signed64 (length bytes), some (t ++ drop (length bytes) out)) w')
          front

  Wrote-ReadsBack :
      (offset : ℕ) (bytes out : Bytes)
      → n.size ≤ (w.file p.file_index).allocated
      → length bytes ≤ length out
      → (r : Run ℤ) → Wrote w at n p.file_index offset bytes r
      → ReadsBack at offset bytes out r
  Wrote-ReadsBack offset bytes out h l r (wrote b next v room (t, e)) =
      let longer : length b.bytes ≡ length (w.file p.file_index).bytes + length t =
        ap (λ (q : Bytes). length q) e ∙ length-append (w.file p.file_index).bytes t in
      inr (read-after_write b next offset bytes out v room (omega (arith, v.size, f.buffer.size)) l)
  Wrote-ReadsBack offset bytes out h l r (full b next v ext) = inl refl

-- A write to a regular file either answers VFS_SIZE_ERR, or a read of the same range into a large
-- enough buffer gives the written bytes and leaves the rest of the reader's buffer as it was. The
-- condition is that the file's bytes lie in its buffer and that the range ends below 2 ^ 64.
pub write-read :
    {w : World} {at : Ptr} {n : Inode} {p : PrivateInode}
    → (f : IsFile w at n p) → (offset : ℕ) (bytes out : Bytes)
    → n.size ≤ (w.file p.file_index).allocated
    → offset + length bytes < 2 ^ 64
    → length bytes ≤ length out
    → ReadsBack at offset bytes out (ramfs_write at offset (length bytes) (some bytes) w)
write-read f offset bytes out h k l =
    Wrote-ReadsBack f offset bytes out h l _ (ramfs_write_lem f offset bytes k)
