-- ===== src/Fs/Ramfs/Lookup.antt =====
-- `ramfs_lookup` and `ramfs_putchild`: the names of a directory's children.
use project_luciano.Base.{
  suc, ◌≡◌, refl, ap, ◌∙◌, ◌≢◌, ◌↔◌, ◌⊎◌, inl, inr, Bool, true, false, Option, none, some, List, [],
  ◌∷◌, ◌++◌, arith, leb, ◌==◌, if◌then◌else◌, Bool-cases, length, All,
}
use project_luciano.Base.Int.{ℤ, pos, negsuc}
use project_luciano.Libc.{Bytes}
use project_luciano.Libc.Compare.{NoNul, strcmp_iff, strcmp_total}
use project_luciano.Fs.World.{
  Ptr, null, Flag, vfs_ok, vfs_eexist, vfs_enospc, inode_dir, Inode, Dentry, PrivateInode, World,
  Run, done, load_inode, load_dentry, load_priv, store_priv, put_priv,
}
use project_luciano.Fs.Ramfs.{
  max_child, is_zero, same_name, find_child, lookup_answer, ramfs_lookup, find_same, ramfs_putchild,
}

is_zero_iff :
    (d : ℤ) (w : World) → (b : Bool) × (is_zero (some d) w ≡ done b w) × ((b ≡ true) ↔ (d ≡ pos 0))
is_zero_iff (pos n) w = (n == 0, refl, (λ e. ground arith, λ e. ground arith))
is_zero_iff (negsuc n) w = (false, refl, (λ e. ground arith, λ e. ground arith))

-- The comparison of two names decides whether they are equal, and changes nothing.
pub same_name_lem :
    (s t : Bytes) (w : World)
    → NoNul s
    → NoNul t
    → (b : Bool) × (same_name (some s) t w ≡ done b w) × ((b ≡ true) ↔ (s ≡ t))
unfolding same_name
same_name_lem s t w hs ht =
    let (d, e) = strcmp_total s t in
    let (b, r, iff) = is_zero_iff d w in
    let same = strcmp_iff s t hs ht in
    (b, rw e r, (λ q. same.0 (e ∙ ap some (iff.0 q)), λ q. iff.1 (ground (arith, same.1 q))))

-- A child with its name, as the memory holds them.
abbrev pub IsChild : World → Ptr × Bytes → Type 0
IsChild w (c, n) = (c ≢ null) × (d : Dentry) × (w.dentry c ≡ some d) × (d.name ≡ some n) × NoNul n

abbrev pub ptrs : List (Ptr × Bytes) → List Ptr
ptrs [] = []
ptrs ((c, n) ∷ kids) = c ∷ ptrs kids

-- What a search answers: the first child with the name, or none of the children has it.
abbrev pub Picks : List (Ptr × Bytes) → Bytes → Option Ptr → Type 0
Picks kids name none = All (λ (c, n). n ≢ name) kids
Picks [] name (some p) = ⊥
Picks ((c, n) ∷ kids) name (some p) = (n ≡ name) × (p ≡ c) ⊎ (n ≢ name) × Picks kids name (some p)

Picks-skip :
    (c : Ptr) (n name : Bytes) (kids : List (Ptr × Bytes)) (o : Option Ptr)
    → n ≢ name
    → Picks kids name o
    → Picks ((c, n) ∷ kids) name o
Picks-skip c n name kids none ne h = (ne, h)
Picks-skip c n name kids (some p) ne h = inr (ne, h)

pub find_child_lem :
    (kids : List (Ptr × Bytes)) (name : Bytes) (w : World)
    → All (IsChild w) kids
    → NoNul name
    → (o : Option Ptr) × (find_child (ptrs kids) name w ≡ done o w) × Picks kids name o
unfolding find_child load_dentry
find_child_lem [] name w h k = (none, refl, tt)
find_child_lem ((c, n) ∷ kids) name w ((ne, d, at, named, chars), h) k =
    let (b, e, iff) = same_name_lem n name w chars k in
    elim (Bool-cases b) [
      | inl hit ↦ (some c, ground arith, inl (iff.0 hit, refl))
      | inr miss ↦
          let (o, run, p) = find_child_lem kids name w h k in
          (o, ground arith, Picks-skip c n name kids o (λ q. ground (arith, iff.1 q)) p)
    ]

-- A directory as the memory holds it.
pub record IsDir (w : World) (at : Ptr) (n : Inode) (p : PrivateInode) (kids : List (Ptr × Bytes))
    : Type 0 where
  pub at_ne : at ≢ null
  pub inode : w.inode at ≡ some n
  pub mode : n.mode ≡ inode_dir
  pub node_ne : n.private_field ≢ null
  pub node : w.priv n.private_field ≡ some p
  pub children : p.children ≡ ptrs kids
  pub named : All (IsChild w) kids

-- On a directory `ramfs_lookup` answers the first child with the name, or VFS_ENOENT exactly if no
-- child has it, and it changes nothing.
pub ramfs_lookup_lem :
    {w : World} {at : Ptr} {n : Inode} {p : PrivateInode} {kids : List (Ptr × Bytes)} (name : Bytes)
    → IsDir w at n p kids
    → NoNul name
    → (o : Option Ptr) × (ramfs_lookup at name w ≡ done (lookup_answer o) w) × Picks kids name o
unfolding ramfs_lookup load_inode load_priv
ramfs_lookup_lem {w} {at} {n} {p} {kids} name d k =
    let (o, e, q) = find_child_lem kids name w d.named k in
    (o, ground (arith, d.at_ne, d.inode, d.mode, d.node_ne, d.node, d.children), q)

find_same_lem :
    (kids : List (Ptr × Bytes)) (name : Bytes) (w : World)
    → All (IsChild w) kids
    → NoNul name
    → (o : Option Ptr) × (find_same (ptrs kids) (some name) w ≡ done o w) × Picks kids name o
unfolding find_same
find_same_lem [] name w h k = (none, refl, tt)
find_same_lem ((c, n) ∷ kids) name w h k = find_child_lem ((c, n) ∷ kids) name w h k

pub length-ptrs : (kids : List (Ptr × Bytes)) → length (ptrs kids) ≡ length kids
length-ptrs [] = refl
length-ptrs (k ∷ kids) = ap suc (length-ptrs kids)

-- The flag, and the children, that `ramfs_putchild` leaves.
abbrev pub put_answer : Ptr → PrivateInode → Ptr → Option Ptr → World → Run Flag
put_answer q p child none w =
    done vfs_ok (put_priv q (record p { children = p.children ++ (child ∷ []) }) w)
put_answer q p child (some _) w = done vfs_eexist w

-- `ramfs_putchild` on a directory: with 1024 children it answers VFS_ENOSPC, and with a child of the
-- new one's name VFS_EEXIST, and changes nothing; otherwise it answers VFS_OK and puts the new child
-- behind the others.
pub ramfs_putchild_lem :
    {w : World} {at : Ptr} {n : Inode} {p : PrivateInode} {kids : List (Ptr × Bytes)} (child : Ptr)
    (name : Bytes)
    → IsDir w at n p kids
    → IsChild w (child, name)
    → (o : Option Ptr) × Picks kids name o
      × (ramfs_putchild at child w ≡ (
          if leb max_child (length kids)
          then done vfs_enospc w
          else put_answer n.private_field p child o w))
unfolding ramfs_putchild load_inode load_priv load_dentry store_priv
ramfs_putchild_lem {w} {at} {n} {p} {kids} child name d (ne, e, at_child, named, chars) =
    let (o, run, q) = find_same_lem kids name w d.named chars in
    (o, q, ground (arith, d.at_ne, d.inode, d.node_ne, d.node, d.children, length-ptrs kids, run))
