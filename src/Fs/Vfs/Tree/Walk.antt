-- ===== src/Fs/Vfs/Tree/Walk.antt =====
-- `vfs_walk_parent` and the lookup over the RAM file system go where `locate` does.
use project_luciano.Base.{
  ℕ, zero, suc, ◌+◌, ◌≡◌, refl, sym, ap, ◌∙◌, inl, inr, false, Option, none, some, List, arith,
  ◌==◌, if◌then◌else◌, ==_iff, Bool-cases, Option-cases,
}
use project_luciano.Libc.{Bytes}
use project_luciano.Libc.Compare.{NoNul}
use project_luciano.Fs.Path.{Rows, PathBuf, component}
use project_luciano.Fs.Path.Outcome.{components, component-NoNul}
use project_luciano.Fs.World.{
  Ptr, null, Flag, vfs_ok, vfs_enoent, inode_dir, Inode, Dentry, PrivateInode, World, done,
  load_inode, load_dentry, load_priv,
}
use project_luciano.Fs.Ramfs.{ramfs_ops, ramfs_lookup, lookup_answer}
use project_luciano.Fs.Ramfs.Lookup.{IsDir, ptrs, ramfs_lookup_lem}
use project_luciano.Fs.Vfs.{Ops, walk_step, walk, lookup_in, table}
use project_luciano.Fs.Vfs.Tree.{ramfs_table, pick, child_of, locate, IsEntry, Entry, entry, IsFs}
use project_luciano.Fs.Vfs.Tree.Names.{Picks-pick}
use project_luciano.Fs.Vfs.Tree.Frame.{child_of-entry}

-- The entry of a directory, as the theorems about the driver take it.
pub IsDir-entry :
    {b : ℕ} {w : World} {d : Ptr} {e : Dentry} {n : Inode} {p : PrivateInode}
    {kids : List (Ptr × Bytes)}
    → IsEntry b w d e n p kids
    → n.mode ≡ inode_dir
    → IsDir w e.inode n p kids
IsDir-entry i mode = record {
  at_ne = i.inode_ne;
  inode = i.inode;
  mode = mode;
  node_ne = i.node_ne;
  node = i.node;
  children = i.children;
  named = i.named;
}

-- On a regular file the driver's lookup finds nothing.
lookup-file :
    {b : ℕ} {w : World} {d : Ptr} {e : Dentry} {n : Inode} {p : PrivateInode}
    {kids : List (Ptr × Bytes)} (x : Bytes)
    → IsEntry b w d e n p kids
    → (n.mode == inode_dir) ≡ false
    → ramfs_lookup e.inode x w ≡ done (lookup_answer none) w
unfolding ramfs_lookup load_inode load_priv
lookup-file x i file = ground (arith, i.inode_ne, i.inode, i.node_ne, i.node, file)

pub lookup-entry :
    {b : ℕ} {w : World} {d : Ptr} {e : Dentry} {n : Inode} {p : PrivateInode}
    {kids : List (Ptr × Bytes)} (x : Bytes)
    → IsEntry b w d e n p kids
    → NoNul x
    → ramfs_lookup e.inode x w ≡ done (lookup_answer (child_of w (some d) x)) w
lookup-entry {b} {w} {d} {e} {n} {p} {kids} x i chars = elim (Bool-cases (n.mode == inode_dir)) [
  | inl dir ↦
      let (o, run, q) =
        ramfs_lookup_lem x (IsDir-entry i ((==_iff n.mode inode_dir).0 dir)) chars in
      let here : o ≡ child_of w (some d) x =
        sym (Picks-pick w kids x o i.named q)
        ∙ ap (λ u. if u then pick w (ptrs kids) x else none) (sym dir)
        ∙ sym (child_of-entry x i) in
      run ∙ ap (λ r. done (lookup_answer r) w) here
  | inr file ↦
      let gone : none ≡ child_of w (some d) x =
        ap (λ u. if u then pick w (ptrs kids) x else none) (sym file) ∙ sym (child_of-entry x i) in
      lookup-file x i file ∙ ap (λ r. done (lookup_answer r) w) gone
]

-- What the walk answers.
abbrev pub walked : Option Ptr → Flag × Ptr
walked none = (vfs_enoent, null)
walked (some d) = (vfs_ok, d)

-- What one step answers: on an error the directory stays.
abbrev stepped : Ptr → Option Ptr → Flag × Ptr
stepped d none = (vfs_enoent, d)
stepped d (some c) = (vfs_ok, c)

module _ (drivers : Ptr → Ops) (junk : Rows) (mounted : drivers ramfs_ops ≡ ramfs_table) where
  walk_step-entry :
      {b : ℕ} {w : World} (d : Ptr) (x : Bytes)
      → Entry b w d
      → NoNul x
      → walk_step drivers junk x d w ≡ done (stepped d (child_of w (some d) x)) w
  unfolding walk_step load_dentry load_inode
  walk_step-entry {b} {w} d x (entry e n p kids i) chars =
      ground
        (arith, mounted, i.dentry_ne, i.dentry, i.inode_ne, i.inode, i.ops, lookup-entry x i chars)

  pub lookup_in-entry :
      {b : ℕ} {w : World} {d : Ptr} {e : Dentry} {n : Inode} {p : PrivateInode}
      {kids : List (Ptr × Bytes)} (x : Bytes)
      → IsEntry b w d e n p kids
      → NoNul x
      → lookup_in drivers junk e x w ≡ done (lookup_answer (child_of w (some d) x)) w
  unfolding lookup_in table load_inode
  lookup_in-entry x i chars =
      ground (arith, mounted, i.inode_ne, i.inode, i.ops, lookup-entry x i chars)

  module _ (b : ℕ) (w : World) (fs : IsFs b w) (p : PathBuf) where
    locate-beyond :
        (k i t : ℕ)
        → t ≡ k + i
        → locate w (components p i) ≡ none
        → locate w (components p t) ≡ none
    unfolding locate
    locate-beyond zero i t q e = ap (λ j. locate w (components p j)) q' ∙ e
      where
        q' : t ≡ i
        q' = omega (arith, q)
    locate-beyond (suc k) i zero q e = absurd (omega (arith, q))
    locate-beyond (suc k) i (suc t) q e =
        ap (λ o. child_of w o (component p t)) (locate-beyond k i t (omega (arith, q)) e)

    pub walk_lem :
        (k i t : ℕ) (d : Ptr)
        → t ≡ k + i
        → locate w (components p i) ≡ some d
        → walk drivers junk p k i d w ≡ done (walked (locate w (components p t))) w
    unfolding walk locate
    walk_lem zero i t d q at = let end : t ≡ i = omega (arith, q) in rw (end, at) refl
    walk_lem (suc k) i t d q at =
        let step =
          walk_step-entry d (component p i) (fs.entries (components p i) d at)
            (component-NoNul p i) in
        let next : i + 1 ≡ suc i = omega arith in
        elim (Option-cases (child_of w (some d) (component p i))) [
          | inl gone ↦
              let nothing : locate w (components p t) ≡ none =
                locate-beyond k (suc i) t (omega (arith, q))
                  (ap (λ o. child_of w o (component p i)) at ∙ gone) in
              rw (step, gone, nothing) refl
          | inr (c, found) ↦
              let there : locate w (components p (i + 1)) ≡ some c =
                ap (λ j. locate w (components p j)) next
                ∙ ap (λ o. child_of w o (component p i)) at
                ∙ found in
              rw (step, found) (walk_lem k (i + 1) t c (omega (arith, q)) there)
        ]
