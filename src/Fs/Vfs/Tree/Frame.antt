-- ===== src/Fs/Vfs/Tree/Frame.antt =====
-- What allocations and stores behind the tree leave as it was.
use project_luciano.Base.{
  ℕ, ◌≤◌, ◌<◌, ◌≡◌, refl, sym, ap, ap₂, ◌∙◌, inl, inr, none, some, List, [], ◌∷◌, arith, ◌==◌,
  if◌then◌else◌, Option-cases, All,
}
use project_luciano.Libc.{Bytes}
use project_luciano.Fs.World.{Ptr, inode_dir, Inode, Dentry, PrivateInode, World}
use project_luciano.Fs.Ramfs.Lookup.{IsChild, ptrs}
use project_luciano.Fs.Vfs.Tree.{
  pick, has_name, inode_of, child_of, locate, node_of, view, kind_of, kind_at, IsEntry, Entry,
  entry, IsFs,
}

-- Two memories are the same below an address.
pub record Agrees (b : ℕ) (w w' : World) : Type 0 where
  pub dentry : (a : Ptr) → a < b → w'.dentry a ≡ w.dentry a
  pub inode : (a : Ptr) → a < b → w'.inode a ≡ w.inode a
  pub priv : (a : Ptr) → a < b → w'.priv a ≡ w.priv a

pub All-mono {ℓ κ} :
    {A : Type ℓ} (P Q : A → Type κ) (xs : List A) → ((a : A) → P a → Q a) → All P xs → All Q xs
All-mono P Q [] f h = tt
All-mono P Q (x ∷ xs) f h = (f x h.0, All-mono P Q xs f h.1)

-- What a search in an entry comes to.
pub child_of-entry :
    {b : ℕ} {w : World} {d : Ptr} {e : Dentry} {n : Inode} {p : PrivateInode}
    {kids : List (Ptr × Bytes)} (x : Bytes)
    → IsEntry b w d e n p kids
    → child_of w (some d) x ≡ (if n.mode == inode_dir then pick w (ptrs kids) x else none)
child_of-entry {b} {w} {d} {e} {n} {p} {kids} x i = rw (i.dentry, i.inode, i.node, i.children) refl

pub node_of-entry :
    {b : ℕ} {w : World} {d : Ptr} {e : Dentry} {n : Inode} {p : PrivateInode}
    {kids : List (Ptr × Bytes)}
    → IsEntry b w d e n p kids
    → node_of w d ≡ some n.private_field
node_of-entry {b} {w} {d} {e} {n} {p} {kids} i = rw (i.dentry, i.inode) refl

module _ (b : ℕ) (w w' : World) (same : Agrees b w w') where
  pub pick-Agrees :
      (kids : List (Ptr × Bytes)) (x : Bytes)
      → All (λ (c, _). c < b) kids
      → pick w' (ptrs kids) x ≡ pick w (ptrs kids) x
  unfolding pick
  pick-Agrees [] x h = refl
  pick-Agrees ((c, n) ∷ kids) x (l, h) =
      ap₂ (λ o r. if has_name o x then some c else r) (same.dentry c l) (pick-Agrees kids x h)

  IsChild-Agrees :
      (kids : List (Ptr × Bytes))
      → All (λ (c, _). c < b) kids
      → All (IsChild w) kids
      → All (IsChild w') kids
  IsChild-Agrees [] l h = tt
  IsChild-Agrees ((c, n) ∷ kids) (k, l) ((ne, d, at, named, chars), h) =
      ((ne, d, same.dentry c k ∙ at, named, chars), IsChild-Agrees kids l h)

  pub IsEntry-Agrees :
      {d : Ptr} {e : Dentry} {n : Inode} {p : PrivateInode} {kids : List (Ptr × Bytes)}
      → IsEntry b w d e n p kids
      → IsEntry b w' d e n p kids
  IsEntry-Agrees {d} {e} {n} {p} {kids} i = record {
    dentry_ne = i.dentry_ne;
    dentry = same.dentry d i.small.0 ∙ i.dentry;
    inode_ne = i.inode_ne;
    inode = same.inode e.inode i.small.1 ∙ i.inode;
    ops = i.ops;
    node_ne = i.node_ne;
    node = same.priv n.private_field i.small.2 ∙ i.node;
    children = i.children;
    named = IsChild-Agrees kids i.below i.named;
    below = i.below;
    small = i.small;
  }

  child_of-Agrees :
      (d : Ptr) (x : Bytes) → Entry b w d → child_of w' (some d) x ≡ child_of w (some d) x
  child_of-Agrees d x (entry e n p kids i) =
      child_of-entry x (IsEntry-Agrees i)
      ∙ ap (λ o. if n.mode == inode_dir then o else none) (pick-Agrees kids x i.below)
      ∙ sym (child_of-entry x i)

  inode_of-Agrees : (d : Ptr) → Entry b w d → inode_of w' d ≡ inode_of w d
  inode_of-Agrees d (entry e n p kids i) =
      rw
        (
          i.dentry,
          i.inode,
          same.dentry d i.small.0 ∙ i.dentry,
          same.inode e.inode i.small.1 ∙ i.inode,
        )
        refl

  Entry-Agrees : (d : Ptr) → Entry b w d → Entry b w' d
  Entry-Agrees d (entry e n p kids i) = entry e n p kids (IsEntry-Agrees i)

  node_of-Agrees : (d : Ptr) → Entry b w d → node_of w' d ≡ node_of w d
  node_of-Agrees d (entry e n p kids i) = node_of-entry (IsEntry-Agrees i) ∙ sym (node_of-entry i)

  module _ (fs : IsFs b w) where
    pub locate-Agrees : (s : List Bytes) → locate w' s ≡ locate w s
    unfolding locate
    locate-Agrees [] = refl
    locate-Agrees (x ∷ s) =
        ap (λ o. child_of w' o x) (locate-Agrees s) ∙ (elim (Option-cases (locate w s)) [
          | inl nothing ↦ rw nothing refl
          | inr (d, at) ↦ rw at (child_of-Agrees d x (fs.entries s d at))
        ])

    pub view-Agrees : (s : List Bytes) → view w' s ≡ view w s
    unfolding view
    view-Agrees s = ap (kind_at w') (locate-Agrees s) ∙ (elim (Option-cases (locate w s)) [
      | inl nothing ↦ rw nothing refl
      | inr (d, at) ↦ rw at (ap kind_of (inode_of-Agrees d (fs.entries s d at)))
    ])

    pub IsFs-Agrees : IsFs b w'
    IsFs-Agrees = record {
      entries = λ s d at. Entry-Agrees d (fs.entries s d (sym (locate-Agrees s) ∙ at));
      apart = λ s t d e p q same_node.
          let old_p = sym (locate-Agrees s) ∙ p in
          let old_q = sym (locate-Agrees t) ∙ q in
          fs.apart s t d e old_p old_q (
            sym (node_of-Agrees d (fs.entries s d old_p))
            ∙ same_node
            ∙ node_of-Agrees e (fs.entries t e old_q));
    }

-- A higher bound.
pub IsFs-more : (b c : ℕ) (w : World) → b ≤ c → IsFs b w → IsFs c w
IsFs-more b c w more fs = record { entries = λ s d at. raise (fs.entries s d at); apart = fs.apart }
  where
    raise : {d : Ptr} → Entry b w d → Entry c w d
    raise (entry e n p kids i) = entry e n p kids (record {
      dentry_ne = i.dentry_ne;
      dentry = i.dentry;
      inode_ne = i.inode_ne;
      inode = i.inode;
      ops = i.ops;
      node_ne = i.node_ne;
      node = i.node;
      children = i.children;
      named = i.named;
      below = All-mono (λ (k, _). k < b) (λ (k, _). k < c) kids (λ (k, _) q. omega arith) i.below;
      small = (omega (arith, i.small.0), omega (arith, i.small.1), omega (arith, i.small.2));
    })
