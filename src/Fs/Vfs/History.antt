-- ===== src/Fs/Vfs/History.antt =====
-- Calls of kernel/vfs/vfs.c one after the other on a mounted RAM file system.
use project_luciano.Base.{
  ℕ, bit_and, ◌≡◌, refl, sym, ap, ◌∙◌, subst, ◌≢◌, inl, inr, Bool, false, Option, none, some, List,
  [], ◌∷◌, map, arith, ◌==◌, Bool-cases, Option-cases,
}
use project_luciano.Libc.{Bytes}
use project_luciano.Fs.Path.{Rows, parse_path}
use project_luciano.Fs.World.{Ptr, Flag, vfs_ok, o_creat, o_trunc, World, Run, done}
use project_luciano.Fs.Ramfs.{ramfs_ops}
use project_luciano.Fs.Vfs.{Ops, FileDescriptor, vfs_mkdir, vfs_open}
use project_luciano.Fs.Vfs.Tree.Names.{path_eq_iff}
use project_luciano.Fs.Vfs.Tree.Search.{and_false}
use project_luciano.Fs.Vfs.Tree.{
  ramfs_table, Kind, directory, regular, path_eq, locate, view, kind_at, IsFs,
}
use project_luciano.Fs.Vfs.Create.{IsPlentiful, path_of, is_full}
use project_luciano.Fs.Vfs.Mkdir.{mkdir_flag, Implements, spec_flag, spec_view}
use project_luciano.Fs.Vfs.Mkdir.Outcome.{vfs_mkdir_lem}
use project_luciano.Fs.Vfs.Open.{IsOpen, Opens, OpensPath}
use project_luciano.Fs.Vfs.Open.Outcome.{vfs_open_lem}
use project_luciano.Fs.Vfs.CreateFile.{created_view, Creates}
use project_luciano.Fs.Vfs.CreateFile.Outcome.{open_create}

-- Which calls a history is made of: any `vfs_mkdir`; `vfs_open` with neither VFS_O_CREAT nor
-- VFS_O_TRUNC; and `vfs_open` with VFS_O_CREAT where nothing stands at the path and no regular file
-- above it.
pub data History (drivers : Ptr → Ops) (junk : Rows) (w : World) : World → Type 0 where
  fresh : History drivers junk w w
  after_mkdir :
      (v u : World) (path : Bytes) (flag : Flag)
      → History drivers junk w v
      → vfs_mkdir drivers junk path v ≡ done flag u
      → History drivers junk w u
  after_open :
      (v u : World) (path : Bytes) (flags : ℕ) (r : Flag × Option FileDescriptor)
      → History drivers junk w v
      → bit_and flags o_creat ≡ 0
      → bit_and flags o_trunc ≡ 0
      → vfs_open drivers junk path flags v ≡ done r u
      → History drivers junk w u
  after_create :
      (v u : World) (path : Bytes) (flags : ℕ) (r : Flag × Option FileDescriptor) (name : Bytes)
      (st : List Bytes)
      → History drivers junk w v
      → bit_and flags o_creat ≢ 0
      → path_of (parse_path junk path) ≡ some (name ∷ st)
      → view v (name ∷ st) ≡ none
      → view v st ≢ some regular
      → vfs_open drivers junk path flags v ≡ done r u
      → History drivers junk w u

-- A tree that still has every path it had.
pub record Grows (w u : World) : Type 0 where
  pub tree : IsFs u.next u
  pub plenty : IsPlentiful u
  pub kept : (s : List Bytes) (k : Kind) → view w s ≡ some k → view u s ≡ some k

answer-IsPlentiful : (w u : World) → u.answer ≡ w.answer → IsPlentiful w → IsPlentiful u
answer-IsPlentiful w u same plenty k size =
    let (x, memory) = plenty k size in (x, ap (λ f. f k size) same ∙ memory)

done-eq : {A : Type 0} (a b : A) (u v : World) → done a u ≡ done b v → v ≡ u
done-eq a b u v e = ground (arith, e)

mkdir_flag-taken :
    (o : Option Kind) (k : Kind) (full : Bool) → (mkdir_flag o (some k) full == vfs_ok) ≡ false
mkdir_flag-taken none k full = refl
mkdir_flag-taken (some l) k full = refl

spec_flag-taken :
    (w : World) (path : List Bytes) (k : Kind)
    → view w path ≡ some k
    → (spec_flag w (some path) == vfs_ok) ≡ false
spec_flag-taken w [] k h = refl
spec_flag-taken w (name ∷ st) k h =
    ap (λ o. mkdir_flag (view w st) o (is_full w st) == vfs_ok) h
    ∙ mkdir_flag-taken (view w st) k (is_full w st)

spec_view-kept :
    (w : World) (o : Option (List Bytes)) (s : List Bytes) (k : Kind)
    → view w s ≡ some k
    → spec_view w o s ≡ some k
spec_view-kept w none s k h = h
spec_view-kept w (some path) s k h = elim (Bool-cases (path_eq s path)) [
  | inl here ↦ rw (spec_flag-taken w path k (ap (view w) (sym ((path_eq_iff s path).0 here)) ∙ h)) h
  | inr other ↦ rw (other, and_false (spec_flag w (some path) == vfs_ok)) h
]

created_view-kept :
    (w : World) (flag : Flag) (path s : List Bytes) (k : Kind)
    → view w path ≡ none
    → view w s ≡ some k
    → created_view w flag path s ≡ some k
created_view-kept w flag path s k free h = elim (Bool-cases (path_eq s path)) [
  | inl here ↦ absurd (ground (arith, free, ap (view w) ((path_eq_iff s path).0 here), h))
  | inr other ↦ rw (other, and_false (flag == vfs_ok)) h
]

Implements-Grows :
    (w v : World) (o : Option (List Bytes)) (run : Run Flag)
    → Grows w v
    → Implements v o run
    → (flag : Flag) (u : World) → run ≡ done flag u
    → Grows w u
Implements-Grows w v o run g (v', e, answer, tree, map) flag u q =
    subst (Grows w) (done-eq _ _ u v' (sym q ∙ e)) (record {
      tree = tree;
      plenty = answer-IsPlentiful v v' answer g.plenty;
      kept = λ s k h. map s ∙ spec_view-kept v o s k (g.kept s k h);
    })

Creates-Grows :
    (w v : World) (path : List Bytes) (flags : ℕ) (flag : Flag)
    (run : Run (Flag × Option FileDescriptor))
    → Grows w v
    → view v path ≡ none
    → Creates v path flags flag run
    → (r : Flag × Option FileDescriptor) (u : World) → run ≡ done r u
    → Grows w u
Creates-Grows w v path flags flag run g free (v', out, e, answer, tree, map, _, _) r u q =
    subst (Grows w) (done-eq _ _ u v' (sym q ∙ e)) (record {
      tree = tree;
      plenty = answer-IsPlentiful v v' answer g.plenty;
      kept = λ s k h. map s ∙ created_view-kept v flag path s k free (g.kept s k h);
    })

Opens-Grows :
    (w v : World) (path : List Bytes) (flags : ℕ) (o : Option Ptr)
    (run : Run (Flag × Option FileDescriptor))
    → Grows w v
    → Opens v path flags o run
    → (r : Flag × Option FileDescriptor) (u : World) → run ≡ done r u
    → Grows w u
Opens-Grows w v path flags none run g e r u q = subst (Grows w) (done-eq _ _ u v (sym q ∙ e)) g
Opens-Grows w v path flags (some d) run g (v', fd, e, is_open, (tree, answer, map)) r u q =
    subst (Grows w) (done-eq _ _ u v' (sym q ∙ e)) (record {
      tree = tree;
      plenty = answer-IsPlentiful v v' answer g.plenty;
      kept = λ s k h. map s ∙ g.kept s k h;
    })

OpensPath-Grows :
    (w v : World) (path : Option (List Bytes)) (flags : ℕ)
    (run : Run (Flag × Option FileDescriptor))
    → Grows w v
    → OpensPath v flags path run
    → (r : Flag × Option FileDescriptor) (u : World) → run ≡ done r u
    → Grows w u
OpensPath-Grows w v none flags run g e r u q = subst (Grows w) (done-eq _ _ u v (sym q ∙ e)) g
OpensPath-Grows w v (some path) flags run g e r u q =
    Opens-Grows w v path flags (locate v path) run g e r u q

module _ (drivers : Ptr → Ops) (junk : Rows) (mounted : drivers ramfs_ops ≡ ramfs_table) (w : World)
    (fs : IsFs w.next w) (plenty : IsPlentiful w) where
  -- After any history of calls that starts on a mounted RAM file system, where kmalloc always has
  -- memory, there is a RAM file system again, kmalloc still has memory, and every path that was there
  -- at the start is there and is what it was. A history is made of `vfs_mkdir` of any string, of
  -- `vfs_open` of any string with neither VFS_O_CREAT nor VFS_O_TRUNC, and of `vfs_open` with
  -- VFS_O_CREAT of a path where nothing stands and whose parent is not a regular file.
  pub History-Grows : (u : World) → History drivers junk w u → Grows w u
  History-Grows u fresh = record { tree = fs; plenty = plenty; kept = λ s k h. h }
  History-Grows u (after_mkdir v _ path flag before run) =
      let g = History-Grows v before in
      Implements-Grows w v (path_of (parse_path junk path)) _ g
        (vfs_mkdir_lem drivers junk mounted v g.tree g.plenty path) flag u run
  History-Grows u (after_open v _ path flags r before a b run) =
      let g = History-Grows v before in
      OpensPath-Grows w v (path_of (parse_path junk path)) flags _ g
        (vfs_open_lem drivers junk mounted flags a b v g.tree g.plenty path) r u run
  History-Grows u (after_create v _ path flags r name st before a parsed free place run) =
      let g = History-Grows v before in
      Creates-Grows w v (name ∷ st) flags _ _ g free
        (open_create drivers junk mounted flags a v g.tree g.plenty path name st parsed free place)
        r u run

module _ (drivers : Ptr → Ops) (junk : Rows) (mounted : drivers ramfs_ops ≡ ramfs_table)
    (path : Bytes) (s : List Bytes) (parsed : path_of (parse_path junk path) ≡ some s) (flags : ℕ)
    (no_creat : bit_and flags o_creat ≡ 0) (no_trunc : bit_and flags o_trunc ≡ 0) where
  -- A path of the tree opens.
  vfs_open-view :
      (u : World) (k : Kind)
      → IsFs u.next u
      → IsPlentiful u
      → view u s ≡ some k
      → (v : World) × (fd : FileDescriptor) × (vfs_open drivers junk path flags u
          ≡ done (vfs_ok, some fd) v)
        × IsOpen v s flags fd
  unfolding view
  vfs_open-view u k fs plenty there =
      let opened : OpensPath u flags (some s) (vfs_open drivers junk path flags u) =
        subst (λ o. OpensPath u flags o (vfs_open drivers junk path flags u)) parsed
          (vfs_open_lem drivers junk mounted flags no_creat no_trunc u fs plenty path) in
      elim (Option-cases (locate u s)) [
        | inl gone ↦ absurd (ground (arith, there, ap (kind_at u) gone))
        | inr (d, at) ↦
            let (v, fd, run, is_open, _) =
              subst (λ o. Opens u s flags o (vfs_open drivers junk path flags u)) at opened in
            (v, fd, run, is_open)
      ]

  vfs_mkdir-there :
      (w v : World)
      → IsFs w.next w
      → IsPlentiful w
      → vfs_mkdir drivers junk path w ≡ done vfs_ok v
      → IsFs v.next v × IsPlentiful v × (view v s ≡ some directory)
  vfs_mkdir-there w v fs plenty run =
      let (v', e, answer, tree, after) =
        subst (λ o. Implements w o (vfs_mkdir drivers junk path w)) parsed
          (vfs_mkdir_lem drivers junk mounted w fs plenty path) in
      let ok : spec_flag w (some s) ≡ vfs_ok = ground (arith, e, run) in
      let there : view v' s ≡ some directory = after s ∙ rw (ok, (path_eq_iff s s).1 refl) refl in
      subst (λ u. IsFs u.next u × IsPlentiful u × (view u s ≡ some directory))
        (done-eq _ _ v v' (sym run ∙ e)) (tree, answer-IsPlentiful w v' answer plenty, there)

  -- A directory that `vfs_mkdir` made with VFS_OK on a mounted RAM file system, where kmalloc always has
  -- memory, still opens after any later calls of `vfs_mkdir` of any string, of `vfs_open` of any string
  -- with neither VFS_O_CREAT nor VFS_O_TRUNC, and of `vfs_open` with VFS_O_CREAT of a path where nothing
  -- stands and whose parent is not a regular file: `vfs_open` of the directory's path with neither
  -- VFS_O_CREAT nor VFS_O_TRUNC answers VFS_OK with a descriptor of the dentry and the inode that the
  -- path leads to, at position 0.
  pub vfs_open-vfs_mkdir :
      (w v u : World)
      → IsFs w.next w
      → IsPlentiful w
      → vfs_mkdir drivers junk path w ≡ done vfs_ok v
      → History drivers junk v u
      → (x : World) × (fd : FileDescriptor) × (vfs_open drivers junk path flags u
          ≡ done (vfs_ok, some fd) x)
        × IsOpen x s flags fd
  vfs_open-vfs_mkdir w v u fs plenty run later =
      let (tree, memory, there) = vfs_mkdir-there w v fs plenty run in
      let g = History-Grows drivers junk mounted v tree memory u later in
      vfs_open-view u directory g.tree g.plenty (g.kept s directory there)
