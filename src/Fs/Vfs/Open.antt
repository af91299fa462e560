-- ===== src/Fs/Vfs/Open.antt =====
-- `vfs_open` of kernel/vfs/vfs.c without VFS_O_CREAT over a mounted RAM file system.
pub mod Made
pub mod Outcome
use project_luciano.Base.{
  ℕ, suc, ◌+◌, ◌-◌, ◌<◌, bit_and, ◌≡◌, refl, sym, ap, ap₂, ◌∙◌, subst, inl, inr, Option, none, some,
  List, [], ◌∷◌, arith, ◌==◌, ==_iff, ==_refl, ==_ne, Bool-cases, Option-cases,
}
use project_luciano.Libc.{Bytes}
use project_luciano.Libc.Compare.{NoNul}
use project_luciano.Fs.Path.{Rows, PathBuf, parse_path, component}
use project_luciano.Fs.Path.Outcome.{components, component-NoNul}
use project_luciano.Fs.World.{
  Ptr, null, Flag, vfs_ok, vfs_enoent, vfs_enametoolong, o_creat, o_trunc, Inode, Dentry,
  PrivateInode, World, Run, done, put_inode, load_inode, load_dentry, store_inode, kmalloc,
}
use project_luciano.Fs.Ramfs.{ramfs_ops, ramfs_open}
use project_luciano.Fs.Vfs.{
  Ops, vfs_root, FileDescriptor, create_file, open_found, open_at, table, open_parsed,
  new_descriptor, vfs_walk_parent, vfs_open,
}
use project_luciano.Fs.Vfs.Tree.{ramfs_table, child_of, locate, view, IsEntry, Entry, entry, IsFs}
use project_luciano.Fs.Vfs.Tree.Frame.{Agrees, locate-Agrees, view-Agrees, IsFs-Agrees, IsFs-more}
use project_luciano.Fs.Vfs.Tree.Walk.{walk_lem, lookup_in-entry}
use project_luciano.Fs.Vfs.Create.{IsPlentiful, path_of, Nat-cases, some_address}

-- A descriptor of what stands at a path, at the start of it.
abbrev pub IsOpen : World → List Bytes → ℕ → FileDescriptor → Type 0
IsOpen w s flags fd =
    (locate w s ≡ some fd.dentry)
    × ((e : Dentry) × (w.dentry fd.dentry ≡ some e) × (fd.inode ≡ e.inode))
    × (fd.pos ≡ 0)
    × (fd.flags ≡ flags)

-- Memory that has grown: a tree with the same map.
abbrev pub Keeps : World → World → Type 0
Keeps w w' = IsFs w'.next w' × (w'.answer ≡ w.answer) × ((s : List Bytes) → view w' s ≡ view w s)

-- What a run of an open gives, where `o` is what the path leads to.
abbrev pub Opens : World → List Bytes → ℕ → Option Ptr → Run (Flag × Option FileDescriptor) → Type 0
Opens w s flags none run = run ≡ done (vfs_enoent, none) w
Opens w s flags (some d) run =
    (w' : World) × (fd : FileDescriptor) × (run ≡ done (vfs_ok, some fd) w')
    × IsOpen w' s flags fd
    × Keeps w w'

abbrev pub OpensPath : World → ℕ → Option (List Bytes) → Run (Flag × Option FileDescriptor) → Type 0
OpensPath w flags none run = run ≡ done (vfs_enametoolong, none) w
OpensPath w flags (some s) run = Opens w s flags (locate w s) run

-- The descriptor that `vfs_open` ends with.
pub new_descriptor_lem :
    (u w : World) (s : List Bytes) (flags : ℕ) (d : Ptr) (e : Dentry)
    → IsFs w.next w
    → IsPlentiful w
    → Agrees w.next w u
    → u.next ≡ w.next
    → u.answer ≡ w.answer
    → locate w s ≡ some d
    → w.dentry d ≡ some e
    → d < w.next
    → Opens w s flags (some d) (new_descriptor d e.inode flags u)
unfolding new_descriptor kmalloc
new_descriptor_lem u w s flags d e fs plenty same next answer at dentry small =
    let (x, memory) = plenty w.next 32 in
    let v : World = record u { next = w.next + 1 } in
    let grown : Agrees w.next w v = record {
      dentry = same.dentry;
      inode = same.inode;
      priv = same.priv;
    } in
    let got : u.answer u.next 32 ≡ some x = ap₂ (λ f k. f k 32) answer next ∙ memory in
    let positive : 0 < w.next = some_address w fs in
    (
      v,
      record { inode = e.inode; dentry = d; pos = 0; flags = flags },
      rw (got, next, ==_ne w.next 0 (omega (arith, positive))) refl,
      (
        locate-Agrees w.next w v grown fs s ∙ at,
        (e, same.dentry d small ∙ dentry, refl),
        refl,
        refl,
      ),
      (
        IsFs-more w.next (w.next + 1) v (omega arith) (IsFs-Agrees w.next w v grown fs),
        answer,
        view-Agrees w.next w v grown fs,
      ),
    )
