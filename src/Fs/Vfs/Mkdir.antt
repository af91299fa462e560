-- ===== src/Fs/Vfs/Mkdir.antt =====
-- `vfs_mkdir` of kernel/vfs/vfs.c over a mounted RAM file system, against the map from paths.
pub mod Made
pub mod Outcome
use project_luciano.Base.{
  ℕ, suc, ◌+◌, ◌-◌, ◌≤◌, ◌<◌, ◌≡◌, refl, sym, ap, ◌∙◌, subst, inl, inr, Bool, false, not, ◌&&◌,
  ◌||◌, Option, none, some, List, [], ◌∷◌, map, arith, leb, ◌==◌, if◌then◌else◌, ==_iff, ==_refl,
  ==_ne, Bool-cases, Option-cases, length, All,
}
use project_luciano.Libc.{Bytes}
use project_luciano.Libc.Compare.{NoNul}
use project_luciano.Fs.Path.{Rows, PathBuf, parse_path, component}
use project_luciano.Fs.Path.Resolve.{Segment, render, resolve, IsName}
use project_luciano.Fs.Path.Outcome.{parse_path-resolve, components, component-NoNul}
use project_luciano.Fs.World.{
  Ptr, null, Flag, vfs_ok, vfs_enoent, vfs_eexist, vfs_einval, vfs_enospc, vfs_enametoolong,
  inode_dir, Inode, Dentry, PrivateInode, World, Run, done, load_inode, load_dentry, kmalloc,
}
use project_luciano.Fs.Ramfs.{lookup_answer, ramfs_ops, max_child, hang, ramfs_mkdir}
use project_luciano.Fs.Vfs.{
  Ops, vfs_root, lookup_in, make_dir, table, mkdir_at, mkdir_parsed, vfs_walk_parent, vfs_mkdir,
}
use project_luciano.Fs.Vfs.Tree.{
  ramfs_table, Kind, directory, regular, View, path_eq, child_of, locate, view, IsEntry, Entry,
  entry, IsFs,
}
use project_luciano.Fs.Vfs.Tree.Frame.{Agrees, view-Agrees, IsFs-Agrees, IsFs-more}
use project_luciano.Fs.Vfs.Tree.Walk.{walk_lem, lookup_in-entry}
use project_luciano.Fs.Vfs.Tree.Grow.{hang_lem}
use project_luciano.Fs.Vfs.Create.{
  path_of, Nat-cases, some_address, IsPlentiful, blank, entered, new_entry_lem, Agrees-entered,
  is_full, is_full-entry, view-entry, view-nothing,
}

-- The flag that a new directory asks for: what stands at its parent and at its own path, and whether
-- the parent has the most children it may have.
abbrev pub mkdir_flag : Option Kind → Option Kind → Bool → Flag
mkdir_flag none here full = vfs_enoent
mkdir_flag (some k) (some l) full = vfs_eexist
mkdir_flag (some regular) none full = vfs_einval
mkdir_flag (some directory) none full = if full then vfs_enospc else vfs_ok

abbrev pub spec_flag : World → Option (List Bytes) → Flag
spec_flag w none = vfs_enametoolong
spec_flag w (some []) = vfs_eexist
spec_flag w (some (name ∷ st)) = mkdir_flag (view w st) (view w (name ∷ st)) (is_full w st)

-- The map afterwards.
abbrev pub spec_view : World → Option (List Bytes) → View
spec_view w none s = view w s
spec_view w (some path) s =
    if (spec_flag w (some path) == vfs_ok) && path_eq s path then some directory else view w s

-- A run that gives what the specification of `path` does, on a tree again.
abbrev pub Implements : World → Option (List Bytes) → Run Flag → Type 0
Implements w path run =
    (w' : World) × (run ≡ done (spec_flag w path) w')
    × (w'.answer ≡ w.answer)
    × IsFs w'.next w'
    × ((s : List Bytes) → view w' s ≡ spec_view w path s)

-- A run that changes nothing.
pub unchanged :
    (w : World) (path : Option (List Bytes)) (run : Run Flag) (flag : Flag)
    → IsFs w.next w
    → run ≡ done flag w
    → spec_flag w path ≡ flag
    → (flag == vfs_ok) ≡ false
    → Implements w path run
unchanged w none run flag fs e q bad = (w, e ∙ ap (λ u. done u w) (sym q), refl, fs, λ s. refl)
unchanged w (some path) run flag fs e q bad = (
  w,
  e ∙ ap (λ u. done u w) (sym q),
  refl,
  fs,
  λ s.
      ap (λ u. if u && path_eq s path then some directory else view w s)
        (sym bad ∙ ap (λ u. u == vfs_ok) (sym q)),
)
