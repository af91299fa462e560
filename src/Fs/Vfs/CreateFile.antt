-- ===== src/Fs/Vfs/CreateFile.antt =====
-- `vfs_open` of kernel/vfs/vfs.c with VFS_O_CREAT where nothing stands at the path yet, over a mounted
-- RAM file system.
pub mod Made
pub mod Outcome
use project_luciano.Base.{
  ℕ, suc, ◌+◌, ◌-◌, ◌%◌, ◌^◌, ◌<◌, bit_and, ◌≡◌, refl, sym, ap, ◌∙◌, subst, ◌≢◌, inl, inr, Bool,
  true, false, ◌&&◌, Option, none, some, List, [], ◌∷◌, map, arith, leb, ◌==◌, if◌then◌else◌,
  ==_iff, ==_refl, ==_ne, Bool-cases, Option-cases, length,
}
use project_luciano.Libc.{Bytes}
use project_luciano.Libc.Compare.{NoNul}
use project_luciano.Fs.Path.{Rows, PathBuf, parse_path, component}
use project_luciano.Fs.Path.Outcome.{components, component-NoNul}
use project_luciano.Fs.World.{
  Ptr, Flag, vfs_ok, vfs_enoent, vfs_enospc, o_creat, inode_dir, inode_reg, Inode, Dentry,
  PrivateInode, World, Run, done, load_inode, load_dentry, kmalloc,
}
use project_luciano.Fs.Ramfs.{ramfs_ops, max_child, hang, ramfs_open, next_file}
use project_luciano.Fs.Vfs.{
  Ops, vfs_root, FileDescriptor, create_file, open_at, table, open_parsed, new_descriptor,
  vfs_walk_parent, vfs_open,
}
use project_luciano.Fs.Vfs.Tree.{
  ramfs_table, Kind, regular, View, path_eq, child_of, locate, view, IsEntry, Entry, entry, IsFs,
}
use project_luciano.Fs.Vfs.Tree.Frame.{Agrees}
use project_luciano.Fs.Vfs.Tree.Walk.{walk_lem, lookup_in-entry}
use project_luciano.Fs.Vfs.Tree.Grow.{hang_lem, Hung}
use project_luciano.Fs.Vfs.Create.{
  IsPlentiful, blank, entered, new_entry_lem, Agrees-entered, is_full, is_full-entry, view-entry,
  view-nothing, path_of, Nat-cases, some_address,
}
use project_luciano.Fs.Vfs.Open.{IsOpen, Opens, new_descriptor_lem}

-- The flag that a new file asks for, and the map afterwards.
abbrev pub create_flag : Option Kind → Bool → Flag
create_flag none full = vfs_enoent
create_flag (some k) full = if full then vfs_enospc else vfs_ok

abbrev pub created_view : World → Flag → List Bytes → View
created_view w flag path s = if (flag == vfs_ok) && path_eq s path then some regular else view w s

-- A run that gives this flag, on a tree again; with VFS_OK it gives a descriptor of the new file.
abbrev pub Creates : World → List Bytes → ℕ → Flag → Run (Flag × Option FileDescriptor) → Type 0
Creates w path flags flag run =
    (w' : World) × (out : Option FileDescriptor) × (run ≡ done (flag, out) w')
    × (w'.answer ≡ w.answer)
    × IsFs w'.next w'
    × ((s : List Bytes) → view w' s ≡ created_view w flag path s)
    × ((flag ≡ vfs_ok) → (fd : FileDescriptor) × (out ≡ some fd) × IsOpen w' path flags fd)
    × ((flag ≢ vfs_ok) → out ≡ none)
