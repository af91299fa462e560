-- ===== src/Fs/Vfs/Mkdir/Outcome.antt =====
-- `vfs_mkdir` on a whole path.
use project_luciano.Base.{
  ℕ, suc, ◌-◌, ◌≤◌, ◌≡◌, refl, sym, ap, ◌∙◌, subst, inl, inr, Option, none, some, List, [], ◌∷◌,
  arith, ==_ne, Option-cases, length, All,
}
use project_luciano.Libc.{Bytes}
use project_luciano.Libc.Compare.{NoNul}
use project_luciano.Fs.Path.{Rows, PathBuf, parse_path, component}
use project_luciano.Fs.Path.Resolve.{Segment, render, resolve, IsName}
use project_luciano.Fs.Path.Outcome.{parse_path-resolve, components, component-NoNul}
use project_luciano.Fs.World.{Ptr, vfs_enoent, vfs_eexist, vfs_enametoolong, World, done}
use project_luciano.Fs.Ramfs.{ramfs_ops}
use project_luciano.Fs.Vfs.{Ops, vfs_root, mkdir_at, mkdir_parsed, vfs_walk_parent, vfs_mkdir}
use project_luciano.Fs.Vfs.Tree.{ramfs_table, locate, Entry, entry, IsFs}
use project_luciano.Fs.Vfs.Tree.Walk.{walk_lem}
use project_luciano.Fs.Vfs.Create.{path_of, Nat-cases, some_address, IsPlentiful, view-nothing}
use project_luciano.Fs.Vfs.Mkdir.{spec_flag, Implements, unchanged}
use project_luciano.Fs.Vfs.Mkdir.Made.{mkdir_at-Implements}

module _ (drivers : Ptr → Ops) (junk : Rows) (mounted : drivers ramfs_ops ≡ ramfs_table) where
  module _ (w : World) (fs : IsFs w.next w) (plenty : IsPlentiful w) where
    mkdir_at-entry :
        (st : List Bytes) (dd : Ptr) (name : Bytes)
        → locate w st ≡ some dd
        → NoNul name
        → Entry w.next w dd
        → Implements w (some (name ∷ st)) (mkdir_at drivers junk name dd w)
    mkdir_at-entry st dd name at chars (entry e n p kids i) =
        mkdir_at-Implements drivers junk mounted w fs plenty (some_address w fs) st dd at e n p kids
          i name chars

    mkdir_parsed-below :
        (p : PathBuf) (d : ℕ)
        → p.depth ≡ suc d
        → Implements w
            (some (component p d ∷ components p d))
            (mkdir_parsed drivers junk (some p) w)
    unfolding mkdir_parsed vfs_walk_parent locate
    mkdir_parsed-below p d deep =
        let walk = walk_lem drivers junk mounted w.next w fs p d 0 d vfs_root (omega arith) refl in
        let last : p.depth - 1 ≡ d = omega (arith, deep) in
        let below = ==_ne p.depth 0 (omega (arith, deep)) in
        elim (Option-cases (locate w (components p d))) [
          | inl gone ↦
              let run : mkdir_parsed drivers junk (some p) w ≡ done vfs_enoent w =
                rw (below, last, walk, gone) refl in
              let flag : spec_flag w (some (component p d ∷ components p d)) ≡ vfs_enoent =
                rw (view-nothing w (components p d) gone) refl in
              unchanged w (some (component p d ∷ components p d)) _ vfs_enoent fs run flag refl
          | inr (dd, at) ↦
              let run : mkdir_parsed drivers junk (some p) w
                  ≡ mkdir_at drivers junk (component p d) dd w =
                rw (below, last, walk, at) refl in
              subst (Implements w (some (component p d ∷ components p d))) (sym run) (
                mkdir_at-entry (components p d) dd (component p d) at (component-NoNul p d)
                  (fs.entries (components p d) dd at))
        ]

    mkdir_parsed-Implements :
        (o : Option PathBuf) → Implements w (path_of o) (mkdir_parsed drivers junk o w)
    unfolding mkdir_parsed
    mkdir_parsed-Implements none = unchanged w none _ vfs_enametoolong fs refl refl refl
    mkdir_parsed-Implements (some p) = elim (Nat-cases p.depth) [
      | inl top ↦
          let run : mkdir_parsed drivers junk (some p) w ≡ done vfs_eexist w = rw top refl in
          let flag : spec_flag w (some (components p p.depth)) ≡ vfs_eexist = rw top refl in
          unchanged w (some (components p p.depth)) _ vfs_eexist fs run flag refl
      | inr (d, deep) ↦
          subst (λ k. Implements w (some (components p k)) (mkdir_parsed drivers junk (some p) w))
            (sym deep) (mkdir_parsed-below p d deep)
    ]

    -- On a mounted RAM file system, where kmalloc always has memory, `vfs_mkdir` of any string returns,
    -- with the flag that the map from paths asks for at the names that the parser leaves of the string:
    -- VFS_ENAMETOOLONG where the parser refuses it,
    -- VFS_EEXIST for the root and for a path that is there, VFS_ENOENT where nothing stands at the
    -- parent, VFS_EINVAL where a regular file does, VFS_ENOSPC where the parent has 1024 children, and
    -- VFS_OK otherwise. What it leaves is such a file system again, whose map has the new directory at
    -- the path after VFS_OK and is the old one after any other flag.
    pub vfs_mkdir_lem :
        (path : Bytes)
        → Implements w (path_of (parse_path junk path)) (vfs_mkdir drivers junk path w)
    unfolding vfs_mkdir
    vfs_mkdir_lem path = mkdir_parsed-Implements (parse_path junk path)

    -- The same for a path that is written from components: the directory is made where following the
    -- components as a stack leads.
    pub vfs_mkdir-render :
        (gs : List Segment)
        → All IsName gs
        → length (render gs) ≤ 256
        → Implements w (some (resolve [] gs)) (vfs_mkdir drivers junk (render gs) w)
    vfs_mkdir-render gs names fits =
        let (p, parsed, depth, same) = parse_path-resolve junk gs names fits in
        subst (λ o. Implements w o (vfs_mkdir drivers junk (render gs) w))
          (ap path_of parsed ∙ ap some same) (vfs_mkdir_lem (render gs))
