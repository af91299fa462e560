-- ===== src/Fs/Vfs/CreateFile/Outcome.antt =====
-- `vfs_open` with VFS_O_CREAT on a whole path.
use project_luciano.Base.{
  ℕ, bit_and, ◌≡◌, refl, sym, ◌∙◌, subst, ◌≢◌, inl, inr, none, some, List, ◌∷◌, arith, leb, ◌==◌,
  if◌then◌else◌, ==_iff, Bool-cases, Option-cases, length,
}
use project_luciano.Libc.{Bytes}
use project_luciano.Libc.Compare.{NoNul}
use project_luciano.Fs.Path.{Rows, parse_path}
use project_luciano.Fs.World.{Ptr, vfs_ok, vfs_enospc, o_creat, inode_dir, World}
use project_luciano.Fs.Ramfs.{ramfs_ops, max_child}
use project_luciano.Fs.Vfs.{Ops, open_at, vfs_open}
use project_luciano.Fs.Vfs.Tree.{ramfs_table, regular, locate, view, Entry, entry, IsFs}
use project_luciano.Fs.Vfs.Parsed.{vfs_open-gone, vfs_open-at, path_of-NoNul}
use project_luciano.Fs.Vfs.Create.{
  IsPlentiful, is_full, is_full-entry, view-entry, view-nothing, path_of,
}
use project_luciano.Fs.Vfs.CreateFile.{create_flag, Creates}
use project_luciano.Fs.Vfs.CreateFile.Made.{open_at-Creates}

module _ (drivers : Ptr → Ops) (junk : Rows) (mounted : drivers ramfs_ops ≡ ramfs_table) (flags : ℕ)
    (creat : bit_and flags o_creat ≢ 0) where
  module _ (w : World) (fs : IsFs w.next w) (plenty : IsPlentiful w) where
    not_located : (s : List Bytes) → view w s ≡ none → locate w s ≡ none
    not_located s nothing = elim (Option-cases (locate w s)) [
      | inl gone ↦ gone
      | inr (d, at) ↦ elim (fs.entries s d at) [
        | entry e n p kids i ↦ absurd (ground (arith, nothing, view-entry s at i))
      ]
    ]

    open_at-entry :
        (st : List Bytes) (dd : Ptr) (name : Bytes)
        → locate w st ≡ some dd
        → NoNul name
        → view w (name ∷ st) ≡ none
        → view w st ≢ some regular
        → Entry w.next w dd
        → Creates w
            (name ∷ st)
            flags
            (create_flag (view w st) (is_full w st))
            (open_at drivers junk name flags dd w)
    open_at-entry st dd name at chars free place (entry e n p kids i) =
        elim (Bool-cases (n.mode == inode_dir)) [
          | inl dir ↦
              let flag : create_flag (view w st) (is_full w st)
                  ≡ (if leb max_child (length kids) then vfs_enospc else vfs_ok) =
                rw (view-entry st at i, is_full-entry st at i) refl in
              subst (λ u. Creates w (name ∷ st) flags u (open_at drivers junk name flags dd w))
                (sym flag)
                (open_at-Creates drivers junk mounted flags creat w fs plenty st dd at e n p kids i
                  ((==_iff n.mode inode_dir).0 dir) name chars (not_located (name ∷ st) free))
          | inr file ↦ absurd (place (view-entry st at i ∙ rw file refl))
        ]

    -- `vfs_open` with VFS_O_CREAT of a path other than the root where nothing stands, and whose parent
    -- is not a regular file, on a mounted RAM file system where kmalloc always has memory: it answers
    -- VFS_ENOENT where nothing stands at the parent, VFS_ENOSPC where the parent has 1024 children, and
    -- VFS_OK otherwise. After VFS_OK the map has a regular file at the path and is else the old one, and
    -- the descriptor is of the dentry and the inode there, at position 0; after another flag the map is
    -- the old one and there is no descriptor. What it leaves is such a file system again.
    pub open_create :
        (path name : Bytes) (st : List Bytes)
        → path_of (parse_path junk path) ≡ some (name ∷ st)
        → view w (name ∷ st) ≡ none
        → view w st ≢ some regular
        → Creates w
            (name ∷ st)
            flags
            (create_flag (view w st) (is_full w st))
            (vfs_open drivers junk path flags w)
    open_create path name st parsed free place = elim (Option-cases (locate w st)) [
      | inl gone ↦
          subst
            (λ u.
              Creates w (name ∷ st) flags (create_flag u (is_full w st))
                (vfs_open drivers junk path flags w))
            (sym (view-nothing w st gone))
            (
              w,
              none,
              vfs_open-gone drivers junk mounted flags w fs path name st parsed gone,
              refl,
              fs,
              (λ t. refl),
              (λ q. absurd (ground (arith, q))),
              λ q. refl,
            )
      | inr (dd, at) ↦
          subst (Creates w (name ∷ st) flags (create_flag (view w st) (is_full w st)))
            (sym (vfs_open-at drivers junk mounted flags w fs path name st parsed dd at))
            (open_at-entry st dd name at (path_of-NoNul (parse_path junk path) name st parsed) free
              place (fs.entries st dd at))
    ]
