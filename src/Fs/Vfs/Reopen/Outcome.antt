-- ===== src/Fs/Vfs/Reopen/Outcome.antt =====
-- `vfs_open` with VFS_O_CREAT of a path that exists, on a whole path.
use project_luciano.Base.{
  ℕ, bit_and, ◌≡◌, sym, ap, ◌∙◌, subst, ◌≢◌, inl, inr, none, some, List, ◌∷◌, arith, ◌==◌,
  if◌then◌else◌, ==_iff, Bool-cases, Option-cases,
}
use project_luciano.Libc.{Bytes}
use project_luciano.Libc.Compare.{NoNul}
use project_luciano.Fs.Path.{Rows, parse_path}
use project_luciano.Fs.World.{Ptr, vfs_eexist, vfs_enospc, o_creat, o_excl, inode_dir, World}
use project_luciano.Fs.Ramfs.{ramfs_ops}
use project_luciano.Fs.Ramfs.Lookup.{ptrs}
use project_luciano.Fs.Vfs.{Ops, open_at, vfs_open}
use project_luciano.Fs.Vfs.Tree.{
  Kind, view, ramfs_table, pick, child_of, locate, Entry, entry, IsFs,
}
use project_luciano.Fs.Vfs.Tree.Frame.{child_of-entry}
use project_luciano.Fs.Vfs.Create.{IsPlentiful, view-nothing, is_full, is_full-entry, path_of}
use project_luciano.Fs.Vfs.Parsed.{vfs_open-at, path_of-NoNul}
use project_luciano.Fs.Vfs.Reopen.{Loses, pick-named, open_at-Loses}

module _ (drivers : Ptr → Ops) (junk : Rows) (mounted : drivers ramfs_ops ≡ ramfs_table) (flags : ℕ)
    (creat : bit_and flags o_creat ≢ 0) (no_excl : bit_and flags o_excl ≡ 0) (w : World)
    (fs : IsFs w.next w) (plenty : IsPlentiful w) where
  open_at-entry :
      (st : List Bytes) (dd : Ptr) (name : Bytes) (c : Ptr)
      → locate w st ≡ some dd
      → NoNul name
      → locate w (name ∷ st) ≡ some c
      → Entry w.next w dd
      → Entry w.next w c
      → Loses
          (if is_full w st then vfs_enospc else vfs_eexist)
          c
          (open_at drivers junk name flags dd w)
  unfolding locate
  open_at-entry st dd name c at chars there (entry e n p kids i) (entry f m q subs j) =
      let found : (if n.mode == inode_dir then pick w (ptrs kids) name else none) ≡ some c =
        sym (child_of-entry name i) ∙ ap (λ o. child_of w o name) (sym at) ∙ there in
      elim (Bool-cases (n.mode == inode_dir)) [
        | inl dir ↦
            let called = pick-named w (ptrs kids) name c f (ground (arith, found, dir)) j.dentry in
            subst
              (λ b.
                Loses (if b then vfs_enospc else vfs_eexist) c
                  (open_at drivers junk name flags dd w))
              (sym (is_full-entry st at i))
              (open_at-Loses w fs plenty flags creat no_excl st dd at e n p kids i
                ((==_iff n.mode inode_dir).0 dir) name c there f m q subs j called chars drivers
                junk mounted)
        | inr file ↦ absurd (ground (arith, found, file))
      ]

  vfs_open-Loses :
      (path name : Bytes) (st : List Bytes) (c : Ptr)
      → path_of (parse_path junk path) ≡ some (name ∷ st)
      → locate w (name ∷ st) ≡ some c
      → Loses
          (if is_full w st then vfs_enospc else vfs_eexist)
          c
          (vfs_open drivers junk path flags w)
  unfolding locate
  vfs_open-Loses path name st c parsed there = elim (Option-cases (locate w st)) [
    | inl gone ↦ absurd (ground (arith, there, ap (λ o. child_of w o name) gone))
    | inr (dd, at) ↦
        subst (Loses (if is_full w st then vfs_enospc else vfs_eexist) c)
          (sym (vfs_open-at drivers junk mounted flags w fs path name st parsed dd at))
          (open_at-entry st dd name c at (path_of-NoNul (parse_path junk path) name st parsed) there
            (fs.entries st dd at) (fs.entries (name ∷ st) c there))
  ]

  -- `vfs_open` with VFS_O_CREAT and without VFS_O_EXCL of a path other than the root that exists never
  -- opens it, on a mounted RAM file system where kmalloc always has memory: it answers VFS_ENOSPC where
  -- the parent has 1024 children and VFS_EEXIST otherwise, gives no descriptor, and leaves the inode at
  -- the path without its private node.
  pub vfs_open_again :
      (path name : Bytes) (st : List Bytes) (k : Kind)
      → path_of (parse_path junk path) ≡ some (name ∷ st)
      → view w (name ∷ st) ≡ some k
      → (c : Ptr) × (locate w (name ∷ st) ≡ some c)
        × Loses
            (if is_full w st then vfs_enospc else vfs_eexist)
            c
            (vfs_open drivers junk path flags w)
  vfs_open_again path name st k parsed here = elim (Option-cases (locate w (name ∷ st))) [
    | inl gone ↦ absurd (ground (arith, here, view-nothing w (name ∷ st) gone))
    | inr (c, there) ↦ (c, there, vfs_open-Loses path name st c parsed there)
  ]
