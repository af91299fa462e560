-- ===== src/Fs/Vfs/Mkdir/Made.antt =====
-- `vfs_mkdir` past the walk: the lookup in the parent, and the new directory.
use project_luciano.Base.{
  ◌+◌, ◌<◌, ◌≡◌, refl, sym, ap, ◌∙◌, subst, inl, inr, false, not, ◌&&◌, ◌||◌, none, some, List, [],
  ◌∷◌, map, arith, leb, ◌==◌, if◌then◌else◌, ==_iff, ==_refl, ==_ne, Bool-cases, Option-cases,
  length,
}
use project_luciano.Libc.{Bytes}
use project_luciano.Libc.Compare.{NoNul}
use project_luciano.Fs.Path.{Rows}
use project_luciano.Fs.World.{
  Ptr, null, Flag, vfs_ok, vfs_eexist, vfs_einval, inode_dir, Inode, Dentry, PrivateInode, World,
  done, load_inode, load_dentry, kmalloc,
}
use project_luciano.Fs.Ramfs.{lookup_answer, ramfs_ops, max_child, hang, ramfs_mkdir}
use project_luciano.Fs.Vfs.{Ops, lookup_in, make_dir, table, mkdir_at}
use project_luciano.Fs.Vfs.Tree.{
  ramfs_table, directory, regular, path_eq, child_of, locate, view, IsEntry, Entry, entry, IsFs,
}
use project_luciano.Fs.Vfs.Tree.Frame.{Agrees, view-Agrees, IsFs-Agrees, IsFs-more}
use project_luciano.Fs.Vfs.Tree.Walk.{lookup_in-entry}
use project_luciano.Fs.Vfs.Tree.Grow.{hang_lem}
use project_luciano.Fs.Vfs.Create.{
  IsPlentiful, blank, entered, new_entry_lem, Agrees-entered, is_full, is_full-entry, view-entry,
  view-nothing,
}
use project_luciano.Fs.Vfs.Mkdir.{mkdir_flag, spec_flag, Implements, unchanged}

module _ (drivers : Ptr → Ops) (junk : Rows) (mounted : drivers ramfs_ops ≡ ramfs_table) where
  module _ (w : World) (fs : IsFs w.next w) (plenty : IsPlentiful w) (some_address : 0 < w.next)
      (st : List Bytes) (dd : Ptr) (at : locate w st ≡ some dd) (e : Dentry) (n : Inode)
      (p : PrivateInode) (kids : List (Ptr × Bytes)) (i : IsEntry w.next w dd e n p kids)
      (name : Bytes) (chars : NoNul name) where
    contents : PrivateInode
    contents = record { file_index = 0; children = []; parent = e.inode }

    abbrev ready : World
    ready = record (entered dd name inode_dir w) { next = w.next + 4 }

    module _ (absent : locate w (name ∷ st) ≡ none) where
      mkdir-dir :
          n.mode ≡ inode_dir
          → ramfs_mkdir e.inode w.next (entered dd name inode_dir w)
            ≡ hang e.inode w.next (w.next + 1) (w.next + 3) contents ready
      unfolding ramfs_mkdir load_dentry load_inode kmalloc contents
      mkdir-dir mode =
          let same = (Agrees-entered dd name inode_dir w).inode e.inode i.small.1 in
          let (x, memory) = plenty (w.next + 3) 8216 in
          let four : w.next + 3 + 1 ≡ w.next + 4 = omega arith in
          rw
            (
              ==_ne e.inode 0 i.inode_ne,
              ==_ne w.next 0 (omega arith),
              ==_ne w.next 0 (omega arith),
              ==_refl w.next,
              ==_ne (w.next + 1) 0 (omega arith),
              ==_ne e.inode 0 i.inode_ne,
              same ∙ i.inode,
              mode,
              memory,
              ==_ne (w.next + 3) 0 (omega arith),
              four,
            )
            refl

      mkdir-file :
          (n.mode == inode_dir) ≡ false
          → ramfs_mkdir e.inode w.next (entered dd name inode_dir w)
            ≡ done vfs_einval (entered dd name inode_dir w)
      unfolding ramfs_mkdir load_dentry load_inode
      mkdir-file file =
          let same = (Agrees-entered dd name inode_dir w).inode e.inode i.small.1 in
          ground (
            arith,
            ==_refl w.next,
            ==_ne (w.next + 1) 0 (omega arith),
            ==_ne w.next 0 (omega arith),
            i.inode_ne,
            same,
            i.inode,
            file,
          )

      -- With a result of the driver, `make_dir` gives its flag.
      make_dir-flag :
          (flag : Flag) (v : World) (m : Inode)
          → ramfs_mkdir e.inode w.next (entered dd name inode_dir w) ≡ done flag v
          → v.inode (w.next + 1) ≡ some m
          → make_dir drivers junk dd e name w ≡ done flag v
      unfolding make_dir table load_inode
      make_dir-flag flag v m run inode =
          let ok : (if m.private_field == null || m.ops == null || not (flag == vfs_ok)
                then flag
                else vfs_ok)
              ≡ flag =
            elim (Bool-cases (flag == vfs_ok)) [
              | inl good ↦ ground (arith, good)
              | inr bad ↦ ground (arith, bad)
            ] in
          let same = (Agrees-entered dd name inode_dir w).inode e.inode i.small.1 in
          rw
            (
              new_entry_lem dd name inode_dir w plenty some_address,
              ==_ne e.inode 0 i.inode_ne,
              same ∙ i.inode,
              i.ops,
              mounted,
              run,
              ==_ne (w.next + 1) 0 (omega arith),
              inode,
            )
            (ap (λ u. done u v) ok)

      start_flag :
          mkdir_flag (view w st) (view w (name ∷ st)) (is_full w st)
          ≡ mkdir_flag
              (some (if n.mode == inode_dir then directory else regular))
              none
              (leb max_child (length kids))
      start_flag =
          ap (λ u. mkdir_flag u (view w (name ∷ st)) (is_full w st)) (view-entry st at i)
          ∙ ap
              (λ u.
                mkdir_flag (some (if n.mode == inode_dir then directory else regular)) u
                  (is_full w st))
              (view-nothing w (name ∷ st) absent)
          ∙ ap (mkdir_flag (some (if n.mode == inode_dir then directory else regular)) none)
              (is_full-entry st at i)

      -- The driver has answered: what is left is to compare.
      conclude :
          (flag : Flag) (v : World)
          → ramfs_mkdir e.inode w.next (entered dd name inode_dir w) ≡ done flag v
          → (m : Inode) × (v.inode (w.next + 1) ≡ some m)
          → spec_flag w (some (name ∷ st)) ≡ flag
          → v.answer ≡ w.answer
          → IsFs v.next v
          → ((s : List Bytes)
              → view v s
                ≡ (if (flag == vfs_ok) && path_eq s (name ∷ st) then some directory else view w s))
          → Implements w (some (name ∷ st)) (make_dir drivers junk dd e name w)
      conclude flag v run (m, inode) q answer tree map = (
        v,
        make_dir-flag flag v m run inode ∙ ap (λ u. done u v) (sym q),
        answer,
        tree,
        λ s.
            map s
            ∙ ap (λ u. if (u == vfs_ok) && path_eq s (name ∷ st) then some directory else view w s)
                (sym q),
      )

      ready-Agrees : Agrees w.next w ready
      ready-Agrees =
          let old = Agrees-entered dd name inode_dir w in
          record { dentry = old.dentry; inode = old.inode; priv = old.priv }

      make_dir-Implements : Implements w (some (name ∷ st)) (make_dir drivers junk dd e name w)
      unfolding contents
      make_dir-Implements = elim (Bool-cases (n.mode == inode_dir)) [
        | inl dir ↦
            let mode = (==_iff n.mode inode_dir).0 dir in
            let leaf : ready.dentry w.next
                ≡ some (record { name = some name; parent = dd; inode = w.next + 1 }) =
              rw (==_refl w.next) refl in
            let inode : ready.inode (w.next + 1) ≡ some (blank w.vfs_inode_count inode_dir) =
              rw (==_refl (w.next + 1)) refl in
            let (u, h) =
              hang_lem w.next w fs some_address st dd at e n p kids i mode name chars absent ready
                ready-Agrees (blank w.vfs_inode_count inode_dir) leaf inode contents refl refl in
            conclude _ u (mkdir-dir mode ∙ h.run) (h.node.0, h.node.1) (start_flag ∙ rw dir refl)
              h.answer h.tree h.map
        | inr file ↦
            let made = entered dd name inode_dir w in
            let same = Agrees-entered dd name inode_dir w in
            conclude vfs_einval made (mkdir-file file)
              (blank w.vfs_inode_count inode_dir, rw (==_refl (w.next + 1)) refl)
              (start_flag ∙ rw file refl) refl
              (IsFs-more w.next (w.next + 3) made (omega arith) (IsFs-Agrees w.next w made same fs))
              (view-Agrees w.next w made same fs)
      ]

    mkdir_at-found :
        (c : Ptr)
        → locate w (name ∷ st) ≡ some c
        → lookup_in drivers junk e name w ≡ done (lookup_answer (child_of w (some dd) name)) w
        → child_of w (some dd) name ≡ some c
        → Entry w.next w c
        → Implements w (some (name ∷ st)) (mkdir_at drivers junk name dd w)
    unfolding mkdir_at load_dentry
    mkdir_at-found c there search found (entry f m q subs j) =
        let run : mkdir_at drivers junk name dd w ≡ done vfs_eexist w =
          rw
            (
              ==_ne dd 0 i.dentry_ne,
              ==_ne dd 0 i.dentry_ne,
              i.dentry,
              search,
              found,
              ==_ne c 0 j.dentry_ne,
              j.dentry,
            )
            refl in
        let flag : spec_flag w (some (name ∷ st)) ≡ vfs_eexist =
          rw (view-entry st at i, view-entry (name ∷ st) there j) refl in
        unchanged w (some (name ∷ st)) _ vfs_eexist fs run flag refl

    -- Past the walk: the lookup, and the creation where it finds nothing.
    pub mkdir_at-Implements : Implements w (some (name ∷ st)) (mkdir_at drivers junk name dd w)
    unfolding mkdir_at load_dentry locate
    mkdir_at-Implements =
        let search = lookup_in-entry drivers junk mounted name i chars in
        elim (Option-cases (child_of w (some dd) name)) [
          | inl gone ↦
              let absent : locate w (name ∷ st) ≡ none = ap (λ o. child_of w o name) at ∙ gone in
              let start : mkdir_at drivers junk name dd w ≡ make_dir drivers junk dd e name w =
                rw (==_ne dd 0 i.dentry_ne, ==_ne dd 0 i.dentry_ne, i.dentry, search, gone) refl in
              subst (Implements w (some (name ∷ st))) (sym start) (make_dir-Implements absent)
          | inr (c, found) ↦
              let there : locate w (name ∷ st) ≡ some c = ap (λ o. child_of w o name) at ∙ found in
              mkdir_at-found c there search found (fs.entries (name ∷ st) c there)
        ]
