-- ===== src/Fs/Vfs/CreateFile/Made.antt =====
-- `vfs_open` with VFS_O_CREAT past the walk: the new file and its descriptor.
use project_luciano.Base.{
  ℕ, ◌+◌, ◌%◌, ◌^◌, ◌<◌, bit_and, ◌≡◌, refl, sym, ap, ◌∙◌, subst, ◌≢◌, inl, inr, true, false, none,
  some, List, [], ◌∷◌, map, arith, leb, if◌then◌else◌, ==_refl, ==_ne, Bool-cases, length,
}
use project_luciano.Libc.{Bytes}
use project_luciano.Libc.Compare.{NoNul}
use project_luciano.Fs.Path.{Rows}
use project_luciano.Fs.World.{
  Ptr, Flag, vfs_ok, vfs_enospc, o_creat, inode_dir, inode_reg, Inode, Dentry, PrivateInode, World,
  done, load_inode, load_dentry, kmalloc,
}
use project_luciano.Fs.Ramfs.{ramfs_ops, max_child, hang, ramfs_open, next_file}
use project_luciano.Fs.Vfs.{Ops, create_file, open_at, table, new_descriptor}
use project_luciano.Fs.Vfs.Tree.{ramfs_table, child_of, locate, IsEntry, IsFs}
use project_luciano.Fs.Vfs.Tree.Frame.{Agrees}
use project_luciano.Fs.Vfs.Tree.Walk.{lookup_in-entry}
use project_luciano.Fs.Vfs.Tree.Grow.{hang_lem, Hung}
use project_luciano.Fs.Vfs.Create.{
  IsPlentiful, blank, entered, new_entry_lem, Agrees-entered, some_address,
}
use project_luciano.Fs.Vfs.Open.{Opens, new_descriptor_lem}
use project_luciano.Fs.Vfs.CreateFile.{Creates}

module _ (drivers : Ptr → Ops) (junk : Rows) (mounted : drivers ramfs_ops ≡ ramfs_table) (flags : ℕ)
    (creat : bit_and flags o_creat ≢ 0) where
  module _ (w : World) (fs : IsFs w.next w) (plenty : IsPlentiful w) (st : List Bytes) (dd : Ptr)
      (at : locate w st ≡ some dd) (e : Dentry) (n : Inode) (p : PrivateInode)
      (kids : List (Ptr × Bytes)) (i : IsEntry w.next w dd e n p kids) (mode : n.mode ≡ inode_dir)
      (name : Bytes) (chars : NoNul name) (absent : locate w (name ∷ st) ≡ none) where
    abbrev contents : PrivateInode
    contents = record { file_index = w.ramfs_file_count; children = []; parent = e.inode }

    abbrev made : World
    made = entered dd name inode_reg w

    abbrev ready : World
    ready = record made { next = w.next + 4; ramfs_file_count = (w.ramfs_file_count + 1) % 2 ^ 32 }

    positive : 0 < w.next
    positive = some_address w fs

    ready-Agrees : Agrees w.next w ready
    ready-Agrees =
        let old = Agrees-entered dd name inode_reg w in
        record { dentry = old.dentry; inode = old.inode; priv = old.priv }

    ramfs_open-ready :
        ramfs_open e.inode w.next flags made
        ≡ hang e.inode w.next (w.next + 1) (w.next + 3) contents ready
    unfolding ramfs_open load_dentry kmalloc next_file
    ramfs_open-ready =
        let (x, memory) = plenty (w.next + 3) 8216 in
        let four : w.next + 3 + 1 ≡ w.next + 4 = omega arith in
        rw
          (
            ==_ne e.inode 0 i.inode_ne,
            ==_ne w.next 0 (omega (arith, positive)),
            ==_ne w.next 0 (omega (arith, positive)),
            ==_refl w.next,
            ==_ne (w.next + 1) 0 (omega arith),
            ==_ne (bit_and flags o_creat) 0 creat,
            memory,
            ==_ne (w.next + 3) 0 (omega arith),
            four,
          )
          refl

    leaf_there :
        ready.dentry w.next ≡ some (record { name = some name; parent = dd; inode = w.next + 1 })
    leaf_there = rw (==_refl w.next) refl

    inode_there : ready.inode (w.next + 1) ≡ some (blank w.vfs_inode_count inode_reg)
    inode_there = rw (==_refl (w.next + 1)) refl

    abbrev IsHung : World → Type 0
    IsHung =
        Hung w.next w fs positive st dd at e n p kids i mode name chars absent ready ready-Agrees
          (blank w.vfs_inode_count inode_reg) leaf_there inode_there contents refl

    abbrev flag_after : Flag
    flag_after = if leb max_child (length kids) then vfs_enospc else vfs_ok

    create_file-full :
        (u : World)
        → IsHung u
        → leb max_child (length kids) ≡ true
        → create_file drivers junk dd e name flags w ≡ done (vfs_enospc, none) u
    unfolding create_file table load_inode
    create_file-full u h full =
        let same = (Agrees-entered dd name inode_reg w).inode e.inode i.small.1 in
        let (k, inode, _) = h.node in
        rw
          (
            ==_ne (bit_and flags o_creat) 0 creat,
            new_entry_lem dd name inode_reg w plenty positive,
            ==_ne e.inode 0 i.inode_ne,
            same ∙ i.inode,
            i.ops,
            mounted,
            ramfs_open-ready ∙ h.run,
            ==_ne (w.next + 1) 0 (omega arith),
            inode,
            full,
          )
          (ground arith)

    create_file-room :
        (u : World)
        → IsHung u
        → leb max_child (length kids) ≡ false
        → create_file drivers junk dd e name flags w ≡ new_descriptor w.next (w.next + 1) flags u
    unfolding create_file table load_inode
    create_file-room u h room =
        let same = (Agrees-entered dd name inode_reg w).inode e.inode i.small.1 in
        let (k, inode, good) = h.node in
        rw
          (
            ==_ne (bit_and flags o_creat) 0 creat,
            new_entry_lem dd name inode_reg w plenty positive,
            ==_ne e.inode 0 i.inode_ne,
            same ∙ i.inode,
            i.ops,
            mounted,
            ramfs_open-ready ∙ h.run,
            ==_ne (w.next + 1) 0 (omega arith),
            inode,
            room,
          )
          (ground (arith, good (rw room refl)))

    plenty-hung : (u : World) → IsHung u → IsPlentiful u
    plenty-hung u h k size =
        let (x, memory) = plenty k size in (x, ap (λ f. f k size) h.answer ∙ memory)

    descriptor-hung :
        (u : World)
        → IsHung u
        → leb max_child (length kids) ≡ false
        → Opens u (name ∷ st) flags (some w.next) (new_descriptor w.next (w.next + 1) flags u)
    descriptor-hung u h room =
        new_descriptor_lem u u (name ∷ st) flags w.next
          (record { name = some name; parent = dd; inode = w.next + 1 }) h.tree (plenty-hung u h)
          (record { dentry = λ x l. refl; inode = λ x l. refl; priv = λ x l. refl }) refl refl
          (h.there (rw room refl)) h.entry_there (omega (arith, h.next))

    create_file-Creates :
        Creates w (name ∷ st) flags flag_after (create_file drivers junk dd e name flags w)
    create_file-Creates =
        let (u, h) =
          hang_lem w.next w fs positive st dd at e n p kids i mode name chars absent ready
            ready-Agrees (blank w.vfs_inode_count inode_reg) leaf_there inode_there contents refl
            refl in
        elim (Bool-cases (leb max_child (length kids))) [
          | inl full ↦ (
            u,
            none,
            create_file-full u h full
                ∙ ap (λ b. done ((if b then vfs_enospc else vfs_ok), none) u) (sym full),
            h.answer,
            h.tree,
            h.map,
            (λ q. absurd (ground (arith, full, q))),
            λ q. refl,
          )
          | inr room ↦
              let (v, fd, run, is_open, (tree, answer, map)) = descriptor-hung u h room in
              (
                v,
                some fd,
                create_file-room u h room
                    ∙ run
                    ∙ ap (λ b. done ((if b then vfs_enospc else vfs_ok), some fd) v) (sym room),
                answer ∙ h.answer,
                tree,
                (λ s. map s ∙ h.map s),
                (λ q. (fd, refl, is_open)),
                λ q. absurd (q (rw room refl)),
              )
        ]

    pub open_at-Creates :
        Creates w (name ∷ st) flags flag_after (open_at drivers junk name flags dd w)
    unfolding open_at load_dentry locate
    open_at-Creates =
        let gone : child_of w (some dd) name ≡ none =
          ap (λ o. child_of w o name) (sym at) ∙ absent in
        let run : open_at drivers junk name flags dd w
            ≡ create_file drivers junk dd e name flags w =
          rw
            (
              ==_ne dd 0 i.dentry_ne,
              ==_ne dd 0 i.dentry_ne,
              i.dentry,
              lookup_in-entry drivers junk mounted name i chars,
              gone,
            )
            refl in
        subst (Creates w (name ∷ st) flags flag_after) (sym run) create_file-Creates
