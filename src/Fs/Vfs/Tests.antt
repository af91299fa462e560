-- ===== src/Fs/Vfs/Tests.antt =====
-- Concrete calls on a RAM file system that has just been mounted.
use project_luciano.Base.{
  ℕ, ◌≡◌, refl, ap, ◌∙◌, none, some, List, [], ◌∷◌, arith, ◌==◌, if◌then◌else◌, replicate,
  length-replicate, All,
}
use project_luciano.Libc.{Bytes}
use project_luciano.Fs.Path.{Rows, parse_path}
use project_luciano.Fs.Path.Resolve.{Segment, name, blank, text, render, enter, resolve, IsName}
use project_luciano.Fs.Path.Outcome.{parse_path-resolve}
use project_luciano.Fs.World.{vfs_enospc, vfs_eexist, Ptr, vfs_ok, o_creat, World, done}
use project_luciano.Fs.Vfs.{Ops, FileDescriptor, vfs_mkdir, vfs_open}
use project_luciano.Fs.Vfs.Tree.{ramfs_table, name_eq, directory, path_eq, pick, locate, view, IsFs}
use project_luciano.Fs.Vfs.Create.{IsPlentiful, path_of, is_full}
use project_luciano.Fs.Vfs.Mkdir.{Implements}
use project_luciano.Fs.Vfs.Mkdir.Outcome.{vfs_mkdir_lem, vfs_mkdir-render}
use project_luciano.Fs.Vfs.Open.{IsOpen, OpensPath}
use project_luciano.Fs.Vfs.Open.Outcome.{vfs_open_lem}
use project_luciano.Fs.Vfs.CreateFile.{create_flag, Creates}
use project_luciano.Fs.Vfs.CreateFile.Outcome.{open_create}
use project_luciano.Fs.Vfs.Mount.{
  mount_ramfs, mounted_world, IsFs-mounted, view-mounted, mount_ramfs_lem,
}
use project_luciano.Kbuf.{Kbuf}
use project_luciano.Kbuf.Grow.{IsValid}
use project_luciano.Fs.Ramfs.WriteRead.{IsFile}
use project_luciano.Fs.World.{inode_reg, Inode, PrivateInode}
use project_luciano.Fs.Vfs.Io.{vfs_write}
use project_luciano.Fs.Vfs.RoundTrip.{VfsReadsBack, vfs_read-vfs_write}
use project_luciano.Fs.Vfs.Reopen.{Loses}
use project_luciano.Fs.Vfs.Reopen.Outcome.{vfs_open_again}
use project_luciano.Fs.Vfs.History.{
  History, fresh, after_mkdir, Grows, History-Grows, vfs_open-vfs_mkdir,
}

abbrev empty : World
empty = record {
  inode = λ p. none;
  dentry = λ p. none;
  priv = λ p. none;
  file = λ j. record { bytes = []; allocated = 0 };
  vfs_inode_count = 0;
  ramfs_file_count = 1;
  answer = λ call size. some (replicate size 0);
  next = 2;
}

abbrev tables : Ptr → Ops
tables p = ramfs_table

abbrev junk : Rows
junk a = 7

abbrev root_path : List Segment
root_path = blank ∷ []

abbrev a_path : List Segment
a_path = name (b'a' ∷ []) ∷ []

a_names : All IsName a_path
a_names = ((λ e. ground (arith, e), ground arith), tt)

parsed_root : path_of (parse_path junk (render root_path)) ≡ some []
unfolding render text resolve enter
parsed_root =
    let (p, e, depth, same) = parse_path-resolve junk root_path (tt, tt) (omega arith) in
    ap path_of e ∙ ap some same

parsed_a : path_of (parse_path junk (render a_path)) ≡ some ((b'a' ∷ []) ∷ [])
unfolding render text resolve enter
parsed_a =
    let (p, e, depth, same) = parse_path-resolve junk a_path a_names (omega arith) in
    ap path_of e ∙ ap some same

abbrev mounted : World
mounted = mounted_world 5 empty

tree : IsFs mounted.next mounted
tree = IsFs-mounted 5 empty (omega arith)

plenty : IsPlentiful mounted
plenty k size = (replicate size 0, refl)

mount_ramfs_lem_example :
    (w' : World) × (mount_ramfs tables junk 5 (render root_path) empty ≡ done vfs_ok w')
    × (w'.answer ≡ empty.answer)
    × IsFs w'.next w'
    × ((s : List Bytes) → view w' s ≡ (if path_eq s [] then some directory else none))
mount_ramfs_lem_example =
    mount_ramfs_lem 5 empty (omega arith) tables junk refl (λ k size. (replicate size 0, refl))
      (render root_path) parsed_root

vfs_mkdir_lem_example :
    Implements mounted
      (path_of (parse_path junk (render a_path)))
      (vfs_mkdir tables junk (render a_path) mounted)
vfs_mkdir_lem_example = vfs_mkdir_lem tables junk refl mounted tree plenty (render a_path)

vfs_mkdir-render_example :
    Implements mounted (some (resolve [] a_path)) (vfs_mkdir tables junk (render a_path) mounted)
unfolding render text
vfs_mkdir-render_example =
    vfs_mkdir-render tables junk refl mounted tree plenty a_path a_names (omega arith)

vfs_open_lem_example :
    OpensPath mounted 0
      (path_of (parse_path junk (render root_path)))
      (vfs_open tables junk (render root_path) 0 mounted)
vfs_open_lem_example =
    vfs_open_lem tables junk refl 0 refl refl mounted tree plenty (render root_path)

free_a : view mounted ((b'a' ∷ []) ∷ []) ≡ none
unfolding path_eq
free_a = view-mounted 5 empty (omega arith) ((b'a' ∷ []) ∷ [])

root_kind : view mounted [] ≡ some directory
unfolding path_eq
root_kind = view-mounted 5 empty (omega arith) []

open_create_example :
    Creates mounted
      ((b'a' ∷ []) ∷ [])
      o_creat
      (create_flag (view mounted []) (is_full mounted []))
      (vfs_open tables junk (render a_path) o_creat mounted)
open_create_example =
    open_create tables junk refl o_creat (λ e. ground (arith, e)) mounted tree plenty
      (render a_path) (b'a' ∷ []) [] parsed_a free_a (λ e. ground (arith, root_kind, e))

made : Implements mounted (some (resolve [] a_path)) (vfs_mkdir tables junk (render a_path) mounted)
unfolding render text
made = vfs_mkdir-render tables junk refl mounted tree plenty a_path a_names (omega arith)

made_ok : vfs_mkdir tables junk (render a_path) mounted ≡ done vfs_ok made.0
unfolding made render text resolve enter view locate pick is_full
made_ok = made.1

a_history : History tables junk mounted made.0
a_history = after_mkdir mounted made.0 (render a_path) vfs_ok fresh made_ok

History-Grows_example : Grows mounted made.0
History-Grows_example = History-Grows tables junk refl mounted tree plenty made.0 a_history

vfs_open-vfs_mkdir_example :
    (x : World) × (fd : FileDescriptor) × (vfs_open tables junk (render a_path) 0 made.0
      ≡ done (vfs_ok, some fd) x)
    × IsOpen x ((b'a' ∷ []) ∷ []) 0 fd
vfs_open-vfs_mkdir_example =
    vfs_open-vfs_mkdir tables junk refl (render a_path) ((b'a' ∷ []) ∷ []) parsed_a 0 refl refl
      mounted made.0 made.0 tree plenty made_ok fresh

made_view : view made.0 ((b'a' ∷ []) ∷ []) ≡ some directory
unfolding made render text resolve enter view locate pick is_full path_eq name_eq
made_view = made.4 ((b'a' ∷ []) ∷ [])

made_plenty : IsPlentiful made.0
made_plenty k size = (replicate size 0, ap (λ f. f k size) made.2)

vfs_open_again_example :
    (c : Ptr) × (locate made.0 ((b'a' ∷ []) ∷ []) ≡ some c)
    × Loses
        (if is_full made.0 [] then vfs_enospc else vfs_eexist)
        c
        (vfs_open tables junk (render a_path) o_creat made.0)
vfs_open_again_example =
    vfs_open_again tables junk refl o_creat (λ e. ground (arith, e)) refl made.0 made.3 made_plenty
      (render a_path) (b'a' ∷ []) [] directory parsed_a made_view

-- A file of two bytes in a buffer of three: inode 21 with node 22.
abbrev file_inode : Inode
file_inode = record { ino = 1; mode = inode_reg; size = 2; ops = 1; private_field = 22 }

abbrev file_node : PrivateInode
file_node = record { file_index = 3; children = []; parent = 11 }

abbrev content : Kbuf
content = record { bytes = 7 ∷ 8 ∷ 9 ∷ []; allocated = 3 }

abbrev with_file : World
with_file = record empty {
  inode = λ q. if q == 21 then some file_inode else none;
  priv = λ q. if q == 22 then some file_node else none;
  file = λ j. if j == 3 then content else record { bytes = []; allocated = 0 };
  next = 100;
}

content-IsValid : IsValid content
content-IsValid = record { size = refl; small = omega arith }

with_file-IsFile : IsFile with_file 21 file_inode file_node
with_file-IsFile = record {
  at_ne = ground arith;
  inode = refl;
  mode = refl;
  node_ne = ground arith;
  node = refl;
  index = omega arith;
  buffer = content-IsValid;
  sized = λ call size fresh e. ground (arith, length-replicate {A = ℕ} size 0);
}

abbrev descriptor : FileDescriptor
descriptor = record { inode = 21; dentry = 20; pos = 0; flags = 0 }

vfs_read-vfs_write_example :
    VfsReadsBack tables descriptor 2
      (5 ∷ 6 ∷ [])
      (0 ∷ 0 ∷ 0 ∷ [])
      (vfs_write tables (some descriptor) 2 2 (some (5 ∷ 6 ∷ [])) with_file)
vfs_read-vfs_write_example =
    vfs_read-vfs_write tables refl descriptor with_file-IsFile refl 2 (5 ∷ 6 ∷ []) (0 ∷ 0 ∷ 0 ∷ [])
      (omega arith) (omega arith) (omega arith)
