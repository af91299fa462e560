-- ===== src/Fs/Ramfs/Tests.antt =====
-- A directory with one child and a file, at concrete addresses.
use project_luciano.Base.{
  ℕ, ◌≡◌, refl, none, some, [], ◌∷◌, arith, ◌==◌, if◌then◌else◌, length, replicate,
  length-replicate,
}
use project_luciano.Base.Int.{pos}
use project_luciano.Libc.{Bytes}
use project_luciano.Kbuf.{Kbuf}
use project_luciano.Kbuf.Grow.{IsValid}
use project_luciano.Fs.World.{null, inode_dir, inode_reg, Inode, PrivateInode, World, done}
use project_luciano.Fs.Ramfs.Files.{ramfs_write, ramfs_read}
use project_luciano.Fs.Ramfs.WriteRead.{IsFile, Wrote, ramfs_write_lem, ramfs_read_lem}

-- The directory is inode 10 with node 11; its child is dentry 20 with the file inode 21, node 22.
abbrev dir : Inode
dir = record { ino = 0; mode = inode_dir; size = 0; ops = 1; private_field = 11 }

abbrev dir_node : PrivateInode
dir_node = record { file_index = 0; children = 20 ∷ []; parent = null }

abbrev file_inode : Inode
file_inode = record { ino = 1; mode = inode_reg; size = 2; ops = 1; private_field = 22 }

abbrev file_node : PrivateInode
file_node = record { file_index = 3; children = []; parent = 11 }

abbrev a_name : Bytes
a_name = b'a' ∷ []

abbrev b_name : Bytes
b_name = b'b' ∷ []

abbrev content : Kbuf
content = record { bytes = 7 ∷ 8 ∷ 9 ∷ []; allocated = 3 }

abbrev memory : World
memory = record {
  inode = λ q. if q == 10 then some dir else if q == 21 then some file_inode else none;
  dentry = λ q.
      if q == 20
      then some (record { name = some a_name; parent = 9; inode = 21 })
      else if q == 30
      then some (record { name = some b_name; parent = null; inode = null })
      else none;
  priv = λ q. if q == 11 then some dir_node else if q == 22 then some file_node else none;
  file = λ j. if j == 3 then content else record { bytes = []; allocated = 0 };
  vfs_inode_count = 2;
  ramfs_file_count = 1;
  answer = λ call size. some (replicate size 0);
  next = 100;
}

content-IsValid : IsValid content
content-IsValid = record { size = refl; small = omega arith }

memory-IsFile : IsFile memory 21 file_inode file_node
memory-IsFile = record {
  at_ne = ground arith;
  inode = refl;
  mode = refl;
  node_ne = ground arith;
  node = refl;
  index = omega arith;
  buffer = content-IsValid;
  sized = λ call size fresh e. ground (arith, length-replicate {A = ℕ} size 0);
}

-- Three bytes at offset 2, so that the buffer has to grow.
abbrev added : Bytes
added = 4 ∷ 5 ∷ 6 ∷ []

ramfs_write_lem_example :
    Wrote memory 21 file_inode 3 2 added (ramfs_write 21 2 (length added) (some added) memory)
ramfs_write_lem_example = ramfs_write_lem memory-IsFile 2 added (omega arith)

ramfs_read_lem_example :
    ramfs_read 21 1 3 (some added) memory ≡ done (pos 1, some (8 ∷ 5 ∷ 6 ∷ [])) memory
ramfs_read_lem_example = ramfs_read_lem memory-IsFile 1 3 added (omega arith) (omega arith)
