-- ===== src/Fs/Path.antt =====
-- kernel/vfs/vfs_dentry.c: the path parser, a state machine over the characters of the path.
pub mod Limits
pub mod Resolve
pub mod Segments
pub mod Outcome
mod Tests
use project_luciano.Base.{
  ℕ, zero, suc, ◌+◌, ◌-◌, ◌*◌, ◌/◌, ◌%◌, ◌^◌, ◌≤◌, ◌<◌, min, max, bit_and, bit_or, bit_xor, ◌≡◌,
  refl, sym, ap, ap₂, ◌∙◌, fun_ext, subst, ◌≢◌, ◌↔◌, ◌⊎◌, inl, inr, Bool, true, false, not, ◌&&◌,
  ◌||◌, Option, none, some, List, [], ◌∷◌, ◌++◌, map, append-nil, append_assoc, arith, ltb, leb,
  ◌==◌, if◌then◌else◌, ltb→lt, lt→ltb, leb→le, ==_iff, ==_refl, ==_ne, Bool-cases, Option-cases,
  length, get_elem?, get_or, set, take, drop, replicate, length-append, length-set, get_or-set_self,
  get_or-set_ne, get_elem?-eq-get_or, length-take, length-drop, length-replicate, take_all,
  take-append, drop-append, All,
}
use project_luciano.Libc.{Bytes}
use mathlib.Core.Option

abbrev pub slash : ℕ
slash = b'/'

abbrev pub dot : ℕ
dot = b'.'

-- `VFS_MAX_FILE_FOLDER_NAME` and `VFS_MAX_DEPTH` of kernel/include/vfs.h.
abbrev pub max_name : ℕ
max_name = 256

abbrev pub max_depth : ℕ
max_depth = 128

-- `vfs_path_t.path`: `path[d][p]` is byte `256 * d + p` of the array, so that a write behind the end
-- of a row lands in the next one, and one to row 128 in the field behind the array, as in C.
abbrev pub Rows : Type 0
Rows = ℕ → ℕ

abbrev pub cell : ℕ → ℕ → ℕ
cell d p = 256 * d + p

pub put : Rows → ℕ → ℕ → Rows
put rows at v a = if a == at then v else rows a

-- The variables of the loop; `last` is `path[read_ptr - 1]`, where there is one.
pub record Parser : Type 0 where
  pub rows : Rows
  pub read_ptr : ℕ
  pub write_depth_ptr : ℕ
  pub write_ptr : ℕ
  pub last : ℕ

-- `out->path[write_depth_ptr][write_ptr++] = path[read_ptr]`
pub copy_char : ℕ → Parser → Parser
copy_char c s = record s {
  rows = put s.rows (cell s.write_depth_ptr s.write_ptr) c;
  write_ptr = s.write_ptr + 1;
}

pub on_slash : Parser → Parser
on_slash s =
    if ltb 0 s.write_ptr
    then record s {
      rows = put s.rows (cell s.write_depth_ptr s.write_ptr) 0;
      write_depth_ptr = s.write_depth_ptr + 1;
      write_ptr = 0;
    }
    else s

-- `write_depth_ptr` is an `int` that is set back to 0 when it falls below: subtraction that stops at 0.
pub on_dot : ℕ → Parser → Parser
on_dot right s =
    if ltb 0 s.read_ptr && s.last == dot
    then record s { write_depth_ptr = s.write_depth_ptr - 1; write_ptr = 0 }
    else if not (ltb 0 s.read_ptr && not (s.last == slash))
        && not (not (right == slash) && not (right == 0))
    then s
    else copy_char dot s

-- The `switch`; `right` is `path[read_ptr + 1]`.
pub dispatch : ℕ → ℕ → Parser → Parser
unfolding copy_char on_slash on_dot
dispatch c right s =
    if c == slash then on_slash s else if c == dot then on_dot right s else copy_char c s

-- `read_ptr++`
pub advance : ℕ → Parser → Parser
advance c s = record s { read_ptr = s.read_ptr + 1; last = c }

abbrev pub peek : Bytes → ℕ
peek [] = 0
peek (c ∷ rest) = c

-- The `while` loop over the characters before the terminator; `none` is VFS_ENAMETOOLONG.
pub scan : Bytes → Parser → Option Parser
unfolding dispatch advance
scan [] s = some s
scan (c ∷ rest) s =
    if ltb max_name s.read_ptr
    then none
    else if ltb max_depth s.write_depth_ptr
    then none
    else scan rest (advance c (dispatch c (peek rest) s))

-- `vfs_path_t`: `path` is the memory from its start on, in which the bytes of `depth` stand behind the
-- 128 rows.
pub record PathBuf : Type 0 where
  pub path : Rows
  pub depth : ℕ

-- The first byte behind the array, which is the first one of the field `depth`.
abbrev pub array_end : ℕ
array_end = cell max_depth 0

-- `out->depth = depth`: its four bytes, the lowest first, stand where row 128 would begin.
pub store_depth : ℕ → Rows → Rows
store_depth depth rows a =
    if ltb a array_end || leb (array_end + 4) a
    then rows a
    else depth / 2 ^ (8 * (a - array_end)) % 256

abbrev pub with_depth : Rows → ℕ → PathBuf
with_depth rows depth = record { path = store_depth depth rows; depth = depth }

-- What follows the loop: the open component is closed.
pub close : Parser → PathBuf
unfolding store_depth
close s =
    if ltb 0 s.write_ptr
    then with_depth (put s.rows (cell s.write_depth_ptr s.write_ptr) 0) (s.write_depth_ptr + 1)
    else with_depth s.rows s.write_depth_ptr

abbrev pub start : Rows → Parser
start junk = record { rows = junk; read_ptr = 0; write_depth_ptr = 0; write_ptr = 0; last = 0 }

-- `vfs_aux_parse_path`; `junk` is what the caller's array holds before the call.
pub parse_path : Rows → Bytes → Option PathBuf
unfolding scan close
parse_path junk path = Option.map close (scan path (start junk))

-- The string that starts at a byte of the array, read over at most `n` bytes.
pub string_at : ℕ → Rows → ℕ → Bytes
string_at zero rows a = []
string_at (suc n) rows a =
    let rest = string_at n rows (a + 1) in if rows a == 0 then [] else rows a ∷ rest

-- `parsed_path.path[i]` as the string that its readers see: they stop at the first terminator, and
-- no name is longer than the 257 characters that the parser reads.
pub component : PathBuf → ℕ → Bytes
unfolding string_at
component p i = string_at 258 p.path (cell i 0)
