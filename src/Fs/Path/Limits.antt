-- ===== src/Fs/Path/Limits.antt =====
-- How long a path the parser takes, how deep it gets, and where it writes.
use project_luciano.Base.{
  ℕ, ◌+◌, ◌*◌, ◌≤◌, ◌<◌, ◌≡◌, refl, ◌∙◌, ◌↔◌, inl, inr, none, some, [], ◌∷◌, arith, ltb, leb,
  Bool-cases, length,
}
use project_luciano.Libc.{Bytes}
use project_luciano.Fs.Path.{
  max_name, Rows, cell, put, Parser, copy_char, on_slash, on_dot, dispatch, advance, peek, scan,
  PathBuf, array_end, store_depth, close, start, parse_path,
}

-- At least two characters are read for each closed component, and each one of the open component.
abbrev pub IsBounded : Parser → Type 0
IsBounded s = 2 * s.write_depth_ptr + s.write_ptr ≤ s.read_ptr

pub step-IsBounded :
    (c right : ℕ) (s : Parser) → IsBounded s → IsBounded (advance c (dispatch c right s))
unfolding advance dispatch copy_char on_slash on_dot
step-IsBounded c right s b = ground arith

pub read_ptr-step :
    (c right : ℕ) (s : Parser) → (advance c (dispatch c right s)).read_ptr ≡ s.read_ptr + 1
unfolding advance dispatch copy_char on_slash on_dot
read_ptr-step c right s = ground arith

-- Short enough paths are read to their end.
pub scan-some :
    (path : Bytes) (s : Parser)
    → IsBounded s
    → s.read_ptr + length path ≤ 257
    → (t : Parser) × (scan path s ≡ some t) × (t.read_ptr ≡ s.read_ptr + length path) × IsBounded t
unfolding scan
scan-some [] s b h = (s, refl, omega arith, b)
scan-some (c ∷ path) s b h =
    let next = advance c (dispatch c (peek path) s) in
    let (t, e, r, k) =
      scan-some path next (step-IsBounded c (peek path) s b)
        (omega (arith, read_ptr-step c (peek path) s)) in
    (t, ground arith, omega (arith, read_ptr-step c (peek path) s), k)

pub scan-none :
    (path : Bytes) (s : Parser)
    → s.read_ptr ≤ 257
    → 257 < s.read_ptr + length path
    → scan path s ≡ none
unfolding scan
scan-none [] s k h = absurd (omega arith)
scan-none (c ∷ path) s k h = elim (Bool-cases (ltb max_name s.read_ptr)) [
  | inl long ↦ rw long
  | inr short ↦ rw short (
      ground (
        arith,
        read_ptr-step c (peek path) s,
        scan-none path (advance c (dispatch c (peek path) s)),
      ))
]

depth-close : (t : Parser) (n : ℕ) → IsBounded t → t.read_ptr ≡ n → 2 * (close t).depth ≤ n + 1
unfolding close
depth-close t n b r = ground arith

-- From a path of at most 257 characters the parser gets at most one component for every two
-- characters, rounded up.
pub parse_path_depth :
    (junk : Rows) (path : Bytes)
    → length path ≤ 257
    → (p : PathBuf) × (parse_path junk path ≡ some p) × (2 * p.depth ≤ length path + 1)
unfolding parse_path
parse_path_depth junk path h =
    let (t, e, r, b) = scan-some path (start junk) (omega arith) (omega arith) in
    (close t, rw e, depth-close t (length path) b (omega arith))

-- The parser reports VFS_ENAMETOOLONG exactly for the paths of more than 257 characters.
pub parse_path_limit :
    (junk : Rows) (path : Bytes) → (parse_path junk path ≡ none) ↔ (257 < length path)
unfolding parse_path
parse_path_limit junk path = (
  λ e. elim (Bool-cases (leb (length path) 257)) [
    | inl small ↦ let (p, found, d) = parse_path_depth junk path (ground arith) in ground arith
    | inr large ↦ ground arith
  ],
  λ h. rw (scan-none path (start junk) (omega arith) (omega arith)),
)

put-above : (rows : Rows) (at v a : ℕ) → at < array_end → array_end ≤ a → put rows at v a ≡ rows a
unfolding put
put-above rows at v a h k = ground arith

step-above :
    (c right : ℕ) (s : Parser) (a : ℕ)
    → IsBounded s
    → s.read_ptr < 256
    → array_end ≤ a
    → (advance c (dispatch c right s)).rows a ≡ s.rows a
unfolding advance dispatch copy_char on_slash on_dot put
step-above c right s a b h k = ground arith

scan-above :
    (path : Bytes) (s t : Parser) (a : ℕ)
    → IsBounded s
    → s.read_ptr + length path ≤ 256
    → array_end ≤ a
    → scan path s ≡ some t
    → t.rows a ≡ s.rows a
unfolding scan
scan-above [] s t a b h k e = ground arith
scan-above (c ∷ path) s t a b h k e =
    scan-above path (advance c (dispatch c (peek path) s)) t a (step-IsBounded c (peek path) s b)
      (omega (arith, read_ptr-step c (peek path) s)) k (ground arith)
    ∙ step-above c (peek path) s a b (omega arith) k

-- On a path of at most 256 characters the parser writes no byte behind the array of components but the
-- four of the field `depth`, which then hold the number of components.
pub parse_path_bounds :
    (junk : Rows) (path : Bytes) (p : PathBuf) (a : ℕ)
    → length path ≤ 256
    → parse_path junk path ≡ some p
    → array_end ≤ a
    → p.path a ≡ store_depth p.depth junk a
unfolding parse_path close store_depth
parse_path_bounds junk path p a h e k =
    let (t, s, r, b) = scan-some path (start junk) (omega arith) (omega arith) in
    ground (
      arith,
      scan-above path (start junk) t a (omega arith) (omega arith) k s,
      put-above t.rows (cell t.write_depth_ptr t.write_ptr) 0 a,
    )
