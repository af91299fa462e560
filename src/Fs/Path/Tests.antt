-- ===== src/Fs/Path/Tests.antt =====
-- The path parser on concrete paths.
use project_luciano.Base.{
  ℕ, zero, suc, refl, ◌<◌, ◌≡◌, ◌↔◌, none, some, List, [], ◌∷◌, arith, length, All,
}
use mathlib.Core.Option
use project_luciano.Libc.{Bytes}
use project_luciano.Fs.Path.{
  slash, Rows, PathBuf, array_end, put, store_depth, parse_path, component,
}
use project_luciano.Fs.Path.Limits.{parse_path_limit, parse_path_depth, parse_path_bounds}
use project_luciano.Fs.Path.Resolve.{Segment, name, here, up, blank, text, render, resolve, IsName}
use project_luciano.Fs.Path.Outcome.{components, parse_path-resolve}

abbrev zeros : Rows
zeros _ = 0

-- /usr/./bin/..//lib
abbrev sample : List Segment
sample =
    name (b'u' ∷ b's' ∷ b'r' ∷ [])
    ∷ here
    ∷ name (b'b' ∷ b'i' ∷ b'n' ∷ [])
    ∷ up
    ∷ blank
    ∷ name (b'l' ∷ b'i' ∷ b'b' ∷ [])
    ∷ []

sample_names : All IsName sample
sample_names = ground arith

parse_path-resolve_example :
    (p : PathBuf) × (parse_path zeros (render sample) ≡ some p)
    × (p.depth ≡ length (resolve [] sample))
    × (components p p.depth ≡ resolve [] sample)
unfolding render text
parse_path-resolve_example = parse_path-resolve zeros sample sample_names (omega arith)

abbrev short : List ℕ
short = slash ∷ b'a' ∷ slash ∷ b'b' ∷ []

parse_path_limit_example : (parse_path zeros short ≡ none) ↔ (257 < length short)
parse_path_limit_example = parse_path_limit zeros short

parse_path_bounds_example :
    (p : PathBuf) × (parse_path zeros short ≡ some p)
    × (p.path array_end ≡ store_depth p.depth zeros array_end)
parse_path_bounds_example =
    let found = parse_path_depth zeros short (omega arith) in
    (
      found.0,
      found.1,
      parse_path_bounds zeros short found.0 array_end (omega arith) found.1 (omega arith),
    )

-- a/a/../a without the dots: 129 components in 257 characters.
deep : ℕ → Bytes
deep zero = b'a' ∷ []
deep (suc n) = b'a' ∷ slash ∷ deep n

-- The number of components overwrites the last one of them, which reads as that byte.
last_component : Option.map (λ p. component p 128) (parse_path zeros (deep 128)) ≡ some (0x81 ∷ [])
unfolding parse_path component deep
last_component = refl

-- Two dots in the middle of a name drop the directory before it: /x/a..b is /b.
dots_in_name :
    Option.map
      (λ p. components p p.depth)
      (parse_path zeros (slash ∷ b'x' ∷ slash ∷ b'a' ∷ b'.' ∷ b'.' ∷ b'b' ∷ []))
    ≡ some ((b'b' ∷ []) ∷ [])
unfolding parse_path component put
dots_in_name = refl
