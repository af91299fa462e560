-- ===== src/Fs/Path/Resolve.antt =====
-- Paths as lists of components, and the stack that following them leaves: a reference for
-- kernel/vfs/vfs_dentry.c.
use project_luciano.Base.{
  ℕ, ◌+◌, ◌≤◌, ◌<◌, ◌≡◌, refl, subst, ◌≢◌, ◌⊎◌, List, [], ◌∷◌, ◌++◌, arith, length,
}
use project_luciano.Libc.{Bytes}
use project_luciano.Fs.Path.{
  slash, dot, Rows, cell, put, Parser, copy_char, on_dot, dispatch, advance, peek, scan,
}

pub data Segment : Type 0 where
  name : Bytes → Segment
  here up blank : Segment

unfoldable pub text : Segment → Bytes
text (name n) = n
text here = dot ∷ []
text up = dot ∷ dot ∷ []
text blank = []

-- An absolute path: a separator before each component.
unfoldable pub render : List Segment → Bytes
render [] = []
render (g ∷ gs) = slash ∷ (text g ++ render gs)

-- The stack of the names that a component leaves, innermost first.
unfoldable pub enter : List Bytes → Segment → List Bytes
enter st (name n) = n ∷ st
enter st here = st
enter [] up = []
enter (_ ∷ st) up = st
enter st blank = st

unfoldable pub resolve : List Bytes → List Segment → List Bytes
resolve st [] = st
resolve st (g ∷ gs) = resolve (enter st g) gs

-- A name holds no separator and no terminator, no dot behind a dot, and is not a single dot.
-- `last` is the character before.
abbrev pub IsPlain : ℕ → Bytes → Type 0
IsPlain last [] = Unit
IsPlain last (c ∷ m) =
    (c ≢ slash) × (c ≢ 0) × (c ≡ dot → (last ≢ dot) × ((last ≢ slash) ⊎ (m ≢ []))) × IsPlain c m

abbrev pub IsName : Segment → Type 0
IsName (name n) = (n ≢ []) × IsPlain slash n
IsName here = Unit
IsName up = Unit
IsName blank = Unit

-- The bytes from `a` on, and with the terminator behind them.
abbrev pub Spans : Rows → ℕ → Bytes → Type 0
Spans rows a [] = Unit
Spans rows a (c ∷ n) = (rows a ≡ c) × Spans rows (a + 1) n

abbrev pub Holds : Rows → ℕ → Bytes → Type 0
Holds rows a [] = rows a ≡ 0
Holds rows a (c ∷ n) = (rows a ≡ c) × Holds rows (a + 1) n

pub Spans-frame :
    (n : Bytes) (rows rows' : Rows) (a : ℕ)
    → ((i : ℕ) → i < a + length n → rows' i ≡ rows i)
    → Spans rows a n
    → Spans rows' a n
Spans-frame [] rows rows' a same h = tt
Spans-frame (c ∷ n) rows rows' a same h =
    (ground (arith, same a), Spans-frame n rows rows' (a + 1) (λ i k. same i (omega arith)) h.1)

pub Holds-frame :
    (n : Bytes) (rows rows' : Rows) (a : ℕ)
    → ((i : ℕ) → i < a + length n + 1 → rows' i ≡ rows i)
    → Holds rows a n
    → Holds rows' a n
Holds-frame [] rows rows' a same h = ground (arith, same a)
Holds-frame (c ∷ n) rows rows' a same h =
    (ground (arith, same a), Holds-frame n rows rows' (a + 1) (λ i k. same i (omega arith)) h.1)

-- What the copy of the characters `m` does.
pub record Copied (s : Parser) (m : Bytes) (t : Parser) : Type 0 where
  pub read : t.read_ptr ≡ s.read_ptr + length m
  pub depth : t.write_depth_ptr ≡ s.write_depth_ptr
  pub ptr : t.write_ptr ≡ s.write_ptr + length m
  pub spans : Spans t.rows (cell s.write_depth_ptr s.write_ptr) m
  pub frame : (a : ℕ) → a < cell s.write_depth_ptr s.write_ptr → t.rows a ≡ s.rows a

-- What follows a component: nothing, or a separator.
abbrev pub Starts : Bytes → Type 0
Starts rest = (peek rest ≡ slash) ⊎ (peek rest ≡ 0)

IsPlain-peek :
    (last : ℕ) (m rest : Bytes)
    → IsPlain last m
    → m ≢ []
    → (peek (m ++ rest) ≢ slash) × (peek (m ++ rest) ≢ 0)
IsPlain-peek last [] rest h k = absurd (k refl)
IsPlain-peek last (c ∷ m) rest h k = (h.0, h.1)

dispatch-plain :
    (c : ℕ) (m rest : Bytes) (s : Parser)
    → IsPlain s.last (c ∷ m)
    → 0 < s.read_ptr
    → dispatch c (peek (m ++ rest)) s ≡ copy_char c s
unfolding dispatch on_dot
dispatch-plain c [] rest s h r = ground arith
dispatch-plain c (d ∷ m) rest s h r = ground arith

copy-Copied :
    (c : ℕ) (m : Bytes) (s t : Parser) → Copied (advance c (copy_char c s)) m t → Copied s (c ∷ m) t
unfolding advance copy_char put
copy-Copied c m s t k = record {
  read = omega (arith, k.read);
  depth = ground (arith, k.depth);
  ptr = omega (arith, k.ptr);
  spans = (
    ground (arith, k.frame (cell s.write_depth_ptr s.write_ptr)),
    subst (λ a. Spans t.rows a m) (omega arith) k.spans,
  );
  frame = λ a h. ground (arith, k.frame a);
}

-- The characters of a name are copied one after the other.
pub scan-plain :
    (m rest : Bytes) (s : Parser)
    → IsPlain s.last m
    → 0 < s.read_ptr
    → s.read_ptr + length m ≤ 257
    → s.write_depth_ptr ≤ 128
    → (t : Parser) × (scan (m ++ rest) s ≡ scan rest t) × Copied s m t
unfolding scan
scan-plain [] rest s h r k d = (
  s,
  refl,
  record { read = omega arith; depth = refl; ptr = omega arith; spans = tt; frame = λ a q. refl },
)
scan-plain (c ∷ m) rest s h r k d =
    let (t, e, q) =
      scan-plain m rest (advance c (copy_char c s)) h.3 (omega arith) (omega arith) d in
    (t, ground (arith, dispatch-plain c m rest s h r, e), copy-Copied c m s t q)
