-- ===== src/Fs/Path/Segments/Stacks.antt =====
-- The stack of names as the array of rows of kernel/vfs/vfs_dentry.c holds it.
use project_luciano.Base.{ℕ, ◌+◌, ◌≤◌, ◌<◌, ◌≡◌, refl, ◌≢◌, List, [], ◌∷◌, arith, length}
use project_luciano.Libc.{Bytes}
use project_luciano.Libc.Compare.{NoNul}
use project_luciano.Fs.Path.{Rows, cell, put, Parser}
use project_luciano.Fs.Path.Resolve.{Spans, Holds, Holds-frame}

-- The rows of a stack, innermost name first: each name fits its row, with its terminator.
abbrev pub HoldsAll : Rows → List Bytes → Type 0
HoldsAll rows [] = Unit
HoldsAll rows (n ∷ st) =
    Holds rows (cell (length st) 0) n × (length n ≤ 255) × NoNul n × HoldsAll rows st

pub HoldsAll-frame :
    (st : List Bytes) (rows rows' : Rows)
    → ((i : ℕ) → i < cell (length st) 0 → rows' i ≡ rows i)
    → HoldsAll rows st
    → HoldsAll rows' st
HoldsAll-frame [] rows rows' same h = tt
HoldsAll-frame (n ∷ st) rows rows' same h = (
  Holds-frame n rows rows' (cell (length st) 0) (λ i k. same i (omega (arith, h.1))) h.0,
  h.1,
  h.2,
  HoldsAll-frame st rows rows' (λ i k. same i (omega arith)) h.3,
)

pub record Closed (s : Parser) (st : List Bytes) : Type 0 where
  pub ptr : s.write_ptr ≡ 0
  pub depth : s.write_depth_ptr ≡ length st
  pub stack : HoldsAll s.rows st

pub record Opened (s : Parser) (n : Bytes) (st : List Bytes) : Type 0 where
  pub ptr : s.write_ptr ≡ length n
  pub depth : s.write_depth_ptr ≡ length st
  pub some_char : n ≢ []
  pub fits : length n ≤ 255
  pub chars : NoNul n
  pub spans : Spans s.rows (cell (length st) 0) n
  pub stack : HoldsAll s.rows st

-- The state between two components.
pub data At (s : Parser) : List Bytes → Type 0 where
  closed : {st : List Bytes} → Closed s st → At s st
  opened : {n : Bytes} {st : List Bytes} → Opened s n st → At s (n ∷ st)

-- The terminator behind a span.
pub Spans-put :
    (n : Bytes) (rows : Rows) (a at : ℕ)
    → at ≡ a + length n
    → Spans rows a n
    → Holds (put rows at 0) a n
unfolding put
Spans-put [] rows a at e h = ground arith
Spans-put (c ∷ n) rows a at e h = (ground arith, Spans-put n rows (a + 1) at (omega arith) h.1)

pub put-below : (rows : Rows) (at v i : ℕ) → i < at → put rows at v i ≡ rows i
unfolding put
put-below rows at v i h = ground arith

pub length-pos : (n : Bytes) → n ≢ [] → 0 < length n
length-pos [] h = absurd (h refl)
length-pos (c ∷ n) h = omega arith

pub HoldsAll-put :
    (s : Parser) (n : Bytes) (st : List Bytes)
    → Opened s n st
    → HoldsAll (put s.rows (cell s.write_depth_ptr s.write_ptr) 0) (n ∷ st)
HoldsAll-put s n st o = (
  Spans-put n s.rows (cell (length st) 0) _ (omega (arith, o.depth, o.ptr)) o.spans,
  o.fits,
  o.chars,
  HoldsAll-frame st s.rows _ (λ i k. put-below s.rows _ 0 i (omega (arith, o.depth, o.ptr)))
      o.stack,
)
