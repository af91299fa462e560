-- ===== src/Fs/Path/Outcome.antt =====
-- Theorems about the result of vfs_aux_parse_path of kernel/vfs/vfs_dentry.c.
use project_luciano.Base.{
  ℕ, Bool-cases, inl, inr, ◌==◌, zero, suc, ◌+◌, ◌≤◌, ◌<◌, ◌≡◌, refl, sym, ap, ap₂, ◌∙◌, subst,
  some, List, [], ◌∷◌, arith, lt→ltb, length, All,
}
use mathlib.Core.Option
use project_luciano.Libc.{Bytes}
use project_luciano.Libc.Compare.{NoNul}
use project_luciano.Fs.Path.{
  Rows, cell, put, Parser, PathBuf, store_depth, with_depth, close, start, parse_path, string_at,
  component,
}
use project_luciano.Fs.Path.Limits.{parse_path_depth}
use project_luciano.Fs.Path.Resolve.{Segment, render, resolve, IsName, Holds}
use project_luciano.Fs.Path.Segments.{
  HoldsAll, HoldsAll-frame, At, closed, opened, HoldsAll-put, length-pos, scan-render,
}

-- The components below a depth, innermost first.
abbrev pub components : PathBuf → ℕ → List Bytes
components p zero = []
components p (suc i) = component p i ∷ components p i

string_at-Holds :
    (k : ℕ) (n : Bytes) (rows : Rows) (a : ℕ)
    → length n < k
    → NoNul n
    → Holds rows a n
    → string_at k rows a ≡ n
unfolding string_at
string_at-Holds zero n rows a h c q = absurd (omega arith)
string_at-Holds (suc k) [] rows a h c q = ground arith
string_at-Holds (suc k) (x ∷ n) rows a h c q =
    ground (arith, string_at-Holds k n rows (a + 1) (omega arith) c.1 q.1)

string_at-NoNul : (k : ℕ) (rows : Rows) (a : ℕ) → NoNul (string_at k rows a)
unfolding string_at
string_at-NoNul zero rows a = tt
string_at-NoNul (suc k) rows a = elim (Bool-cases (rows a == 0)) [
  | inl end ↦ rw end tt
  | inr char ↦ rw char (λ q. ground (arith, char, q), string_at-NoNul k rows (a + 1))
]

pub component-NoNul : (p : PathBuf) (i : ℕ) → NoNul (component p i)
unfolding component
component-NoNul p i = string_at-NoNul 258 p.path _

components-HoldsAll :
    (st : List Bytes) (p : PathBuf) → HoldsAll p.path st → components p (length st) ≡ st
unfolding component
components-HoldsAll [] p h = refl
components-HoldsAll (n ∷ st) p h =
    ap₂ ◌∷◌ (string_at-Holds 258 n p.path _ (omega (arith, h.1)) h.2 h.0)
      (components-HoldsAll st p h.3)

close-closed : (s : Parser) → s.write_ptr ≡ 0 → close s ≡ with_depth s.rows s.write_depth_ptr
unfolding close
close-closed s e = ground arith

close-opened :
    (s : Parser)
    → 0 < s.write_ptr
    → close s
      ≡ with_depth (put s.rows (cell s.write_depth_ptr s.write_ptr) 0) (s.write_depth_ptr + 1)
unfolding close
close-opened s h = rw (lt→ltb 0 s.write_ptr h)

At-depth : {st : List Bytes} (s : Parser) → At s st → (close s).depth ≡ length st
unfolding close
At-depth s (closed k) = ground (arith, k.ptr, k.depth)
At-depth s (opened {n} o) = ground (arith, o.ptr, o.depth, length-pos n o.some_char)

abbrev Leaves : PathBuf → List Bytes → Type 0
Leaves p st = (p.depth ≡ length st) × HoldsAll p.path st

-- The field behind the array is no part of the names, where these are at most 128.
HoldsAll-store_depth :
    (st : List Bytes) (depth : ℕ) (rows : Rows)
    → length st ≤ 128
    → HoldsAll rows st
    → HoldsAll (store_depth depth rows) st
unfolding store_depth
HoldsAll-store_depth st depth rows h k = HoldsAll-frame st rows _ (λ i below. ground arith) k

close-Leaves : {st : List Bytes} (s : Parser) → length st ≤ 128 → At s st → Leaves (close s) st
close-Leaves {st} s few (closed k) =
    subst (λ p. Leaves p st) (sym (close-closed s k.ptr))
      (k.depth, HoldsAll-store_depth st _ _ few k.stack)
close-Leaves s few (opened {n} {st} o) =
    subst (λ p. Leaves p (n ∷ st))
      (sym (close-opened s (omega (arith, o.ptr, length-pos n o.some_char))))
      (omega (arith, o.depth), HoldsAll-store_depth (n ∷ st) _ _ few (HoldsAll-put s n st o))

-- A path of at most 256 characters that starts with a separator, or is empty, and each of whose
-- components is empty, ".", "..", or a name without two adjacent dots, is accepted, and the components it is parsed into are the names that are left when the path is
-- followed as a stack: "." and an empty component change nothing, ".." drops the innermost name,
-- and does nothing at the root. The former contents of the array do not matter.
pub parse_path-resolve :
    (junk : Rows) (gs : List Segment)
    → All IsName gs
    → length (render gs) ≤ 256
    → (p : PathBuf) × (parse_path junk (render gs) ≡ some p)
      × (p.depth ≡ length (resolve [] gs))
      × (components p p.depth ≡ resolve [] gs)
unfolding parse_path
parse_path-resolve junk gs h fits =
    let (t, e, a) =
      scan-render gs (start junk) [] (closed (record { ptr = refl; depth = refl; stack = tt }))
        (omega arith) h (omega arith) in
    let (p, found, depth) = parse_path_depth junk (render gs) (omega arith) in
    let same : close t ≡ p = ground (arith, e, found) in
    let (d, q) = close-Leaves t (omega (arith, ap (λ r. r.depth) same, At-depth t a, depth)) a in
    (
      close t,
      ap (Option.map close) e,
      d,
      ap (components (close t)) d ∙ components-HoldsAll (resolve [] gs) (close t) q,
    )
