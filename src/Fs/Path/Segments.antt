-- ===== src/Fs/Path/Segments.antt =====
-- The parser over whole components: what stands in the array after each of them.
pub mod Stacks
use project_luciano.Base.{
  ℕ, ◌+◌, ◌-◌, ◌≤◌, ◌<◌, ◌≡◌, refl, sym, ◌∙◌, subst, ◌≢◌, inl, inr, some, List, [], ◌∷◌, ◌++◌,
  arith, lt→ltb, length, length-append, All,
}
use project_luciano.Libc.{Bytes}
use project_luciano.Libc.Compare.{NoNul}
use project_luciano.Fs.Path.{
  slash, dot, Rows, cell, put, Parser, copy_char, on_slash, on_dot, dispatch, advance, peek, scan,
}
use project_luciano.Fs.Path.Limits.{IsBounded, step-IsBounded, read_ptr-step}
use project_luciano.Fs.Path.Resolve.{
  Segment, name, here, up, blank, text, render, enter, resolve, IsPlain, IsName, Spans, Holds,
  Holds-frame, scan-plain, Starts,
}
pub use project_luciano.Fs.Path.Segments.Stacks.{
  closed, opened, HoldsAll, HoldsAll-frame, Closed, Opened, At, length-pos, HoldsAll-put,
}
use project_luciano.Fs.Path.Segments.Stacks.{Spans-put, put-below}

on_slash-closed : (s : Parser) → s.write_ptr ≡ 0 → on_slash s ≡ s
unfolding on_slash
on_slash-closed s e = ground arith

on_slash-opened :
    (s : Parser)
    → 0 < s.write_ptr
    → on_slash s ≡ record s {
      rows = put s.rows (cell s.write_depth_ptr s.write_ptr) 0;
      write_depth_ptr = s.write_depth_ptr + 1;
      write_ptr = 0;
    }
unfolding on_slash
on_slash-opened s h = rw (lt→ltb 0 s.write_ptr h)

on_slash-Closed : {st : List Bytes} (s : Parser) → At s st → Closed (on_slash s) st
on_slash-Closed s (closed k) = rw (on_slash-closed s k.ptr) k
on_slash-Closed s (opened {n} {st} o) =
    rw (on_slash-opened s (omega (arith, o.ptr, length-pos n o.some_char)))
      (record { ptr = refl; depth = omega (arith, o.depth); stack = HoldsAll-put s n st o })

slash-Closed :
    {st : List Bytes} (right : ℕ) (s : Parser)
    → At s st
    → Closed (advance slash (dispatch slash right s)) st
unfolding advance dispatch
slash-Closed right s k =
    let c = on_slash-Closed s k in record { ptr = c.ptr; depth = c.depth; stack = c.stack }

-- What a whole component leaves.
record Entered (s : Parser) (g : Segment) (st : List Bytes) (t : Parser) : Type 0 where
  state : At t (enter st g)
  read : t.read_ptr ≡ s.read_ptr + length (text g)
  bound : IsBounded t

NoNul-plain : (last : ℕ) (n : Bytes) → IsPlain last n → NoNul n
NoNul-plain last [] h = tt
NoNul-plain last (c ∷ n) h = (h.1, NoNul-plain c n h.3)

enter-name :
    (n rest : Bytes) (s : Parser) (st : List Bytes)
    → Closed s st
    → IsBounded s
    → s.last ≡ slash
    → 0 < s.read_ptr
    → IsName (name n)
    → s.read_ptr + length n ≤ 256
    → (t : Parser) × (scan (n ++ rest) s ≡ scan rest t) × Entered s (name n) st t
unfolding enter text
enter-name n rest s st k b l r h fits =
    let (t, e, q) =
      scan-plain n rest s (subst (λ c. IsPlain c n) (sym l) h.1) r (omega arith) (omega arith) in
    (
      t,
      e,
      record {
        state = opened (record {
          ptr = omega (arith, q.ptr, k.ptr);
          depth = q.depth ∙ k.depth;
          some_char = h.0;
          fits = omega arith;
          chars = NoNul-plain slash n h.1;
          spans = subst (λ a. Spans t.rows a n) (omega (arith, k.ptr, k.depth)) q.spans;
          stack =
              HoldsAll-frame st s.rows t.rows (λ i j. q.frame i (omega (arith, k.depth))) k.stack;
        });
        read = q.read;
        bound = omega (arith, q.read, q.depth, q.ptr);
      },
    )

-- The lone dot writes nothing.
enter-here :
    (rest : Bytes) (s : Parser) (st : List Bytes)
    → Closed s st
    → IsBounded s
    → s.last ≡ slash
    → 0 < s.read_ptr
    → Starts rest
    → s.read_ptr + 1 ≤ 256
    → (t : Parser) × (scan (dot ∷ rest) s ≡ scan rest t) × Entered s here st t
unfolding enter text scan dispatch on_dot advance
enter-here rest s st k b l r h fits = (
  advance dot s,
  ground arith,
  record {
    state = closed (record { ptr = k.ptr; depth = k.depth; stack = k.stack });
    read = omega arith;
    bound = omega arith;
  },
)

-- The stack without its innermost name.
abbrev popped : List Bytes → List Bytes
popped [] = []
popped (_ ∷ st) = st

length-popped : (st : List Bytes) → length (popped st) ≡ length st - 1
length-popped [] = omega arith
length-popped (_ ∷ st) = omega arith

HoldsAll-popped : (st : List Bytes) (rows : Rows) → HoldsAll rows st → HoldsAll rows (popped st)
HoldsAll-popped [] rows h = tt
HoldsAll-popped (_ ∷ st) rows h = h.3

advance-last : (c : ℕ) (s : Parser) → (advance c s).last ≡ c
unfolding advance
advance-last c s = refl

-- Two dots: the first is copied, the second takes it back and drops a name.
enter-up :
    (rest : Bytes) (s : Parser) (st : List Bytes)
    → Closed s st
    → IsBounded s
    → s.last ≡ slash
    → 0 < s.read_ptr
    → s.read_ptr + 2 ≤ 256
    → (t : Parser) × (scan (dot ∷ dot ∷ rest) s ≡ scan rest t)
      × Closed t (popped st)
      × (t.read_ptr ≡ s.read_ptr + 2)
      × IsBounded t
unfolding scan dispatch on_dot advance copy_char
enter-up rest s st k b l r h = (
  record {
    rows = put s.rows (cell s.write_depth_ptr s.write_ptr) dot;
    read_ptr = s.read_ptr + 1 + 1;
    write_depth_ptr = s.write_depth_ptr - 1;
    write_ptr = 0;
    last = dot;
  },
  ground arith,
  record {
    ptr = refl;
    depth = omega (arith, k.depth, length-popped st);
    stack = HoldsAll-popped st _ (
        HoldsAll-frame st s.rows _ (λ i j. put-below s.rows _ dot i (omega (arith, k.depth, k.ptr)))
          k.stack);
  },
  omega arith,
  omega arith,
)

enter-Entered :
    (g : Segment) (rest : Bytes) (s : Parser) (st : List Bytes)
    → Closed s st
    → IsBounded s
    → s.last ≡ slash
    → 0 < s.read_ptr
    → IsName g
    → Starts rest
    → s.read_ptr + length (text g) ≤ 256
    → (t : Parser) × (scan (text g ++ rest) s ≡ scan rest t) × Entered s g st t
unfolding text enter
enter-Entered (name n) rest s st k b l r h st' fits = enter-name n rest s st k b l r h fits
enter-Entered here rest s st k b l r h st' fits = enter-here rest s st k b l r st' fits
enter-Entered blank rest s st k b l r h st' fits =
    (s, refl, record { state = closed k; read = omega arith; bound = b })
enter-Entered up rest s [] k b l r h st' fits =
    let (t, e, c, q, d) = enter-up rest s [] k b l r fits in
    (t, e, record { state = closed c; read = q; bound = d })
enter-Entered up rest s (n ∷ st) k b l r h st' fits =
    let (t, e, c, q, d) = enter-up rest s (n ∷ st) k b l r fits in
    (t, e, record { state = closed c; read = q; bound = d })

render-Starts : (gs : List Segment) → Starts (render gs)
unfolding render
render-Starts [] = inr refl
render-Starts (g ∷ gs) = inl refl

-- The parser follows the stack through all the components.
pub scan-render :
    (gs : List Segment) (s : Parser) (st : List Bytes)
    → At s st
    → IsBounded s
    → All IsName gs
    → s.read_ptr + length (render gs) ≤ 256
    → (t : Parser) × (scan (render gs) s ≡ some t) × At t (resolve st gs)
unfolding render resolve scan
scan-render [] s st k b h fits = (s, refl, k)
scan-render (g ∷ gs) s st k b h fits =
    let rest = text g ++ render gs in
    let s' = advance slash (dispatch slash (peek rest) s) in
    let size : length rest ≡ length (text g) + length (render gs) =
      length-append (text g) (render gs) in
    let read : s'.read_ptr ≡ s.read_ptr + 1 = read_ptr-step slash (peek rest) s in
    let (t, e, q) =
      enter-Entered g (render gs) s' st (slash-Closed (peek rest) s k)
        (step-IsBounded slash (peek rest) s b) (advance-last slash (dispatch slash (peek rest) s))
        (omega arith) h.0 (render-Starts gs) (omega arith) in
    let (u, f, a) = scan-render gs t (enter st g) q.state q.bound h.1 (omega (arith, q.read)) in
    (u, ground (arith, e, f), a)
