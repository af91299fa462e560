-- ===== src/Fs/Vfs/Tree/Search.antt =====
-- Lists of children one behind the other, and the search in them.
use project_luciano.Base.{
  ◌≡◌, refl, ap, Bool, true, false, ◌&&◌, Option, none, some, List, [], ◌∷◌, ◌++◌, arith, All,
}
use project_luciano.Libc.{Bytes}
use project_luciano.Fs.World.{Ptr, World}
use project_luciano.Fs.Ramfs.Lookup.{ptrs}
use project_luciano.Fs.Vfs.Tree.{pick}

abbrev pub or_else : Option Ptr → Option Ptr → Option Ptr
or_else none r = r
or_else (some c) r = some c

pub and_false : (u : Bool) → u && false ≡ false
and_false true = refl
and_false false = refl

pub and_true : (u : Bool) → u && true ≡ u
and_true true = refl
and_true false = refl

pub or_else-none : (o : Option Ptr) → or_else o none ≡ o
or_else-none none = refl
or_else-none (some a) = refl

pub pick-append :
    (w : World) (cs ds : List Ptr) (x : Bytes)
    → pick w (cs ++ ds) x ≡ or_else (pick w cs x) (pick w ds x)
unfolding pick
pick-append w [] ds x = refl
pick-append w (c ∷ cs) ds x = ground (arith, pick-append w cs ds x)

pub ptrs-append : (xs ys : List (Ptr × Bytes)) → ptrs (xs ++ ys) ≡ ptrs xs ++ ptrs ys
ptrs-append [] ys = refl
ptrs-append ((c, n) ∷ xs) ys = ap (λ zs. c ∷ zs) (ptrs-append xs ys)

pub All-append {ℓ κ} :
    {A : Type ℓ} (P : A → Type κ) (xs ys : List A) → All P xs → All P ys → All P (xs ++ ys)
All-append P [] ys h k = k
All-append P (x ∷ xs) ys h k = (h.0, All-append P xs ys h.1 k)
