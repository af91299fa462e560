-- ===== src/Fs/Vfs/Tree/Names.antt =====
-- Names and the search for them.
use project_luciano.Base.{
  ◌≡◌, refl, ◌↔◌, inl, inr, true, Option, none, some, List, [], ◌∷◌, arith, All,
}
use project_luciano.Libc.{Bytes}
use project_luciano.Fs.World.{Ptr, World}
use project_luciano.Fs.Ramfs.Lookup.{IsChild, ptrs, Picks}
use project_luciano.Fs.Vfs.Tree.{name_eq, path_eq, pick}

pub name_eq_iff : (s t : Bytes) → (name_eq s t ≡ true) ↔ (s ≡ t)
unfolding name_eq
name_eq_iff [] [] = (λ e. refl, λ e. refl)
name_eq_iff [] (d ∷ t) = (λ e. ground arith, λ e. ground arith)
name_eq_iff (c ∷ s) [] = (λ e. ground arith, λ e. ground arith)
name_eq_iff (c ∷ s) (d ∷ t) =
    (λ e. ground (arith, (name_eq_iff s t).0), λ e. ground (arith, (name_eq_iff s t).1))

pub path_eq_iff : (s t : List Bytes) → (path_eq s t ≡ true) ↔ (s ≡ t)
unfolding path_eq
path_eq_iff [] [] = (λ e. refl, λ e. refl)
path_eq_iff [] (d ∷ t) = (λ e. ground arith, λ e. ground arith)
path_eq_iff (c ∷ s) [] = (λ e. ground arith, λ e. ground arith)
path_eq_iff (c ∷ s) (d ∷ t) = (
  λ e. ground (arith, (path_eq_iff s t).0, (name_eq_iff c d).0),
  λ e. ground (arith, (path_eq_iff s t).1, (name_eq_iff c d).1),
)

-- The search of the driver answers what `pick` does.
pub Picks-pick :
    (w : World) (kids : List (Ptr × Bytes)) (x : Bytes) (o : Option Ptr)
    → All (IsChild w) kids
    → Picks kids x o
    → pick w (ptrs kids) x ≡ o
unfolding pick
Picks-pick w [] x none h k = refl
Picks-pick w [] x (some p) h k = absurd k
Picks-pick w ((c, n) ∷ kids) x none ((ne, d, at, named, chars), h) (differ, k) =
    ground (arith, (name_eq_iff n x).0, Picks-pick w kids x none h k)
Picks-pick w ((c, n) ∷ kids) x (some p) ((ne, d, at, named, chars), h) (inl (same, q)) =
    ground (arith, (name_eq_iff n x).1)
Picks-pick w ((c, n) ∷ kids) x (some p) ((ne, d, at, named, chars), h) (inr (differ, k)) =
    ground (arith, (name_eq_iff n x).0, Picks-pick w kids x (some p) h k)

pub name_eq_comm : (s t : Bytes) → name_eq s t ≡ name_eq t s
unfolding name_eq
name_eq_comm [] [] = refl
name_eq_comm [] (d ∷ t) = refl
name_eq_comm (c ∷ s) [] = refl
name_eq_comm (c ∷ s) (d ∷ t) = ground (arith, name_eq_comm s t)
