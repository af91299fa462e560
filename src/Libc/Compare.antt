-- ===== src/Libc/Compare.antt =====
-- Theorems about strlen, strcmp and memcmp of kernel/libc/string.c.
use project_luciano.Base.{
  ℕ, zero, suc, ◌+◌, ◌-◌, ◌<◌, ◌≤◌, ◌≡◌, ◌≢◌, refl, ap, ◌↔◌, ◌⊎◌, inl, inr, Bool, true, false,
  Option, none, some, List, [], ◌∷◌, ◌++◌, ◌==◌, arith, All, length, take, ==_iff, ==_refl, ==_ne,
  Bool-cases,
}
use project_luciano.Base.Int.{ℤ, pos}
use project_luciano.Libc.{Bytes, cstr, byte_diff, strlen, strcmp, memcmp}

-- The bytes of a string value: none of them is the terminator.
abbrev pub NoNul : Bytes → Type 0
NoNul s = All (λ c. c ≢ 0) s

-- `strlen` counts the bytes before the first terminator, whatever follows it.
pub strlen-append : (s rest : Bytes) → NoNul s → strlen (s ++ (0 ∷ rest)) ≡ some (length s)
unfolding strlen
strlen-append [] rest h = refl
strlen-append (c ∷ s) rest h = ground (arith, strlen-append s rest h.1)

pub strlen-cstr : (s : Bytes) → NoNul s → strlen (cstr s) ≡ some (length s)
unfolding strlen
strlen-cstr [] h = refl
strlen-cstr (c ∷ s) h = ground (arith, strlen-cstr s h.1)

pub strcmp_self : (s : Bytes) → strcmp (cstr s) (cstr s) ≡ some (pos 0)
unfolding strcmp
strcmp_self [] = refl
strcmp_self (c ∷ s) = ground (arith, strcmp_self s)

pub eq_of_strcmp :
    (s t : Bytes) → NoNul s → NoNul t → strcmp (cstr s) (cstr t) ≡ some (pos 0) → s ≡ t
unfolding strcmp
eq_of_strcmp [] [] h k e = refl
eq_of_strcmp [] (y ∷ t) h k e = ground arith
eq_of_strcmp (x ∷ s) [] h k e = ground arith
eq_of_strcmp (x ∷ s) (y ∷ t) h k e = ground (arith, eq_of_strcmp s t h.1 k.1)

-- On two strings `strcmp` returns 0 exactly when they are the same string.
pub strcmp_iff :
    (s t : Bytes) → NoNul s → NoNul t → (strcmp (cstr s) (cstr t) ≡ some (pos 0)) ↔ (s ≡ t)
strcmp_iff s t h k = (
  eq_of_strcmp s t h k,
  λ e. project_luciano.Base.subst (λ u. strcmp (cstr s) (cstr u) ≡ some (pos 0)) e (strcmp_self s),
)

-- On two strings `strcmp` always returns: it reads no byte past either terminator.
pub strcmp_total : (s t : Bytes) → (d : ℤ) × (strcmp (cstr s) (cstr t) ≡ some d)
unfolding strcmp
strcmp_total [] [] = (pos 0, refl)
strcmp_total [] (y ∷ t) = (byte_diff 0 y, refl)
strcmp_total (x ∷ s) [] = elim (Bool-cases (x == 0)) [
  | inl z ↦ (byte_diff x 0, ground arith)
  | inr z ↦ (byte_diff x 0, ground arith)
]
strcmp_total (x ∷ s) (y ∷ t) = elim (Bool-cases (x == 0)) [
  | inl z ↦ (byte_diff x y, ground arith)
  | inr z ↦ elim (Bool-cases (x == y)) [
    | inl e ↦ let (d, r) = strcmp_total s t in (d, ground arith)
    | inr e ↦ (byte_diff x y, ground arith)
  ]
]

-- `memcmp` returns 0 exactly when the first `n` bytes of both blocks agree.
pub memcmp_iff :
    (a b : Bytes) (n : ℕ)
    → n ≤ length a
    → n ≤ length b
    → (memcmp a b n ≡ some (pos 0)) ↔ (take n a ≡ take n b)
unfolding memcmp
memcmp_iff a b zero h k = (λ _. refl, λ _. refl)
memcmp_iff [] b (suc n) h k = absurd (omega arith)
memcmp_iff (x ∷ a) [] (suc n) h k = absurd (omega arith)
memcmp_iff (x ∷ a) (y ∷ b) (suc n) h k =
    let ih = memcmp_iff a b n (omega arith) (omega arith) in
    (λ e. ground (arith, ih.0), λ e. ground (arith, ih.1))
