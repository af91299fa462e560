-- ===== src/Console/Digits.antt =====
-- The numbers that debug.c prints, read back.
use project_luciano.Base.{
  ℕ, zero, suc, ◌+◌, ◌-◌, ◌*◌, ◌/◌, ◌%◌, ◌^◌, ◌<◌, ◌≡◌, ◌≢◌, ◌⊎◌, refl, sym, ap, ◌∙◌, inl, inr,
  true, Option, some, [], ◌∷◌, arith, ltb, ◌==◌, if◌then◌else◌, Bool-cases, All, ◌≤◌,
}
use native.Mathlib.Nat.{div-add-mod, mod-lt}
use project_luciano.Base.Int.{pos, negsuc}
use project_luciano.Libc.{Bytes}
use project_luciano.Console.{fill, unwind, decimal, printed, k_printf_d}

-- A digit's value, and the number that digits spell behind `acc`.
abbrev pub digit_value : ℕ → ℕ
digit_value c = if ltb c b'a' then c - b'0' else c - b'a' + 10

-- '0' to '9', or 'a' to 'f'.
abbrev pub IsDigit : ℕ → Type 0
IsDigit c = (b'0' ≤ c) × (c ≤ b'9') ⊎ (b'a' ≤ c) × (c ≤ b'f')

-- What a printer's digits have to be.
abbrev Writes : ℕ → (ℕ → ℕ) → Type 0
Writes base digit = (d : ℕ) → d < base → (digit_value (digit d) ≡ d) × IsDigit (digit d)

unfoldable pub read_digits : ℕ → ℕ → Bytes → ℕ
read_digits base acc [] = acc
read_digits base acc (c ∷ s) = read_digits base (acc * base + digit_value c) s

-- The same for the buffer, whose first digit is the last one.
spelled : ℕ → Bytes → ℕ
spelled base [] = 0
spelled base (c ∷ s) = spelled base s * base + digit_value c

read-unwind :
    (base : ℕ) (buf out : Bytes)
    → read_digits base 0 (unwind buf out) ≡ read_digits base (spelled base buf) out
unfolding unwind read_digits spelled
read-unwind base [] out = refl
read-unwind base (c ∷ buf) out = read-unwind base buf (c ∷ out)

-- The number has at most `room` digits.
abbrev Fits : ℕ → ℕ → ℕ → Type 0
Fits base zero n = n ≡ 0
Fits base (suc room) n = Fits base room (n / base)

fill-spelled :
    (room base : ℕ) (digit : ℕ → ℕ) (n : ℕ)
    → 0 < base
    → Writes base digit
    → Fits base room n
    → (buf : Bytes) × (fill room base digit n ≡ some buf) × All IsDigit buf × (spelled base buf ≡ n)
unfolding fill spelled
fill-spelled zero base digit n some_base inverse fits = ([], ground arith, tt, sym fits)
fill-spelled (suc room) base digit n some_base inverse fits =
    let (buf, e, chars, q) = fill-spelled room base digit (n / base) some_base inverse fits in
    elim (Bool-cases (n == 0)) [
      | inl nothing ↦ ([], ground arith, tt, ground arith)
      | inr more ↦ (
        digit (n % base) ∷ buf,
        ground (arith, e),
        ((inverse (n % base) (mod-lt n some_base)).1, chars),
        omega (
          arith,
          div-add-mod n base,
          ap (λ (t : ℕ). t * base) q,
          (inverse (n % base) (mod-lt n some_base)).0,
        ),
      )
    ]

decimal-Writes : Writes 10 decimal
decimal-Writes d h = (ground arith, ground arith)

All-unwind : (buf out : Bytes) → All IsDigit buf → All IsDigit out → All IsDigit (unwind buf out)
unfolding unwind
All-unwind [] out h k = k
All-unwind (c ∷ buf) out h k = All-unwind buf (c ∷ out) h.1 (h.0, k)

printed-fill :
    (room base : ℕ) (digit : ℕ → ℕ) (n : ℕ)
    → 0 < base
    → Writes base digit
    → Fits base room n
    → (out : Bytes) × (printed (fill room base digit n) ≡ some out)
      × All IsDigit out
      × (read_digits base 0 out ≡ n)
unfolding printed read_digits
printed-fill room base digit n some_base inverse fits =
    let (buf, e, chars, q) = fill-spelled room base digit n some_base inverse fits in
    (unwind buf [], ground (arith, e), All-unwind buf [] chars tt, read-unwind base buf [] ∙ q)

decimal-Fits : (n : ℕ) → n < 2 ^ 64 → Fits 10 32 n
decimal-Fits n h = omega arith

-- The output of a printer is one digit or more, and spells a number.
abbrev pub Spells : ℕ → Option Bytes → ℕ → Type 0
Spells base o n =
    (out : Bytes) × (o ≡ some out) × (out ≢ []) × All IsDigit out × (read_digits base 0 out ≡ n)

some_digit : (base n : ℕ) (out : Bytes) → 0 < n → read_digits base 0 out ≡ n → out ≢ []
unfolding read_digits
some_digit base n [] h e q = omega arith
some_digit base n (c ∷ out) h e q = ground (arith, q)

-- For a number from 1 to the largest `int`, `k_printf_d` prints the digits that spell it, and for its
-- negative '-' and the digits that spell the number.
pub k_printf_d_lem :
    (n : ℕ)
    → suc n < 2 ^ 31
    → Spells 10 (k_printf_d (pos (suc n))) (suc n)
      × ((out : Bytes) × (k_printf_d (negsuc n) ≡ some (b'-' ∷ out))
          × (read_digits 10 0 out ≡ suc n))
unfolding k_printf_d
k_printf_d_lem n h =
    let (out, e, chars, q) =
      printed-fill 32 10 decimal (suc n) (omega arith) decimal-Writes
        (decimal-Fits (suc n) (omega arith)) in
    let small : ltb n (2 ^ 31 - 1) ≡ true = ground arith in
    (
      (out, ground (arith, e), some_digit 10 (suc n) out (omega arith) q, chars, q),
      (out, rw (small, e) refl, q),
    )
