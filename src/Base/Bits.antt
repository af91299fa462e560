-- ===== src/Base/Bits.antt =====
-- Laws of `bit_and` and `bit_or` at variables: low masks, and the sum of disjoint fields.
use Prim.Native.Nat.{
  ℕ, zero, suc, ◌+◌, ◌*◌, ◌/◌, ◌%◌, ◌^◌, ◌-◌, ◌≤◌, ◌<◌, min, max, bit_and, bit_or, digits,
  bit_and-bitwise, bit_or-bitwise,
}
use mathlib.Core.Logic.{inl, inr}
use project_luciano.Base.Tests.{leb, Bool-cases}
use mathlib.Core.Path.{◌≡◌, refl, ap, ◌∙◌, sym}
use native.Mathlib.Omega.{arith}
use native.Mathlib.Nat.{pow-suc, div-div-eq-div-mul}

-- How `digits` depends on its bound: not at all, once the bound is as large as the number.
module _ (last : ℕ → ℕ) (op : ℕ → ℕ → ℕ) where
  one_more : (k x y : ℕ) → x ≤ k → digits last op (suc k) x y ≡ digits last op k x y
  one_more zero (suc x) y le = absurd (omega arith)
  one_more zero zero y le = refl
  one_more (suc k) zero y le = refl
  one_more (suc k) (suc x) y le =
      ap (λ (r : ℕ). r * 2 + op (suc x % 2) (y % 2)) (one_more k (suc x / 2) (y / 2) (omega arith))

  settled : (k goal x y : ℕ) → x ≤ goal → goal ≤ k → digits last op k x y ≡ digits last op goal x y
  settled zero goal x y low high =
      let same : 0 ≡ goal = omega arith in ap (λ (r : ℕ). digits last op r x y) same
  settled (suc k) goal x y low high = elim (Bool-cases (leb goal k)) [
    | inl below ↦
        let up : goal ≤ k = ground arith in one_more k x y (omega arith) ∙ settled k goal x y low up
    | inr above ↦
        let same : suc k ≡ goal = ground arith in ap (λ (r : ℕ). digits last op r x y) same
  ]

  halves :
      (x y : ℕ)
      → digits last op (suc x) (suc x) y
        ≡ digits last op (suc x / 2) (suc x / 2) (y / 2) * 2 + op (suc x % 2) (y % 2)
  halves x y =
      ap (λ (r : ℕ). r * 2 + op (suc x % 2) (y % 2))
        (settled x (suc x / 2) (suc x / 2) (y / 2) (omega arith) (omega arith))

pub zero-bit_and : (y : ℕ) → bit_and 0 y ≡ 0
zero-bit_and y = bit_and-bitwise 0 y

pub zero-bit_or : (y : ℕ) → bit_or 0 y ≡ y
zero-bit_or y = bit_or-bitwise 0 y

pub bit_and_step : (x y : ℕ) → bit_and x y ≡ min (x % 2) (y % 2) + 2 * bit_and (x / 2) (y / 2)
bit_and_step zero y = ground (arith, zero-bit_and y, zero-bit_and (y / 2))
bit_and_step (suc x) y =
    let whole = bit_and-bitwise (suc x) y in
    let half = bit_and-bitwise (suc x / 2) (y / 2) in
    omega (arith, whole, half, halves (λ _. 0) min x y)

pub bit_or_step : (x y : ℕ) → bit_or x y ≡ max (x % 2) (y % 2) + 2 * bit_or (x / 2) (y / 2)
bit_or_step zero y = ground (arith, zero-bit_or y, zero-bit_or (y / 2))
bit_or_step (suc x) y =
    let whole = bit_or-bitwise (suc x) y in
    let half = bit_or-bitwise (suc x / 2) (y / 2) in
    omega (arith, whole, half, halves (λ t. t) max x y)

-- By recursion on a bound that both `x` and its half stay below.
zero_below : (k x : ℕ) → x ≤ k → (bit_or x 0 ≡ x) × (bit_and x 0 ≡ 0)
zero_below zero x low =
    let none_left : x ≡ 0 = omega arith in rw none_left (zero-bit_or 0, zero-bit_and 0)
zero_below (suc k) x low = elim (Bool-cases (leb x k)) [
  | inl small ↦ zero_below k x (ground arith)
  | inr large ↦
      let e : x ≡ suc k = ground arith in
      let (o, a) = zero_below k (x / 2) (omega arith) in
      (omega (arith, o, bit_or_step x 0), omega (arith, a, bit_and_step x 0))
]

pub bit_or-zero : (x : ℕ) → bit_or x 0 ≡ x
bit_or-zero x = (zero_below x x (omega arith)).0

pub bit_and-zero : (x : ℕ) → bit_and x 0 ≡ 0
bit_and-zero x = (zero_below x x (omega arith)).1

double_pow : (q k : ℕ) → q * 2 ^ suc k ≡ 2 * (q * 2 ^ k)
double_pow q k = omega (arith, ap (λ (t : ℕ). q * t) (pow-suc 2 k))

-- A field above bit `k` and a field below it make up a sum.
pub bit_or_high_low : (k q r : ℕ) → r < 2 ^ k → bit_or (q * 2 ^ k) r ≡ q * 2 ^ k + r
bit_or_high_low zero q r h = ground (arith, bit_or-zero q)
bit_or_high_low (suc k) q r h = ground (
  arith,
  bit_or_step (q * 2 ^ suc k) r,
  double_pow q k,
  pow-suc 2 k,
  bit_or_high_low k q (r / 2) (omega (arith, pow-suc 2 k)),
)

bit_or_comm_below : (n a b : ℕ) → a ≤ n → b ≤ n → bit_or a b ≡ bit_or b a
bit_or_comm_below zero zero zero p q = refl
bit_or_comm_below zero (suc a) b p q = absurd (omega arith)
bit_or_comm_below zero zero (suc b) p q = absurd (omega arith)
bit_or_comm_below (suc n) a b p q = omega (
  arith,
  bit_or_step a b,
  bit_or_step b a,
  bit_or_comm_below n (a / 2) (b / 2) (omega arith) (omega arith),
)

pub bit_or_comm : (a b : ℕ) → bit_or a b ≡ bit_or b a
bit_or_comm a b = bit_or_comm_below (a + b) a b (omega arith) (omega arith)

pub bit_or_low_high : (k q r : ℕ) → r < 2 ^ k → bit_or r (q * 2 ^ k) ≡ q * 2 ^ k + r
bit_or_low_high k q r h = bit_or_comm r (q * 2 ^ k) ∙ bit_or_high_low k q r h

pow_pos : (k : ℕ) → 0 < 2 ^ k
pow_pos zero = omega arith
pow_pos (suc k) = omega (arith, pow_pos k, pow-suc 2 k)

mask_of_fields : (k q r : ℕ) → r < 2 ^ k → bit_and (q * 2 ^ k + r) (2 ^ k - 1) ≡ r
mask_of_fields zero q r h = ground (arith, bit_and-zero (q * 1 + r))
mask_of_fields (suc k) q r h = ground (
  arith,
  bit_and_step (q * 2 ^ suc k + r) (2 ^ suc k - 1),
  pow-suc 2 k,
  double_pow q k,
  pow_pos k,
  mask_of_fields k q (r / 2) (omega (arith, pow-suc 2 k)),
)

-- A mask of `k` ones keeps the remainder by `2 ^ k`.
pub bit_and_mask : (k a : ℕ) → bit_and a (2 ^ k - 1) ≡ a % 2 ^ k
bit_and_mask k a = ground (arith, pow_pos k, mask_of_fields k (a / 2 ^ k) (a % 2 ^ k))

half_shift : (a k : ℕ) → a / 2 ^ suc k ≡ a / 2 / 2 ^ k
half_shift a k = ap (λ t. a / t) (omega (arith, pow-suc 2 k)) ∙ sym (div-div-eq-div-mul a 2 (2 ^ k))

-- A mask of ones from bit `k` on (below bit `k + m`) drops the remainder by `2 ^ k`.
pub bit_and_high : (m k a : ℕ) → bit_and a ((2 ^ m - 1) * 2 ^ k) ≡ a / 2 ^ k % 2 ^ m * 2 ^ k
bit_and_high m zero a = ground (arith, bit_and_mask m a)
bit_and_high m (suc k) a = ground (
  arith,
  bit_and_step a ((2 ^ m - 1) * 2 ^ suc k),
  double_pow (2 ^ m - 1) k,
  double_pow (a / 2 / 2 ^ k % 2 ^ m) k,
  ap (λ (t : ℕ). t % 2 ^ m * 2 ^ suc k) (half_shift a k),
  bit_and_high m k (a / 2),
)
