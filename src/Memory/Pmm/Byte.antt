-- ===== src/Memory/Pmm/Byte.antt =====
-- One byte of the bitmap, by evaluation over the 256 bytes and 8 bits.
use project_luciano.Base.{
  ℕ, ◌<◌, ◌≡◌, refl, subst, Bool, true, false, not, ◌&&◌, ◌||◌, Option, none, some, arith, ltb,
  ◌==◌, ltb→lt, lt→ltb,
}
use project_luciano.Base.Digits.{all_below, all_below_sound}
use project_luciano.Memory.Pmm.{set_bit, clear_bit, bit_set, first_clear}

abbrev agree : Bool → Bool → Bool
agree true b = b
agree false b = not b

agree→eq : (a b : Bool) → agree a b ≡ true → a ≡ b
agree→eq true true h = refl
agree→eq true false h = ground arith
agree→eq false true h = ground arith
agree→eq false false h = refl

-- A table over every byte, bit and other bit.
table :
    (p : ℕ → ℕ → ℕ → Bool)
    → all_below 256 (λ b. all_below 8 (λ j. all_below 8 (λ k. p b j k))) ≡ true
    → (b j k : ℕ) → b < 256
    → j < 8
    → k < 8
    → p b j k ≡ true
table p t b j k hb hj hk =
    all_below_sound 8 (λ k. p b j k) k
      (all_below_sound 8 (λ j. all_below 8 (λ k. p b j k)) j (all_below_sound 256 _ b t hb) hj) hk

set_table :
    all_below 256 (λ b.
      all_below 8
        (λ j. all_below 8 (λ k. agree (bit_set (set_bit b j) k) ((k == j) || bit_set b k))))
    ≡ true
unfolding all_below bit_set set_bit
set_table = refl

clear_table :
    all_below 256 (λ b.
      all_below 8
        (λ j. all_below 8 (λ k. agree (bit_set (clear_bit b j) k) (not (k == j) && bit_set b k))))
    ≡ true
unfolding all_below bit_set clear_bit
clear_table = refl

size_table :
    all_below 256
      (λ b. all_below 8 (λ j. all_below 8 (λ k. ltb (set_bit b j) 256 && ltb (clear_bit b j) 256)))
    ≡ true
unfolding all_below set_bit clear_bit
size_table = refl

pub bit_set-set_bit :
    (b j k : ℕ) → b < 256 → j < 8 → k < 8 → bit_set (set_bit b j) k ≡ ((k == j) || bit_set b k)
bit_set-set_bit b j k hb hj hk = agree→eq _ _ (table _ set_table b j k hb hj hk)

pub bit_set-clear_bit :
    (b j k : ℕ)
    → b < 256
    → j < 8
    → k < 8
    → bit_set (clear_bit b j) k ≡ (not (k == j) && bit_set b k)
bit_set-clear_bit b j k hb hj hk = agree→eq _ _ (table _ clear_table b j k hb hj hk)

pub set_bit-lt : (b j : ℕ) → set_bit b j < 256
unfolding set_bit
set_bit-lt b j = omega arith

pub clear_bit-lt : (b j : ℕ) → b < 256 → j < 8 → clear_bit b j < 256
clear_bit-lt b j hb hj =
    let t = table _ size_table b j 0 hb hj (omega arith) in
    ltb→lt (clear_bit b j) 256 (ground arith)

-- The first clear bit, checked against the bits themselves.
abbrev is_first : ℕ → Option ℕ → Bool
is_first b none = b == 255
is_first b (some j) =
    (ltb j 8 && not (b == 255))
    && (not (bit_set b j) && all_below 8 (λ k. not (ltb k j) || bit_set b k))

first_table : all_below 256 (λ b. is_first b (first_clear 8 0 b)) ≡ true
unfolding all_below first_clear
first_table = refl

pub first_clear_lem :
    (b j : ℕ)
    → b < 256
    → first_clear 8 0 b ≡ some j
    → (j < 8) × (bit_set b j ≡ false) × ((k : ℕ) → k < j → bit_set b k ≡ true)
first_clear_lem b j hb e =
    let t : is_first b (some j) ≡ true =
      subst (λ o. is_first b o ≡ true) e (all_below_sound 256 _ b first_table hb) in
    let lt : j < 8 = ground arith in
    (
      lt,
      ground arith,
      λ k hk.
          let r =
            all_below_sound 8 (λ k. not (ltb k j) || bit_set b k) k (ground arith) (omega arith) in
          ground (arith, lt→ltb k j hk),
    )

pub first_clear-none : (b : ℕ) → b < 256 → first_clear 8 0 b ≡ none → b ≡ 255
first_clear-none b hb e =
    let t : is_first b none ≡ true =
      subst (λ o. is_first b o ≡ true) e (all_below_sound 256 _ b first_table hb) in
    ground arith

full_table : all_below 8 (λ k. bit_set 255 k) ≡ true
unfolding all_below bit_set
full_table = refl

pub bit_set_full : (k : ℕ) → k < 8 → bit_set 255 k ≡ true
bit_set_full k h = all_below_sound 8 _ k full_table h
