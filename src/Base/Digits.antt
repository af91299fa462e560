-- ===== src/Base/Digits.antt =====
-- Facts over a byte, by evaluation at every value.
use Prim.Native.Nat.{ℕ, zero, suc, ◌<◌}
use mathlib.Core.Path.{◌≡◌, ap, sym, ◌∙◌}
use mathlib.Core.Bool.{Bool, true, ◌&&◌}
use mathlib.Core.Logic.{inl, inr}
use native.Mathlib.Omega.{arith}
use project_luciano.Base.Tests.{ltb, Bool-cases}

-- The largest value is tested last.
unfoldable pub all_below : ℕ → (ℕ → Bool) → Bool
all_below zero _ = true
all_below (suc k) test = all_below k test && test k

pub all_below_sound :
    (limit : ℕ) (test : ℕ → Bool) (i : ℕ) → all_below limit test ≡ true → i < limit → test i ≡ true
unfolding all_below
all_below_sound zero test i passed small = absurd (omega arith)
all_below_sound (suc k) test i passed small = elim (Bool-cases (ltb i k)) [
  | inl earlier ↦ all_below_sound k test i (ground arith) (ground arith)
  | inr largest ↦
      let here : k ≡ i = ground arith in
      let tested : test k ≡ true = ground arith in ap test (sym here) ∙ tested
]
