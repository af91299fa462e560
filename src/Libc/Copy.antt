-- ===== src/Libc/Copy.antt =====
-- Theorems about memcpy and memset of kernel/libc/string.c.
use project_luciano.Base.{
  ℕ, zero, suc, ◌%◌, ◌≤◌, ◌≡◌, refl, ap, some, [], ◌∷◌, ◌++◌, arith, length, take, drop, replicate,
}
use mathlib.Core.Option
use project_luciano.Libc.{Bytes, memcpy, memset}

-- Within both blocks `memcpy` replaces the first `n` bytes of the destination, and no other.
pub memcpy_lem :
    (dst src : Bytes) (n : ℕ)
    → n ≤ length dst
    → n ≤ length src
    → memcpy dst src n ≡ some (take n src ++ drop n dst)
unfolding memcpy
memcpy_lem dst src zero h k = refl
memcpy_lem [] src (suc n) h k = absurd (omega arith)
memcpy_lem (d ∷ dst) [] (suc n) h k = absurd (omega arith)
memcpy_lem (d ∷ dst) (s ∷ src) (suc n) h k =
    ap (Option.map (λ rest. s ∷ rest)) (memcpy_lem dst src n (omega arith) (omega arith))

-- `memset` fills the first `n` bytes with the low byte of the value, and keeps the others.
pub memset_lem :
    (p : Bytes) (value n : ℕ)
    → n ≤ length p
    → memset p value n ≡ some (replicate n (value % 256) ++ drop n p)
unfolding memset
memset_lem p value zero h = refl
memset_lem [] value (suc n) h = absurd (omega arith)
memset_lem (d ∷ p) value (suc n) h =
    ap (Option.map (λ rest. (value % 256) ∷ rest)) (memset_lem p value n (omega arith))
