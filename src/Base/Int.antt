-- ===== src/Base/Int.antt =====
-- Signed integers: the results of the functions that return `int` and `int64`.
use Prim.Native.Nat.{ℕ, ◌-◌, ◌^◌}
use package.project_luciano.Base.Tests.{ltb, if◌then◌else◌}

-- `negsuc n` is -(n + 1).
pub data ℤ : Type 0 where
  pos : ℕ → ℤ
  negsuc : ℕ → ℤ

-- The value of a bit pattern below 2 ^ 64 read as `int64`.
abbrev pub signed64 : ℕ → ℤ
signed64 n = if ltb n (2 ^ 63) then pos n else negsuc (2 ^ 64 - n - 1)

-- The value of a bit pattern below 2 ^ 32 read as `int`.
abbrev pub signed32 : ℕ → ℤ
signed32 n = if ltb n (2 ^ 31) then pos n else negsuc (2 ^ 32 - n - 1)
