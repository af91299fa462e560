-- ===== src/Libc.antt =====
-- kernel/libc/string.c and kernel/lib/kstring.c. A pointer into a block of memory is the list of
-- the bytes from there to the block's end; a read or write past the end is `none`.
pub mod Compare
pub mod Copy
use project_luciano.Base.{
  ℕ, zero, suc, ◌+◌, ◌-◌, ◌%◌, ◌<◌, ◌≡◌, Bool, true, false, Option, none, some, List, [], ◌∷◌, ◌==◌,
  leb, if◌then◌else◌,
}
use project_luciano.Base.Int.{ℤ, pos, negsuc}
use mathlib.Core.Option

abbrev pub Bytes : Type 0
Bytes = List ℕ

-- The terminated block that a string literal or a `kstrdup` result stands for.
abbrev pub cstr : Bytes → Bytes
cstr [] = 0 ∷ []
cstr (c ∷ s) = c ∷ cstr s

-- `*a - *b` of two bytes, as an `int`.
abbrev pub byte_diff : ℕ → ℕ → ℤ
byte_diff a b = if leb b a then pos (a - b) else negsuc (b - a - 1)

pub strlen : Bytes → Option ℕ
strlen [] = none
strlen (c ∷ s) = if c == 0 then some 0 else Option.map suc (strlen s)

-- The loop runs while `*a` is not the terminator and the bytes agree.
pub strcmp : Bytes → Bytes → Option ℤ
strcmp [] b = none
strcmp (x ∷ a) [] = none
strcmp (x ∷ a) (y ∷ b) =
    if x == 0 then some (byte_diff x y) else if x == y then strcmp a b else some (byte_diff x y)

-- `n` counts the bytes that are left to compare.
unfoldable pub memcmp : Bytes → Bytes → ℕ → Option ℤ
memcmp a b zero = some (pos 0)
memcmp [] b (suc n) = none
memcmp (x ∷ a) [] (suc n) = none
memcmp (x ∷ a) (y ∷ b) (suc n) = if x == y then memcmp a b n else some (byte_diff x y)

-- The destination block after the loop; `(uint8_t)value` is the value modulo 256.
pub memset : Bytes → ℕ → ℕ → Option Bytes
memset p value zero = some p
memset [] value (suc n) = none
memset (_ ∷ p) value (suc n) = Option.map (λ rest. (value % 256) ∷ rest) (memset p value n)

-- The two blocks do not overlap.
pub memcpy : Bytes → Bytes → ℕ → Option Bytes
memcpy dst src zero = some dst
memcpy [] src (suc n) = none
memcpy (_ ∷ dst) [] (suc n) = none
memcpy (_ ∷ dst) (s ∷ src) (suc n) = Option.map (λ rest. s ∷ rest) (memcpy dst src n)
