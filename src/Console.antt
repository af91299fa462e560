-- ===== src/Console.antt =====
-- kernel/arch/x86_64/debug.c: what is written to the serial port, as the list of its bytes. `none` is a
-- store behind a buffer, or an argument that the format does not fit.
pub mod Digits
pub mod Format
pub mod Serial
mod Tests
use project_luciano.Base.{
  ℕ, zero, suc, ◌+◌, ◌-◌, ◌*◌, ◌/◌, ◌%◌, ◌^◌, ◌≤◌, ◌<◌, min, max, bit_and, bit_or, bit_xor, ◌≡◌,
  refl, sym, ap, ap₂, ◌∙◌, fun_ext, subst, ◌≢◌, ◌↔◌, ◌⊎◌, inl, inr, Bool, true, false, not, ◌&&◌,
  ◌||◌, Option, none, some, List, [], ◌∷◌, ◌++◌, map, append-nil, append_assoc, arith, ltb, leb,
  ◌==◌, if◌then◌else◌, ltb→lt, lt→ltb, leb→le, ==_iff, ==_refl, ==_ne, Bool-cases, Option-cases,
  length, get_elem?, get_or, set, take, drop, replicate, length-append, length-set, get_or-set_self,
  get_or-set_ne, get_elem?-eq-get_or, length-take, length-drop, length-replicate, take_all,
  take-append, drop-append, All,
}
use mathlib.Core.Option
use project_luciano.Base.Int.{ℤ, pos, negsuc}
use project_luciano.Libc.{Bytes}

-- The loop that fills a buffer with digits, the last one first; `room` is what is left of the buffer.
unfoldable pub fill : (room : ℕ) → (base : ℕ) → (ℕ → ℕ) → ℕ → Option Bytes
fill zero base digit n = if n == 0 then some [] else none
fill (suc room) base digit n =
    let rest = fill room base digit (n / base) in
    if n == 0 then some [] else Option.map (λ s. digit (n % base) ∷ s) rest

-- `while (i--) k_putc(buf[i]);`
unfoldable pub unwind : Bytes → Bytes → Bytes
unwind [] out = out
unwind (c ∷ buf) out = unwind buf (c ∷ out)

abbrev pub decimal : ℕ → ℕ
decimal d = b'0' + d

-- `char_map`
abbrev pub hexadecimal : ℕ → ℕ
hexadecimal d = if ltb d 10 then b'0' + d else b'a' + (d - 10)

abbrev pub binary : ℕ → ℕ
binary d = if d == 1 then b'1' else b'0'

unfoldable pub printed : Option Bytes → Option Bytes
unfolding unwind
printed none = none
printed (some buf) = some (unwind buf [])

-- 0 is no digit at all.
unfoldable pub k_printf_lu : ℕ → Option Bytes
k_printf_lu n = printed (fill 32 10 decimal n)

-- A negative `int` is turned around, but for the least one, which stays negative and has no digits.
unfoldable pub k_printf_d : ℤ → Option Bytes
k_printf_d (pos n) = if n == 0 then some (b'0' ∷ []) else printed (fill 32 10 decimal n)
k_printf_d (negsuc n) =
    Option.map (λ s. b'-' ∷ s)
      (printed (if ltb n (2 ^ 31 - 1) then fill 32 10 decimal (suc n) else some []))

unfoldable pub k_printf_b : ℕ → Option Bytes
k_printf_b n = if n == 0 then some (b'0' ∷ []) else printed (fill 64 2 binary n)

unfoldable pub k_printf_x : ℕ → Option Bytes
k_printf_x n = if n == 0 then some (b'0' ∷ []) else printed (fill 64 16 hexadecimal n)

-- What the caller passes behind the format.
pub data Arg : Type 0 where
  int_arg : ℤ → Arg
  word_arg : ℕ → Arg
  text_arg : Bytes → Arg

-- The characters that the `switch` tells apart.
pub data Kind : Type 0 where
  percent ell dee bee ex ess cee you other : Kind

unfoldable pub kind : ℕ → Kind
kind c =
    if c == b'%'
    then percent
    else if c == b'l'
    then ell
    else if c == b'd'
    then dee
    else if c == b'b'
    then bee
    else if c == b'x'
    then ex
    else if c == b's'
    then ess
    else if c == b'c'
    then cee
    else if c == b'u'
    then you
    else other

-- Where the loop of `k_printf` stands: at plain text, behind a '%', or behind "%l".
pub data Mode : Type 0 where
  text directive long : Mode

abbrev pub emit : Bytes → Option Bytes → Option Bytes
emit s rest = Option.map (λ out. s ++ out) rest

abbrev pub join : Option Bytes → Option Bytes → Option Bytes
join none rest = none
join (some s) rest = emit s rest

-- `va_arg` at each type, with what is printed and how the loop goes on.
abbrev pub with_word : (ℕ → Option Bytes) → List Arg → (List Arg → Option Bytes) → Option Bytes
with_word f [] k = none
with_word f (word_arg n ∷ args) k = join (f n) (k args)
with_word f (int_arg n ∷ args) k = none
with_word f (text_arg s ∷ args) k = none

abbrev pub with_int : (ℤ → Option Bytes) → List Arg → (List Arg → Option Bytes) → Option Bytes
with_int f [] k = none
with_int f (int_arg n ∷ args) k = join (f n) (k args)
with_int f (word_arg n ∷ args) k = none
with_int f (text_arg s ∷ args) k = none

abbrev pub with_text : List Arg → (List Arg → Option Bytes) → Option Bytes
with_text [] k = none
with_text (text_arg s ∷ args) k = emit s (k args)
with_text (int_arg n ∷ args) k = none
with_text (word_arg n ∷ args) k = none

-- `(char)c`
abbrev pub low_byte : ℤ → Option Bytes
low_byte (pos n) = some ((n % 256) ∷ [])
low_byte (negsuc n) = some ((255 - n % 256) ∷ [])

-- The loop of `k_printf`. Behind a '%' any other character, a '%' too, prints the '%' and is then read
-- again from the top of the loop; so is what follows "%l", unless it is a 'u'.
unfoldable pub run : Mode → Bytes → List Arg → Option Bytes
run text [] args = some []
run text (c ∷ s) args = elim (kind c) [
  | percent ↦ run directive s args
  | _ ↦ emit (c ∷ []) (run text s args)
]
run directive [] args = some (b'%' ∷ [])
run directive (c ∷ s) args = elim (kind c) [
  | percent ↦ emit (b'%' ∷ []) (run directive s args)
  | ell ↦ run long s args
  | dee ↦ with_int k_printf_d args (run text s)
  | bee ↦ with_word k_printf_b args (run text s)
  | ex ↦ with_word k_printf_x args (run text s)
  | ess ↦ with_text args (run text s)
  | cee ↦ with_int low_byte args (run text s)
  | you ↦ emit (b'%' ∷ c ∷ []) (run text s args)
  | other ↦ emit (b'%' ∷ c ∷ []) (run text s args)
]
run long [] args = some []
run long (c ∷ s) args = elim (kind c) [
  | you ↦ with_word k_printf_lu args (run text s)
  | percent ↦ run directive s args
  | _ ↦ emit (c ∷ []) (run text s args)
]

unfoldable pub k_printf : Bytes → List Arg → Option Bytes
k_printf s args = run text s args

-- The line of `k_log`, `k_warn`, `k_error` or `k_panic`, with its tag.
unfoldable pub k_print_format : Bytes → Bytes → List Arg → Option Bytes
k_print_format t s args = emit t (join (k_printf s args) (some (10 ∷ [])))
