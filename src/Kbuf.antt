-- ===== src/Kbuf.antt =====
-- kernel/lib/kbuf.c: a block of memory that grows by doubling.
pub mod Grow
mod Tests
use project_luciano.Base.{
  ℕ, zero, suc, ◌+◌, ◌*◌, ◌%◌, ◌^◌, Option, none, some, ◌==◌, ltb, if◌then◌else◌, true, false,
}
use project_luciano.Libc.{Bytes, memcpy}

-- `k_status` of kernel/include/types.h.
pub data KStatus : Type 0 where
  k_ok k_overflow k_err k_nomem : KStatus

-- `kbuf_t`: `data` is the block that the field points to.
pub record Kbuf : Type 0 where
  pub bytes : Bytes
  pub allocated : ℕ

abbrev pub word : ℕ
word = 2 ^ 64

-- The answer of the allocator to its `n`-th call, for a size: NULL, or a block with any contents.
abbrev pub Alloc : Type 0
Alloc = ℕ → ℕ → Option Bytes

-- `buf->allocated ? buf->allocated * 2 : 1`
pub grown_size : Kbuf → ℕ
grown_size b = if b.allocated == 0 then 1 else b.allocated * 2 % word

-- The copy and the switch to the new block. A copy out of bounds is `none`.
pub adopt : Kbuf → ℕ → Option Bytes → Option (KStatus × Kbuf)
adopt b size none = some (k_nomem, b)
adopt b size (some fresh) = elim (memcpy fresh b.bytes b.allocated) [
  | none ↦ none
  | some filled ↦ some (k_ok, record { bytes = filled; allocated = size })
]

-- `kbuf_grow`; `answer` is what `kmalloc` gives for a size.
pub kbuf_grow : Kbuf → (ℕ → Option Bytes) → Option (KStatus × Kbuf)
unfolding grown_size adopt
kbuf_grow b answer =
    if ltb (grown_size b) b.allocated
    then some (k_overflow, b)
    else adopt b (grown_size b) (answer (grown_size b))

pub replace : Kbuf → ℕ → Option Bytes → KStatus × Kbuf
replace b size none = (k_nomem, b)
replace b size (some fresh) = (k_ok, record { bytes = fresh; allocated = size })

pub kbuf_init : Kbuf → ℕ → (ℕ → Option Bytes) → KStatus × Kbuf
unfolding replace
kbuf_init b new_size answer =
    if ltb new_size b.allocated then (k_err, b) else replace b new_size (answer new_size)

-- How the growing loop of `ramfs_write` ends, with the number of the next allocator call.
pub data Grown : Type 0 where
  fits : Kbuf → ℕ → Grown
  refused : Kbuf → ℕ → Grown
  bad_copy : Grown
  out_of_fuel : Grown

-- What a round does with the status: `rest` is the next round.
abbrev pub grow_step : Option (KStatus × Kbuf) → ℕ → (Kbuf → Grown) → Grown
grow_step none next rest = bad_copy
grow_step (some (k_ok, b)) next rest = rest b
grow_step (some (k_overflow, b)) next rest = refused b next
grow_step (some (k_err, b)) next rest = refused b next
grow_step (some (k_nomem, b)) next rest = refused b next

-- `while (new_limit > allocated) if (kbuf_grow(..) != K_STATUS_OK) return ..;`
pub grow_to : ℕ → Alloc → ℕ → ℕ → Kbuf → Grown
grow_to zero a call limit b = out_of_fuel
grow_to (suc fuel) a call limit b =
    if ltb b.allocated limit
    then grow_step (kbuf_grow b (a call)) (call + 1) (grow_to fuel a (call + 1) limit)
    else fits b call
