-- ===== src/Memory/Pmm.antt =====
-- kernel/memory_manager/pmm.c: a bitmap of the physical frames, one bit to a frame, set for a frame
-- in use. A read or write outside the bitmap is `none`.
pub mod Byte
pub mod Frames
pub mod Alloc
pub mod Init
pub mod Count
mod Tests
use project_luciano.Base.{
  ℕ, zero, suc, ◌+◌, ◌-◌, ◌*◌, ◌/◌, ◌%◌, ◌^◌, ◌≤◌, ◌<◌, min, max, bit_and, bit_or, bit_xor, ◌≡◌,
  refl, sym, ap, ap₂, ◌∙◌, fun_ext, subst, ◌≢◌, ◌↔◌, ◌⊎◌, inl, inr, Bool, true, false, not, ◌&&◌,
  ◌||◌, Option, none, some, List, [], ◌∷◌, ◌++◌, map, append-nil, append_assoc, arith, ltb, leb,
  ◌==◌, if◌then◌else◌, ltb→lt, lt→ltb, leb→le, ==_iff, ==_refl, ==_ne, Bool-cases, Option-cases,
  length, get_elem?, get_or, set, take, drop, replicate, length-append, length-set, get_or-set_self,
  get_or-set_ne, get_elem?-eq-get_or, length-take, length-drop, length-replicate, take_all,
  take-append, drop-append, All,
}
use mathlib.Core.Option

abbrev pub frame_size : ℕ
frame_size = 4096

abbrev pub word : ℕ
word = 2 ^ 64

abbrev pub Bitmap : Type 0
Bitmap = List ℕ

-- `mem_region_type` and `mem_region` of kernel/include/pmm.h.
pub data RegionType : Type 0 where
  mem_usable mem_reserved mem_kernel mem_bad mem_framebuffer mem_acpi mem_bootloader : RegionType

pub record Region : Type 0 where
  pub offset : ℕ
  pub size : ℕ
  pub kind : RegionType

-- ALIGN_FRAME and ALIGN_FRAME_DOWN, with the mask `~(uint64_t)(4096 - 1)` written out.
abbrev pub frame_mask : ℕ
frame_mask = (2 ^ 52 - 1) * 2 ^ 12

unfoldable pub align_frame : ℕ → ℕ
align_frame pa = bit_and ((pa + (frame_size - 1)) % word) frame_mask

unfoldable pub align_frame_down : ℕ → ℕ
align_frame_down pa = bit_and pa frame_mask

abbrev pub counts : RegionType → Bool
counts mem_usable = true
counts mem_kernel = true
counts mem_reserved = false
counts mem_bad = false
counts mem_framebuffer = false
counts mem_acpi = false
counts mem_bootloader = false

abbrev pub is_usable : RegionType → Bool
is_usable mem_usable = true
is_usable mem_kernel = false
is_usable mem_reserved = false
is_usable mem_bad = false
is_usable mem_framebuffer = false
is_usable mem_acpi = false
is_usable mem_bootloader = false

-- `get_total_memory_size`, the loop with its variable `top`.
unfoldable pub total_from : ℕ → List Region → ℕ
total_from top [] = top
total_from top (r ∷ rs) =
    let end_region = (r.offset + r.size) % word in
    total_from (if counts r.kind && ltb top end_region then end_region else top) rs

unfoldable pub get_total_memory_size : List Region → ℕ
unfolding total_from
get_total_memory_size regions = total_from 0 regions

-- `byte |= (1 << j)` and `byte &= ~(1 << j)` on a `uint8_t`.
unfoldable pub set_bit : ℕ → ℕ → ℕ
set_bit b j = bit_or b (2 ^ j) % 256

unfoldable pub clear_bit : ℕ → ℕ → ℕ
clear_bit b j = bit_and b (255 - 2 ^ j)

-- `((1 << j) & byte) != 0`
unfoldable pub bit_set : ℕ → ℕ → Bool
bit_set b j = not (bit_and (2 ^ j) b == 0)

-- The inner loop of `pmm_alloc`, with the bits that are left from `j` on.
unfoldable pub first_clear : ℕ → ℕ → ℕ → Option ℕ
unfolding bit_set
first_clear zero j b = none
first_clear (suc rounds) j b =
    let later = first_clear rounds (j + 1) b in if bit_set b j then later else some j

-- The byte `b` at index `i`, once the inner loop found a bit or none; `later` is the rest of the
-- outer loop, over the bytes `bs` behind it.
abbrev pub take_bit : ℕ → ℕ → Bitmap → Option ℕ → Option (ℕ × Bitmap) → Option (ℕ × Bitmap)
take_bit i b bs (some j) later = some ((i * 8 + j) * frame_size, set_bit b j ∷ bs)
take_bit i b bs none later = Option.map (λ (addr, rest). (addr, b ∷ rest)) later

-- The outer loop from index `i` on; `none` is the panic.
unfoldable pub alloc_from : ℕ → Bitmap → Option (ℕ × Bitmap)
unfolding first_clear set_bit
alloc_from i [] = none
alloc_from i (b ∷ bs) =
    let later = alloc_from (i + 1) bs in
    take_bit i b bs (if b == 0xff then none else first_clear 8 0 b) later

unfoldable pub pmm_alloc : Bitmap → Option (ℕ × Bitmap)
unfolding alloc_from
pmm_alloc bitmap = alloc_from 0 bitmap

-- A change of the byte at an index.
unfoldable pub change : Bitmap → ℕ → (ℕ → ℕ) → Option Bitmap
change [] i f = none
change (b ∷ bs) zero f = some (f b ∷ bs)
change (b ∷ bs) (suc i) f = Option.map (λ rest. b ∷ rest) (change bs i f)

unfoldable pub clear_frame : Bitmap → ℕ → Option Bitmap
unfolding change clear_bit
clear_frame bitmap f = change bitmap (f / 8) (λ b. clear_bit b (f % 8))

unfoldable pub set_frame : Bitmap → ℕ → Option Bitmap
unfolding change set_bit
set_frame bitmap f = change bitmap (f / 8) (λ b. set_bit b (f % 8))

unfoldable pub pmm_free : Bitmap → ℕ → Option Bitmap
unfolding clear_frame
pmm_free bitmap addr = clear_frame bitmap (addr / frame_size)

-- A loop over `n` frames from `f` on.
unfoldable pub over_frames : (Bitmap → ℕ → Option Bitmap) → ℕ → ℕ → Bitmap → Option Bitmap
over_frames step zero f bitmap = some bitmap
over_frames step (suc n) f bitmap = elim (step bitmap f) [
  | none ↦ none
  | some next ↦ over_frames step n (f + 1) next
]

-- The first and the number of the frames of a region; `end - base` is a `uint64_t`.
unfoldable pub region_start : Region → ℕ
unfolding align_frame
region_start r = align_frame r.offset / frame_size

unfoldable pub region_count : Region → ℕ
unfolding align_frame align_frame_down
region_count r =
    (align_frame_down ((r.offset + r.size) % word) + word - align_frame r.offset)
    % word
    / frame_size

-- The loop of `pmm_init` that clears the usable regions.
unfoldable pub clear_regions : List Region → Bitmap → Option Bitmap
unfolding over_frames clear_frame region_start region_count
clear_regions [] bitmap = some bitmap
clear_regions (r ∷ rs) bitmap =
    if is_usable r.kind
    then elim (over_frames clear_frame (region_count r) (region_start r) bitmap) [
      | none ↦ none
      | some next ↦ clear_regions rs next
    ]
    else clear_regions rs bitmap

-- The place of the bitmap: the first usable region that is larger than it.
unfoldable pub bitmap_place : List Region → ℕ → Option ℕ
unfolding align_frame
bitmap_place [] size = none
bitmap_place (r ∷ rs) size =
    if is_usable r.kind && ltb size r.size
    then some (align_frame r.offset)
    else bitmap_place rs size

-- The static variables, the bitmap in place of its address.
pub record Pmm : Type 0 where
  pub total_frames : ℕ
  pub bitmap : Bitmap
  pub physical : ℕ

unfoldable pub frames_of : ℕ → ℕ
frames_of bytes = (bytes + frame_size - 1) % word / frame_size

-- The bitmap's bytes: all used, then the usable regions cleared, then its own frames marked.
unfoldable pub fill_bitmap : List Region → ℕ → ℕ → Option Bitmap
unfolding clear_regions over_frames set_frame frames_of
fill_bitmap regions place size = elim (clear_regions regions (replicate size 0xff)) [
  | none ↦ none
  | some cleared ↦ over_frames set_frame (frames_of size) (place / frame_size) cleared
]

unfoldable pub place_bitmap : List Region → ℕ → ℕ → Option ℕ → Option Pmm
unfolding fill_bitmap
place_bitmap regions total size none = none
place_bitmap regions total size (some place) =
    Option.map (λ b. record { total_frames = total; bitmap = b; physical = place })
      (fill_bitmap regions place size)

-- The number of the bitmap's bytes.
unfoldable pub bitmap_size : ℕ → ℕ
bitmap_size total = (total + 7) % word / 8

-- `pmm_init`. Where no region has room for the bitmap its address stays NULL, and filling it is a
-- fault.
unfoldable pub pmm_init : List Region → Option Pmm
unfolding get_total_memory_size bitmap_place place_bitmap frames_of bitmap_size
pmm_init regions =
    let total = frames_of (get_total_memory_size regions) in
    place_bitmap regions total (bitmap_size total) (bitmap_place regions (bitmap_size total))

unfoldable pub pmm_get_total_memory : Pmm → ℕ
pmm_get_total_memory p = p.total_frames * frame_size % word
