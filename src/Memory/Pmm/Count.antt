-- ===== src/Memory/Pmm/Count.antt =====
-- How many frames are free.
use project_luciano.Base.{ℕ, zero, suc, ◌+◌, ◌≡◌, refl, true, false, arith, ltb, if◌then◌else◌}
use project_luciano.Memory.Pmm.{Bitmap}
use project_luciano.Memory.Pmm.Frames.{used, Marked}

-- The free frames below `n`.
unfoldable pub spare : Bitmap → ℕ → ℕ
spare bm zero = 0
spare bm (suc n) = spare bm n + (if used bm n then 0 else 1)

pub spare_full : (bm : Bitmap) (n : ℕ) → ((g : ℕ) → used bm g ≡ true) → spare bm n ≡ 0
unfolding spare
spare_full bm zero h = refl
spare_full bm (suc n) h = ground (arith, h n, spare_full bm n h)

pub spare-Marked :
    (bm after : Bitmap) (f n : ℕ)
    → Marked bm f true after
    → used bm f ≡ false
    → spare bm n ≡ spare after n + (if ltb f n then 1 else 0)
unfolding spare
spare-Marked bm after f zero m h = ground arith
spare-Marked bm after f (suc n) m h = ground (arith, m.state n, spare-Marked bm after f n m h)
