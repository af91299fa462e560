-- ===== src/Disk/Mbr/Disjoint.antt =====
-- Theorems about diskmanager_mbr_check of kernel/diskmanager/mbr.c.
use project_luciano.Base.{
  ℕ, ◌+◌, ◌%◌, ◌^◌, ◌≤◌, ◌<◌, ◌≡◌, ◌≢◌, refl, inl, inr, sym, ap, ◌∙◌, subst, false, ◌||◌, ◌==◌,
  Bool-cases, none, some, List, [], ◌∷◌, ◌++◌, append-nil, append_assoc, arith, length, All,
}
use project_luciano.Libc.{Bytes}
use project_luciano.Disk.Mbr.{
  Extent, Entry, extent, vol_unk, vol_unk_valid, entry_at, classify, collect, has_empty, clash,
  clash_any, overlaps, accept, diskmanager_mbr_check,
}

-- A sector belongs to an extent.
abbrev pub In : ℕ → Extent → Type 0
In x v = (v.lba_start ≤ x) × (x < v.lba_end)

-- An extent whose end is not below its start.
abbrev pub IsForward : Extent → Type 0
IsForward v = (v.lba_start ≤ v.lba_end) × (v.lba_end < 2 ^ 64)

abbrev pub Apart : Extent → Extent → Type 0
Apart v w = (x : ℕ) → In x v → In x w → ⊥

-- Every extent is apart from those behind it.
abbrev pub PairsApart : List Extent → Type 0
PairsApart [] = Unit
PairsApart (v ∷ vs) = All (λ w. Apart v w) vs × PairsApart vs

clash-Apart : (v w : Extent) → IsForward v → IsForward w → clash v w ≡ false → Apart w v
unfolding clash
clash-Apart v w fv fw e = λ x a b. ground arith

clash_any-Apart :
    (v : Extent) (ws : List Extent)
    → IsForward v
    → All IsForward ws
    → clash_any v ws ≡ false
    → All (λ w. Apart w v) ws
unfolding clash_any
clash_any-Apart v [] fv fw e = tt
clash_any-Apart v (w ∷ ws) fv fw e =
    (clash-Apart v w fv fw.0 (ground arith), clash_any-Apart v ws fv fw.1 (ground arith))

All-append {ℓ κ} :
    {A : Type ℓ} (P : A → Type κ) (xs ys : List A) → All P xs → All P ys → All P (xs ++ ys)
All-append P [] ys h k = k
All-append P (x ∷ xs) ys h k = (h.0, All-append P xs ys h.1 k)

PairsApart-snoc :
    (seen : List Extent) (v : Extent)
    → PairsApart seen
    → All (λ w. Apart w v) seen
    → PairsApart (seen ++ (v ∷ []))
PairsApart-snoc [] v h k = (tt, tt)
PairsApart-snoc (w ∷ seen) v h k =
    (All-append (λ u. Apart w u) seen (v ∷ []) h.0 (k.0, tt), PairsApart-snoc seen v h.1 k.1)

overlaps-PairsApart :
    (vs seen : List Extent)
    → All IsForward seen
    → All IsForward vs
    → PairsApart seen
    → overlaps seen vs ≡ false
    → PairsApart (seen ++ vs)
unfolding overlaps
overlaps-PairsApart [] seen fs fv h e = subst PairsApart (sym (append-nil seen)) h
overlaps-PairsApart (v ∷ vs) seen fs fv h e = subst PairsApart (append_assoc seen (v ∷ []) vs) (
    overlaps-PairsApart vs (seen ++ (v ∷ [])) (All-append IsForward seen (v ∷ []) fs (fv.0, tt))
      fv.1 (PairsApart-snoc seen v h (clash_any-Apart v seen fv.0 fs (ground arith)))
      (ground arith))

has_empty-false :
    (vs : List Extent)
    → All IsForward vs
    → has_empty vs ≡ false
    → All (λ v. v.lba_start < v.lba_end) vs
unfolding has_empty
has_empty-false [] f e = tt
has_empty-false (v ∷ vs) f e = (ground arith, has_empty-false vs f.1 (ground arith))

accept-inv :
    (vs ws : List Extent)
    → accept vs ≡ some ws
    → (vs ≡ ws) × (has_empty vs ≡ false) × (overlaps [] vs ≡ false) × (0 < length vs)
unfolding accept
accept-inv [] ws e = ground arith
accept-inv (v ∷ vs) ws e = (ground arith, ground arith, ground arith, omega arith)

-- The partitions that `diskmanager_mbr_check` accepts are one or more, none is empty, and no sector
-- belongs to two of them, provided that no partition's end wraps below its start.
pub diskmanager_mbr_check-PairsApart :
    (sector : Bytes) (vs : List Extent)
    → diskmanager_mbr_check (some sector) ≡ some vs
    → All IsForward vs
    → (0 < length vs) × All (λ v. v.lba_start < v.lba_end) vs × PairsApart vs
unfolding diskmanager_mbr_check
diskmanager_mbr_check-PairsApart sector vs e f =
    let (same, full, apart, some_entry) = accept-inv (collect 4 0 sector) vs e in
    (
      ground arith,
      has_empty-false vs f (ap has_empty (sym same) ∙ full),
      overlaps-PairsApart vs [] tt f tt (ap (overlaps []) (sym same) ∙ apart),
    )

classify-some :
    (e : Entry)
    → e.partition_type ≢ 0
    → (v : Extent) × (classify e ≡ some v)
      × (v.lba_start ≡ e.lba_partition_start)
      × (v.lba_end ≡ (e.lba_partition_start + e.lba_num_sectors) % 2 ^ 32)
unfolding classify
classify-some e used =
    elim (Bool-cases ((e.partition_type == 0x0b) || (e.partition_type == 0x0c))) [
      | inl fat ↦ (extent e vol_unk_valid 0xf00d, ground arith, refl, refl)
      | inr other ↦ (extent e vol_unk 0xdead, ground arith, refl, refl)
    ]

classify-none : (e : Entry) → e.partition_type ≡ 0 → classify e ≡ none
unfolding classify
classify-none e unused = ground arith

accept-back :
    (v : Extent) → v.lba_end < v.lba_start → v.lba_start < 2 ^ 32 → accept (v ∷ []) ≡ some (v ∷ [])
unfolding accept overlaps has_empty clash_any
accept-back v back small = ground arith

-- A partition table whose first entry alone is used, with a start and a size below 2 ^ 32 whose sum is
-- 2 ^ 32 or more, is accepted: the one volume starts where the entry says, and its end is that sum
-- less 2 ^ 32, which lies below its start.
pub diskmanager_mbr_check_wrap :
    (sector : Bytes)
    → (entry_at sector 0).partition_type ≢ 0
    → (entry_at sector 1).partition_type ≡ 0
    → (entry_at sector 2).partition_type ≡ 0
    → (entry_at sector 3).partition_type ≡ 0
    → (entry_at sector 0).lba_partition_start < 2 ^ 32
    → (entry_at sector 0).lba_num_sectors < 2 ^ 32
    → 2 ^ 32 ≤ (entry_at sector 0).lba_partition_start + (entry_at sector 0).lba_num_sectors
    → (v : Extent) × (diskmanager_mbr_check (some sector) ≡ some (v ∷ []))
      × (v.lba_start ≡ (entry_at sector 0).lba_partition_start)
      × (v.lba_end + 2 ^ 32
          ≡ (entry_at sector 0).lba_partition_start + (entry_at sector 0).lba_num_sectors)
      × (v.lba_end < v.lba_start)
unfolding diskmanager_mbr_check collect
diskmanager_mbr_check_wrap sector used no1 no2 no3 start size wraps =
    let (v, made, from, to) = classify-some (entry_at sector 0) used in
    let back : v.lba_end < v.lba_start = omega (arith, from, to) in
    (
      v,
      rw
          (
            made,
            classify-none (entry_at sector 1) no1,
            classify-none (entry_at sector 2) no2,
            classify-none (entry_at sector 3) no3,
          )
          (accept-back v back (omega (arith, from))),
      from,
      omega (arith, to),
      back,
    )
