-- ===== src/Memory/Vmm/Descend.antt =====
-- One level of the walk in `vmm_map`: a table that is missing is added, and nothing is lost.
pub mod Fresh
pub mod Grown
use project_luciano.Base.{
  ℕ, ◌+◌, ◌*◌, ◌%◌, ◌≤◌, ◌<◌, ◌≡◌, refl, sym, ap, ap₂, ◌∙◌, ◌≢◌, ◌⊎◌, inl, inr, true, false, ◌&&◌,
  some, List, [], ◌∷◌, arith, ◌==◌, if◌then◌else◌, ==_refl, ==_ne, Bool-cases, length, All,
}
use project_luciano.Memory.Pmm.{Bitmap, frame_size, pmm_alloc}
use project_luciano.Memory.Pmm.Frames.{used, frames, Marked}
use project_luciano.Memory.Pmm.Alloc.{pmm_alloc_lem}
use project_luciano.Memory.Pmm.Count.{spare, spare_full, spare-Marked}
use project_luciano.Memory.Vmm.{Vm, entry_present, slot, store, alloc_frame, ensure}
use project_luciano.Memory.Vmm.Entry.{present_lem, target, or_flags}
use project_luciano.Memory.Vmm.Tree.{
  base, entry, IsDirect, Labels, IsTree, lookup, follow, load-base,
}
pub use project_luciano.Memory.Vmm.Descend.Grown.{
  written, entry-written, store-written, Grows, Grows-refl, Grows-trans,
}
use project_luciano.Memory.Vmm.Descend.Fresh.{
  value, next, labels, value-target, value_present, no_label, f_ne, fresh_entry, keep, label-inv,
  label-g, next-here, next-away, next-child, next-clean, next-IsTree, lookup_fresh, f_level,
  next-same, fixed_away, next-Grows,
}

alloc_frame-some :
    (m : Vm) (f : ℕ) (after : Bitmap)
    → pmm_alloc m.pmm.bitmap ≡ some (f, after)
    → alloc_frame m ≡ some (f, record m { pmm = record m.pmm { bitmap = after } })
unfolding alloc_frame
alloc_frame-some m f after e = ground arith

-- With a free frame left, the level is there afterwards.
pub ensure-Grows :
    (m : Vm) (at : Labels) (f i : ℕ) (ps : List ℕ) (flags : ℕ)
    → IsTree m at
    → at f ≡ some ps
    → length ps < 3
    → i < 512
    → flags % 2 ≡ 1
    → flags < 256
    → 0 < spare m.pmm.bitmap (frames m.pmm.bitmap)
    → (m' : Vm) × (at' : Labels) × (ensure (base m f) i flags m ≡ some (tt, m'))
      × Grows 1 m at m' at'
      × (entry_present (entry m' f i) ≡ true)
unfolding ensure
ensure-Grows m at f i ps flags t here upper hi odd byte room =
    let d = t.direct in
    let seen = load-base m f i d (t.inside f ps here) hi in
    elim (Bool-cases (entry_present (entry m f i))) [
      | inl there ↦ (m, at, rw (seen, there) refl, Grows-refl 1 m at t, there)
      | inr absent ↦ elim (pmm_alloc_lem m.pmm.bitmap d.bytes) [
        | inl (_, full) ↦ absurd (omega (arith, spare_full m.pmm.bitmap (frames m.pmm.bitmap) full))
        | inr (g, after, e, inside, free, _, mark) ↦
            let m1 = record m { pmm = record m.pmm { bitmap = after } } in
            let d1 : IsDirect m1 = record {
              bytes = mark.bytes;
              reach = omega (arith, mark.size, d.reach);
              small = omega (arith, mark.size, d.small);
            } in
            let put =
              store-written m1 f i (g * frame_size + flags) d1
                (omega (arith, t.inside f ps here, mark.size)) hi in
            let v = or_flags (g * frame_size) flags (omega arith) (omega arith) in
            (
              next m at t f i ps here upper hi absent flags odd byte g after inside free mark,
              labels m at t f i ps here upper hi absent flags odd byte g after inside free mark,
              rw (seen, absent, alloc_frame-some m (g * frame_size) after e, v, put) refl,
              next-Grows m at t f i ps here upper hi absent flags odd byte g after inside free mark,
              ap entry_present (
                    next-here m at t f i ps here upper hi absent flags odd byte g after inside free
                      mark)
                  ∙ value_present m at t f i ps here upper hi absent flags odd byte g after inside
                      free mark,
            )
      ]
    ]
