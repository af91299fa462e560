-- ===== src/Memory/Kmalloc/Block.antt =====
-- The pages of a block that `kmalloc` of kernel/memory_manager/kmalloc.c gives out.
use project_luciano.Base.{
  ℕ, ◌+◌, ◌*◌, ◌%◌, ◌≤◌, ◌<◌, ◌≡◌, refl, sym, ap, ◌∙◌, ◌≢◌, inl, inr, true, false, some, List, [],
  ◌∷◌, arith,
}
use project_luciano.Memory.Pmm.{Bitmap, frame_size, word, pmm_alloc}
use project_luciano.Memory.Pmm.Frames.{used, frames, Marked}
use project_luciano.Memory.Pmm.Alloc.{pmm_alloc_lem}
use project_luciano.Memory.Pmm.Count.{spare, spare_full, spare-Marked}
use project_luciano.Memory.Vmm.{
  Vm, entry_present, alloc_frame, vmm_map, vmm_get_paddr, find_pt, step_down, load, next_table,
}
use project_luciano.Memory.Vmm.Entry.{page, target}
use project_luciano.Memory.Vmm.Tree.{base, entry, Labels, IsTree, lookup, follow, path}
use project_luciano.Memory.Vmm.Translate.{is_mapped, vmm_map_lem}
use project_luciano.Memory.Kmalloc.{add_page}

-- A frame is taken and nothing else changes.
abbrev taken : Vm → Bitmap → Vm
taken m after = record m { pmm = record m.pmm { bitmap = after } }

taken-IsTree :
    (m : Vm) (at : Labels) (g : ℕ) (after : Bitmap)
    → IsTree m at
    → Marked m.pmm.bitmap g true after
    → IsTree (taken m after) at
taken-IsTree m at g after t mark = record {
  direct = record {
    bytes = mark.bytes;
    reach = omega (arith, mark.size, t.direct.reach);
    small = omega (arith, mark.size, t.direct.small);
  };
  inside = λ f ps e. omega (arith, mark.size, t.inside f ps e);
  in_use = λ f ps e. ground (arith, mark.state f, t.in_use f ps e);
  child = t.child;
  clean = λ f i l u k. t.clean f i (omega (arith, mark.size)) (ground (arith, mark.state f)) k;
}

lookup-taken :
    (m : Vm) (after : Bitmap) (h : ℕ) (is : List ℕ) → lookup (taken m after) h is ≡ lookup m h is
unfolding lookup
lookup-taken m after h [] = refl
lookup-taken m after h (j ∷ []) = refl
lookup-taken m after h (j ∷ k ∷ is) =
    ap (follow (entry_present (entry m h j))) (lookup-taken m after (target (entry m h j)) (k ∷ is))

get-taken :
    (m : Vm) (after : Bitmap) (space va : ℕ)
    → vmm_get_paddr space va (taken m after) ≡ vmm_get_paddr space va m
unfolding vmm_get_paddr find_pt step_down next_table load
get-taken m after space va = refl

take-some :
    (m : Vm) (pa : ℕ) (after : Bitmap)
    → pmm_alloc m.pmm.bitmap ≡ some (pa, after)
    → alloc_frame m ≡ some (pa, taken m after)
unfolding alloc_frame
take-some m pa after e = ground arith

-- Page `i` of the block, and what it translates to.
abbrev pub at_page : ℕ → ℕ → ℕ
at_page va i = va + frame_size * i

abbrev pub maps_to : Vm → ℕ → ℕ → ℕ → ℕ
maps_to m root va i = vmm_get_paddr (base m root) (at_page va i) m

-- From `m` to `m'` the `n` pages from `va` on got a frame each.
pub record Block (m : Vm) (at : Labels) (root va n : ℕ) (m' : Vm) : Type 0 where
  pub labels : Labels
  pub tree : IsTree m' labels
  pub keeps : (h : ℕ) (qs : List ℕ) → at h ≡ some qs → labels h ≡ some qs
  pub hhdm : m'.hhdm ≡ m.hhdm
  pub cr3 : m'.cr3 ≡ m.cr3
  pub uses : (h : ℕ) → used m.pmm.bitmap h ≡ true → used m'.pmm.bitmap h ≡ true
  pub left :
      spare m.pmm.bitmap (frames m.pmm.bitmap) ≤ spare m'.pmm.bitmap (frames m'.pmm.bitmap) + 4 * n
  pub fresh :
      (i : ℕ)
      → i < n
      → (g : ℕ) × (used m.pmm.bitmap g ≡ false)
        × (used m'.pmm.bitmap g ≡ true)
        × (maps_to m' root va i ≡ g * frame_size)
  pub apart : (i j : ℕ) → i < j → j < n → maps_to m' root va i ≢ maps_to m' root va j
  pub entries :
      (space va' : ℕ)
      → at space ≡ some []
      → ((i : ℕ) → i < n → page va' ≢ page (at_page va i))
      → lookup m' space (path va') ≡ lookup m space (path va')
  pub others :
      (space va' : ℕ)
      → at space ≡ some []
      → ((i : ℕ) → i < n → page va' ≢ page (at_page va i))
      → vmm_get_paddr (base m' space) va' m' ≡ vmm_get_paddr (base m space) va' m

map-some :
    (m m1 m2 : Vm) (b va pa : ℕ)
    → alloc_frame m ≡ some (pa, m1)
    → vmm_map b va pa 3 m1 ≡ some (tt, m2)
    → add_page b (record { vm = m; bump_pointer = va })
      ≡ some (record { vm = m2; bump_pointer = (va + frame_size) % word })
unfolding add_page
map-some m m1 m2 b va pa e f = ground (arith, e, f)

pub one_page :
    (m : Vm) (at : Labels) (root va : ℕ)
    → IsTree m at
    → at root ≡ some []
    → is_mapped m root va ≡ false
    → 4 ≤ spare m.pmm.bitmap (frames m.pmm.bitmap)
    → (m2 : Vm) × (add_page (base m root) (record { vm = m; bump_pointer = va })
        ≡ some (record { vm = m2; bump_pointer = (va + frame_size) % word }))
      × Block m at root va 1 m2
one_page m at root va t h absent room = elim (pmm_alloc_lem m.pmm.bitmap t.direct.bytes) [
  | inl (_, full) ↦ absurd (omega (arith, spare_full m.pmm.bitmap (frames m.pmm.bitmap) full))
  | inr (g, after, e, inside, free, _, mark) ↦
      let m1 = taken m after in
      let t1 = taken-IsTree m at g after t mark in
      let less : spare m.pmm.bitmap (frames m.pmm.bitmap) ≡ spare after (frames after) + 1 =
        ground (
          arith,
          spare-Marked m.pmm.bitmap after g (frames m.pmm.bitmap) mark free,
          mark.size,
          ap (λ (x : ℕ). spare after (8 * x)) mark.size,
        ) in
      let (m2, run, tr) =
        vmm_map_lem m1 at root va (g * frame_size) 3 t1 h (omega arith)
          (omega (arith, t.direct.small)) (omega arith) (omega arith) (omega arith) in
      let gone = ap entry_present (lookup-taken m after root (path va)) ∙ absent in
      (
        m2,
        map-some m m1 m2 (base m root) va (g * frame_size) (take-some m (g * frame_size) after e)
            run,
        record {
          labels = tr.labels;
          tree = tr.tree;
          keeps = tr.keeps;
          hhdm = tr.hhdm;
          cr3 = tr.cr3;
          uses = λ f u. tr.uses f (ground (arith, mark.state f));
          left = omega (arith, tr.left);
          fresh = λ i l.
              let zero_page : va ≡ at_page va i = omega arith in
              let now : vmm_get_paddr (base m2 root) va m2 ≡ g * frame_size =
                tr.here ∙ rw gone refl in
              (
                g,
                free,
                tr.uses g (ground (arith, mark.state g)),
                ap (λ (x : ℕ). vmm_get_paddr (base m2 root) x m2) (sym zero_page) ∙ now,
              );
          apart = λ i j l k. absurd (omega arith);
          entries = λ space va' k ne.
              let zero_page : at_page va 0 ≡ va = omega arith in
              tr.entries space va' k (λ q. ne 0 (omega arith) (q ∙ ap page (sym zero_page)))
              ∙ lookup-taken m after space (path va');
          others = λ space va' k ne.
              let zero_page : at_page va 0 ≡ va = omega arith in
              tr.others space va' k (λ q. ne 0 (omega arith) (q ∙ ap page (sym zero_page)))
              ∙ get-taken m after (base m space) va';
        },
      )
]
