-- ===== src/Memory/Vmm/Create.antt =====
-- What `vmm_create` of kernel/arch/x86_64/vmm.c makes: an address space with the kernel's half of the
-- current one.
pub mod Copied
use project_luciano.Base.{
  ℕ, ◌+◌, ◌*◌, ◌%◌, ◌≤◌, ◌<◌, ◌≡◌, refl, sym, ap, ap₂, ◌∙◌, ◌≢◌, ◌⊎◌, inl, inr, true, false, some,
  List, [], ◌∷◌, arith, ltb, ◌==◌, if◌then◌else◌, Bool-cases, length, All,
}
use project_luciano.Memory.Pmm.{Bitmap, frame_size, word, pmm_alloc}
use project_luciano.Memory.Pmm.Frames.{used, frames, Marked}
use project_luciano.Memory.Pmm.Alloc.{pmm_alloc_lem}
use project_luciano.Memory.Pmm.Count.{spare, spare_full}
use project_luciano.Memory.Vmm.{
  Vm, and_then, entry_present, address_of, alloc_frame, pml4_idx, vmm_get_paddr,
  vmm_get_current_space,
}
use project_luciano.Memory.Vmm.Entry.{present_lem, address_of_lem, target}
use project_luciano.Memory.Vmm.Tree.{
  base, entry, IsDirect, Labels, IsTables, lookup, path, vmm_get_paddr-lookup,
}
use project_luciano.Memory.Vmm.Space.{behind, zero_page, copy_upper, vmm_create}
use project_luciano.Memory.Vmm.Write.{path_bounds}
use project_luciano.Memory.Vmm.Translate.{is_mapped}
use project_luciano.Memory.Vmm.Create.Copied.{
  lookup-same, behind_self, behind_other, taken, created, root_ne, entry-other, entry-copied,
  entry-cleared, labels, keeps, entry-kept, labels_cases, child_from, child_of, created-IsTables,
  entry-free, lookup-upper, lookup-lower, create_run,
}

-- every address space that was there translates every address to what it did.
pub record Creates (m : Vm) (at : Labels) (root f : ℕ) (m' : Vm) : Type 0 where
  pub labels : Labels
  pub tree : IsTables m' labels
  pub keeps : (h : ℕ) (ps : List ℕ) → at h ≡ some ps → labels h ≡ some ps
  pub free_kept :
      (h j : ℕ)
      → h < frames m'.pmm.bitmap
      → used m'.pmm.bitmap h ≡ false
      → j < 512
      → entry m' h j ≡ entry m h j
  pub top : labels f ≡ some []
  pub fresh : used m.pmm.bitmap f ≡ false
  pub taken : used m'.pmm.bitmap f ≡ true
  pub kernel :
      (va : ℕ)
      → 256 ≤ pml4_idx va
      → vmm_get_paddr (base m' f) va m' ≡ vmm_get_paddr (base m root) va m
  pub user :
      (va : ℕ)
      → pml4_idx va < 256
      → (is_mapped m' f va ≡ false) × (vmm_get_paddr (base m' f) va m' ≡ 0)
  pub others :
      (space va : ℕ)
      → at space ≡ some []
      → vmm_get_paddr (base m' space) va m' ≡ vmm_get_paddr (base m space) va m

-- On page tables that form a tree, with a free frame left and whatever the free frames hold,
-- `vmm_create` returns a new address space, whose top table is a frame that was free. The tables form
-- a tree again, with the tables there were. The new space translates the kernel's half as the current
-- space does, and maps nothing in the user's half; every other space translates every address as
-- before, and the frames that are still free hold what they held.
pub vmm_create_lem :
    (m : Vm) (at : Labels) (root : ℕ)
    → IsTables m at
    → at root ≡ some []
    → vmm_get_current_space m ≡ base m root
    → 1 ≤ spare m.pmm.bitmap (frames m.pmm.bitmap)
    → (f : ℕ) × (m' : Vm) × (vmm_create m ≡ some (base m f, m')) × Creates m at root f m'
unfolding copy_upper zero_page
vmm_create_lem m at root t here current room = elim (pmm_alloc_lem m.pmm.bitmap t.direct.bytes) [
  | inl (_, full) ↦ absurd (omega (arith, spare_full m.pmm.bitmap (frames m.pmm.bitmap) full))
  | inr (f, after, e, inside, free, _, mark) ↦
      let m' = created m at t root here f after inside free mark in
      let at' = labels m at t root here f after inside free mark in
      let tree = created-IsTables m at t root here f after inside free mark in
      let top : at' f ≡ some [] = ground arith in
      let old = keeps m at t root here f after inside free mark in
      (
        f,
        m',
        create_run m root f after e current,
        record {
          labels = at';
          tree = tree;
          keeps = old;
          free_kept = entry-free m at t root here f after inside free mark;
          top = top;
          fresh = free;
          taken = ground (arith, mark.state f);
          kernel = λ va high.
              vmm_get_paddr-lookup m' at' f va tree top
              ∙ ap address_of (
                  lookup-upper m at t root here f after inside free mark _ _ _ high refl
                    (path_bounds va))
              ∙ sym (vmm_get_paddr-lookup m at root va t here);
          user = λ va low.
              let nothing : lookup m' f (path va) ≡ 0 =
                lookup-lower m at t root here f after inside free mark _ _ _ low in
              (
                ap entry_present nothing ∙ ground (arith, present_lem 0),
                vmm_get_paddr-lookup m' at' f va tree top
                    ∙ ap address_of nothing
                    ∙ address_of_lem 0,
              );
          others = λ space va h.
              vmm_get_paddr-lookup m' at' space va tree (old space [] h)
              ∙ ap address_of (
                  lookup-same m m' at space [] (path va) t
                    (entry-kept m at t root here f after inside free mark) h refl (path_bounds va))
              ∙ sym (vmm_get_paddr-lookup m at space va t h);
        },
      )
]
