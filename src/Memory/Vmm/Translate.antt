-- ===== src/Memory/Vmm/Translate.antt =====
-- What `vmm_map` of kernel/arch/x86_64/vmm.c do to what `vmm_get_paddr` answers.
use project_luciano.Base.{
  ℕ, ◌+◌, ◌%◌, ◌^◌, ◌≤◌, ◌<◌, ◌≡◌, refl, sym, ap, ◌∙◌, ◌≢◌, inl, inr, Bool, true, false, some, List,
  [], arith, if◌then◌else◌, Bool-cases, length,
}
use project_luciano.Memory.Pmm.Frames.{used, frames}
use project_luciano.Memory.Pmm.Count.{spare}
use project_luciano.Memory.Vmm.{
  Vm, entry_present, address_of, pt_idx, put_leaf, vmm_map, vmm_get_paddr,
}
use project_luciano.Memory.Vmm.Entry.{address_of_lem, or_flags, page}
use project_luciano.Memory.Vmm.Tree.{
  base, entry, Labels, IsTree, lookup, path, idx-lt, load-base, tables, vmm_get_paddr-lookup,
}
use project_luciano.Memory.Vmm.Descend.{store-written}
use project_luciano.Memory.Vmm.Write.{
  path_bounds, replaced, replaced-IsTree, replaced-reads, replaced-others,
}
use project_luciano.Memory.Vmm.Map.{lookup-Chain, Walked, walk}

-- Whether the last entry on the path of an address is present.
abbrev pub is_mapped : Vm → ℕ → ℕ → Bool
is_mapped m root va = entry_present (lookup m root (path va))

-- Tables that form a tree before form one after, with their labels, and at most three frames are
-- taken; the page of `va` now answers `answer` in the address space at `root`, and every other page of
-- every address space what it did.
pub record Translates (m : Vm) (at : Labels) (root va answer : ℕ) (m' : Vm) : Type 0 where
  pub labels : Labels
  pub tree : IsTree m' labels
  pub keeps : (h : ℕ) (qs : List ℕ) → at h ≡ some qs → labels h ≡ some qs
  pub uses : (h : ℕ) → used m.pmm.bitmap h ≡ true → used m'.pmm.bitmap h ≡ true
  pub size : length m'.pmm.bitmap ≡ length m.pmm.bitmap
  pub left :
      spare m.pmm.bitmap (frames m.pmm.bitmap) ≤ spare m'.pmm.bitmap (frames m'.pmm.bitmap) + 3
  pub hhdm : m'.hhdm ≡ m.hhdm
  pub cr3 : m'.cr3 ≡ m.cr3
  pub here : vmm_get_paddr (base m' root) va m' ≡ answer
  pub entries :
      (space va' : ℕ)
      → at space ≡ some []
      → page va' ≢ page va
      → lookup m' space (path va') ≡ lookup m space (path va')
  pub others :
      (space va' : ℕ)
      → at space ≡ some []
      → page va' ≢ page va
      → vmm_get_paddr (base m' space) va' m' ≡ vmm_get_paddr (base m space) va' m

pub get-same :
    (m m' : Vm) (at at' : Labels) (space va : ℕ)
    → IsTree m at
    → IsTree m' at'
    → at space ≡ some []
    → at' space ≡ some []
    → lookup m' space (path va) ≡ lookup m space (path va)
    → vmm_get_paddr (base m' space) va m' ≡ vmm_get_paddr (base m space) va m
get-same m m' at at' space va t t' h h' e =
    vmm_get_paddr-lookup m' at' space va (tables t') h'
    ∙ ap address_of e
    ∙ sym (vmm_get_paddr-lookup m at space va (tables t) h)

module _ (m : Vm) (at : Labels) (root va pa flags : ℕ) (t : IsTree m at) (here : at root ≡ some [])
    (aligned : pa % 4096 ≡ 0) (fits : pa < 2 ^ 52) (odd : flags % 2 ≡ 1) (byte : flags < 256)
    (w : Walked m at root va flags) where
  abbrev leaf : ℕ
  leaf = w.f1

  walked-reads : lookup w.after root (path va) ≡ entry w.after leaf (pt_idx va)
  walked-reads = lookup-Chain w.after root va w.f3 w.f2 leaf w.chain

  walked-same :
      (space va' : ℕ)
      → at space ≡ some []
      → lookup w.after space (path va') ≡ lookup m space (path va')
  walked-same space va' h = w.grows.same space [] (path va') h refl (path_bounds va')

  top : w.labels root ≡ some []
  top = w.grows.keeps root [] here

  abbrev full : Vm
  full =
      replaced w.after w.labels w.grows.tree root va w.f3 w.f2 leaf top w.at3 w.at2 w.at1 w.chain
        (pa + flags)

  full-IsTree : IsTree full w.labels
  full-IsTree =
      replaced-IsTree w.after w.labels w.grows.tree root va w.f3 w.f2 leaf top w.at3 w.at2 w.at1
        w.chain (pa + flags)

  full-entries :
      (space va' : ℕ)
      → at space ≡ some []
      → page va' ≢ page va
      → lookup full space (path va') ≡ lookup m space (path va')
  full-entries space va' h ne =
      replaced-others w.after w.labels w.grows.tree root va w.f3 w.f2 leaf top w.at3 w.at2 w.at1
        w.chain (pa + flags) space va' (w.grows.keeps space [] h) ne
      ∙ walked-same space va' h

  full-Translates : Translates m at root va pa full
  full-Translates = record {
    labels = w.labels;
    tree = full-IsTree;
    keeps = w.grows.keeps;
    uses = w.grows.uses;
    size = w.grows.size;
    left = w.grows.left;
    hhdm = w.grows.hhdm;
    cr3 = w.grows.cr3;
    here =
        vmm_get_paddr-lookup full w.labels root va (tables full-IsTree) top
        ∙ ap address_of (
            replaced-reads w.after w.labels w.grows.tree root va w.f3 w.f2 leaf top w.at3 w.at2
              w.at1 w.chain (pa + flags))
        ∙ address_of_lem (pa + flags)
        ∙ omega arith;
    entries = full-entries;
    others = λ space va' h ne.
        get-same m full at w.labels space va' t full-IsTree h (w.grows.keeps space [] h)
          (full-entries space va' h ne);
  }

  kept-Translates : Translates m at root va (vmm_get_paddr (base m root) va m) w.after
  kept-Translates = record {
    labels = w.labels;
    tree = w.grows.tree;
    keeps = w.grows.keeps;
    uses = w.grows.uses;
    size = w.grows.size;
    left = w.grows.left;
    hhdm = w.grows.hhdm;
    cr3 = w.grows.cr3;
    here =
        get-same m w.after at w.labels root va t w.grows.tree here (w.grows.keeps root [] here)
          (walked-same root va here);
    entries = λ space va' h ne. walked-same space va' h;
    others = λ space va' h ne.
        get-same m w.after at w.labels space va' t w.grows.tree h (w.grows.keeps space [] h)
          (walked-same space va' h);
  }

  put-absent : is_mapped m root va ≡ false → vmm_map (base m root) va pa flags m ≡ some (tt, full)
  unfolding put_leaf
  put-absent absent =
      let inside = w.grows.tree.inside leaf _ w.at1 in
      let seen = load-base w.after leaf (pt_idx va) w.grows.tree.direct inside (idx-lt va).3 in
      let gone = ap entry_present (sym walked-reads ∙ walked-same root va here) ∙ absent in
      let put =
        store-written w.after leaf (pt_idx va) (pa + flags) w.grows.tree.direct inside
          (idx-lt va).3 in
      w.runs pa ∙ rw (or_flags pa flags aligned (omega arith), seen, gone, put) refl

  put-present :
      is_mapped m root va ≡ true → vmm_map (base m root) va pa flags m ≡ some (tt, w.after)
  unfolding put_leaf
  put-present there =
      let inside = w.grows.tree.inside leaf _ w.at1 in
      let seen = load-base w.after leaf (pt_idx va) w.grows.tree.direct inside (idx-lt va).3 in
      let still = ap entry_present (sym walked-reads ∙ walked-same root va here) ∙ there in
      w.runs pa ∙ rw (seen, still) refl

-- On page tables that form a tree, with cleared free frames of which at least three are left,
-- `vmm_map` of a page to a frame with the present flag set returns. Afterwards the tables form a
-- tree again, the page translates to the frame, or still to what it did if it was mapped before, and
-- every other page of every address space translates to what it did.
pub vmm_map_lem :
    (m : Vm) (at : Labels) (root va pa flags : ℕ)
    → IsTree m at
    → at root ≡ some []
    → pa % 4096 ≡ 0
    → pa < 2 ^ 52
    → flags % 2 ≡ 1
    → flags < 256
    → 3 ≤ spare m.pmm.bitmap (frames m.pmm.bitmap)
    → (m' : Vm) × (vmm_map (base m root) va pa flags m ≡ some (tt, m'))
      × Translates m at root va
          (if is_mapped m root va then vmm_get_paddr (base m root) va m else pa)
          m'
vmm_map_lem m at root va pa flags t here aligned fits odd byte room =
    let w = walk m at root va flags t here odd byte room in
    elim (Bool-cases (is_mapped m root va)) [
      | inl there ↦ (
        w.after,
        put-present m at root va pa flags t here aligned fits odd byte w there,
        rw there (kept-Translates m at root va pa flags t here aligned fits odd byte w),
      )
      | inr absent ↦ (
        full m at root va pa flags t here aligned fits odd byte w,
        put-absent m at root va pa flags t here aligned fits odd byte w absent,
        rw absent (full-Translates m at root va pa flags t here aligned fits odd byte w),
      )
    ]
