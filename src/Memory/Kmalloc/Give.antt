-- ===== src/Memory/Kmalloc/Give.antt =====
-- `kmalloc` of kernel/memory_manager/kmalloc.c over the page tables and the frame allocator.
use project_luciano.Base.{
  ℕ, zero, suc, ◌+◌, ◌*◌, ◌%◌, ◌^◌, ◌≤◌, ◌<◌, ◌≡◌, refl, sym, ap, ◌∙◌, ◌≢◌, true, false, Option,
  some, [], arith, Bool-cases,
}
use project_luciano.Memory.Pmm.{frame_size, word}
use project_luciano.Memory.Pmm.Frames.{used, frames}
use project_luciano.Memory.Pmm.Count.{spare}
use project_luciano.Memory.Vmm.{Vm, entry_present, vmm_get_paddr, vmm_get_current_space}
use project_luciano.Memory.Vmm.Entry.{page}
use project_luciano.Memory.Vmm.Tree.{base, Labels, IsTree}
use project_luciano.Memory.Vmm.Translate.{is_mapped}
use project_luciano.Memory.Kmalloc.{Heap, after_page, add_pages, num_frames, kmalloc}
use project_luciano.Memory.Kmalloc.Block.{at_page, maps_to, Block, one_page}

module _ (m m1 m2 : Vm) (at : Labels) (root va n : ℕ) (top : at root ≡ some [])
    (one : Block m at root va 1 m1) (rest : Block m1 one.labels root (va + frame_size) n m2)
    (room : va + frame_size * suc n < word) (few : suc n ≤ 2 ^ 36) where
  shift : (i : ℕ) → at_page (va + frame_size) i ≡ at_page va (suc i)
  shift i = omega arith

  shifted : (i : ℕ) → maps_to m2 root (va + frame_size) i ≡ maps_to m2 root va (suc i)
  shifted i = ap (λ (x : ℕ). vmm_get_paddr (base m2 root) x m2) (shift i)

  pages_ne : (i j : ℕ) → i < suc n → j < suc n → i ≢ j → page (at_page va i) ≢ page (at_page va j)
  pages_ne i j l k ne e = ne (omega arith)

  first_stays : maps_to m2 root va 0 ≡ maps_to m1 root va 0
  first_stays = rest.others root (at_page va 0) (one.keeps root [] top) (λ j l e.
      pages_ne 0 (suc j) (omega arith) (omega arith) (omega arith) (e ∙ ap page (shift j)))

  cons-fresh :
      (i : ℕ)
      → i < suc n
      → (g : ℕ) × (used m.pmm.bitmap g ≡ false)
        × (used m2.pmm.bitmap g ≡ true)
        × (maps_to m2 root va i ≡ g * frame_size)
  cons-fresh zero l =
      let (g, free, taken, e) = one.fresh 0 (omega arith) in
      (g, free, rest.uses g taken, first_stays ∙ e)
  cons-fresh (suc i) l =
      let (g, free, taken, e) = rest.fresh i (omega arith) in
      (g, ground (arith, one.uses g, Bool-cases (used m.pmm.bitmap g)), taken, sym (shifted i) ∙ e)

  cons-apart : (i j : ℕ) → i < j → j < suc n → maps_to m2 root va i ≢ maps_to m2 root va j
  cons-apart i zero l k e = omega arith
  cons-apart zero (suc j) l k e =
      let (g, _, taken, p) = one.fresh 0 (omega arith) in
      let (h, free, _, q) = rest.fresh j (omega arith) in
      let same : g * frame_size ≡ h * frame_size =
        sym p ∙ sym first_stays ∙ e ∙ sym (shifted j) ∙ q in
      let eq : g ≡ h = omega arith in ground (arith, ap (λ (x : ℕ). used m1.pmm.bitmap x) eq)
  cons-apart (suc i) (suc j) l k e =
      rest.apart i j (omega arith) (omega arith) (shifted i ∙ e ∙ sym (shifted j))

  pub cons-Block : Block m at root va (suc n) m2
  cons-Block = record {
    labels = rest.labels;
    tree = rest.tree;
    keeps = λ h qs e. rest.keeps h qs (one.keeps h qs e);
    hhdm = rest.hhdm ∙ one.hhdm;
    cr3 = rest.cr3 ∙ one.cr3;
    uses = λ h u. rest.uses h (one.uses h u);
    left = omega (arith, one.left, rest.left);
    fresh = cons-fresh;
    apart = cons-apart;
    entries = λ space va' k ne.
        rest.entries space va' (one.keeps space [] k)
          (λ i l e. ne (suc i) (omega arith) (e ∙ ap page (shift i)))
        ∙ one.entries space va' k (λ i l. ne i (omega arith));
    others = λ space va' k ne.
        rest.others space va' (one.keeps space [] k)
          (λ i l e. ne (suc i) (omega arith) (e ∙ ap page (shift i)))
        ∙ one.others space va' k (λ i l. ne i (omega arith));
  }

no_pages : (m : Vm) (at : Labels) (root va : ℕ) → IsTree m at → Block m at root va 0 m
no_pages m at root va t = record {
  labels = at;
  tree = t;
  keeps = λ h qs e. e;
  hhdm = refl;
  cr3 = refl;
  uses = λ h u. u;
  left = omega arith;
  fresh = λ i l. absurd (omega arith);
  apart = λ i j l k. absurd (omega arith);
  entries = λ space va' k ne. refl;
  others = λ space va' k ne. refl;
}

add_pages-Block :
    (n : ℕ) (m : Vm) (at : Labels) (root va : ℕ)
    → IsTree m at
    → at root ≡ some []
    → va + frame_size * n < word
    → n ≤ 2 ^ 36
    → ((i : ℕ) → i < n → is_mapped m root (at_page va i) ≡ false)
    → 4 * n ≤ spare m.pmm.bitmap (frames m.pmm.bitmap)
    → (m' : Vm) × (add_pages n (base m root) (record { vm = m; bump_pointer = va })
        ≡ some (record { vm = m'; bump_pointer = va + frame_size * n }))
      × Block m at root va n m'
unfolding add_pages
add_pages-Block zero m at root va t h room few absent spares = (
  m,
  ap (λ (x : ℕ). some (record { vm = m; bump_pointer = x })) (omega arith),
  no_pages m at root va t,
)
add_pages-Block (suc n) m at root va t h room few absent spares =
    let start : at_page va 0 ≡ va = omega arith in
    let gone = ap (is_mapped m root) (sym start) ∙ absent 0 (omega arith) in
    let (m1, run, one) = one_page m at root va t h gone (omega arith) in
    let wraps : (va + frame_size) % word ≡ va + frame_size = omega arith in
    let top = one.keeps root [] h in
    let still = λ (i : ℕ) (l : i < n).
      let moved : at_page (va + frame_size) i ≡ at_page va (suc i) = omega arith in
      ap (is_mapped m1 root) moved
      ∙ ap entry_present (
          one.entries root (at_page va (suc i)) h (λ j k e.
            let differ : page (at_page va (suc i)) ≢ page (at_page va j) =
              λ q. absurd (omega arith) in
            differ e))
      ∙ absent (suc i) (omega arith) in
    let (m2, runs, rest) =
      add_pages-Block n m1 one.labels root (va + frame_size) one.tree top (omega arith)
        (omega arith) still (omega (arith, one.left)) in
    let ends : va + frame_size + frame_size * n ≡ va + frame_size * suc n = omega arith in
    let here : base m1 root ≡ base m root =
      ap (λ (x : ℕ). (frame_size * root + x) % word) one.hhdm in
    (
      m2,
      ap (λ (o : Option Heap). after_page o (add_pages n (base m root))) run
          ∙ ap (λ (x : ℕ). add_pages n (base m root) (record { vm = m1; bump_pointer = x })) wraps
          ∙ ap (λ (b : ℕ). add_pages n b (record { vm = m1; bump_pointer = va + frame_size }))
              (sym here)
          ∙ runs
          ∙ ap (λ (x : ℕ). some (record { vm = m2; bump_pointer = x })) ends,
      cons-Block m m1 m2 at root va n h one rest room few,
    )

-- In an address space whose tables form a tree, where every free frame is cleared, with four free
-- frames for each page and no page of the area behind the bump pointer mapped, `kmalloc` of a size above 0 returns the bump pointer and
-- moves it behind the pages of the block. Each page of the block then translates to a frame of its own
-- that was free, and every other page of every address space translates to what it did.
pub kmalloc_lem :
    (size : ℕ) (m : Vm) (at : Labels) (root va : ℕ)
    → IsTree m at
    → at root ≡ some []
    → vmm_get_current_space m ≡ base m root
    → 0 < size
    → size + frame_size ≤ word
    → va + frame_size * num_frames size < word
    → num_frames size ≤ 2 ^ 36
    → ((i : ℕ) → i < num_frames size → is_mapped m root (at_page va i) ≡ false)
    → 4 * num_frames size ≤ spare m.pmm.bitmap (frames m.pmm.bitmap)
    → (m' : Vm) × (kmalloc size (record { vm = m; bump_pointer = va })
        ≡ some (va, record { vm = m'; bump_pointer = va + frame_size * num_frames size }))
      × (size ≤ frame_size * num_frames size)
      × Block m at root va (num_frames size) m'
unfolding kmalloc
kmalloc_lem size m at root va t h current some_size fits room few absent spares =
    let (m', run, b) = add_pages-Block (num_frames size) m at root va t h room few absent spares in
    let here =
      ap (λ (x : ℕ). add_pages (num_frames size) x (record { vm = m; bump_pointer = va })) current
      ∙ run in
    (m', ground (arith, here), omega arith, b)
