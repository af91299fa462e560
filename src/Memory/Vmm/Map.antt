-- ===== src/Memory/Vmm/Map.antt =====
-- `vmm_map` and `vmm_get_paddr` of kernel/arch/x86_64/vmm.c: what a mapping changes.
use project_luciano.Base.{
  ℕ, ◌+◌, ◌*◌, ◌%◌, ◌≤◌, ◌<◌, bit_or, ◌≡◌, refl, sym, ap, ◌∙◌, true, some, List, [], ◌∷◌, arith,
  length,
}
use project_luciano.Memory.Pmm.{frame_size, word}
use project_luciano.Memory.Pmm.Frames.{frames}
use project_luciano.Memory.Pmm.Count.{spare}
use project_luciano.Memory.Vmm.{
  Vm, entry_present, pml4_idx, pdpt_idx, pd_idx, pt_idx, ensure, next_table, put_leaf, vmm_map,
}
use project_luciano.Memory.Vmm.Entry.{target}
use project_luciano.Memory.Vmm.Tree.{
  base, entry, Labels, IsTree, lookup, follow, path, idx-lt, next_table-base,
}
use project_luciano.Memory.Vmm.Descend.{Grows, Grows-trans, ensure-Grows}

pub base-same : (m m' : Vm) (f : ℕ) → m'.hhdm ≡ m.hhdm → base m' f ≡ base m f
base-same m m' f e = ap (λ (h : ℕ). (frame_size * f + h) % word) e

-- One level down: the table is there afterwards, in the frame that the entry names.
record Down (m : Vm) (at : Labels) (f i : ℕ) (ps : List ℕ) (flags : ℕ) : Type 0 where
  after : Vm
  labels : Labels
  runs : ensure (base m f) i flags m ≡ some (tt, after)
  next : next_table (base m f) i after ≡ base after (target (entry after f i))
  there : entry_present (entry after f i) ≡ true
  child : labels (target (entry after f i)) ≡ some (i ∷ ps)
  grows : Grows 1 m at after labels

down :
    (m : Vm) (at : Labels) (f i : ℕ) (ps : List ℕ) (flags : ℕ)
    → IsTree m at
    → at f ≡ some ps
    → length ps < 3
    → i < 512
    → flags % 2 ≡ 1
    → flags < 256
    → 0 < spare m.pmm.bitmap (frames m.pmm.bitmap)
    → Down m at f i ps flags
down m at f i ps flags t here upper hi odd byte room =
    let (m2, at2, e, g, there) = ensure-Grows m at f i ps flags t here upper hi odd byte room in
    let still = g.keeps f ps here in
    record {
      after = m2;
      labels = at2;
      runs = e;
      next =
          ap (λ (b : ℕ). next_table b i m2) (sym (base-same m m2 f g.hhdm))
          ∙ next_table-base m2 f i g.tree.direct (g.tree.inside f ps still) hi;
      there = there;
      child = g.tree.child f i ps still upper hi there;
      grows = g;
    }

-- The tables on the path of an address.
pub record Chain (m : Vm) (root va f3 f2 f1 : ℕ) : Type 0 where
  pub there4 : entry_present (entry m root (pml4_idx va)) ≡ true
  pub there3 : entry_present (entry m f3 (pdpt_idx va)) ≡ true
  pub there2 : entry_present (entry m f2 (pd_idx va)) ≡ true
  pub to3 : target (entry m root (pml4_idx va)) ≡ f3
  pub to2 : target (entry m f3 (pdpt_idx va)) ≡ f2
  pub to1 : target (entry m f2 (pd_idx va)) ≡ f1

pub lookup-Chain :
    (m : Vm) (root va f3 f2 f1 : ℕ)
    → Chain m root va f3 f2 f1
    → lookup m root (path va) ≡ entry m f1 (pt_idx va)
unfolding lookup
lookup-Chain m root va f3 f2 f1 c =
    let k1 = λ (f : ℕ). entry m f (pt_idx va) in
    let k2 = λ (f : ℕ).
      follow (entry_present (entry m f (pd_idx va))) (k1 (target (entry m f (pd_idx va)))) in
    let k3 = λ (f : ℕ).
      follow (entry_present (entry m f (pdpt_idx va))) (k2 (target (entry m f (pdpt_idx va)))) in
    ap (λ b. follow b (k3 (target (entry m root (pml4_idx va))))) c.there4
    ∙ ap k3 c.to3
    ∙ ap (λ b. follow b (k2 (target (entry m f3 (pdpt_idx va))))) c.there3
    ∙ ap k2 c.to2
    ∙ ap (λ b. follow b (k1 (target (entry m f2 (pd_idx va))))) c.there2
    ∙ ap k1 c.to1

-- The walk of `vmm_map` down to the last table.
pub record Walked (m : Vm) (at : Labels) (root va flags : ℕ) : Type 0 where
  pub after : Vm
  pub labels : Labels
  pub f3 : ℕ
  pub f2 : ℕ
  pub f1 : ℕ
  pub at3 : labels f3 ≡ some (pml4_idx va ∷ [])
  pub at2 : labels f2 ≡ some (pdpt_idx va ∷ pml4_idx va ∷ [])
  pub at1 : labels f1 ≡ some (pd_idx va ∷ pdpt_idx va ∷ pml4_idx va ∷ [])
  pub chain : Chain after root va f3 f2 f1
  pub grows : Grows 3 m at after labels
  pub runs :
      (pa : ℕ)
      → vmm_map (base m root) va pa flags m
        ≡ some (tt, put_leaf (base after f1) (pt_idx va) (bit_or pa flags) after)

pub walk :
    (m : Vm) (at : Labels) (root va flags : ℕ)
    → IsTree m at
    → at root ≡ some []
    → flags % 2 ≡ 1
    → flags < 256
    → 3 ≤ spare m.pmm.bitmap (frames m.pmm.bitmap)
    → Walked m at root va flags
unfolding vmm_map
walk m at root va flags t here odd byte room =
    let (b4, b3, b2, b1) = idx-lt va in
    let d4 = down m at root (pml4_idx va) [] flags t here (omega arith) b4 odd byte (omega arith) in
    let m1 = d4.after in
    let f3 = target (entry m1 root (pml4_idx va)) in
    let d3 =
      down m1 d4.labels f3 (pdpt_idx va) _ flags d4.grows.tree d4.child (omega arith) b3 odd byte
        (omega (arith, d4.grows.left)) in
    let m2 = d3.after in
    let f2 = target (entry m2 f3 (pdpt_idx va)) in
    let d2 =
      down m2 d3.labels f2 (pd_idx va) _ flags d3.grows.tree d3.child (omega arith) b2 odd byte
        (omega (arith, d4.grows.left, d3.grows.left)) in
    let m3 = d2.after in
    let f1 = target (entry m3 f2 (pd_idx va)) in
    let g23 = Grows-trans 1 1 m1 m2 m3 _ _ _ d3.grows d2.grows in
    let same4 = g23.fixed root (pml4_idx va) [] (d4.grows.keeps root [] here) b4 d4.there in
    let same3 = d2.grows.fixed f3 (pdpt_idx va) _ (d3.grows.keeps f3 _ d4.child) b3 d3.there in
    record {
      after = m3;
      labels = d2.labels;
      f3 = f3;
      f2 = f2;
      f1 = f1;
      at3 = g23.keeps f3 _ d4.child;
      at2 = d2.grows.keeps f2 _ d3.child;
      at1 = d2.child;
      chain = record {
        there4 = ap entry_present same4 ∙ d4.there;
        there3 = ap entry_present same3 ∙ d3.there;
        there2 = d2.there;
        to3 = ap target same4;
        to2 = ap target same3;
        to1 = refl;
      };
      grows = Grows-trans 1 2 m m1 m3 _ _ _ d4.grows g23;
      runs = λ pa. ground (arith, d4.runs, d4.next, d3.runs, d3.next, d2.runs, d2.next);
    }
