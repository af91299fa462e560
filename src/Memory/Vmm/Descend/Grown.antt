-- ===== src/Memory/Vmm/Descend/Grown.antt =====
-- What a change of the page tables keeps, and one word of a table that is written.
use project_luciano.Base.{
  ℕ, ◌+◌, ◌*◌, ◌≤◌, ◌<◌, ◌≡◌, refl, ap, ◌∙◌, inl, inr, true, ◌&&◌, some, List, arith, ◌==◌,
  if◌then◌else◌, Bool-cases, length, All,
}
use project_luciano.Memory.Pmm.{Bitmap, frame_size}
use project_luciano.Memory.Pmm.Frames.{used, frames}
use project_luciano.Memory.Pmm.Count.{spare}
use project_luciano.Memory.Vmm.{Vm, entry_present, slot, store}
use project_luciano.Memory.Vmm.Tree.{base, entry, IsDirect, Labels, IsTree, lookup}

-- One word of a table is written, and the bitmap may be another one.
abbrev pub written : Vm → ℕ → ℕ → ℕ → Bitmap → Vm
written m f i v after = record m {
  mem = λ a. if a == frame_size * f + m.hhdm + 8 * i then v else m.mem a;
  pmm = record m.pmm { bitmap = after };
}

pub entry-written :
    (m : Vm) (f i v : ℕ) (after : Bitmap) (g j : ℕ)
    → i < 512
    → j < 512
    → entry (written m f i v after) g j ≡ (if (g == f) && (j == i) then v else entry m g j)
entry-written m f i v after g j h k = elim (Bool-cases ((g == f) && (j == i))) [
  | inl e ↦ ground arith
  | inr ne ↦ ground arith
]

pub store-written :
    (m : Vm) (f i v : ℕ)
    → IsDirect m
    → f < frames m.pmm.bitmap
    → i < 512
    → store (base m f) i v m ≡ written m f i v m.pmm.bitmap
unfolding store
store-written m f i v d h k =
    let e : slot (base m f) i ≡ frame_size * f + m.hhdm + 8 * i = omega (arith, d.reach) in
    ap (λ (s : ℕ). record m { mem = λ a. if a == s then v else m.mem a }) e

-- What a change of the tables that takes at most `n` frames keeps: every label, every entry that
-- is present above the last level, and what every path leads to.
pub record Grows (n : ℕ) (m : Vm) (at : Labels) (m' : Vm) (at' : Labels) : Type 0 where
  pub tree : IsTree m' at'
  pub keeps : (h : ℕ) (qs : List ℕ) → at h ≡ some qs → at' h ≡ some qs
  pub same :
      (h : ℕ) (qs is : List ℕ)
      → at h ≡ some qs
      → length is + length qs ≡ 4
      → All (λ i. i < 512) is
      → lookup m' h is ≡ lookup m h is
  pub fixed :
      (h j : ℕ) (qs : List ℕ)
      → at h ≡ some qs
      → j < 512
      → entry_present (entry m h j) ≡ true
      → entry m' h j ≡ entry m h j
  pub uses : (h : ℕ) → used m.pmm.bitmap h ≡ true → used m'.pmm.bitmap h ≡ true
  pub hhdm : m'.hhdm ≡ m.hhdm
  pub cr3 : m'.cr3 ≡ m.cr3
  pub size : length m'.pmm.bitmap ≡ length m.pmm.bitmap
  pub left :
      spare m.pmm.bitmap (frames m.pmm.bitmap) ≤ spare m'.pmm.bitmap (frames m'.pmm.bitmap) + n

pub Grows-refl : (n : ℕ) (m : Vm) (at : Labels) → IsTree m at → Grows n m at m at
Grows-refl n m at t = record {
  tree = t;
  keeps = λ h qs e. e;
  same = λ h qs is e l b. refl;
  fixed = λ h j qs e k p. refl;
  uses = λ h u. u;
  hhdm = refl;
  cr3 = refl;
  size = refl;
  left = omega arith;
}

pub Grows-trans :
    (n k : ℕ) (m m1 m2 : Vm) (at at1 at2 : Labels)
    → Grows n m at m1 at1
    → Grows k m1 at1 m2 at2
    → Grows (n + k) m at m2 at2
Grows-trans n k m m1 m2 at at1 at2 g h = record {
  tree = h.tree;
  keeps = λ f qs e. h.keeps f qs (g.keeps f qs e);
  same = λ f qs is e l b. h.same f qs is (g.keeps f qs e) l b ∙ g.same f qs is e l b;
  fixed = λ f j qs e b p.
      let z = g.fixed f j qs e b p in
      h.fixed f j qs (g.keeps f qs e) b (ap entry_present z ∙ p) ∙ z;
  uses = λ f u. h.uses f (g.uses f u);
  hhdm = h.hhdm ∙ g.hhdm;
  cr3 = h.cr3 ∙ g.cr3;
  size = h.size ∙ g.size;
  left = omega (arith, g.left, h.left);
}
