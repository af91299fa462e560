-- ===== src/Fs/Vfs/Parsed.antt =====
-- `vfs_open` of kernel/vfs/vfs.c on a path below the root, up to the lookup in the parent.
use project_luciano.Base.{
  ℕ, suc, ◌-◌, ◌≡◌, refl, ap, ◌∙◌, subst, inl, inr, Option, none, some, List, ◌∷◌, arith, ==_ne,
}
use project_luciano.Libc.{Bytes}
use project_luciano.Libc.Compare.{NoNul}
use project_luciano.Fs.Path.{Rows, PathBuf, parse_path, component}
use project_luciano.Fs.Path.Outcome.{components, component-NoNul}
use project_luciano.Fs.World.{Ptr, vfs_enoent, World, done}
use project_luciano.Fs.Ramfs.{ramfs_ops}
use project_luciano.Fs.Vfs.{Ops, vfs_root, open_at, open_parsed, vfs_walk_parent, vfs_open}
use project_luciano.Fs.Vfs.Tree.{ramfs_table, locate, IsFs}
use project_luciano.Fs.Vfs.Tree.Walk.{walk_lem}
use project_luciano.Fs.Vfs.Create.{path_of, Nat-cases}

-- A parsed path whose innermost name is `name`.
pub record Named (o : Option PathBuf) (name : Bytes) (st : List Bytes) : Type 0 where
  pub buf : PathBuf
  pub last : ℕ
  pub parsed : o ≡ some buf
  pub deep : buf.depth ≡ suc last
  pub innermost : component buf last ≡ name
  pub above : components buf last ≡ st

path_of-Named :
    (o : Option PathBuf) (name : Bytes) (st : List Bytes)
    → path_of o ≡ some (name ∷ st)
    → Named o name st
path_of-Named none name st q = absurd (ground (arith, q))
path_of-Named (some p) name st q = elim (Nat-cases p.depth) [
  | inl top ↦ absurd (ground (arith, q, ap (components p) top))
  | inr (d, deep) ↦ record {
    buf = p;
    last = d;
    parsed = refl;
    deep = deep;
    innermost = ground (arith, q, ap (components p) deep);
    above = ground (arith, q, ap (components p) deep);
  }
]

pub path_of-NoNul :
    (o : Option PathBuf) (name : Bytes) (st : List Bytes)
    → path_of o ≡ some (name ∷ st)
    → NoNul name
path_of-NoNul o name st q =
    let h = path_of-Named o name st q in subst NoNul h.innermost (component-NoNul h.buf h.last)

module _ (drivers : Ptr → Ops) (junk : Rows) (mounted : drivers ramfs_ops ≡ ramfs_table) (flags : ℕ)
    (w : World) (fs : IsFs w.next w) (path name : Bytes) (st : List Bytes)
    (parsed : path_of (parse_path junk path) ≡ some (name ∷ st)) where
  -- Nothing stands at the parent.
  pub vfs_open-gone :
      locate w st ≡ none → vfs_open drivers junk path flags w ≡ done (vfs_enoent, none) w
  unfolding vfs_open open_parsed vfs_walk_parent locate
  vfs_open-gone gone =
      let h = path_of-Named (parse_path junk path) name st parsed in
      let walk =
        walk_lem drivers junk mounted w.next w fs h.buf h.last 0 h.last vfs_root (omega arith)
          refl in
      let last : h.buf.depth - 1 ≡ h.last = omega (arith, h.deep) in
      rw
        (
          h.parsed,
          ==_ne h.buf.depth 0 (omega (arith, h.deep)),
          last,
          walk,
          ap (locate w) h.above ∙ gone,
        )
        refl

  pub vfs_open-at :
      (dd : Ptr)
      → locate w st ≡ some dd
      → vfs_open drivers junk path flags w ≡ open_at drivers junk name flags dd w
  unfolding vfs_open open_parsed vfs_walk_parent locate
  vfs_open-at dd at =
      let h = path_of-Named (parse_path junk path) name st parsed in
      let walk =
        walk_lem drivers junk mounted w.next w fs h.buf h.last 0 h.last vfs_root (omega arith)
          refl in
      let last : h.buf.depth - 1 ≡ h.last = omega (arith, h.deep) in
      let run : vfs_open drivers junk path flags w
          ≡ open_at drivers junk (component h.buf h.last) flags dd w =
        rw
          (
            h.parsed,
            ==_ne h.buf.depth 0 (omega (arith, h.deep)),
            last,
            walk,
            ap (locate w) h.above ∙ at,
          )
          refl in
      run ∙ ap (λ x. open_at drivers junk x flags dd w) h.innermost
