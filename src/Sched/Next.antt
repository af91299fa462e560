-- ===== src/Sched/Next.antt =====
-- Theorems about scheduler_get_next of kernel/process/scheduler.c.
use project_luciano.Base.{
  ℕ, zero, suc, ◌+◌, ◌-◌, ◌%◌, ◌≤◌, ◌<◌, ◌≡◌, refl, sym, ap, ◌∙◌, ◌≢◌, ◌⊎◌, inl, inr, Bool, true,
  false, Option, none, some, arith, leb, leb→le, Bool-cases, length,
}
use native.Mathlib.Nat.{mod-add-mod, mod-eq_of_lt}
use project_luciano.Sched.{
  Ptr, null, Sched, entry, is_gone, Search, at, all_dead, bad_entry, search_step, search, move_to,
  scheduler_get_next,
}

module _ (s : Sched) where
  -- The entry `m` places behind index `i`, going round.
  abbrev pub around : ℕ → ℕ → ℕ
  around i m = (i + m) % length s.queue

  -- What a search of `left` entries from `i` on ends with.
  abbrev pub Finds : ℕ → ℕ → Search → Type 0
  Finds left i (at j) =
      (k : ℕ) × (k < left)
      × (j ≡ around i k)
      × (is_gone s j ≡ some false)
      × ((m : ℕ) → m < k → is_gone s (around i m) ≡ some true)
  Finds left i all_dead = (m : ℕ) → m < left → is_gone s (around i m) ≡ some true
  Finds left i bad_entry = (m : ℕ) × (m < left) × (is_gone s (around i m) ≡ none)

  around-suc : (i m : ℕ) → around ((i + 1) % length s.queue) m ≡ around i (suc m)
  around-suc i m = rw mod-add-mod (ap (λ (k : ℕ). k % length s.queue) (omega arith))

  around_zero : (i : ℕ) → i < length s.queue → around i 0 ≡ i
  around_zero i h = ap (λ (k : ℕ). k % length s.queue) (omega arith) ∙ mod-eq_of_lt h

  Finds-step :
      (left i : ℕ) (o : Option Bool) (rest : Search)
      → i < length s.queue
      → is_gone s i ≡ o
      → Finds left ((i + 1) % length s.queue) rest
      → Finds (suc left) i (search_step i o rest)
  Finds-step left i none rest h e f = (0, omega arith, ap (is_gone s) (around_zero i h) ∙ e)
  Finds-step left i (some false) rest h e f =
      (0, omega arith, sym (around_zero i h), e, λ m k. elim k [ ])
  Finds-step left i (some true) (at j) h e (k, lt, place, alive, before) =
      (suc k, omega arith, place ∙ around-suc i k, alive, λ m q. passed m q)
    where
      passed : (m : ℕ) → m < suc k → is_gone s (around i m) ≡ some true
      passed zero q = ap (is_gone s) (around_zero i h) ∙ e
      passed (suc m) q = ap (is_gone s) (sym (around-suc i m)) ∙ before m (omega arith)
  Finds-step left i (some true) all_dead h e f = λ m q. passed m q
    where
      passed : (m : ℕ) → m < suc left → is_gone s (around i m) ≡ some true
      passed zero q = ap (is_gone s) (around_zero i h) ∙ e
      passed (suc m) q = ap (is_gone s) (sym (around-suc i m)) ∙ f m (omega arith)
  Finds-step left i (some true) bad_entry h e (m, lt, bad) =
      (suc m, omega arith, ap (is_gone s) (sym (around-suc i m)) ∙ bad)

  search-Finds : (left i : ℕ) → i < length s.queue → Finds left i (search s left i)
  unfolding search
  search-Finds zero i h = λ m k. elim k [ ]
  search-Finds (suc left) i h =
      Finds-step left i (is_gone s i) _ h refl
        (search-Finds left ((i + 1) % length s.queue) (omega arith))

-- No entry of the queue dangles.
abbrev pub IsSound : Sched → Type 0
IsSound s = (i : ℕ) → i < length s.queue → is_gone s i ≢ none

-- What `scheduler_get_next` may answer.
abbrev pub Next : Sched → Option (Ptr × Sched) → Type 0
Next s o =
    (o ≡ some (null, s)) × ((i : ℕ) → i < length s.queue → is_gone s i ≡ some true)
    ⊎ ((k : ℕ) × (0 < k)
        × (k ≤ length s.queue)
        × (o
            ≡ some (
              entry s (around s s.current_idx k),
              record s { current_idx = around s s.current_idx k },
            ))
        × (is_gone s (around s s.current_idx k) ≡ some false)
        × ((m : ℕ) → 0 < m → m < k → is_gone s (around s s.current_idx m) ≡ some true))

-- Every index is reached from every other one.
reach : (n j i : ℕ) → j < n → i < n → (m : ℕ) × (m < n) × ((j + m) % n ≡ i)
reach n j i hj hi = elim (Bool-cases (leb j i)) [
  | inl up ↦
      let le = leb→le j i up in
      let e : j + (i - j) ≡ i = omega arith in (i - j, omega arith, rw e (mod-eq_of_lt hi))
  | inr down ↦
      let lt : i < j = ground arith in
      let e : j + (i + n - j) ≡ i + n = omega arith in
      (i + n - j, omega arith, rw e (mod_wrap i n hi))
]
  where
    mod_wrap : (i n : ℕ) → i < n → (i + n) % n ≡ i
    mod_wrap i n h = grind arith

Finds-Next :
    (s : Sched) (o : Search)
    → IsSound s
    → s.current_idx < length s.queue
    → Finds s (length s.queue) ((s.current_idx + 1) % length s.queue) o
    → Next s (move_to s o)
Finds-Next s (at j) v h (k, lt, place, alive, before) =
    let p = place ∙ around-suc s s.current_idx k in
    inr (
      suc k,
      omega arith,
      lt,
      ap (λ (i : ℕ). move_to s (at i)) p,
      ap (is_gone s) (sym p) ∙ alive,
      λ m pos q. passed m pos q,
    )
  where
    passed : (m : ℕ) → 0 < m → m < suc k → is_gone s (around s s.current_idx m) ≡ some true
    passed zero pos q = absurd (omega arith)
    passed (suc m) pos q =
        ap (is_gone s) (sym (around-suc s s.current_idx m)) ∙ before m (omega arith)
Finds-Next s all_dead v h f = inl (
  refl,
  λ i hi.
      let (m, lt, e) =
        reach (length s.queue) ((s.current_idx + 1) % length s.queue) i (omega arith) hi in
      ap (is_gone s) (sym e) ∙ f m lt,
)
Finds-Next s bad_entry v h (m, lt, bad) = absurd (v _ (omega arith) bad)

-- On a queue without dangling entries, `scheduler_get_next` answers NULL and moves nowhere exactly
-- where every entry is NULL or dead; otherwise it moves to the first entry behind the current one,
-- in cyclic order and the current one last, that is a task which is not dead.
pub scheduler_get_next_lem :
    (s : Sched) → IsSound s → s.current_idx < length s.queue → Next s (scheduler_get_next s)
unfolding scheduler_get_next
scheduler_get_next_lem s v h =
    Finds-Next s _ v h
      (search-Finds s (length s.queue) ((s.current_idx + 1) % length s.queue) (omega arith))
