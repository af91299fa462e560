-- ===== src/Sched/Exit/Outcome.antt =====
-- `sys_exit_group` as a whole: what it leaves, and which task runs then.
use project_luciano.Base.{
  ℕ, zero, suc, ◌+◌, ◌≤◌, ◌<◌, ◌≡◌, ◌≢◌, refl, sym, ap, subst, ◌∙◌, inl, inr, true, false, ◌&&◌,
  Option, none, some, List, [], ◌∷◌, arith, ◌==◌, Bool-cases, length, get_or, All,
}
use native.Mathlib.Nat.{mod-lt}
use project_luciano.Sched.{
  Ptr, null, dead, Task, Process, Sched, entry, is_gone, gone_task, load_task, load_process, queued,
  scheduler_aux_get_current_or_sential, scheduler_get_current, scheduler_tick, scheduler_yield,
}
use project_luciano.Sched.Next.{around, IsSound}
use project_luciano.Sched.Tick.Live.{MovesTo, scheduler_tick_lem}
use project_luciano.Sched.Exit.{remove_all, current_process, sys_exit_group}
use project_luciano.Sched.Exit.Group.{IsTask, IsLoaded, kill, Killed, remove_all-Killed}

-- The loop, and then the tick of the software interrupt.
exit_group-tick :
    (s s1 : Sched) (t : Task) (r : Process)
    → IsTask s (scheduler_get_current s) t r
    → remove_all r.tasks s ≡ some (tt, s1)
    → sys_exit_group s ≡ scheduler_tick s1
unfolding sys_exit_group current_process load_task load_process scheduler_yield
exit_group-tick s s1 t r l e = ground (arith, l.ne, l.task, l.process_ne, l.process, e)

entry-queued : (ps : List Ptr) (i : ℕ) → i < length ps → queued (get_or ps i null) ps ≡ true
unfolding queued
entry-queued [] i h = absurd (omega arith)
entry-queued (p ∷ ps) zero h = ground arith
entry-queued (p ∷ ps) (suc i) h = ground (arith, entry-queued ps i (omega arith))

kill-gone : (o : Option Task) → o ≢ none → gone_task (kill o) ≡ some true
kill-gone none h = absurd (h refl)
kill-gone (some t) h = refl

module _ (s s1 : Sched) (ts : List Ptr) (k : Killed s ts s1) where
  entry-Killed : (i : ℕ) → entry s1 i ≡ entry s i
  entry-Killed i = ap (λ q. get_or q i null) k.queue

  -- An entry of the process is dead now, or was NULL.
  gone-killed :
      (i : ℕ)
      → i < length s.queue
      → is_gone s i ≢ none
      → queued (entry s i) ts ≡ true
      → is_gone s1 i ≡ some true
  unfolding is_gone
  gone-killed i h sound mine =
      let held = entry-queued s.queue i h in
      let now = k.task (entry s i) ∙ rw (mine, held) refl in
      elim (Bool-cases (entry s i == null)) [
        | inl nothing ↦ ground (arith, entry-Killed i)
        | inr there ↦
            let loaded : s.task (entry s i) ≢ none = λ q. sound (ground (arith, q)) in
            rw (entry-Killed i, there, now) (kill-gone (s.task (entry s i)) loaded)
      ]

  gone-kept : (i : ℕ) → queued (entry s i) ts ≡ false → is_gone s1 i ≡ is_gone s i
  unfolding is_gone
  gone-kept i other = let now = k.task (entry s i) ∙ rw other refl in rw (entry-Killed i, now) refl

  Sound-Killed : IsSound s → IsSound s1
  Sound-Killed v i h e =
      let inside : i < length s.queue = omega (arith, h, ap (λ q. length q) k.queue) in
      elim (Bool-cases (queued (entry s i) ts)) [
        | inl mine ↦ ground (arith, gone-killed i inside (v i inside) mine, e)
        | inr other ↦ v i inside (sym (gone-kept i other) ∙ e)
      ]

  Task-Killed : (q : Ptr) (t : Task) → s.task q ≡ some t → (u : Task) × (s1.task q ≡ some u)
  Task-Killed q t e = elim (Bool-cases (queued q ts && queued q s.queue)) [
    | inl hit ↦ (record t { state = dead }, k.task q ∙ rw (hit, e) refl)
    | inr miss ↦ (t, k.task q ∙ rw (miss, e) refl)
  ]

  alive-other :
      (i : ℕ)
      → i < length s.queue
      → IsSound s
      → is_gone s1 i ≡ some false
      → queued (entry s1 i) ts ≡ false
  alive-other i h v alive = elim (Bool-cases (queued (entry s i) ts)) [
    | inl mine ↦ absurd (ground (arith, gone-killed i h (v i h) mine, alive))
    | inr other ↦ ap (λ q. queued q ts) (entry-Killed i) ∙ other
  ]

same_current :
    (s s1 : Sched) (ts : List Ptr)
    → Killed s ts s1
    → scheduler_get_current s1 ≡ scheduler_get_current s
unfolding scheduler_get_current
same_current s s1 ts k = entry-Killed s s1 ts k s1.current_idx ∙ ap (entry s) k.current_idx

current-running :
    (s : Sched)
    → s.scheduler_running ≡ true
    → scheduler_aux_get_current_or_sential s ≡ scheduler_get_current s
unfolding scheduler_aux_get_current_or_sential scheduler_get_current
current-running s on = rw on refl

-- The call is made by the current task of a running and enabled scheduler, no entry of the queue
-- dangles, and the current task and all tasks of its process are in memory. Where the queue has a task
-- of another process that is not dead, `sys_exit_group` does two things. First exactly the tasks of the
-- process that the queue holds are marked as dead, and nothing else changes. Then a tick runs on what
-- that leaves: it returns, and moves to the first entry behind the current one, in cyclic order, that
-- is a task which is not dead. That task does not belong to the process.
pub sys_exit_group_lem :
    (s : Sched) (t : Task) (r : Process) (i : ℕ)
    → IsTask s (scheduler_get_current s) t r
    → All (IsLoaded s) r.tasks
    → IsSound s
    → s.current_idx < length s.queue
    → s.scheduler_running ≡ true
    → s.scheduler_enabled ≡ true
    → i < length s.queue
    → is_gone s i ≡ some false
    → queued (entry s i) r.tasks ≡ false
    → (s1 : Sched) × Killed s r.tasks s1
      × (sys_exit_group s ≡ scheduler_tick s1)
      × ((k : ℕ) × (0 < k)
          × (k ≤ length s1.queue)
          × ((m : ℕ) → 0 < m → m < k → is_gone s1 (around s1 s1.current_idx m) ≡ some true)
          × (is_gone s1 (around s1 s1.current_idx k) ≡ some false)
          × (queued (entry s1 (around s1 s1.current_idx k)) r.tasks ≡ false)
          × MovesTo s1 (around s1 s1.current_idx k) (sys_exit_group s))
sys_exit_group_lem s t r i l h v inside on enabled lt live other =
    let (s1, e, k) = remove_all-Killed s r.tasks h in
    let ticks = exit_group-tick s s1 t r l e in
    let size : length s1.queue ≡ length s.queue = ap (λ q. length q) k.queue in
    let who : scheduler_aux_get_current_or_sential s1 ≡ scheduler_get_current s =
      current-running s1 (k.scheduler_running ∙ on) ∙ same_current s s1 r.tasks k in
    let (u, found) = Task-Killed s s1 r.tasks k (scheduler_get_current s) t l.task in
    let (n, pos, le, before, alive, moves) =
      scheduler_tick_lem s1 u i (Sound-Killed s s1 r.tasks k v) (omega (arith, k.current_idx, size))
        (k.scheduler_enabled ∙ enabled) (λ q. l.ne (sym who ∙ q)) (ap s1.task who ∙ found)
        (omega (arith, size)) (gone-kept s s1 r.tasks k i other ∙ live) in
    let filled : 0 < length s1.queue = omega (arith, size) in
    let target : around s1 s1.current_idx n < length s.queue =
      omega (arith, size, mod-lt (s1.current_idx + n) filled) in
    (
      s1,
      k,
      ticks,
      (
        n,
        pos,
        le,
        before,
        alive,
        alive-other s s1 r.tasks k _ target v alive,
        subst (MovesTo s1 (around s1 s1.current_idx n)) (sym ticks) moves,
      ),
    )
