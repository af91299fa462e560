-- ===== src/Sched/Tick.antt =====
-- `scheduler_tick`: which task runs after it, and when it faults.
pub mod Switched
pub mod Live
use project_luciano.Base.{
  ℕ, ◌<◌, ◌≡◌, refl, sym, ap, ◌∙◌, subst, ◌≢◌, inl, inr, true, false, Option, none, some, arith,
  ◌==◌, if◌then◌else◌, ==_iff, ==_ne, Bool-cases, length,
}
use project_luciano.Sched.{
  Ptr, null, TaskState, running, preempted, Task, Sched, and_then, pure, with_task,
  scheduler_aux_check_validate_state, entry, scheduler_aux_get_current_or_sential, is_gone,
  scheduler_get_next, scheduler_aux_update_state, scheduler_tick,
}
use project_luciano.Sched.Next.{around, IsSound, scheduler_get_next_lem}
pub use project_luciano.Sched.Tick.Switched.{
  OneRunning, switched, update-switched, started, tick-answer, gone-started, Sound-started,
  enabled-valid,
}
use project_luciano.Sched.Tick.Switched.{
  update-inv, update_null, preempted-ne, OneRunning-switched, current-only, disabled-invalid,
}

-- Where every task of the queue is dead or gone and the task that is current is not NULL, the tick
-- of an enabled scheduler writes through the NULL that `scheduler_get_next` answers.
pub scheduler_tick_fault :
    (s : Sched)
    → IsSound s
    → s.current_idx < length s.queue
    → s.scheduler_enabled ≡ true
    → scheduler_aux_get_current_or_sential s ≢ null
    → ((i : ℕ) → i < length s.queue → is_gone s i ≡ some true)
    → scheduler_tick s ≡ none
scheduler_tick_fault s v h on live all =
    elim (scheduler_get_next_lem (started s) (Sound-started s v) h) [
      | inl (e, gone) ↦
          tick-answer s (started s) null (enabled-valid s h on) e
          ∙ rw (
            ==_ne (scheduler_aux_get_current_or_sential s) null live,
            update_null (started s) (scheduler_aux_get_current_or_sential s),
          )
      | inr (k, pos, le, e, alive, before) ↦
          let i = around s s.current_idx k in
          let t : is_gone s i ≡ some true = all i (omega arith) in
          let f : is_gone s i ≡ some false = sym (gone-started s i) ∙ alive in absurd (ground arith)
    ]

-- How an enabled tick ends.
data Ticked (s : Sched) : Option (Option (Ptr × Ptr) × Sched) → Type 0 where
  stays :
      (s1 : Sched)
      → s1.task ≡ s.task
      → s1.scheduler_running ≡ true
      → entry s1 s1.current_idx ≡ scheduler_aux_get_current_or_sential s
      → Ticked s (some (none, s1))
  switches :
      (s1 : Sched) (n : Ptr) (tc tn : Task)
      → s1.task ≡ s.task
      → s1.scheduler_running ≡ true
      → entry s1 s1.current_idx ≡ n
      → Ticked s (
          some (
            some (scheduler_aux_get_current_or_sential s, n),
            switched s1 (scheduler_aux_get_current_or_sential s) tc n tn,
          ))
  faults : Ticked s none

answer-Ticked :
    (s s1 : Sched) (n : Ptr)
    → s1.task ≡ s.task
    → s1.scheduler_running ≡ true
    → entry s1 s1.current_idx ≡ n
    → Ticked s (
        if scheduler_aux_get_current_or_sential s == n
        then some (none, s1)
        else and_then
            (scheduler_aux_update_state (scheduler_aux_get_current_or_sential s) n s1)
            (λ u. pure (some (scheduler_aux_get_current_or_sential s, n))))
answer-Ticked s s1 n same on at = elim (Bool-cases (scheduler_aux_get_current_or_sential s == n)) [
  | inl e ↦
      rw e (stays s1 same on (at ∙ sym ((==_iff (scheduler_aux_get_current_or_sential s) n).0 e)))
  | inr ne ↦ rw ne (
      updated (scheduler_aux_update_state (scheduler_aux_get_current_or_sential s) n s1) refl
        (ground arith))
]
  where
    c : Ptr
    c = scheduler_aux_get_current_or_sential s

    updated :
        (o : Option (Unit {0} × Sched))
        → scheduler_aux_update_state (scheduler_aux_get_current_or_sential s) n s1 ≡ o
        → scheduler_aux_get_current_or_sential s ≢ n
        → Ticked s (and_then o (λ u. pure (some (scheduler_aux_get_current_or_sential s, n))))
    updated none e ne = faults
    updated (some (u, s2)) e ne =
        let (tc, tn, hc, hn, ec, en, eq) = update-inv s1 s2 _ n ne e in
        subst (λ z. Ticked s (some (some (scheduler_aux_get_current_or_sential s, n), z))) (sym eq)
          (switches s1 n tc tn same on at)

null-current :
    (s : Sched)
    → scheduler_aux_get_current_or_sential s ≡ null
    → entry s s.current_idx ≡ scheduler_aux_get_current_or_sential s
unfolding scheduler_aux_get_current_or_sential
null-current s e = ground arith

tick-Ticked :
    (s : Sched)
    → IsSound s
    → s.current_idx < length s.queue
    → s.scheduler_enabled ≡ true
    → Ticked s (scheduler_tick s)
tick-Ticked s v h on = elim (scheduler_get_next_lem (started s) (Sound-started s v) h) [
  | inl (e, gone) ↦ elim (Bool-cases (scheduler_aux_get_current_or_sential s == null)) [
    | inr live ↦
        subst (λ o. Ticked s o)
          (sym (
            tick-answer s (started s) null (enabled-valid s h on) e
            ∙ rw (live, update_null (started s) (scheduler_aux_get_current_or_sential s))))
          faults
    | inl z ↦
        subst (λ o. Ticked s o)
          (sym (tick-answer s (started s) null (enabled-valid s h on) e ∙ rw z))
          (stays (started s) refl refl (null-current s ((==_iff _ null).0 z)))
  ]
  | inr (k, pos, le, e, alive, before) ↦
      subst (λ o. Ticked s o) (sym (tick-answer s _ _ (enabled-valid s h on) e))
        (answer-Ticked s (record (started s) { current_idx = around s s.current_idx k }) _ refl refl
          refl)
]

Ticked-OneRunning :
    (s s' : Sched) (out : Option (Ptr × Ptr)) {o : Option (Option (Ptr × Ptr) × Sched)}
    → OneRunning s
    → Ticked s o
    → o ≡ some (out, s')
    → OneRunning s'
Ticked-OneRunning s s' out v (stays s1 same on at) e =
    let eq : s1 ≡ s' = cc in
    subst OneRunning eq (λ p t f r.
      (on, current-only s v p t (ap (λ (g : Ptr → Option Task). g p) (sym same) ∙ f) r ∙ sym at))
Ticked-OneRunning s s' out v (switches s1 n tc tn same on at) e =
    let eq : switched s1 (scheduler_aux_get_current_or_sential s) tc n tn ≡ s' = cc in
    subst OneRunning eq (
      OneRunning-switched s1 _ n tc tn
        (λ p t f r. current-only s v p t (ap (λ (g : Ptr → Option Task). g p) (sym same) ∙ f) r) on
        at)
Ticked-OneRunning s s' out v faults e = absurd (ground arith)

-- A tick keeps the invariant that at most one task is marked as running, the current one: the task
-- that is switched from is marked as ready before the next one is marked as running.
pub tick-OneRunning :
    (s s' : Sched) (out : Option (Ptr × Ptr))
    → IsSound s
    → s.current_idx < length s.queue
    → OneRunning s
    → scheduler_tick s ≡ some (out, s')
    → OneRunning s'
tick-OneRunning s s' out v h one e = elim (Bool-cases s.scheduler_enabled) [
  | inl on ↦ Ticked-OneRunning s s' out one (tick-Ticked s v h on) e
  | inr off ↦ let d = disabled-invalid s off in let eq : s ≡ s' = cc in subst OneRunning eq one
]
