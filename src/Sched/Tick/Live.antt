-- ===== src/Sched/Tick/Live.antt =====
-- `scheduler_tick` where a task can run: it returns, and to which task it moves.
use project_luciano.Base.{
  ℕ, ◌≤◌, ◌<◌, ◌≡◌, refl, sym, ◌∙◌, ◌≢◌, inl, inr, true, false, Option, none, some, arith, ◌==◌,
  if◌then◌else◌, Bool-cases, Option-cases, length,
}
use project_luciano.Sched.{
  Ptr, null, Task, Sched, entry, scheduler_aux_get_current_or_sential, is_gone, scheduler_tick,
  scheduler_get_next,
}
use project_luciano.Sched.Next.{around, IsSound, scheduler_get_next_lem}
use project_luciano.Sched.Tick.{
  switched, update-switched, started, tick-answer, gone-started, Sound-started, enabled-valid,
}

alive-task :
    (s : Sched) (i : ℕ)
    → is_gone s i ≡ some false
    → (entry s i ≢ null) × (t : Task) × (s.task (entry s i) ≡ some t)
unfolding is_gone
alive-task s i e = elim (Option-cases (s.task (entry s i))) [
  | inl nothing ↦ absurd (ground arith)
  | inr (t, found) ↦ (ground arith, t, found)
]

-- A tick that goes on to entry `i`.
pub record MovesTo (s : Sched) (i : ℕ) (o : Option (Option (Ptr × Ptr) × Sched)) : Type 0 where
  pub after : Sched
  pub returned :
      o
      ≡ some (
        (if scheduler_aux_get_current_or_sential s == entry s i
            then none
            else some (scheduler_aux_get_current_or_sential s, entry s i)),
        after,
      )
  pub index : after.current_idx ≡ i
  pub queue : after.queue ≡ s.queue
  pub started_now : after.scheduler_running ≡ true

abbrev moved : Sched → ℕ → Sched
moved s i = record (started s) { current_idx = i }

tick-MovesTo :
    (s : Sched) (tc : Task) (i : ℕ)
    → s.current_idx < length s.queue
    → s.scheduler_enabled ≡ true
    → scheduler_get_next (started s) ≡ some (entry s i, moved s i)
    → is_gone s i ≡ some false
    → scheduler_aux_get_current_or_sential s ≢ null
    → s.task (scheduler_aux_get_current_or_sential s) ≡ some tc
    → MovesTo s i (scheduler_tick s)
tick-MovesTo s tc i h on e alive ne here =
    let c = scheduler_aux_get_current_or_sential s in
    let answer = tick-answer s (moved s i) (entry s i) (enabled-valid s h on) e in
    let (some_task, tn, found) = alive-task s i alive in
    elim (Bool-cases (c == entry s i)) [
      | inl same ↦ record {
        after = moved s i;
        returned = answer ∙ rw same refl;
        index = refl;
        queue = refl;
        started_now = refl;
      }
      | inr other ↦
          let switch =
            update-switched (moved s i) c (entry s i) tc tn ne some_task (ground arith) here
              found in
          record {
            after = switched (moved s i) c tc (entry s i) tn;
            returned = answer ∙ rw (other, switch) refl;
            index = refl;
            queue = refl;
            started_now = refl;
          }
    ]

-- Where the current task is in memory and some task of the queue is not dead, the tick of an enabled
-- scheduler returns: it moves to the first entry behind the current one, in cyclic order and the
-- current one last, that is a task which is not dead, and reports a switch exactly if that is
-- another task.
pub scheduler_tick_lem :
    (s : Sched) (tc : Task) (i : ℕ)
    → IsSound s
    → s.current_idx < length s.queue
    → s.scheduler_enabled ≡ true
    → scheduler_aux_get_current_or_sential s ≢ null
    → s.task (scheduler_aux_get_current_or_sential s) ≡ some tc
    → i < length s.queue
    → is_gone s i ≡ some false
    → (k : ℕ) × (0 < k)
      × (k ≤ length s.queue)
      × ((m : ℕ) → 0 < m → m < k → is_gone s (around s s.current_idx m) ≡ some true)
      × (is_gone s (around s s.current_idx k) ≡ some false)
      × MovesTo s (around s s.current_idx k) (scheduler_tick s)
scheduler_tick_lem s tc i v h on ne here lt live =
    elim (scheduler_get_next_lem (started s) (Sound-started s v) h) [
      | inl (e, gone) ↦
          let t : is_gone s i ≡ some true = sym (gone-started s i) ∙ gone i lt in
          absurd (ground arith)
      | inr (k, pos, le, e, alive, before) ↦ (
        k,
        pos,
        le,
        λ m a b. sym (gone-started s (around s s.current_idx m)) ∙ before m a b,
        sym (gone-started s (around s s.current_idx k)) ∙ alive,
        tick-MovesTo s tc (around s s.current_idx k) h on e
            (sym (gone-started s (around s s.current_idx k)) ∙ alive) ne here,
      )
    ]
