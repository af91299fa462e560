-- ===== src/Sched/Tick/Switched.antt =====
-- What one switch of `scheduler_tick` in kernel/process/scheduler.c leaves.
use project_luciano.Base.{
  ℕ, ◌<◌, ◌≡◌, refl, sym, ◌∙◌, ◌≢◌, true, false, none, some, arith, ◌==◌, if◌then◌else◌, length,
}
use project_luciano.Sched.{
  Ptr, null, TaskState, running, preempted, Task, Sched, and_then, pure, with_task,
  scheduler_aux_check_validate_state, entry, scheduler_aux_get_current_or_sential, is_gone,
  scheduler_get_next, scheduler_aux_update_state, scheduler_tick,
}
use project_luciano.Sched.Next.{IsSound}

-- At most one task is marked as running: the current one, and none before the first tick.
abbrev pub OneRunning : Sched → Type 0
OneRunning s =
    (p : Ptr) (t : Task)
    → s.task p ≡ some t
    → t.state ≡ running
    → (s.scheduler_running ≡ true) × (p ≡ entry s s.current_idx)

-- The two stores of a switch.
abbrev pub switched : Sched → Ptr → Task → Ptr → Task → Sched
switched s c tc n tn =
    with_task (with_task s c (record tc { state = preempted tc.state })) n
      (record tn { state = running })

pub update-switched :
    (s : Sched) (c n : Ptr) (tc tn : Task)
    → c ≢ null
    → n ≢ null
    → c ≢ n
    → s.task c ≡ some tc
    → s.task n ≡ some tn
    → scheduler_aux_update_state c n s ≡ some (tt, switched s c tc n tn)
unfolding scheduler_aux_update_state
update-switched s c n tc tn hc hn ne ec en = ground arith

pub update-inv :
    (s s' : Sched) (c n : Ptr)
    → c ≢ n
    → scheduler_aux_update_state c n s ≡ some (tt, s')
    → (tc : Task) × (tn : Task) × (c ≢ null)
      × (n ≢ null)
      × (s.task c ≡ some tc)
      × (s.task n ≡ some tn)
      × (s' ≡ switched s c tc n tn)
unfolding scheduler_aux_update_state
update-inv s s' c n ne e = ground arith

pub update_null : (s : Sched) (c : Ptr) → scheduler_aux_update_state c null s ≡ none
unfolding scheduler_aux_update_state
update_null s c = ground arith

pub preempted-ne : (x : TaskState) → preempted x ≢ running
preempted-ne running = λ e. ground arith
preempted-ne _ = λ e. ground arith

pub OneRunning-switched :
    (s : Sched) (c n : Ptr) (tc tn : Task)
    → ((p : Ptr) (t : Task) → s.task p ≡ some t → t.state ≡ running → p ≡ c)
    → s.scheduler_running ≡ true
    → entry s s.current_idx ≡ n
    → OneRunning (switched s c tc n tn)
OneRunning-switched s c n tc tn only on at = λ p t e r. (on, go p t e r)
  where
    go :
        (p : Ptr) (t : Task)
        → (switched s c tc n tn).task p ≡ some t
        → t.state ≡ running
        → p ≡ entry s s.current_idx
    go p t e r = ground (arith, only p t, preempted-ne tc.state)

-- The current task or the sentinel is what runs before the tick.
pub current-only :
    (s : Sched)
    → OneRunning s
    → (p : Ptr) (t : Task) → s.task p ≡ some t
    → t.state ≡ running
    → p ≡ scheduler_aux_get_current_or_sential s
unfolding scheduler_aux_get_current_or_sential
current-only s v p t e r = let (on, at) = v p t e r in rw on at

abbrev pub started : Sched → Sched
started s = record s { scheduler_running = true }

-- What a tick of an enabled scheduler does with the answer of `scheduler_get_next`.
pub tick-answer :
    (s s1 : Sched) (n : Ptr)
    → scheduler_aux_check_validate_state s ≡ true
    → scheduler_get_next (started s) ≡ some (n, s1)
    → scheduler_tick s ≡ (
        if scheduler_aux_get_current_or_sential s == n
        then some (none, s1)
        else and_then
            (scheduler_aux_update_state (scheduler_aux_get_current_or_sential s) n s1)
            (λ u. pure (some (scheduler_aux_get_current_or_sential s, n))))
unfolding scheduler_tick
tick-answer s s1 n on e = ground arith

pub gone-started : (s : Sched) (i : ℕ) → is_gone (started s) i ≡ is_gone s i
unfolding is_gone
gone-started s i = refl

pub Sound-started : (s : Sched) → IsSound s → IsSound (started s)
Sound-started s v i h e = v i h (sym (gone-started s i) ∙ e)

pub enabled-valid :
    (s : Sched)
    → s.current_idx < length s.queue
    → s.scheduler_enabled ≡ true
    → scheduler_aux_check_validate_state s ≡ true
unfolding scheduler_aux_check_validate_state
enabled-valid s h on = ground arith

pub disabled-invalid : (s : Sched) → s.scheduler_enabled ≡ false → scheduler_tick s ≡ some (none, s)
unfolding scheduler_tick
disabled-invalid s off = ground arith
