-- ===== src/Sched/Tests.antt =====
-- A queue of two tasks, and one whose tasks are all dead.
use project_luciano.Base.{
  All, [], arith, false, if◌then◌else◌, length, none, refl, some, suc, true, zero, ℕ, ◌<◌, ◌==◌,
  ◌∷◌, ◌≡◌, ◌≢◌, ◌≤◌,
}
use project_luciano.Sched.{
  Process, entry, queued, scheduler_get_current, null, TaskState, running, ready, dead, Task, Sched,
  scheduler_get_next, scheduler_tick, is_gone, scheduler_aux_get_current_or_sential, with_task,
  scheduler_aux_check_validate_state, search, scheduler_aux_update_state, set_state, load_task,
}
use project_luciano.Sched.Tick.Live.{MovesTo, scheduler_tick_lem}
use project_luciano.Sched.Exit.{sys_exit_group}
use project_luciano.Sched.Exit.Group.{IsTask, IsLoaded, Killed}
use project_luciano.Sched.Exit.Outcome.{sys_exit_group_lem}
use project_luciano.Sched.Next.{around, IsSound, Next, scheduler_get_next_lem}
use project_luciano.Sched.Tick.{OneRunning, scheduler_tick_fault, tick-OneRunning}

abbrev task : TaskState → ℕ → Task
task st n = record { tid = n; process = 9; state = st }

-- Task 10 is running, task 20 is ready.
abbrev two : Sched
two = record {
  queue = 10 ∷ 20 ∷ [];
  current_idx = 0;
  scheduler_running = true;
  scheduler_enabled = true;
  task =
      λ q. if q == 10 then some (task running 1) else if q == 20 then some (task ready 2) else none;
  process = λ q. none;
}

two-IsSound : IsSound two
unfolding is_gone
two-IsSound zero h = ground arith
two-IsSound (suc zero) h = ground arith
two-IsSound (suc (suc i)) h = absurd (omega arith)

scheduler_get_next_lem_example : Next two (scheduler_get_next two)
scheduler_get_next_lem_example = scheduler_get_next_lem two two-IsSound (omega arith)

two-OneRunning : OneRunning two
two-OneRunning p t e r = (refl, ground arith)

-- The same after a tick.
abbrev switched_two : Sched
switched_two =
    with_task (with_task (record two { current_idx = 1 }) 10 (task ready 1)) 20 (task running 2)

two_ticked : scheduler_tick two ≡ some (some (10, 20), switched_two)
unfolding scheduler_tick scheduler_aux_check_validate_state scheduler_aux_get_current_or_sential
    scheduler_get_next scheduler_aux_update_state search is_gone load_task set_state
two_ticked = refl

tick-OneRunning_example : OneRunning switched_two
tick-OneRunning_example =
    tick-OneRunning two switched_two (some (10, 20)) two-IsSound (omega arith) two-OneRunning
      two_ticked

-- One dead task, which is current.
abbrev all_dead_tasks : Sched
all_dead_tasks = record {
  queue = 10 ∷ [];
  current_idx = 0;
  scheduler_running = true;
  scheduler_enabled = true;
  task = λ q. if q == 10 then some (task dead 1) else none;
  process = λ q. none;
}

dead-IsSound : IsSound all_dead_tasks
unfolding is_gone
dead-IsSound zero h = ground arith
dead-IsSound (suc i) h = absurd (omega arith)

dead_gone : (i : ℕ) → i < length all_dead_tasks.queue → is_gone all_dead_tasks i ≡ some true
unfolding is_gone
dead_gone zero h = refl
dead_gone (suc i) h = absurd (omega arith)

dead_current : scheduler_aux_get_current_or_sential all_dead_tasks ≢ null
unfolding scheduler_aux_get_current_or_sential
dead_current = ground arith

scheduler_tick_fault_example : scheduler_tick all_dead_tasks ≡ none
scheduler_tick_fault_example =
    scheduler_tick_fault all_dead_tasks dead-IsSound (omega arith) refl dead_current dead_gone

-- The running task 10 and the task 20 belong to process 9; task 30 does not.
abbrev proc : Process
proc = record { pid = 4; tasks = 10 ∷ 20 ∷ [] }

abbrev grouped : Sched
grouped = record {
  queue = 10 ∷ 20 ∷ 30 ∷ [];
  current_idx = 0;
  scheduler_running = true;
  scheduler_enabled = true;
  task = λ q.
      if q == 10
      then some (task running 1)
      else if q == 20
      then some (task ready 2)
      else if q == 30
      then some (task ready 3)
      else none;
  process = λ q. if q == 9 then some proc else none;
}

grouped-IsTask : IsTask grouped (scheduler_get_current grouped) (task running 1) proc
unfolding scheduler_get_current
grouped-IsTask = record {
  ne = ground arith;
  task = refl;
  process_ne = ground arith;
  process = refl;
}

grouped-IsLoaded : All (IsLoaded grouped) proc.tasks
grouped-IsLoaded = (
  (
    task running 1,
    proc,
    record { ne = ground arith; task = refl; process_ne = ground arith; process = refl },
  ),
  (
    (
      task ready 2,
      proc,
      record { ne = ground arith; task = refl; process_ne = ground arith; process = refl },
    ),
    tt,
  ),
)

grouped-IsSound : IsSound grouped
unfolding is_gone
grouped-IsSound zero h = ground arith
grouped-IsSound (suc zero) h = ground arith
grouped-IsSound (suc (suc zero)) h = ground arith
grouped-IsSound (suc (suc (suc i))) h = absurd (omega arith)

third_alive : is_gone grouped 2 ≡ some false
unfolding is_gone
third_alive = refl

third_other : queued (entry grouped 2) proc.tasks ≡ false
unfolding queued
third_other = refl

sys_exit_group_lem_example :
    (s1 : Sched) × Killed grouped proc.tasks s1
    × (sys_exit_group grouped ≡ scheduler_tick s1)
    × ((k : ℕ) × (0 < k)
        × (k ≤ length s1.queue)
        × ((m : ℕ) → 0 < m → m < k → is_gone s1 (around s1 s1.current_idx m) ≡ some true)
        × (is_gone s1 (around s1 s1.current_idx k) ≡ some false)
        × (queued (entry s1 (around s1 s1.current_idx k)) proc.tasks ≡ false)
        × MovesTo s1 (around s1 s1.current_idx k) (sys_exit_group grouped))
sys_exit_group_lem_example =
    sys_exit_group_lem grouped (task running 1) proc 2 grouped-IsTask grouped-IsLoaded
      grouped-IsSound (omega arith) refl refl (omega arith) third_alive third_other

two_current : scheduler_aux_get_current_or_sential two ≢ null
unfolding scheduler_aux_get_current_or_sential
two_current = ground arith

two_current_task : two.task (scheduler_aux_get_current_or_sential two) ≡ some (task running 1)
unfolding scheduler_aux_get_current_or_sential
two_current_task = refl

two_alive : is_gone two 1 ≡ some false
unfolding is_gone
two_alive = refl

scheduler_tick_lem_example :
    (k : ℕ) × (0 < k)
    × (k ≤ length two.queue)
    × ((m : ℕ) → 0 < m → m < k → is_gone two (around two two.current_idx m) ≡ some true)
    × (is_gone two (around two two.current_idx k) ≡ some false)
    × MovesTo two (around two two.current_idx k) (scheduler_tick two)
scheduler_tick_lem_example =
    scheduler_tick_lem two (task running 1) 1 two-IsSound (omega arith) refl two_current
      two_current_task (omega arith) two_alive
