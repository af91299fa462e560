-- ===== src/Sched.antt =====
-- kernel/process and the process system calls of kernel/arch/x86_64/syscalls: tasks, processes, the
-- round-robin queue. Tasks and processes are objects at addresses; `none` is a fault (an access
-- through NULL or outside an array) or a panic.
pub mod Queue
pub mod Next
pub mod Tick
pub mod Exit
pub mod Create
mod Tests
use project_luciano.Base.{
  ℕ, zero, suc, ◌+◌, ◌-◌, ◌*◌, ◌/◌, ◌%◌, ◌^◌, ◌≤◌, ◌<◌, min, max, bit_and, bit_or, bit_xor, ◌≡◌,
  refl, sym, ap, ap₂, ◌∙◌, fun_ext, subst, ◌≢◌, ◌↔◌, ◌⊎◌, inl, inr, Bool, true, false, not, ◌&&◌,
  ◌||◌, Option, none, some, List, [], ◌∷◌, ◌++◌, map, append-nil, append_assoc, arith, ltb, leb,
  ◌==◌, if◌then◌else◌, ltb→lt, lt→ltb, leb→le, ==_iff, ==_refl, ==_ne, Bool-cases, Option-cases,
  length, get_elem?, get_or, set, take, drop, replicate, length-append, length-set, get_or-set_self,
  get_or-set_ne, get_elem?-eq-get_or, length-take, length-drop, length-replicate, take_all,
  take-append, drop-append, All,
}

abbrev pub Ptr : Type 0
Ptr = ℕ

abbrev pub null : Ptr
null = 0

-- The address of `sentinal_task`.
abbrev pub sentinal_task : Ptr
sentinal_task = 1

-- MAX_PROCESSES and MAX_TASKS_PER_PROCESS of kernel/include/process.h.
abbrev pub max_processes : ℕ
max_processes = 1024

abbrev pub max_tasks : ℕ
max_tasks = 256

-- `task_state_t` of kernel/include/task.h.
pub data TaskState : Type 0 where
  running ready blocked dead : TaskState

abbrev pub is_dead : TaskState → Bool
is_dead running = false
is_dead ready = false
is_dead blocked = false
is_dead dead = true

-- `current->state == TASK_RUNNING ? TASK_READY : current->state`
abbrev pub preempted : TaskState → TaskState
preempted running = ready
preempted ready = ready
preempted blocked = blocked
preempted dead = dead

pub record Task : Type 0 where
  pub tid : ℕ
  pub process : Ptr
  pub state : TaskState

pub record Process : Type 0 where
  pub pid : ℕ
  pub tasks : List Ptr

-- The static variables of scheduler.c, `queue[0]` to `queue[queue_length - 1]` as a list, and the
-- objects.
pub record Sched : Type 0 where
  pub queue : List Ptr
  pub current_idx : ℕ
  pub scheduler_running : Bool
  pub scheduler_enabled : Bool
  pub task : Ptr → Option Task
  pub process : Ptr → Option Process

abbrev pub Cmd : Type 0 → Type 0
Cmd A = Sched → Option (A × Sched)

abbrev pub pure : {A : Type 0} → A → Cmd A
pure a s = some (a, s)

abbrev pub crash : {A : Type 0} → Cmd A
crash s = none

module _ {A B : Type 0} where
  abbrev pub and_then : Option (A × Sched) → (A → Cmd B) → Option (B × Sched)
  and_then none k = none
  and_then (some (a, s)) k = k a s

  infixl 5 ◌>>=◌ ◌>>◌
  abbrev pub ◌>>=◌ : Cmd A → (A → Cmd B) → Cmd B
  m >>= k = λ s. and_then (m s) k

  abbrev pub ◌>>◌ : Cmd A → Cmd B → Cmd B
  m >> k = m >>= λ _. k

abbrev pub give : {A : Type 0} → Option A → Cmd A
give none s = none
give (some a) s = some (a, s)

unfoldable pub load_task : Ptr → Cmd Task
load_task p s = if p == null then none else give (s.task p) s

unfoldable pub load_process : Ptr → Cmd Process
load_process p s = if p == null then none else give (s.process p) s

abbrev pub with_task : Sched → Ptr → Task → Sched
with_task s p t = record s { task = λ q. if q == p then some t else s.task q }

-- `p->state = state`
unfoldable pub set_state : Ptr → TaskState → Cmd (Unit {0})
unfolding load_task
set_state p state = do t ← load_task p; λ s. some (tt, with_task s p (record t { state = state }))

-- `scheduler_add`: nothing tests that the queue has room.
unfoldable pub scheduler_add : Ptr → Cmd (Unit {0})
unfolding load_task load_process
scheduler_add p = do
  t ← load_task p
  load_process t.process
  λ s.
      if ltb (length s.queue) max_processes
      then some (tt, record s { queue = s.queue ++ (p ∷ []) })
      else none

unfoldable pub scheduler_enable : Sched → Sched
scheduler_enable s = record s { scheduler_enabled = true }

unfoldable pub scheduler_aux_check_validate_state : Sched → Bool
scheduler_aux_check_validate_state s = s.scheduler_enabled && not (length s.queue == 0)

-- `queue[i]`
abbrev pub entry : Sched → ℕ → Ptr
entry s i = get_or s.queue i null

unfoldable pub scheduler_aux_get_current_or_sential : Sched → Ptr
scheduler_aux_get_current_or_sential s =
    if s.scheduler_running then entry s s.current_idx else sentinal_task

-- `queue[i] == NULL || queue[i]->state == TASK_DEAD`; a dangling entry is a fault.
abbrev pub gone_task : Option Task → Option Bool
gone_task none = none
gone_task (some t) = some (is_dead t.state)

unfoldable pub is_gone : Sched → ℕ → Option Bool
is_gone s i = if entry s i == null then some true else gone_task (s.task (entry s i))

-- How the search ends: at an index, with NULL, or in a fault.
pub data Search : Type 0 where
  at : ℕ → Search
  all_dead : Search
  bad_entry : Search

-- One test of the loop: `rest` is what follows when the entry is passed over.
abbrev pub search_step : ℕ → Option Bool → Search → Search
search_step i none rest = bad_entry
search_step i (some true) rest = rest
search_step i (some false) rest = at i

-- The loop of `scheduler_get_next`, with the number of entries that may still be tested.
unfoldable pub search : Sched → ℕ → ℕ → Search
unfolding is_gone
search s zero i = all_dead
search s (suc left) i =
    let rest = search s left ((i + 1) % length s.queue) in search_step i (is_gone s i) rest

abbrev pub move_to : Sched → Search → Option (Ptr × Sched)
move_to s (at i) = some (entry s i, record s { current_idx = i })
move_to s all_dead = some (null, s)
move_to s bad_entry = none

-- `scheduler_get_next`, on a queue that is not empty.
unfoldable pub scheduler_get_next : Cmd Ptr
unfolding search
scheduler_get_next s = move_to s (search s (length s.queue) ((s.current_idx + 1) % length s.queue))

unfoldable pub scheduler_aux_update_state : Ptr → Ptr → Cmd (Unit {0})
unfolding load_task set_state
scheduler_aux_update_state current next = do
  c ← load_task current
  set_state current (preempted c.state)
  set_state next running

-- `scheduler_tick`: what it writes to `current_out` and `next_out`, or nothing.
unfoldable pub scheduler_tick : Cmd (Option (Ptr × Ptr))
unfolding scheduler_aux_check_validate_state scheduler_aux_get_current_or_sential scheduler_get_next
    scheduler_aux_update_state
scheduler_tick s =
    if scheduler_aux_check_validate_state s
    then (do
      next ← scheduler_get_next
      if scheduler_aux_get_current_or_sential s == next then pure none else (do
        scheduler_aux_update_state (scheduler_aux_get_current_or_sential s) next
        pure (some (scheduler_aux_get_current_or_sential s, next))))
        (record s { scheduler_running = true })
    else some (none, s)

-- `scheduler_yield`: software interrupt 0x30 calls `scheduler_tick`, and goes on with the second task
-- of its answer, or with the same task where there is none.
unfoldable pub scheduler_yield : Cmd (Option (Ptr × Ptr))
unfolding scheduler_tick
scheduler_yield = scheduler_tick

unfoldable pub scheduler_get_current : Sched → Ptr
scheduler_get_current s = entry s s.current_idx

-- The loop of `scheduler_remove`: whether the queue holds the task.
unfoldable pub queued : Ptr → List Ptr → Bool
queued p [] = false
queued p (q ∷ qs) = q == p || queued p qs

-- `scheduler_remove`; the log line reads the task's process first.
unfoldable pub scheduler_remove : Ptr → Cmd (Unit {0})
unfolding queued load_task load_process set_state
scheduler_remove p = do
  t ← load_task p
  load_process t.process
  λ s. if queued p s.queue then set_state p dead s else some (tt, s)
