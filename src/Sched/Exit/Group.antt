-- ===== src/Sched/Exit/Group.antt =====
-- The loop of `sys_exit_group`: which tasks it ends.
use project_luciano.Base.{
  ◌≡◌, refl, ap, ◌∙◌, ◌≢◌, inl, inr, true, false, ◌&&◌, Option, none, some, List, [], ◌∷◌, arith,
  ◌==◌, if◌then◌else◌, Bool-cases, All,
}
use project_luciano.Sched.{
  Ptr, null, dead, Task, Process, Sched, load_task, load_process, set_state, with_task, queued,
  scheduler_remove,
}
use project_luciano.Sched.Exit.{remove_all}

-- A task with its process, as the memory holds them.
pub record IsTask (s : Sched) (p : Ptr) (t : Task) (r : Process) : Type 0 where
  pub ne : p ≢ null
  pub task : s.task p ≡ some t
  pub process_ne : t.process ≢ null
  pub process : s.process t.process ≡ some r

abbrev pub IsLoaded : Sched → Ptr → Type 0
IsLoaded s p = (t : Task) × (r : Process) × IsTask s p t r

abbrev pub kill : Option Task → Option Task
kill none = none
kill (some t) = some (record t { state = dead })

kill-kill : (o : Option Task) → kill (kill o) ≡ kill o
kill-kill none = refl
kill-kill (some t) = refl

-- The tasks of a list that the queue holds are dead, nothing else has changed.
pub record Killed (s : Sched) (ts : List Ptr) (s' : Sched) : Type 0 where
  pub queue : s'.queue ≡ s.queue
  pub process : s'.process ≡ s.process
  pub current_idx : s'.current_idx ≡ s.current_idx
  pub scheduler_running : s'.scheduler_running ≡ s.scheduler_running
  pub scheduler_enabled : s'.scheduler_enabled ≡ s.scheduler_enabled
  pub task :
      (q : Ptr)
      → s'.task q ≡ (if queued q ts && queued q s.queue then kill (s.task q) else s.task q)

remove-hit :
    (s : Sched) (p : Ptr) (t : Task)
    → s.task p ≡ some t
    → queued p s.queue ≡ true
    → (q : Ptr)
    → (with_task s p (record t { state = dead })).task q
      ≡ (if queued q (p ∷ []) && queued q s.queue then kill (s.task q) else s.task q)
unfolding queued
remove-hit s p t e held q = elim (Bool-cases (p == q)) [
  | inl same ↦
      let here : p ≡ q = ground arith in
      ground (
        arith,
        ap s.task here,
        ap (λ x. queued x s.queue) here,
        ap (λ x. kill (s.task x)) here,
        ap kill e,
      )
  | inr other ↦ ground arith
]

remove-miss :
    (s : Sched) (p : Ptr)
    → queued p s.queue ≡ false
    → (q : Ptr)
    → s.task q ≡ (if queued q (p ∷ []) && queued q s.queue then kill (s.task q) else s.task q)
unfolding queued
remove-miss s p absent q = elim (Bool-cases (p == q)) [
  | inl same ↦ let here : p ≡ q = ground arith in ground (arith, ap (λ x. queued x s.queue) here)
  | inr other ↦ ground arith
]

Killed-cons :
    (s s1 s2 : Sched) (p : Ptr) (ts : List Ptr)
    → Killed s (p ∷ []) s1
    → Killed s1 ts s2
    → (q : Ptr)
    → s2.task q ≡ (if queued q (p ∷ ts) && queued q s.queue then kill (s.task q) else s.task q)
unfolding queued
Killed-cons s s1 s2 p ts k l q =
    let held = ap (λ u. queued q u) k.queue in
    let again = kill-kill (s.task q) in
    elim (Bool-cases (queued q (p ∷ []) && queued q s.queue)) [
      | inl hit ↦
          let now : s1.task q ≡ kill (s.task q) = k.task q ∙ rw hit refl in
          ground (arith, l.task q, ap kill now)
      | inr miss ↦
          let now : s1.task q ≡ s.task q = k.task q ∙ rw miss refl in
          ground (arith, l.task q, ap kill now)
    ]

remove-Killed :
    (s : Sched) (p : Ptr)
    → IsLoaded s p
    → (s' : Sched) × (scheduler_remove p s ≡ some (tt, s')) × Killed s (p ∷ []) s'
unfolding scheduler_remove load_task load_process set_state queued
remove-Killed s p (t, r, l) = elim (Bool-cases (queued p s.queue)) [
  | inl held ↦ (
    with_task s p (record t { state = dead }),
    ground (arith, l.ne, l.task, l.process_ne, l.process),
    record {
      queue = refl;
      process = refl;
      current_idx = refl;
      scheduler_running = refl;
      scheduler_enabled = refl;
      task = remove-hit s p t l.task held;
    },
  )
  | inr absent ↦ (
    s,
    ground (arith, l.ne, l.task, l.process_ne, l.process),
    record {
      queue = refl;
      process = refl;
      current_idx = refl;
      scheduler_running = refl;
      scheduler_enabled = refl;
      task = remove-miss s p absent;
    },
  )
]

Killed-IsLoaded :
    (s s' : Sched) (ts : List Ptr) (p : Ptr) → Killed s ts s' → IsLoaded s p → IsLoaded s' p
Killed-IsLoaded s s' ts p k (t, r, l) = elim (Bool-cases (queued p ts && queued p s.queue)) [
  | inl hit ↦ (
    record t { state = dead },
    r,
    record {
      ne = l.ne;
      task = k.task p ∙ rw (hit, l.task) refl;
      process_ne = l.process_ne;
      process = ap (λ f. f t.process) k.process ∙ l.process;
    },
  )
  | inr miss ↦ (
    t,
    r,
    record {
      ne = l.ne;
      task = k.task p ∙ rw (miss, l.task) refl;
      process_ne = l.process_ne;
      process = ap (λ f. f t.process) k.process ∙ l.process;
    },
  )
]

Killed-Killed :
    (s s1 s2 : Sched) (p : Ptr) (ts : List Ptr)
    → Killed s (p ∷ []) s1
    → Killed s1 ts s2
    → Killed s (p ∷ ts) s2
unfolding queued
Killed-Killed s s1 s2 p ts k l = record {
  queue = l.queue ∙ k.queue;
  process = l.process ∙ k.process;
  current_idx = l.current_idx ∙ k.current_idx;
  scheduler_running = l.scheduler_running ∙ k.scheduler_running;
  scheduler_enabled = l.scheduler_enabled ∙ k.scheduler_enabled;
  task = Killed-cons s s1 s2 p ts k l;
}

All-IsLoaded :
    (s s' : Sched) (us ts : List Ptr) → Killed s us s' → All (IsLoaded s) ts → All (IsLoaded s') ts
All-IsLoaded s s' us [] k h = tt
All-IsLoaded s s' us (t ∷ ts) k h = (Killed-IsLoaded s s' us t k h.0, All-IsLoaded s s' us ts k h.1)

pub remove_all-Killed :
    (s : Sched) (ts : List Ptr)
    → All (IsLoaded s) ts
    → (s' : Sched) × (remove_all ts s ≡ some (tt, s')) × Killed s ts s'
unfolding remove_all queued
remove_all-Killed s [] h = (
  s,
  refl,
  record {
    queue = refl;
    process = refl;
    current_idx = refl;
    scheduler_running = refl;
    scheduler_enabled = refl;
    task = λ q. refl;
  },
)
remove_all-Killed s (t ∷ ts) h =
    let (s1, e, k) = remove-Killed s t h.0 in
    let (s2, f, l) = remove_all-Killed s1 ts (All-IsLoaded s s1 (t ∷ []) ts k h.1) in
    (s2, rw e f, Killed-Killed s s1 s2 t ts k l)
