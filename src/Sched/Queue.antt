-- ===== src/Sched/Queue.antt =====
-- kernel/process/process.c, kernel/arch/x86_64/task.c, and the cleanup daemon of scheduler.c.
use project_luciano.Base.{
  ℕ, zero, suc, ◌+◌, ◌-◌, Bool, Option, none, some, List, [], ◌∷◌, ◌++◌, leb, ◌==◌, if◌then◌else◌,
  length, get_or, set,
}
use project_luciano.Sched.{
  Ptr, null, max_tasks, is_dead, Cmd, pure, crash, ◌>>=◌, give, load_task, load_process,
}

-- `process_add_task`: a full process panics. `task_count` is a `uint8_t` below 255 here.
unfoldable pub process_add_task : Ptr → Ptr → Cmd (Unit {0})
unfolding load_process
process_add_task p t = do
  r ← load_process p
  if leb (max_tasks - 1) (length r.tasks) then crash else λ s. some (
    tt,
    record s {
      process =
          λ q. if q == p then some (record r { tasks = r.tasks ++ (t ∷ []) }) else s.process q;
    },
  )

abbrev pub first : List Ptr → Option Ptr
first [] = none
first (t ∷ ts) = some t

-- `process_get_main_task`: no task is a panic.
unfoldable pub process_get_main_task : Ptr → Cmd Ptr
unfolding load_process
process_get_main_task p = do r ← load_process p; give (first r.tasks)

unfoldable pub task_is_main : Ptr → Cmd Bool
unfolding load_task process_get_main_task
task_is_main p = do t ← load_task p; main ← process_get_main_task t.process; pure (main == p)

-- The call of `vmm_destroy` for a process, and the `kfree`s: the addresses the daemon gives up.
-- `kfree` does nothing in the kernel build, so only the queue entry changes.
unfoldable pub cleanup_entry : ℕ → Cmd (Option Ptr)
unfolding task_is_main load_task
cleanup_entry i s =
    if get_or s.queue i null == null
    then some (none, s)
    else (do
      t ← load_task (get_or s.queue i null)
      if is_dead t.state
          then (do
            main ← task_is_main (get_or s.queue i null)
            λ u.
                some
                  (if main then some t.process else none, record u { queue = set u.queue i null }))
          else pure none)
        s

-- One pass of the daemon over the queue: the processes whose address spaces it destroys, in order.
abbrev pub cons_some : Option Ptr → List Ptr → List Ptr
cons_some none ps = ps
cons_some (some p) ps = p ∷ ps

unfoldable pub cleanup_pass : ℕ → ℕ → Cmd (List Ptr)
unfolding cleanup_entry
cleanup_pass zero i = pure []
cleanup_pass (suc left) i = do
  p ← cleanup_entry i
  ps ← cleanup_pass left (i + 1)
  pure (cons_some p ps)
