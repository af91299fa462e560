-- ===== src/Sched/Exit.antt =====
-- kernel/arch/x86_64/syscalls/syscall_proc.c and the dispatch of syscall.c.
pub mod Group
pub mod Outcome
use project_luciano.Base.{ℕ, Option, none, List, [], ◌∷◌, ◌==◌, if◌then◌else◌}
use project_luciano.Sched.{
  Ptr, Task, Process, Cmd, pure, ◌>>=◌, ◌>>◌, load_task, load_process, scheduler_get_current,
  scheduler_remove, scheduler_yield,
}
use project_luciano.Sched.Queue.{task_is_main}

-- The task and the process that a call is made by; both log lines read them.
unfoldable pub current_process : Cmd (Ptr × Task × Process)
unfolding load_task load_process scheduler_get_current
current_process s =
    (do
      t ← load_task (scheduler_get_current s)
      r ← load_process t.process
      pure (scheduler_get_current s, t, r))
      s

-- The loop of `sys_exit_group` over the tasks.
unfoldable pub remove_all : List Ptr → Cmd (Unit {0})
unfolding scheduler_remove
remove_all [] = pure tt
remove_all (t ∷ ts) = do scheduler_remove t; remove_all ts

-- Which task runs after the interrupt in which a call ends: the second one, or the same as before.
abbrev pub Switch : Type 0
Switch = Option (Ptr × Ptr)

unfoldable pub sys_exit_group : Cmd Switch
unfolding current_process remove_all scheduler_yield
sys_exit_group = do (p, t, r) ← current_process; remove_all r.tasks; scheduler_yield

unfoldable pub sys_exit : Cmd Switch
unfolding current_process task_is_main sys_exit_group scheduler_yield
sys_exit = do
  (p, t, r) ← current_process
  main ← task_is_main p
  if main then sys_exit_group else (do scheduler_remove p; scheduler_yield)

unfoldable pub sys_yield : Cmd Switch
unfolding current_process scheduler_yield
sys_yield = do (p, t, r) ← current_process; scheduler_yield

unfoldable pub sys_getpid : Cmd ℕ
unfolding current_process
sys_getpid = do (p, t, r) ← current_process; pure r.pid

unfoldable pub sys_gettid : Cmd ℕ
unfolding load_task scheduler_get_current
sys_gettid s = (do t ← load_task (scheduler_get_current s); pure t.tid) s

abbrev pub with_value : Cmd ℕ → Cmd (ℕ × Switch)
with_value c = do n ← c; pure (n, none)

abbrev pub with_switch : Cmd Switch → Cmd (ℕ × Switch)
with_switch c = do w ← c; pure (0, w)

-- `syscall_dispatch`: what the caller gets when it runs again, and the switch before that.
-- `sys_vfs_open` is still empty and returns 0.
unfoldable pub syscall_dispatch : ℕ → Cmd (ℕ × Switch)
unfolding sys_yield sys_exit sys_exit_group sys_getpid sys_gettid
syscall_dispatch number =
    if number == 24
    then with_switch sys_yield
    else if number == 60
    then with_switch sys_exit
    else if number == 231
    then with_switch sys_exit_group
    else if number == 39
    then with_value sys_getpid
    else if number == 186
    then with_value sys_gettid
    else pure (0, none)
