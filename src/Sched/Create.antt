-- ===== src/Sched/Create.antt =====
-- Making tasks and processes: `map_user_stack` and `task_create` of kernel/arch/x86_64/task.c,
-- `create_process` of kernel/arch/x86_64/process.c, and `scheduler_aux_spawn_daemon` of
-- kernel/process/scheduler.c. `none` is a panic or a fault.
pub mod Task
mod Tests
use project_luciano.Base.{
  ℕ, zero, suc, ◌+◌, ◌-◌, ◌*◌, ◌/◌, ◌%◌, Option, none, some, List, [], ◌∷◌, ◌++◌, leb, ◌==◌,
  if◌then◌else◌, replicate,
}
use project_luciano.Memory.Pmm.{frame_size, word}
use project_luciano.Memory.Vmm.{alloc_frame, vmm_map, vmm_get_current_space}
use project_luciano.Memory.Kmalloc.{Heap, kmalloc}
use project_luciano.Sched.{Ptr, Process, Sched, ready, max_processes, with_task, scheduler_add}
use project_luciano.Sched.Queue.{process_add_task}

-- `privilege_t`
pub data Privilege : Type 0 where
  privilege_kernel privilege_user : Privilege

abbrev pub by_privilege : {A : Type 0} → Privilege → A → A → A
by_privilege privilege_kernel u k = k
by_privilege privilege_user u k = u

-- The fields of `task_t` that the scheduler does not read, and the words of the kernel stack from
-- `stack_pointer` on.
pub record Thread : Type 0 where
  pub kernel_stack_base : ℕ
  pub kernel_stack_top : ℕ
  pub user_stack_base : ℕ
  pub user_stack_top : ℕ
  pub stack_pointer : ℕ
  pub words : List ℕ

-- The heap, the counters, `process_table`, and the objects: what the scheduler sees of them, the rest
-- of a task, and the address space and the privilege of a process.
pub record Kernel : Type 0 where
  pub heap : Heap
  pub next_tid : ℕ
  pub next_pid : ℕ
  pub process_table : ℕ → Ptr
  pub sched : Sched
  pub thread : Ptr → Option Thread
  pub address_space : Ptr → ℕ
  pub privilege : Ptr → Privilege

abbrev pub Cmd : Type 0 → Type 0
Cmd A = Kernel → Option (A × Kernel)

module _ {A B : Type 0} where
  abbrev pub and_then : Option (A × Kernel) → (A → Cmd B) → Option (B × Kernel)
  and_then none k = none
  and_then (some (a, s)) k = k a s

  infixl 5 ◌>>=◌ ◌>>◌
  abbrev pub ◌>>=◌ : Cmd A → (A → Cmd B) → Cmd B
  c >>= k = λ s. and_then (c s) k

  abbrev pub ◌>>◌ : Cmd A → Cmd B → Cmd B
  c >> k = c >>= λ _. k

module _ {A : Type 0} where
  abbrev pub with_heap : Kernel → Option (A × Heap) → Option (A × Kernel)
  with_heap s none = none
  with_heap s (some (a, h)) = some (a, record s { heap = h })

  abbrev pub with_sched : Kernel → Option (A × Sched) → Option (A × Kernel)
  with_sched s none = none
  with_sched s (some (a, u)) = some (a, record s { sched = u })

-- USER_STACK_SIZE, KERNEL_STACK_SIZE, and the sizes of `task_t` and `process_t`.
abbrev pub user_stack_size : ℕ
user_stack_size = 0x100000

abbrev pub kernel_stack_size : ℕ
kernel_stack_size = 0x20000

abbrev pub sizeof_task : ℕ
sizeof_task = 64

abbrev pub sizeof_process : ℕ
sizeof_process = 10264

-- USER_STACK_TOP and USER_STACK_BASE, on 64 bits.
abbrev pub user_stack_top : ℕ → ℕ
user_stack_top tid = (0x00007FFF8BADB000 + word - tid * user_stack_size % word) % word

abbrev pub user_stack_base : ℕ → ℕ
user_stack_base tid = (user_stack_top tid + word - user_stack_size) % word

-- The frames of a user stack from page `i` on. The task's number is cut to a `uint8_t`.
abbrev pub map_page : ℕ → ℕ → ℕ → Heap → Option Heap
map_page space tid i h = elim (alloc_frame h.vm) [
  | none ↦ none
  | some (pa, m) ↦ elim (vmm_map space ((user_stack_base tid + i * frame_size) % word) pa 7 m) [
    | none ↦ none
    | some (u, m') ↦ some (record h { vm = m' })
  ]
]

abbrev pub after_page : Option Heap → (Heap → Option (Unit {0} × Heap)) → Option (Unit {0} × Heap)
after_page none k = none
after_page (some h) k = k h

unfoldable pub map_pages : ℕ → ℕ → ℕ → ℕ → Heap → Option (Unit {0} × Heap)
map_pages zero i space tid h = some (tt, h)
map_pages (suc left) i space tid h =
    after_page (map_page space tid i h) (map_pages left (i + 1) space tid)

unfoldable pub map_user_stack : ℕ → ℕ → Heap → Option (Unit {0} × Heap)
map_user_stack space tid h =
    map_pages ((user_stack_size + frame_size - 1) / frame_size) 0 space (tid % 256) h

-- A stack: its pointer, and the words from there on. `*--stack = v`
pub record Stack : Type 0 where
  pub pointer : ℕ
  pub words : List ℕ

abbrev pub push : ℕ → Stack → Stack
push v s = record { pointer = (s.pointer + word - 8) % word; words = v ∷ s.words }

-- `stack -= n; memset(stack, 0, n * sizeof(uint64_t))`
unfoldable pub push_zeros : ℕ → Stack → Stack
push_zeros n s = record {
  pointer = (s.pointer + word - 8 * n) % word;
  words = replicate n 0 ++ s.words;
}

-- The frame that the first switch to the task pops.
unfoldable pub initial_stack : Privilege → ℕ → ℕ → ℕ → Stack
initial_stack privilege entry_point kernel_top user_top =
    let empty : Stack = record { pointer = kernel_top; words = [] } in
    let ss = push (by_privilege privilege 0x23 0x10) empty in
    let rsp = push (by_privilege privilege user_top kernel_top) ss in
    let rflags = push 0x202 rsp in
    let cs = push (by_privilege privilege 0x1b 0x08) rflags in
    push_zeros 6 (push_zeros 9 (push entry_point cs))

-- The stores into the block of the new task.
abbrev pub store_task : Ptr → Ptr → ℕ → ℕ → Privilege → ℕ → Kernel → Kernel
store_task task process tid base privilege entry_point s =
    let user_top = by_privilege privilege (user_stack_top tid) 0 in
    let stack = initial_stack privilege entry_point ((base + kernel_stack_size) % word) user_top in
    record s {
      sched = with_task s.sched task (record { tid = tid; process = process; state = ready });
      thread = λ p.
          if p == task
          then some (record {
            kernel_stack_base = base;
            kernel_stack_top = (base + kernel_stack_size) % word;
            user_stack_base = by_privilege privilege (user_stack_base tid) 0;
            user_stack_top = user_top;
            stack_pointer = stack.pointer;
            words = stack.words;
          })
          else s.thread p;
    }

unfoldable pub task_create : Ptr → ℕ → Cmd Ptr
task_create process entry_point = do
  task ← λ s. with_heap s (kmalloc sizeof_task s.heap)
  tid ← λ s. some (s.next_tid, record s { next_tid = s.next_tid + 1 })
  base ← λ s. with_heap s (kmalloc kernel_stack_size s.heap)
  λ s. with_heap s (
      by_privilege (s.privilege process) (map_user_stack (s.address_space process) tid s.heap)
        (some (tt, s.heap)))
  λ s. some (task, store_task task process tid base (s.privilege process) entry_point s)

-- The stores into the block of the new process.
abbrev pub store_process : Ptr → ℕ → ℕ → Privilege → Kernel → Kernel
store_process p pid space privilege s = record s {
  sched = record s.sched {
    process = λ q. if q == p then some (record { pid = pid; tasks = [] }) else s.sched.process q;
  };
  address_space = λ q. if q == p then space else s.address_space q;
  privilege = λ q. if q == p then privilege else s.privilege q;
}

unfoldable pub create_process : ℕ → ℕ → Privilege → Cmd Ptr
create_process entry_point space privilege = do
  p ← λ s. with_heap s (kmalloc sizeof_process s.heap)
  pid ← λ s. some (s.next_pid, record s { next_pid = s.next_pid + 1 })
  λ s. if leb max_processes pid then none else some (tt, store_process p pid space privilege s)
  task ← task_create p entry_point
  λ s. with_sched s (process_add_task p task s.sched)
  λ s. some (p, record s { process_table = λ i. if i == pid then p else s.process_table i })

unfoldable pub add_tasks : List Ptr → Cmd (Unit {0})
add_tasks [] s = some (tt, s)
add_tasks (t ∷ ts) s = ((λ u. with_sched u (scheduler_add t u.sched)) >> add_tasks ts) s

abbrev pub tasks_of : Option Process → List Ptr
tasks_of none = []
tasks_of (some p) = p.tasks

-- The process of the cleanup daemon, whose code is at `cleanupd`, is put into the queue.
unfoldable pub scheduler_aux_spawn_daemon : ℕ → Cmd (Unit {0})
scheduler_aux_spawn_daemon cleanupd = do
  p ← λ s. create_process cleanupd (vmm_get_current_space s.heap.vm) privilege_kernel s
  λ s. add_tasks (tasks_of (s.sched.process p)) s
