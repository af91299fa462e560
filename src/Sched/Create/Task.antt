-- ===== src/Sched/Create/Task.antt =====
-- `task_create` of kernel/arch/x86_64/task.c for a process of the kernel.
use project_luciano.Base.{
  ℕ, suc, ◌+◌, ◌-◌, ◌*◌, ◌%◌, ◌≤◌, ◌<◌, ◌≡◌, refl, sym, ap, ap₂, ◌∙◌, ◌≢◌, true, false, Option,
  some, List, [], ◌∷◌, ◌++◌, arith, ◌==◌, replicate,
}
use project_luciano.Memory.Pmm.{frame_size, word}
use project_luciano.Memory.Pmm.Frames.{frames}
use project_luciano.Memory.Pmm.Count.{spare}
use project_luciano.Memory.Vmm.{Vm, entry_present, vmm_get_current_space}
use project_luciano.Memory.Vmm.Entry.{page}
use project_luciano.Memory.Vmm.Tree.{base, Labels, IsTree}
use project_luciano.Memory.Vmm.Translate.{is_mapped}
use project_luciano.Memory.Kmalloc.{Heap, num_frames, kmalloc}
use project_luciano.Memory.Kmalloc.Block.{at_page, Block}
use project_luciano.Memory.Kmalloc.Give.{cons-Block, kmalloc_lem}
use project_luciano.Sched.{Ptr, ready}
use project_luciano.Sched.Create.{
  privilege_kernel, Thread, Kernel, and_then, with_heap, kernel_stack_size, sizeof_task, push_zeros,
  initial_stack, store_task, task_create,
}

-- The stack of a new kernel task, from its pointer on: 15 registers, then what `iretq` pops.
abbrev pub first_words : ℕ → ℕ → List ℕ
first_words entry_point top = replicate 15 0 ++ (entry_point ∷ 0x08 ∷ 0x202 ∷ top ∷ 0x10 ∷ [])

first_stack :
    (entry_point top : ℕ)
    → 160 ≤ top
    → top < word
    → initial_stack privilege_kernel entry_point top 0
      ≡ record { pointer = top - 160; words = first_words entry_point top }
unfolding initial_stack push_zeros
first_stack entry_point top h k =
    ap (λ (x : ℕ). record { pointer = x; words = first_words entry_point top }) (omega arith)

-- The two blocks: a page for the task, and 32 for its stack.
two_blocks :
    (m : Vm) (at : Labels) (root va : ℕ)
    → IsTree m at
    → at root ≡ some []
    → vmm_get_current_space m ≡ base m root
    → va + frame_size * 33 < word
    → ((i : ℕ) → i < 33 → is_mapped m root (at_page va i) ≡ false)
    → 4 * 33 ≤ spare m.pmm.bitmap (frames m.pmm.bitmap)
    → (m1 : Vm) × (m2 : Vm) × (kmalloc sizeof_task (record { vm = m; bump_pointer = va })
        ≡ some (va, record { vm = m1; bump_pointer = va + frame_size * num_frames sizeof_task }))
      × (kmalloc kernel_stack_size (record { vm = m1; bump_pointer = va + frame_size })
          ≡ some (
            va + frame_size,
            record {
              vm = m2;
              bump_pointer = va + frame_size + frame_size * num_frames kernel_stack_size;
            },
          ))
      × Block m at root va 33 m2
unfolding vmm_get_current_space
two_blocks m at root va t h current room absent spares =
    let (m1, run, _, one) =
      kmalloc_lem sizeof_task m at root va t h current (omega arith) (omega arith) (omega arith)
        (omega arith) (λ i l. absent i (omega arith)) (omega arith) in
    let top = one.keeps root [] h in
    let moved : base m root ≡ base m1 root =
      ap (λ (x : ℕ). (frame_size * root + x) % word) (sym one.hhdm) in
    let current' : vmm_get_current_space m1 ≡ base m1 root =
      ap₂ (λ (c d : ℕ). (c + d) % word) one.cr3 one.hhdm ∙ current ∙ moved in
    let still = λ (i : ℕ) (l : i < 32).
      let place : at_page (va + frame_size) i ≡ at_page va (suc i) = omega arith in
      ap (is_mapped m1 root) place
      ∙ ap entry_present (
          one.entries root (at_page va (suc i)) h (λ j k.
            let differ : page (at_page va (suc i)) ≢ page (at_page va j) =
              λ q. absurd (omega arith) in
            differ))
      ∙ absent (suc i) (omega arith) in
    let (m2, runs, _, rest) =
      kmalloc_lem kernel_stack_size m1 one.labels root (va + frame_size) one.tree top current'
        (omega arith) (omega arith) (omega arith) (omega arith) still (omega (arith, one.left)) in
    (m1, m2, run, runs, cons-Block m m1 m2 at root va 32 h one rest (omega arith) (omega arith))

next :
    {A B : Type 0} (k : A → Kernel → Option (B × Kernel)) {o : Option (A × Kernel)} {t : Kernel}
    {a : A} {r : Option (B × Kernel)}
    → o ≡ some (a, t)
    → k a t ≡ r
    → and_then o k ≡ r
next k e f = ap (λ u. and_then u k) e ∙ f

-- The state behind a creation: the heap, the number of the next task, and the new task.
abbrev after_create : Kernel → Ptr → ℕ → Heap → Kernel
after_create s process entry_point h =
    store_task s.heap.bump_pointer process s.next_tid (s.heap.bump_pointer + frame_size)
      privilege_kernel entry_point (record s { heap = h; next_tid = s.next_tid + 1 })

create_runs :
    (s : Kernel) (process : Ptr) (entry_point : ℕ) (h1 h2 : Heap)
    → s.privilege process ≡ privilege_kernel
    → kmalloc sizeof_task s.heap ≡ some (s.heap.bump_pointer, h1)
    → kmalloc kernel_stack_size h1 ≡ some (s.heap.bump_pointer + frame_size, h2)
    → task_create process entry_point s
      ≡ some (s.heap.bump_pointer, after_create s process entry_point h2)
unfolding task_create
create_runs s process entry_point h1 h2 kernel e f =
    let counted : Kernel = record s { heap = h2; next_tid = s.next_tid + 1 } in
    let stored =
      ap
        (λ q. some (
          s.heap.bump_pointer,
          store_task s.heap.bump_pointer process s.next_tid (s.heap.bump_pointer + frame_size) q
              entry_point counted,
        ))
        kernel in
    next _ (ap (with_heap s) e) (
      next _ (ap (with_heap (record s { heap = h1; next_tid = s.next_tid + 1 })) f)
        (rw kernel stored))

-- What a kernel thread's fields are, with its stack above the page of the task at `va`.
abbrev pub first_thread : ℕ → ℕ → Thread
first_thread va entry_point =
    let top = va + frame_size + kernel_stack_size in
    record {
      kernel_stack_base = va + frame_size;
      kernel_stack_top = top;
      user_stack_base = 0;
      user_stack_top = 0;
      stack_pointer = top - 160;
      words = first_words entry_point top;
    }

thread-store :
    (s : Kernel) (process : Ptr) (entry_point : ℕ) (h : Heap)
    → s.heap.bump_pointer + frame_size * 33 < word
    → (after_create s process entry_point h).thread s.heap.bump_pointer
      ≡ some (first_thread s.heap.bump_pointer entry_point)
thread-store s process entry_point h room =
    let va = s.heap.bump_pointer in
    let top : (va + frame_size + kernel_stack_size) % word ≡ va + frame_size + kernel_stack_size =
      omega arith in
    let stack =
      first_stack entry_point (va + frame_size + kernel_stack_size) (omega arith) (omega arith) in
    let here : (va == va) ≡ true = ground arith in rw (here, top, stack) refl

-- For a process of the kernel, on page tables that form a tree, where every free frame is cleared, with the area behind the bump pointer
-- not mapped and four free frames for each of the 33 pages: `task_create` returns a task that is
-- ready, with the next number. Its stack lies in fresh pages, which translate to 33 frames of their
-- own, and holds 15 zero registers, the entry point, and the flags, segments and stack top of the
-- kernel; every other page of every address space translates to what it did.
pub task_create_lem :
    (s : Kernel) (process : Ptr) (entry_point : ℕ) (at : Labels) (root : ℕ)
    → s.privilege process ≡ privilege_kernel
    → IsTree s.heap.vm at
    → at root ≡ some []
    → vmm_get_current_space s.heap.vm ≡ base s.heap.vm root
    → s.heap.bump_pointer + frame_size * 33 < word
    → ((i : ℕ) → i < 33 → is_mapped s.heap.vm root (at_page s.heap.bump_pointer i) ≡ false)
    → 4 * 33 ≤ spare s.heap.vm.pmm.bitmap (frames s.heap.vm.pmm.bitmap)
    → (s' : Kernel) × (task_create process entry_point s ≡ some (s.heap.bump_pointer, s'))
      × (s'.next_tid ≡ s.next_tid + 1)
      × (s'.sched.task s.heap.bump_pointer
          ≡ some (record { tid = s.next_tid; process = process; state = ready }))
      × (s'.thread s.heap.bump_pointer ≡ some (first_thread s.heap.bump_pointer entry_point))
      × Block s.heap.vm at root s.heap.bump_pointer 33 s'.heap.vm
task_create_lem s process entry_point at root kernel t h current room absent spares =
    let va = s.heap.bump_pointer in
    let (m1, m2, run, runs, block) =
      two_blocks s.heap.vm at root va t h current room absent spares in
    let h2 : Heap = record { vm = m2; bump_pointer = va + frame_size + frame_size * 32 } in
    let here : (va == va) ≡ true = ground arith in
    (
      after_create s process entry_point h2,
      create_runs s process entry_point (record { vm = m1; bump_pointer = va + frame_size }) h2
          kernel run runs,
      refl,
      rw here refl,
      thread-store s process entry_point h2 room,
      block,
    )
