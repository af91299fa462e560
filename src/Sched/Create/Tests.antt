-- ===== src/Sched/Create/Tests.antt =====
-- A first kernel task on page tables with one empty top table.
use project_luciano.Base.{
  ℕ, ◌+◌, ◌*◌, ◌^◌, ◌≤◌, ◌≡◌, refl, ap, false, none, some, List, [], ◌∷◌, arith, ◌==◌,
  if◌then◌else◌, replicate,
}
use project_luciano.Memory.Pmm.{bit_set}
use project_luciano.Memory.Pmm.Frames.{used}
use project_luciano.Memory.Pmm.Count.{spare}
use project_luciano.Memory.Vmm.{Vm, entry_present, vmm_get_current_space}
use project_luciano.Memory.Vmm.Tree.{base, Labels, IsTree, lookup}
use project_luciano.Memory.Vmm.Translate.{is_mapped}
use project_luciano.Memory.Kmalloc.{k_heap_start}
use project_luciano.Memory.Kmalloc.Block.{Block}
use project_luciano.Sched.{ready}
use project_luciano.Sched.Create.{Kernel, privilege_kernel, task_create}
use project_luciano.Sched.Create.Task.{first_thread, task_create_lem}

-- Frame 0 is the top table, and frames 1 to 159 are free.
abbrev empty : Vm
empty = record {
  mem = λ a. 0;
  pmm = record { bitmap = 1 ∷ replicate 19 0; total_frames = 160; physical = 0 };
  hhdm = 2 ^ 63;
  cr3 = 0;
  flushed = [];
}

abbrev roots : Labels
roots h = if h == 0 then some [] else none

root_only : (h : ℕ) (ps : List ℕ) → roots h ≡ some ps → h ≡ 0
root_only h ps e = ground (arith, e)

absent : entry_present 0 ≡ false
unfolding entry_present
absent = refl

empty-IsTree : IsTree empty roots
unfolding used bit_set
empty-IsTree = record {
  direct = record { bytes = ground arith; reach = omega arith; small = omega arith };
  inside = λ f ps e. omega (arith, root_only f ps e);
  in_use = λ f ps e. ap (used empty.pmm.bitmap) (root_only f ps e);
  child = λ f i ps e l k there. ground (arith, there, absent);
  clean = λ f i l u k. refl;
}

abbrev start : Kernel
start = record {
  heap = record { vm = empty; bump_pointer = k_heap_start };
  next_tid = 1;
  next_pid = 2;
  process_table = λ i. 0;
  sched = record {
    queue = [];
    current_idx = 0;
    scheduler_running = false;
    scheduler_enabled = false;
    task = λ p. none;
    process = λ p. none;
  };
  thread = λ p. none;
  address_space = λ p. 0;
  privilege = λ p. privilege_kernel;
}

current : vmm_get_current_space empty ≡ base empty 0
unfolding vmm_get_current_space
current = refl

unmapped : (va : ℕ) → is_mapped empty 0 va ≡ false
unfolding lookup entry_present
unmapped va = refl

room : 4 * 33 ≤ spare (1 ∷ replicate 19 0) 160
unfolding spare used bit_set
room = omega arith

task_create_lem_example :
    (s' : Kernel) × (task_create 5 0x1000 start ≡ some (k_heap_start, s'))
    × (s'.next_tid ≡ 1 + 1)
    × (s'.sched.task k_heap_start ≡ some (record { tid = 1; process = 5; state = ready }))
    × (s'.thread k_heap_start ≡ some (first_thread k_heap_start 0x1000))
    × Block empty roots 0 k_heap_start 33 s'.heap.vm
task_create_lem_example =
    task_create_lem start 5 0x1000 roots 0 refl empty-IsTree refl current (omega arith)
      (λ i l. unmapped _) room
