-- ===== src/Scheduler.antt =====
-- kernel/generic/scheduler.c: the task table. `switch_to_task` and `scheduler_preempt` are empty.
pub mod Slots
pub mod Reset
pub mod Create
pub mod Sequence
use flux_kernel.Prelude.{ℕ, zero, suc, ◌+◌, ◌-◌, ◌^◌, Bool, Option, none, some, List, [], ◌∷◌, ◌++◌}
use flux_kernel.Prelude.{◌==◌, if◌then◌else◌, get_elem?, set, map, codes, replicate}
use flux_kernel.Words.{u64}
use flux_kernel.Machine.{Machine, Run, ok, fault, Kernel, pure, ◌>>=◌, ◌>>◌, get, modify, and_then}
use flux_kernel.Structures.{cr3_base_addr}
use flux_kernel.Printk.{printk}
use flux_kernel.Debug.{newline, system, warn}
use flux_kernel.Frames.{get_phys_block}
use flux_kernel.Proc.{init_task_space_from_mem}
use flux_kernel.Task.{ProcessorRegs, Task, SchedState, default_regs_userspace}

abbrev pub n_tasks : ℕ
n_tasks = 128

-- The task table as C initialises it; 0 is `RUNNING`.
abbrev no_regs : ProcessorRegs
no_regs = record {
  rax = 0;
  rbx = 0;
  rcx = 0;
  rdx = 0;
  rsi = 0;
  rdi = 0;
  rsp = 0;
  rbp = 0;
  r8 = 0;
  r9 = 0;
  r10 = 0;
  r11 = 0;
  r12 = 0;
  r13 = 0;
  r14 = 0;
  r15 = 0;
  rip = 0;
  cs = 0;
  ds = 0;
  ss = 0;
  rflags = 0;
  cr3 = 0;
}

abbrev no_task : Task
no_task = record {
  present = 0;
  state = SchedState.running;
  elapsed_total = 0;
  elapsed_since_run = 0;
  regs = no_regs;
  pml4_table = 0;
  privilege_level = 0;
}

unfoldable pub initial_tasks : List Task
initial_tasks = replicate n_tasks no_task

abbrev pub switch_to_task : ℕ → Kernel (Unit {0})
switch_to_task next_task = pure tt

abbrev pub scheduler_preempt : Kernel (Unit {0})
scheduler_preempt = pure tt

-- The loop of `new_task`: the first entry that is not present, counted from `i`.
unfoldable pub find_slot : List Task → ℕ → Option ℕ
find_slot [] i = none
find_slot (task ∷ tasks) i = if task.present == 0 then some i else find_slot tasks (i + 1)

-- A write to `tasks[i]`.
unfoldable pub update_task : ℕ → (Task → Task) → Kernel (Unit {0})
update_task i f m = elim (get_elem? m.tasks i) [
  | none ↦ fault
  | some task ↦ ok tt (record m { tasks = set m.tasks i (f task) })
]

-- The scheduling data of a new task, and its processor data.
abbrev pub make_ready : Task → Task
make_ready task = record task {
  present = 1;
  state = SchedState.ready;
  elapsed_total = 0;
  elapsed_since_run = 0;
}

abbrev pub make_user : ℕ → Task → Task
make_user table task = record task {
  pml4_table = table;
  privilege_level = 3;
  regs = default_regs_userspace;
}

-- `new_task` in the slot it found. It passes the table itself where
-- `init_task_space_from_mem` takes the address of a variable.
unfoldable pub fill_slot : ℕ → Kernel ℕ
fill_slot i = do
  update_task i make_ready
  table ← get_phys_block
  update_task i (make_user table)
  init_task_space_from_mem table 0 0
  pure i

-- The result -1 is that of a `size_t`.
unfoldable pub new_task : Kernel ℕ
new_task = do
  m ← get
  elim (find_slot m.tasks 0) [
    | none ↦ do warn (codes "Failed to find free space for new task!" ++ newline); pure (2 ^ 64 - 1)
    | some i ↦ fill_slot i
  ]

abbrev pub clear_task : Task → Task
clear_task task = record task { present = 0 }

-- What `scheduler_init` makes of the globals; -1 in `current_task` is a 32-bit pattern.
abbrev pub scheduler_reset : Machine → Machine
scheduler_reset m = record m {
  default_regs_kernel = record m.default_regs_kernel { cr3 = cr3_base_addr m.kernel_pml4_table };
  current_task = 2 ^ 32 - 1;
  tasks = map clear_task m.tasks;
}

unfoldable pub scheduler_init : Kernel (Unit {0})
scheduler_init = do
  modify scheduler_reset
  printk (system "(SCHED)" ++ codes "Initialised task scheduler." ++ newline) []
