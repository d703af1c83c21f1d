-- ===== src/Tests/Tasks.antt =====
-- Tasks of the machine at boot.
use flux_kernel.Prelude.{
  ltb, ◌&&◌, ◌||◌, ℕ, replicate, get_elem?, get_elem?-replicate, ◌+◌, ◌*◌, ◌≡◌, refl, false, some,
  none, List, [], ◌∷◌, All, Option, zero, suc, ◌<◌, ◌≢◌, ap, ◌∙◌, sym, subst, arith, Bool-cases,
  inl, inr, ◌-◌, ◌^◌, ◌++◌,
}
use flux_kernel.Machine.{Machine, PortEvent, ok, write_self}
use flux_kernel.Structures.{pse_user_mode}
use flux_kernel.Printk.Console.{IsConsole-same}
use flux_kernel.Frames.Chain.{has, not-has-tail}
use flux_kernel.Frames.Init.{frames_from, usable_frames}
use flux_kernel.Frames.Pushed.{has-reverse}
use flux_kernel.Paging.Tree.{IsFrame, IsTree}
use flux_kernel.Paging.Root.{IsTree-same, IsBlank}
use flux_kernel.Paging.Outside.{written, written-IsTree}
use flux_kernel.Serial.Offset
use flux_kernel.Serial.Console.{traffic, wire, sent}
use flux_kernel.Scheduler.Sequence.{create_tasks, IsScheduling}
use flux_kernel.Scheduler.Sequence.Created.{AreCreated, create_tasks-AreCreated}
use flux_kernel.Paging.Held.{IsHeld}
use flux_kernel.KernelMap.{map_blocks}
use flux_kernel.KernelMap.Listed.{no_roles, listed-IsBlank}
use flux_kernel.Proc.{init_task_space_from_mem, map_executable}
use flux_kernel.Proc.Executable.{map_executable-map_blocks}
use flux_kernel.Proc.Task.{IsTaskSpace, init_task_space_from_mem-IsTaskSpace}
use flux_kernel.Task.{Task, SchedState, default_regs_userspace}
use flux_kernel.Start.{Image}
use flux_kernel.Scheduler.{new_task}
use flux_kernel.Scheduler.Create.{IsCreated, new_task-IsCreated, new_task-full, full_message}
use flux_kernel.Tests.Machines.{port}
use flux_kernel.Tests.Booted.{
  rest, others-rest, length-rest, entries, booted, first, others, entries-first, usable-entries,
  has-frames_from, booted-IsHandedOver, m₀, free-IsTree, first-IsBlank, m₀-IsConsole, rooted,
  rooted_role, rooted-IsTree, length-others,
}

-- A frame behind the usable ones.
pub not-usable : has 0x1000_0000 (first ∷ others) ≡ false
not-usable =
    ap (has 0x1000_0000) (sym entries-first)
    ∙ has-reverse 0x1000_0000 (usable_frames entries)
    ∙ ap (has 0x1000_0000) usable-entries
    ∙ elim (Bool-cases (has 0x1000_0000 (frames_from 8192 0x1000))) [
      | inr e ↦ e
      | inl e ↦ absurd (omega (arith, has-frames_from 8192 0x1000 0x1000_0000 e))
    ]

pub variable-IsFrame : IsFrame 0x1000_0000
variable-IsFrame = record { aligned = refl; small = omega arith }

init_task_space_from_mem-IsTaskSpace_example :
    (m' : Machine) × (init_task_space_from_mem (0x1000_0000 + 8 * 3) 0x7000 2 m₀ ≡ ok tt m')
    × IsTaskSpace m₀ first 0x1ff_f000
        (0x1ff_e000 ∷ rest)
        no_roles
        (0x1000_0000 + 8 * 3)
        1
        0x7000
        2
        port
        m'
init_task_space_from_mem-IsTaskSpace_example =
    init_task_space_from_mem-IsTaskSpace m₀ first 0x1ff_f000 (0x1ff_e000 ∷ rest) no_roles
      0x1000_0000 3 1 0x7000 2 port
      (subst (λ xs. IsTree m₀ (first ∷ xs) no_roles) others-rest free-IsTree) m₀-IsConsole
      variable-IsFrame (omega arith) refl
      (subst (λ xs. has 0x1000_0000 (first ∷ xs) ≡ false) others-rest not-usable) first-IsBlank
      (omega (arith, length-rest)) (omega arith)

-- The word at 0x1000_0018 holds the root.
abbrev holding : Machine
holding =
    written rooted others rooted_role rooted-IsTree 0x1000_0000 3 first variable-IsFrame
      (omega arith) refl (not-has-tail 0x1000_0000 first others not-usable)

holding-IsHeld : IsHeld holding others rooted_role 0x1000_0018 first
holding-IsHeld = record {
  frame = 0x1000_0000;
  slot = 3;
  at = refl;
  aligned = variable-IsFrame;
  inside = omega arith;
  no_role = refl;
  not_free = not-has-tail 0x1000_0000 first others not-usable;
  holds = write_self rooted.memory 0x1000_0018 first;
}

map_executable-map_blocks_example :
    map_executable 2 0x1000_0018 0x7000 1 holding
    ≡ map_blocks 3 first 0x3000 0x7000 0 pse_user_mode 0x1000 holding
map_executable-map_blocks_example =
    map_executable-map_blocks 0x1000_0018 first 0 0x7000 2 1 0x3000 holding others rooted_role
      (written-IsTree rooted others rooted_role rooted-IsTree 0x1000_0000 3 first variable-IsFrame
        (omega arith) refl (not-has-tail 0x1000_0000 first others not-usable))
      refl holding-IsHeld (omega (arith, length-others)) refl (omega arith)

-- A task that is there, and a free entry.
abbrev busy : Task
busy = record {
  present = 1;
  state = SchedState.running;
  elapsed_total = 5;
  elapsed_since_run = 1;
  regs = default_regs_userspace;
  pml4_table = 0x9000;
  privilege_level = 3;
}

abbrev idle : Task
idle = record busy { present = 0 }

there : Option Task → ℕ
there none = 0
there (some task) = task.present

abbrev tabled : Machine
tabled = record m₀ { tasks = busy ∷ idle ∷ [] }

tabled-IsTree : IsTree tabled (first ∷ 0x1ff_f000 ∷ 0x1ff_e000 ∷ rest) no_roles
tabled-IsTree =
    IsTree-same m₀ tabled _ no_roles refl refl refl
      (subst (λ xs. IsTree m₀ (first ∷ xs) no_roles) others-rest free-IsTree)

second-IsBlank : IsBlank tabled.memory 0x1ff_f000
second-IsBlank = listed-IsBlank booted entries booted-IsHandedOver refl 0x1ff_f000 (λ j lt. refl)

busy_first :
    (j : ℕ) (other : Task) → get_elem? tabled.tasks j ≡ some other → j < 1 → other.present ≢ 0
unfolding there
busy_first zero other e lt h = omega (arith, ap there e, h)
busy_first (suc j) other e lt h = omega (arith, lt)

new_task-IsCreated_example :
    (m' : Machine) × (new_task tabled ≡ ok 1 m')
    × IsCreated tabled 1 first 0x1ff_f000 0x1ff_e000 idle rest no_roles 1 port m'
new_task-IsCreated_example =
    new_task-IsCreated tabled 1 first 0x1ff_f000 0x1ff_e000 idle rest no_roles 1 port busy_first
      refl refl tabled-IsTree (IsConsole-same m₀ tabled port refl refl refl refl m₀-IsConsole)
      second-IsBlank (omega (arith, length-rest))

abbrev three_idle : Machine
three_idle = record m₀ { tasks = replicate 3 idle }

three_idle-idle :
    (j : ℕ) (task : Task) → get_elem? (replicate 3 idle) j ≡ some task → task.present ≡ 0
three_idle-idle j task e = ground (arith, get_elem?-replicate 3 idle j)

three_idle-IsScheduling :
    IsScheduling 0xffff_ffff_8000_0000 1 3 port three_idle (first ∷ others) no_roles []
three_idle-IsScheduling = record {
  tree = IsTree-same m₀ three_idle _ no_roles refl refl refl free-IsTree;
  console = IsConsole-same m₀ three_idle port refl refl refl refl m₀-IsConsole;
  blank = λ y h. listed-IsBlank booted entries booted-IsHandedOver refl y (λ j lt. refl);
  whole = refl;
  idle = λ j task e le. three_idle-idle j task e;
  made = λ i c e. absurd (cc e);
  at_base = refl;
}

create_tasks-AreCreated_example :
    (m' : Machine) × (create_tasks 2 three_idle ≡ ok (0 ∷ 1 ∷ []) m')
    × AreCreated 0xffff_ffff_8000_0000 1 3 port three_idle (first ∷ others) no_roles [] 2 m'
create_tasks-AreCreated_example =
    create_tasks-AreCreated 0xffff_ffff_8000_0000 1 3 port 2 three_idle (first ∷ others) no_roles []
      three_idle-IsScheduling (omega arith) (omega (arith, length-others))

-- What a linker could choose.
abbrev pub image : Image
image = record {
  layout = record {
    idt_table_address = 0xffff_ffff_8000_9000;
    handler = λ isr. 0xffff_ffff_8000_1000;
  };
  gdt_table_address = 0xffff_ffff_8000_8000;
  task_pml4 = 0x1000_0018;
  rsp = 0xffff_8000_1000_0000;
  flags = 0x2;
  in_use = λ w.
      (ltb 0xffff_ffff_7fff_ffff w && ltb w 0xffff_ffff_8002_0000)
      || (ltb 0xffff_8000_0ffe_ffff w && ltb w 0xffff_8000_1000_0000);
}

abbrev full : Machine
full = record m₀ { tasks = busy ∷ busy ∷ [] }

full-All : All (λ task. task.present ≢ 0) full.tasks
full-All = (λ e. omega (arith, e), (λ e. omega (arith, e), tt))

new_task-full_example :
    (log : List PortEvent) × (new_task full ≡ ok (2 ^ 64 - 1) (traffic full log))
    × (sent (wire port Offset.io_data) log
        ≡ sent (wire port Offset.io_data) full.port_log ++ full_message)
new_task-full_example =
    new_task-full full port (IsConsole-same m₀ full port refl refl refl refl m₀-IsConsole) full-All
