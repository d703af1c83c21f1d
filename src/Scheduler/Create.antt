-- ===== src/Scheduler/Create.antt =====
-- `new_task` on a full table and on one with a free entry.
use flux_kernel.Prelude.{
  ℕ, ◌+◌, ◌*◌, ◌-◌, ◌^◌, ◌≤◌, ◌≡◌, ◌≢◌, refl, none, some, Option, List, [], ◌∷◌, ◌++◌, ap, ◌∙◌,
  subst, length, arith, codes, get_elem?, set, ◌<◌, All, length-set, get_elem?-set_there, set-set,
  get_elem?-set_ne,
}
use flux_kernel.Machine.{Machine, PortEvent, ComPort, Kernel, pure, ok, ◌>>◌, and_then}
use flux_kernel.Serial.Offset
use flux_kernel.Serial.Console.{traffic, wire, sent}
use flux_kernel.Printk.Console.{IsConsole, IsConsole-same}
use flux_kernel.Printk.Render.{render, pieces, conversion_text, printk-says}
use flux_kernel.Debug.{newline, warn, pwarn}
use flux_kernel.Task.{Task, ProcessorRegs, SchedState}
use flux_kernel.Structures.Segments.{init_segment_selector}
use flux_kernel.Scheduler.Slots.{find_slot-none, find_slot-at}
use flux_kernel.Frames.{get_phys_block}
use flux_kernel.Frames.Chain.{not-has-head}
use flux_kernel.Frames.Pool.{taken}
use flux_kernel.Paging.Tree.{Roles, IsTree}
use flux_kernel.Paging.Root.{IsTree-same, IsBlank, get_phys_block-IsTaken}
use flux_kernel.Proc.{init_task_space_from_mem}
use flux_kernel.Proc.Space.{task_cost}
use flux_kernel.Proc.Task.{IsTaskSpace, init_task_space_from_mem-IsTaskSpace}
use flux_kernel.Scheduler.{find_slot, update_task, make_ready, make_user, fill_slot, new_task}

abbrev pub full_message : List ℕ
full_message = pwarn (codes "??? Failed to find free space for new task!" ++ newline)

-- `new_task` behind its search.
in_slot : Option ℕ → Kernel ℕ
in_slot o = elim o [
  | none ↦ do warn (codes "Failed to find free space for new task!" ++ newline); pure (2 ^ 64 - 1)
  | some i ↦ fill_slot i
]

new_task-in_slot : (m : Machine) → new_task m ≡ in_slot (find_slot m.tasks 0) m
unfolding new_task in_slot
new_task-in_slot m = refl

new_task-none :
    (m : Machine)
    → find_slot m.tasks 0 ≡ none
    → new_task m
      ≡ (warn (codes "Failed to find free space for new task!" ++ newline) >> pure (2 ^ 64 - 1)) m
unfolding in_slot
new_task-none m e = new_task-in_slot m ∙ ap (λ o. in_slot o m) e

new_task-some : (m : Machine) (i : ℕ) → find_slot m.tasks 0 ≡ some i → new_task m ≡ fill_slot i m
unfolding in_slot
new_task-some m i e = new_task-in_slot m ∙ ap (λ o. in_slot o m) e

-- When every entry of the task table is present, `new_task` on a machine with a console prints its
-- warning, changes nothing else and returns the pattern of -1.
pub new_task-full :
    (m : Machine) (port : ComPort)
    → IsConsole m port
    → All (λ task. task.present ≢ 0) m.tasks
    → (log : List PortEvent) × (new_task m ≡ ok (2 ^ 64 - 1) (traffic m log))
      × (sent (wire port Offset.io_data) log
          ≡ sent (wire port Offset.io_data) m.port_log ++ full_message)
unfolding warn pieces render conversion_text
new_task-full m port console busy =
    let (log, run, said) = printk-says console full_message [] _ refl in
    (
      log,
      new_task-none m (find_slot-none m.tasks 0 busy)
          ∙ ap (λ r. and_then r (λ _. pure (2 ^ 64 - 1))) run,
      said,
    )

update_task_run :
    (i : ℕ) (f : Task → Task) (m : Machine) (task : Task)
    → get_elem? m.tasks i ≡ some task
    → update_task i f m ≡ ok tt (record m { tasks = set m.tasks i (f task) })
unfolding update_task
update_task_run i f m task e = rw (update_task, e) refl

-- The machine with the entry `i` as it is at first, and at last.
abbrev made_ready : ℕ → Task → Machine → Machine
made_ready i task m = record m { tasks = set m.tasks i (make_ready task) }

abbrev pub made_user : ℕ → Task → ℕ → Machine → Machine
made_user i task t m = record (taken m) { tasks = set m.tasks i (make_user t (make_ready task)) }

fill_slot_run :
    (i t : ℕ) (task : Task) (m m' : Machine)
    → get_elem? m.tasks i ≡ some task
    → get_phys_block (made_ready i task m) ≡ ok t (taken (made_ready i task m))
    → init_task_space_from_mem t 0 0 (made_user i task t m) ≡ ok tt m'
    → fill_slot i m ≡ ok i m'
unfolding fill_slot
fill_slot_run i t task m m' e r r' =
    rw
      (
        fill_slot,
        update_task_run i make_ready m task e,
        r,
        update_task_run i (make_user t) (taken (made_ready i task m)) (make_ready task)
            (get_elem?-set_there m.tasks i task (make_ready task) e),
        set-set m.tasks i (make_ready task) (make_user t (make_ready task)),
        r',
      )
      refl

-- The registers that a new task starts with: the selectors of the user segments with ring 3.
abbrev pub user_regs : ProcessorRegs
user_regs = record {
  rax = 0;
  rbx = 0;
  rcx = 0;
  rdx = 0;
  rsi = 0;
  rdi = 0;
  rsp = 0;
  rbp = 0;
  r8 = 0;
  r9 = 0;
  r10 = 0;
  r11 = 0;
  r12 = 0;
  r13 = 0;
  r14 = 0;
  r15 = 0;
  rip = 0;
  cs = 0x1b;
  ds = 0x23;
  ss = 0x23;
  rflags = 0;
  cr3 = 0;
}

-- A task that has just been created, with the table `t`.
pub record IsNew (t : ℕ) (task : Task) : Type 0 where
  pub there : task.present ≡ 1
  pub waits : task.state ≡ SchedState.ready
  pub total : task.elapsed_total ≡ 0
  pub since_run : task.elapsed_since_run ≡ 0
  pub regs : task.regs ≡ user_regs
  pub table : task.pml4_table ≡ t
  pub level : task.privilege_level ≡ 3

made_user-IsNew : (t : ℕ) (task : Task) → IsNew t (make_user t (make_ready task))
unfolding init_segment_selector
made_user-IsNew t task = record {
  there = refl;
  waits = refl;
  total = refl;
  since_run = refl;
  regs = refl;
  table = refl;
  level = refl;
}

-- The task in the entry `i` is new, with `t` as its table.
pub record IsCreated (m : Machine) (i t x s : ℕ) (task : Task) (free : List ℕ) (role : Roles)
    (q : ℕ) (port : ComPort) (m' : Machine) : Type 0 where
  pub entry : (new : Task) × (get_elem? m'.tasks i ≡ some new) × IsNew t new
  pub length_kept : length m'.tasks ≡ length m.tasks
  pub others : (j : ℕ) → i ≢ j → get_elem? m'.tasks j ≡ get_elem? m.tasks j
  pub space : IsTaskSpace (made_user i task t m) x s free role t q 0 0 port m'
  -- The table that is recorded is not the root: its first word is the root's address.
  pub not_root : t ≢ x
  pub pointer : m'.memory t ≡ x

-- On well-formed page tables with three frames and enough more free, the second one without
-- present entries, with a console, and with the entry `i` of the task table not present and every
-- earlier one present, `new_task` returns `i`; then the entry is present and ready, has not run, has
-- the first frame as its table, privilege level 3 and the registers of a new task with the user's
-- selectors, and no other entry changed; the second frame is the root of a new address space that translates the page below
-- the kernel to the third frame and nothing else; and the first frame is not that root, which its
-- first word only points to.
pub new_task-IsCreated :
    (m : Machine) (i t x s : ℕ) (task : Task) (free : List ℕ) (role : Roles) (q : ℕ)
    (port : ComPort)
    → ((j : ℕ) (other : Task) → get_elem? m.tasks j ≡ some other → j < i → other.present ≢ 0)
    → get_elem? m.tasks i ≡ some task
    → task.present ≡ 0
    → IsTree m (t ∷ x ∷ s ∷ free) role
    → IsConsole m port
    → IsBlank m.memory x
    → task_cost 0 ≤ length free
    → (m' : Machine) × (new_task m ≡ ok i m') × IsCreated m i t x s task free role q port m'
new_task-IsCreated m i t x s task free role q port busy at idle tree console blank enough =
    let first =
      get_phys_block-IsTaken (made_ready i task m) t (x ∷ s ∷ free) role
        (IsTree-same m (made_ready i task m) _ role refl refl refl tree) in
    let m₃ = made_user i task t m in
    let tree₃ = IsTree-same (taken (made_ready i task m)) m₃ _ role refl refl refl first.tree in
    let found : find_slot m.tasks 0 ≡ some i =
      find_slot-at m.tasks 0 i task busy at idle ∙ ap some (omega arith) in
    let start : t + 8 * 0 ≡ t = omega arith in
    let (m', run, space) =
      subst
        (λ p.
          (m' : Machine) × (init_task_space_from_mem p 0 0 m₃ ≡ ok tt m')
          × IsTaskSpace m₃ x s free role p q 0 0 port m')
        start
        (init_task_space_from_mem-IsTaskSpace m₃ x s free role t 0 q 0 0 port tree₃
          (IsConsole-same m m₃ port refl refl refl refl console) first.frame (omega arith)
          first.no_role first.not_free blank enough (omega arith)) in
    let tasks : m'.tasks ≡ set m.tasks i (make_user t (make_ready task)) =
      ap (λ z. z.tasks) space.agrees in
    (
      m',
      new_task-some m i found ∙ fill_slot_run i t task m m' at first.run run,
      record {
        entry = (
          make_user t (make_ready task),
          ap (λ ts. get_elem? ts i) tasks
              ∙ get_elem?-set_there m.tasks i task (make_user t (make_ready task)) at,
          made_user-IsNew t task,
        );
        length_kept = ap length tasks ∙ length-set m.tasks i (make_user t (make_ready task));
        others = λ j ne.
            ap (λ ts. get_elem? ts j) tasks
            ∙ get_elem?-set_ne m.tasks i j (make_user t (make_ready task)) ne;
        space = space;
        not_root = not-has-head t x (s ∷ free) first.not_free;
        pointer = space.variable;
      },
    )
