-- ===== src/Scheduler/Reset.antt =====
-- `scheduler_init` leaves every entry of the task table free, and no task running.
use flux_kernel.Prelude.{
  ℕ, suc, ◌++◌, ◌≡◌, refl, some, List, [], ◌∷◌, zero, get_elem?, arith, map, length, ap, subst,
  codes,
}
use flux_kernel.Machine.{Machine, PortEvent, ComPort, ok}
use flux_kernel.Task.{Task}
use flux_kernel.Structures.{cr3_base_addr}
use flux_kernel.Serial.Offset
use flux_kernel.Serial.Console.{traffic, sent, wire, Prints}
use flux_kernel.Printk.{printk}
use flux_kernel.Printk.Console.{IsConsole, IsConsole-same}
use flux_kernel.Printk.Render.{pieces, render, Renders, printk-render, conversion_text}
use flux_kernel.Debug.{newline, system}
use flux_kernel.Scheduler.{scheduler_reset, scheduler_init, clear_task}

abbrev pub init_message : List ℕ
init_message = system "(SCHED)" ++ codes "Initialised task scheduler." ++ newline

render-init_message : render (pieces init_message) [] ≡ some init_message
unfolding pieces render conversion_text
render-init_message = refl

length-clear_task : (tasks : List Task) → length (map clear_task tasks) ≡ length tasks
length-clear_task [] = refl
length-clear_task (task ∷ tasks) = ap (λ n. suc n) (length-clear_task tasks)

get_elem?-clear_task :
    (tasks : List Task) (j : ℕ) (task : Task)
    → get_elem? tasks j ≡ some task
    → get_elem? (map clear_task tasks) j ≡ some (record task { present = 0 })
get_elem?-clear_task [] j task e = absurd (cc e)
get_elem?-clear_task (t ∷ tasks) zero task e =
    let same : t ≡ task = cc in ap (λ (z : Task). some (record z { present = 0 })) same
get_elem?-clear_task (t ∷ tasks) (suc j) task e = get_elem?-clear_task tasks j task e

-- No task is running, which -1 in 32 bits says; every entry of the table is free, with its other
-- fields as they were; and the registers of a kernel task have the kernel's tables in CR3.
pub record IsReset (m m' : Machine) : Type 0 where
  pub idle : m'.current_task ≡ 0xffff_ffff
  pub whole : length m'.tasks ≡ length m.tasks
  pub free :
      (j : ℕ) (task : Task)
      → get_elem? m.tasks j ≡ some task
      → get_elem? m'.tasks j ≡ some (record task { present = 0 })
  pub regs :
      m'.default_regs_kernel
      ≡ record m.default_regs_kernel { cr3 = cr3_base_addr m.kernel_pml4_table }
  pub agrees : m' ≡ record m {
    current_task = m'.current_task;
    tasks = m'.tasks;
    default_regs_kernel = m'.default_regs_kernel;
    port_log = m'.port_log;
  }

-- The run, in the terms of the code.
pub scheduler_init-runs :
    (m : Machine) (port : ComPort)
    → IsConsole m port
    → (log : List PortEvent)
    → (log' : List PortEvent) × (scheduler_init (traffic m log)
        ≡ ok tt (traffic (scheduler_reset m) log'))
      × (sent (wire port Offset.io_data) log' ≡ sent (wire port Offset.io_data) log ++ init_message)
unfolding scheduler_init
scheduler_init-runs m port console log =
    let printed : Prints (scheduler_reset m) port (printk init_message []) init_message =
      subst (Renders (scheduler_reset m) port (printk init_message [])) render-init_message (
        printk-render (IsConsole-same m (scheduler_reset m) port refl refl refl refl console)
          init_message []) in
    printed log

-- On a prompt console `scheduler_init` returns; then its message is sent, `current_task` is the
-- 32-bit pattern of -1, every entry of the table is not present, with its other fields as they
-- were, the registers of a kernel task have the address of the kernel's tables as CR3 and are
-- otherwise as they were, and nothing else changed.
pub scheduler_init-IsReset :
    (m : Machine) (port : ComPort)
    → IsConsole m port
    → (m' : Machine) × (scheduler_init m ≡ ok tt m')
      × (sent (wire port Offset.io_data) m'.port_log
          ≡ sent (wire port Offset.io_data) m.port_log ++ init_message)
      × IsReset m m'
scheduler_init-IsReset m port console =
    let (log, run, said) = scheduler_init-runs m port console m.port_log in
    (
      traffic (scheduler_reset m) log,
      run,
      said,
      record {
        idle = omega arith;
        whole = length-clear_task m.tasks;
        free = get_elem?-clear_task m.tasks;
        regs = refl;
        agrees = refl;
      },
    )
