-- ===== src/Start/Launch.antt =====
-- `_start` from the machine at boot, up to the page fault that ends it.
use flux_kernel.Prelude.{◌≢◌, ℕ, ◌≡◌, true, none, some, List}
use flux_kernel.Machine.{Machine, MemmapEntry, Boot, ComPort}
use flux_kernel.Interrupts.{Isr}
use flux_kernel.Idt.Delivered.{Delivers}
use flux_kernel.Printk.Console.{IsConsole}
use flux_kernel.Frames.Chain.{has}
use flux_kernel.Frames.Init.{usable_frames}
use flux_kernel.Paging.Walk.{translate}
use flux_kernel.KernelMap.Setup.{entries_change, direct_change}
use flux_kernel.Start.{Image}
use flux_kernel.Scheduler.{initial_tasks}
use flux_kernel.Prelude.{◌++◌, codes}
use flux_kernel.Interrupts.Reports.{report}
use flux_kernel.Serial.Console.{wire, sent}
use flux_kernel.Serial.Offset

-- `m'` is a machine that has stopped in the handler of page faults: the kernel's tables with the root
-- `x` are the current ones, and do not map the first free frame, which `get_phys_block` wanted to
-- read.
pub record IsFaulted (image : Image) (boot : Boot) (i x : ℕ) (entries : List MemmapEntry)
    (m' : Machine) : Type 0 where
  pub current : m'.cr3 ≡ x
  pub kernel :
      (w : ℕ) → translate m'.memory x w ≡ direct_change boot w (entries_change boot entries w none)
  pub resident : (w : ℕ) → image.in_use w ≡ true → translate m'.memory x w ≢ none
  pub usable : has m'.first_page_frame (usable_frames entries) ≡ true
  pub unreached : translate m'.memory x m'.first_page_frame ≡ none
  pub interrupts : Delivers image.layout image.gdt_table_address m'
  pub tasks : m'.tasks ≡ initial_tasks
  -- What came last on the console.
  pub port : ComPort
  pub chosen : m'.primary_com_port ≡ some i
  pub console : IsConsole m' port
  pub before : List ℕ
  pub said :
      sent (wire port Offset.io_data) m'.port_log
      ≡ before ++ codes "Trying to get block?" ++ report Isr.pf 0

-- No usable frame is where the kernel's tables take its own address.
abbrev pub Unmapped : Boot → List MemmapEntry → Type 0
Unmapped boot entries =
    (y : ℕ)
    → has y (usable_frames entries) ≡ true
    → direct_change boot y (entries_change boot entries y none) ≡ none

-- The kernel's tables map its code, variables and stack.
abbrev pub Resident : Image → Boot → List MemmapEntry → Type 0
Resident image boot entries =
    (w : ℕ)
    → image.in_use w ≡ true
    → direct_change boot w (entries_change boot entries w none) ≢ none
