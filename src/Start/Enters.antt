-- ===== src/Start/Enters.antt =====
-- The steps of `_start` behind the set-up of memory, up to its first page frame.
use flux_kernel.Prelude.{
  ◌==◌, false, ℕ, ◌^◌, ◌<◌, ap, ◌∙◌, ◌≡◌, refl, List, [], ◌++◌, length, codes,
}
use flux_kernel.Machine.{Machine, PortEvent, ComPort, ok}
use flux_kernel.Structures.Gates.{IdtEntry}
use flux_kernel.Serial.Console.{traffic}
use flux_kernel.Printk.{printk}
use flux_kernel.Printk.Console.{IsConsole, IsConsole-same}
use flux_kernel.Printk.Render.{render, pieces, printk-says}
use flux_kernel.Paging.{paging_init}
use flux_kernel.Paging.Current.{with_cr3, paging_init_run}
use flux_kernel.Paging.Tree.{IsFrame}
use flux_kernel.KernelMap.{mem_init}
use flux_kernel.Gdt.{gdt_init}
use flux_kernel.Gdt.Loaded.{loaded, gdt_init-loaded}
use flux_kernel.Structures.Segments.{gdt_table}
use flux_kernel.Interrupts.{Isr}
use flux_kernel.Idt.{initial_idt_table, idt_init}
use flux_kernel.Idt.KernelGates.{IsLoaded}
use flux_kernel.Idt.Delivered.{Delivers, Delivers-same, installed-Delivers, length-initial}
use flux_kernel.Idt.Vectors.{idt_init-installed}
use flux_kernel.Scheduler.{scheduler_init, scheduler_reset}
use flux_kernel.Scheduler.Reset.{scheduler_init-runs}
use flux_kernel.Start.{Image, is_at, reaches, access_frame, start_with_console}
use flux_kernel.Structures.{cr3_base_addr}
use flux_kernel.Paging.Walk.{translate}
use flux_kernel.Frames.{null}
use flux_kernel.Interrupts.{handle}
use flux_kernel.Interrupts.Reports.{report, handle-stopped}
use flux_kernel.Serial.Console.{wire, sent}
use flux_kernel.Serial.Offset
use flux_kernel.Machine.{stopped}
use flux_kernel.Prelude.{none, ◌≢◌, ==_false}

-- `_start` behind its set-ups, when the first free frame is not reached.
pub start_with_console-stopped :
    (image : Image) (n : ℕ) (m m₁ m₂ m₃ m₄ m₅ m₆ m' : Machine)
    → mem_init m ≡ ok n m₁
    → paging_init m₁ ≡ ok tt m₂
    → gdt_init image.gdt_table_address m₂ ≡ ok tt m₃
    → idt_init image.layout m₃ ≡ ok tt m₄
    → scheduler_init m₄ ≡ ok tt m₅
    → printk (codes "Trying to get block?") [] m₅ ≡ ok tt m₆
    → access_frame m₆ ≡ stopped m'
    → start_with_console image m ≡ stopped m'
unfolding start_with_console
start_with_console-stopped image n m m₁ m₂ m₃ m₄ m₅ m₆ m' r₁ r₂ r₃ r₄ r₅ r₆ r₇ =
    rw (start_with_console, r₁, r₂, r₃, r₄, r₅, r₆, r₇) refl

access_frame-handle :
    (m : Machine) (a : ℕ)
    → m.first_page_frame ≡ a
    → a ≢ null
    → translate m.memory (cr3_base_addr m.cr3) a ≡ none
    → access_frame m ≡ handle Isr.pf 0 m
unfolding access_frame reaches
access_frame-handle m a first ne e =
    let unreached : reaches m m.first_page_frame ≡ false = ap (reaches m) first ∙ ap (is_at a) e in
    let there : (m.first_page_frame == null) ≡ false =
      ap (λ p. p == null) first ∙ ==_false a null ne in
    rw (access_frame, there, unreached) refl

-- The machine with the tables of the processor and the task table set up.
abbrev pub configured : Image → List IdtEntry → List PortEvent → Machine → Machine
configured image table log m =
    traffic
      (scheduler_reset (record (loaded image.gdt_table_address (with_cr3 m.kernel_pml4_table m)) {
        idt_table = table;
        idtr = record { idt_size = 4095; offset = image.layout.idt_table_address };
      }))
      log

module _ (image : Image) (port : ComPort) where
  silent : (m : Machine) (log : List PortEvent) → IsConsole m port → IsConsole (traffic m log) port
  silent m log console = IsConsole-same m (traffic m log) port refl refl refl refl console

  -- The four set-ups behind the memory's.
  pub configure :
      (m : Machine)
      → IsFrame m.kernel_pml4_table
      → IsConsole m port
      → m.idt_table ≡ initial_idt_table
      → ((i : Isr) → image.layout.handler i < 2 ^ 64)
      → (table : List IdtEntry) × (log : List PortEvent) × (m₃ m₄ : Machine) × (paging_init m
          ≡ ok tt (with_cr3 m.kernel_pml4_table m))
        × (gdt_init image.gdt_table_address (with_cr3 m.kernel_pml4_table m) ≡ ok tt m₃)
        × (idt_init image.layout m₃ ≡ ok tt m₄)
        × (scheduler_init m₄ ≡ ok tt (configured image table log m))
        × Delivers image.layout image.gdt_table_address (configured image table log m)
  unfolding gdt_table
  configure m frame console initial small =
      let m₂ = with_cr3 m.kernel_pml4_table m in
      let (log₃, run₃) =
        gdt_init-loaded image.gdt_table_address m₂ port
          (IsConsole-same m m₂ port refl refl refl refl console) in
      let m₃ = loaded image.gdt_table_address (traffic m₂ log₃) in
      let (table, run₄, gates) =
        idt_init-installed image.layout m₃ (ap length initial ∙ length-initial) in
      let m₄ = record m₃ {
        idt_table = table;
        idtr = record { idt_size = 4095; offset = image.layout.idt_table_address };
      } in
      let (log₅, run₅, said) =
        scheduler_init-runs m₄ port (IsConsole-same m m₄ port refl refl refl refl console) log₃ in
      let l : IsLoaded image.layout image.gdt_table_address m₄ = record {
        idt = refl;
        gdt = refl;
      } in
      (
        table,
        log₅,
        m₃,
        m₄,
        paging_init_run m frame,
        run₃,
        run₄,
        run₅,
        Delivers-same image.layout image.gdt_table_address m₄ (configured image table log₅ m) refl
            refl refl
            (installed-Delivers image.layout image.gdt_table_address m₄ m.idt_table l small initial
              gates),
      )

  -- The message in front of the trial of the frame allocator, and the report of the page fault.
  pub trial :
      (m : Machine) (a : ℕ)
      → IsConsole m port
      → m.first_page_frame ≡ a
      → a ≢ null
      → translate m.memory (cr3_base_addr m.cr3) a ≡ none
      → (log log' : List PortEvent) × (printk (codes "Trying to get block?") [] m
          ≡ ok tt (traffic m log))
        × (access_frame (traffic m log) ≡ stopped (traffic m log'))
        × (sent (wire port Offset.io_data) log'
            ≡ sent (wire port Offset.io_data) m.port_log
              ++ codes "Trying to get block?"
              ++ report Isr.pf 0)
  unfolding pieces render
  trial m a console first ne e =
      let (log, run, said) = printk-says console (codes "Trying to get block?") [] _ refl in
      let (log', run', said') = handle-stopped console Isr.pf 0 log in
      (
        log,
        log',
        run,
        access_frame-handle (traffic m log) a first ne e ∙ run',
        said' ∙ ap (λ z. z ++ report Isr.pf 0) said,
      )
