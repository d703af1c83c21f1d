-- ===== src/Start.antt =====
-- kernel/main.c: `_start`, where the boot loader enters the kernel (built without PRETTY_LOGO).
pub mod Enters
pub mod Launch
use flux_kernel.Prelude.{
  ℕ, ◌≡◌, ◌+◌, ◌-◌, ◌^◌, Bool, false, ◌==◌, ◌||◌, if◌then◌else◌, Option, none, some, List, [], ◌∷◌,
  ◌++◌, length, codes,
}
use flux_kernel.Words.{u64}
use flux_kernel.Machine.{
  Machine, LimineFile, IsrFrame, fault, ok, entered, Kernel, pure, ◌>>=◌, ◌>>◌, get, loop_forever,
}
use flux_kernel.Structures.Segments.{init_segment_selector}
use flux_kernel.Serial.Init.{serial_init}
use flux_kernel.Printk.{word, text, printk}
use flux_kernel.Debug.{newline, pgood}
use flux_kernel.Frames.{null, get_phys_block}
use flux_kernel.Structures.{cr3_base_addr}
use flux_kernel.Paging.Walk.{translate}
use flux_kernel.Interrupts.{Isr, handle}
use flux_kernel.KernelMap.{mem_init}
use flux_kernel.Paging.{paging_init}
use flux_kernel.Gdt.{gdt_init}
use flux_kernel.Serial.{initial_com_ports}
use flux_kernel.Idt.{Layout, initial_idt_table, idt_init}
use flux_kernel.Proc.{init_task_space_from_mem}
use flux_kernel.Scheduler.{initial_tasks, scheduler_init}

-- What the compiler and the linker chose: the tables and handlers, the address of the variable
-- `task_pml4` on the stack, the stack pointer and flags that `_start` pushes, and the virtual
-- addresses of the kernel's code, variables and stack.
pub record Image : Type 0 where
  pub layout : Layout
  pub gdt_table_address : ℕ
  pub task_pml4 : ℕ
  pub rsp : ℕ
  pub flags : ℕ
  pub in_use : ℕ → Bool

-- The variables that the kernel relies on, as C initialises them.
pub record IsInitial (m : Machine) : Type 0 where
  pub ports : m.com_ports ≡ initial_com_ports
  pub unchosen : m.primary_com_port ≡ none
  pub gates : m.idt_table ≡ initial_idt_table
  pub tasks : m.tasks ≡ initial_tasks

-- The endless loops around `hlt`, and around a breakpoint of the emulator.
abbrev pub done : Kernel (Unit {0})
done = loop_forever

abbrev pub loop : Kernel (Unit {0})
loop = loop_forever

-- The five words that are pushed, and `iretq`.
abbrev pub module_frame : Image → LimineFile → IsrFrame
module_frame image file = record {
  ip = file.address;
  cs = init_segment_selector 3 0 3;
  flags = image.flags;
  sp = image.rsp;
  ss = init_segment_selector 3 0 4;
}

-- `(uint64_t)file->address - (uint64_t)__FLUX_BASE_VIRT`
abbrev pub module_memory : ℕ → LimineFile → ℕ
module_memory base file = u64 (file.address + (2 ^ 64 - base))

-- Once the kernel's tables are the current ones, the processor finds the physical address `a` at
-- itself only if these tables take it there.
abbrev pub is_at : ℕ → Option ℕ → Bool
is_at a none = false
is_at a (some b) = b == a

unfoldable pub reaches : Machine → ℕ → Bool
reaches m a = is_at a (translate m.memory (cr3_base_addr m.cr3) a)

-- The first read behind the pointer `first_page_frame`, which is where `get_phys_block` touches
-- physical memory: when it is not reached, the processor runs the handler of page faults, with the
-- error code of a read of a page that is not present, and then tries again.
unfoldable pub access_frame : Kernel (Unit {0})
access_frame m =
    if (m.first_page_frame == null) || reaches m m.first_page_frame
    then ok tt m
    else handle Isr.pf 0 m

-- A round of the loop over the modules. The frames behind the first one are taken to be reached as
-- that one is. `__FLUX_BASE_VIRT` is below 2^64.
unfoldable pub start_module : Image → LimineFile → Kernel (Unit {0})
start_module image file = do
  printk (codes "Initialising task memory layout." ++ newline) []
  m ← get
  printk (codes "Task pmem begins at %p" ++ newline)
      (word (module_memory m.boot.flux_base_virt file) ∷ [])
  access_frame
  init_task_space_from_mem image.task_pml4 (module_memory m.boot.flux_base_virt file) 1
  printk (codes "Calling module code '%s' @ 0x%p" ++ newline)
      (text file.path ∷ word file.address ∷ [])
  λ m. entered (module_frame image file) m

unfoldable pub start_modules : Image → List LimineFile → Kernel (Unit {0})
start_modules image [] = pure tt
start_modules image (file ∷ files) = start_module image file >> start_modules image files

-- A NULL response is dereferenced.
unfoldable pub start_response : Image → Option (List LimineFile) → Kernel (Unit {0})
start_response image none = λ _. fault
start_response image (some files) = do
  printk (codes "Limine modules loaded with %d modules." ++ newline) (word (length files) ∷ [])
  start_modules image files

-- `_start` behind the set-up of the serial console.
unfoldable pub start_with_console : Image → Kernel (Unit {0})
start_with_console image = do
  mem_init
  paging_init
  gdt_init image.gdt_table_address
  idt_init image.layout
  scheduler_init
  printk (codes "Trying to get block?") []
  access_frame
  get_phys_block
  printk (codes "Done." ++ newline) []
  m ← get
  start_response image m.boot.modules
  printk (pgood (codes "Flux Kernel v0.1 initialised successfully!" ++ newline)) []
  done

unfoldable pub start : Image → Kernel (Unit {0})
start image = serial_init >> start_with_console image
