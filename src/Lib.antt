-- ===== src/Lib.antt =====
-- The flux kernel: a small x86-64 kernel in C, started by the Limine boot loader.
--
-- Its parts, and the files that model them. A definition has the name of the C function or macro
-- in lower case; a type has the struct's name.
--   Machine       the state (memory, the kernel's globals, the processor's registers in use, the
--                 I/O ports, what the boot loader answered), and programs over it
--   Words, Bits   C's unsigned words, shifts and masks, and what they mean as arithmetic
--   Structures    kernel/arch/x64/structures.h: page table entries; Structures/Segments:
--                 selectors and segment descriptors; Structures/Gates: interrupt gates
--   Serial        kernel/arch/x64/serial.c, serial.h, io.h; Serial/Init: serial_init,
--                 Serial/Search and Chosen: the port that it chooses; Serial/Line: com_reads
--   Printk        kernel/generic/printk.c, printk.h
--   Debug         kernel/generic/debug.h and the colours of printk.h
--   Frames        kernel/arch/x64/mem.c: the free list of page frames
--   Paging        kernel/arch/x64/paging.c: the page tables
--   Spaces        paging.c and the allocator of mem.c together, as address spaces
--   KernelMap     kernel/arch/x64/mem.c: setup_kernel_map (KernelMap/Range, Blocks for its loop,
--                 Stage, Setup and Made for its parts) and mem_init (KernelMap/Listed, Start)
--   Task, Proc    kernel/arch/x64/proc.h, proc.c and the data of kernel/generic/scheduler.h;
--                 Proc/Registers: print_regs
--   Scheduler     kernel/generic/scheduler.c; Scheduler/Sequence: new_task again and again
--   Idt           kernel/arch/x64/idt.c, idt.h; Idt/Delivery: what the processor makes of them,
--                 Idt/KernelGates and Delivered: what becomes of an interrupt
--   Start         kernel/main.c; Start/Enters and Launch: the way of `_start`
--   Interrupts    kernel/arch/x64/exceptions.c, syscall.c
--   Gdt           kernel/arch/x64/gdt.c, gdt-helpers.asm
--   Prelude       names, tests and list lemmas that all share
--   Tests         concrete machines
--
-- How they interact: `serial_init` sets up the ports and chooses the console that `printk` writes
-- to. `mem_init` builds the free list and then the kernel's page tables, whose frames it takes
-- from that list. A failed assertion prints through `printk` and then loops. Tasks get frames and
-- page tables in the same way. `_start` runs these set-ups in order, makes the kernel's tables the
-- current ones, takes a page frame and then turns to the modules.
--
-- A program is a function from the machine to a `Run`: it returns with a value and a machine,
-- it enters a deliberate endless loop (`stopped`), it does what C leaves undefined (`fault`),
-- it has polled a device more often than the machine's patience (`waiting`), or it left the
-- kernel by `iretq` (`entered`). The device behind the ports is a function of the traffic so far;
-- `Serial/Console.IsPrompt` says of one that it accepts characters in time. Numbers are naturals,
-- with each wrap-around written out.
--
-- Loops over arrays and bit positions are structural. `add_frames` and `map_blocks` run on a
-- number of rounds: an entry of `length` bytes takes at most `length / 4096 + 1` rounds and one
-- more to see the end. `com_reads` is bounded by a number of characters that its caller gives.
--
-- Where memory is: `load` and `store` reach a physical address at itself, which is how the code
-- uses page frames and tables, and which holds while the boot loader's tables are the current ones.
-- The kernel's tables have no such map of their own, so from `paging_init` on this need not be so:
-- `_start` then asks the tables in CR3 about the first page frame that it reads (`access_frame` in
-- Start), and runs the handler of page faults when they do not take it to itself; the frames that it
-- uses behind that one are taken to be reached as that one is. The theorems on the
-- allocator, the page tables and the tasks are about physical memory that is mapped to itself. The
-- kernel's code, variables and stack are reached at their virtual addresses with any tables; that
-- the kernel's tables map them is a hypothesis on `_start`. Memory is a word at each address, and
-- accesses at addresses that are not multiples of 8 do not overlap their neighbours: all modelled
-- accesses of well-formed tables and frames are aligned. The caches of address translations are
-- left out, and the walk through the tables does not look at the bits for writing and user mode.
--
-- What the boot loader answers: a NULL response is undefined where the code reads behind it, apart
-- from the memory map's, which `mem_init` asserts. That the frame which becomes the root of the
-- kernel's tables holds no present entries is a hypothesis, which no protocol promises and which
-- the code does not see to.
--
-- Not modelled: limine.h beyond the responses in use; the build files; kernel/generic/ipc.h and
-- syscall.h, which declare what nothing defines; the code that runs after `iretq`; `map_page` and
-- `read_cr3` of paging.c, which nothing calls; the task state segment, which is empty and which
-- nothing loads.
mod Prelude
pub mod Bits
pub mod Words
pub mod Machine
pub mod Serial
pub mod Printk
pub mod Debug
pub mod Frames
pub mod Structures
pub mod Paging
pub mod Task
pub mod KernelMap
pub mod Proc
pub mod Scheduler
pub mod Idt
pub mod Gdt
pub mod Interrupts
pub mod Start
pub mod Spaces
mod Tests
