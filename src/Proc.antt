-- ===== src/Proc.antt =====
-- kernel/arch/x64/proc.c: printing registers, and the address space of a task.
pub mod Registers
pub mod Executable
pub mod Space
pub mod Blocks
pub mod Task
use flux_kernel.Prelude.{
  zero, suc, ℕ, ◌+◌, ◌-◌, ◌*◌, ◌^◌, List, [], ◌∷◌, ◌++◌, ◌==◌, if◌then◌else◌, bit_or,
}
use flux_kernel.Prelude.{String, codes}
use flux_kernel.Words.{u64}
use flux_kernel.Machine.{Kernel, pure, ◌>>=◌, ◌>>◌, get, load, store}
use flux_kernel.Structures.{pse_writeable, pse_user_mode}
use flux_kernel.Printk.{word, printk}
use flux_kernel.Debug.{newline}
use flux_kernel.Frames.{null, get_phys_block}
use flux_kernel.Paging.{map_page_specific_pml4}
use flux_kernel.Task.{ProcessorRegs}

-- A line of the format of `print_regs`.
abbrev reg_line : String → String → List ℕ
reg_line name conversion = codes name ++ (0x09 ∷ codes conversion) ++ newline

unfoldable pub regs_format : List ℕ
regs_format =
    reg_line "rax:" "0x%p"
    ++ reg_line "rbx:" "0x%p"
    ++ reg_line "rcx:" "0x%p"
    ++ reg_line "rdx:" "0x%p"
    ++ reg_line "rsi:" "0x%p"
    ++ reg_line "rdi:" "0x%p"
    ++ reg_line "rsp:" "0x%p"
    ++ reg_line "rbp:" "0x%p"
    ++ reg_line "r8:" "0x%p"
    ++ reg_line "r9:" "0x%p"
    ++ reg_line "r10:" "0x%p"
    ++ reg_line "r11:" "0x%p"
    ++ reg_line "r12:" "0x%p"
    ++ reg_line "r13:" "0x%p"
    ++ reg_line "r14:" "0x%p"
    ++ reg_line "r15:" "0x%p"
    ++ reg_line "rip:" "0x%p"
    ++ reg_line "cs:" "0x%x"
    ++ reg_line "ds:" "0x%x"
    ++ reg_line "ss:" "0x%x"
    ++ reg_line "rflags:" "0x%p"
    ++ reg_line "cr3:" "0x%p"

unfoldable pub print_regs : ProcessorRegs → Kernel (Unit {0})
print_regs r = printk regs_format (
    word r.rax
    ∷ word r.rbx
    ∷ word r.rcx
    ∷ word r.rdx
    ∷ word r.rsi
    ∷ word r.rdi
    ∷ word r.rsp
    ∷ word r.rbp
    ∷ word r.r8
    ∷ word r.r9
    ∷ word r.r10
    ∷ word r.r11
    ∷ word r.r12
    ∷ word r.r13
    ∷ word r.r14
    ∷ word r.r15
    ∷ word r.rip
    ∷ word r.cs
    ∷ word r.ds
    ∷ word r.ss
    ∷ word r.rflags
    ∷ word r.cr3
    ∷ [])

-- The loop over the `rounds` blocks from number `bn` on, which reads `*pml4` in each round.
unfoldable pub map_executable : ℕ → ℕ → ℕ → ℕ → Kernel (Unit {0})
map_executable zero pml4 pmem_offset bn = pure tt
map_executable (suc rounds) pml4 pmem_offset bn = do
  table ← load pml4
  map_page_specific_pml4 table (u64 (pmem_offset + 4096 * bn)) (u64 (4096 * bn)) pse_user_mode
  map_executable rounds pml4 pmem_offset (bn + 1)

-- `init_task_space_from_mem` after its two blocks were taken.
unfoldable pub map_task : ℕ → ℕ → ℕ → ℕ → Kernel (Unit {0})
map_task pml4 stack_block_start pmem_offset n_blocks = do
  printk (codes "Mapping task stack" ++ newline) []
  m ← get
  table ← load pml4
  map_page_specific_pml4 table stack_block_start (u64 (m.boot.flux_base_virt + (2 ^ 64 - 4096)))
      (bit_or pse_writeable pse_user_mode)
  printk (codes "Mapping task's executable" ++ newline) []
  map_executable n_blocks pml4 pmem_offset 0

-- `pml4` is the address of the caller's variable. The callers ignore the result, which is
-- undefined at the end of the body.
unfoldable pub init_task_space_from_mem : ℕ → ℕ → ℕ → Kernel (Unit {0})
init_task_space_from_mem pml4 pmem_offset n_blocks = do
  old ← load pml4
  printk (codes "pml4 = %p; *pml4 = %p" ++ newline) (word pml4 ∷ word old ∷ [])
  printk (codes "Getting block for pml4" ++ newline) []
  block ← get_phys_block
  store pml4 block
  if block == null then pure tt else (do
    printk (codes "Getting block for stack" ++ newline) []
    stack_block_start ← get_phys_block
    if stack_block_start == null
        then pure tt
        else map_task pml4 stack_block_start pmem_offset n_blocks)
