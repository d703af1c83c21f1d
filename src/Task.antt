-- ===== src/Task.antt =====
-- The data of kernel/arch/x64/proc.h and kernel/generic/scheduler.h: registers and tasks.
use flux_kernel.Prelude.{ℕ}
use flux_kernel.Structures.Segments.{init_segment_selector}

-- `struct processor_regs`
pub record ProcessorRegs : Type 0 where
  pub rax : ℕ
  pub rbx : ℕ
  pub rcx : ℕ
  pub rdx : ℕ
  pub rsi : ℕ
  pub rdi : ℕ
  pub rsp : ℕ
  pub rbp : ℕ
  pub r8 : ℕ
  pub r9 : ℕ
  pub r10 : ℕ
  pub r11 : ℕ
  pub r12 : ℕ
  pub r13 : ℕ
  pub r14 : ℕ
  pub r15 : ℕ
  pub rip : ℕ
  pub cs : ℕ
  pub ds : ℕ
  pub ss : ℕ
  pub rflags : ℕ
  pub cr3 : ℕ

-- The initialisers of `default_regs_userspace` and `default_regs_kernel`, which differ in the
-- selectors.
abbrev pub default_regs : ℕ → ℕ → ProcessorRegs
default_regs exec stack = record {
  rax = 0;
  rbx = 0;
  rcx = 0;
  rdx = 0;
  rsi = 0;
  rdi = 0;
  rsp = 0;
  rbp = 0;
  r8 = 0;
  r9 = 0;
  r10 = 0;
  r11 = 0;
  r12 = 0;
  r13 = 0;
  r14 = 0;
  r15 = 0;
  rip = 0;
  cs = exec;
  ds = stack;
  ss = stack;
  rflags = 0;
  cr3 = 0;
}

abbrev pub default_regs_userspace : ProcessorRegs
default_regs_userspace = default_regs (init_segment_selector 3 0 3) (init_segment_selector 3 0 4)

abbrev pub default_regs_kernel : ProcessorRegs
default_regs_kernel = default_regs (init_segment_selector 0 0 3) (init_segment_selector 0 0 4)

-- `enum sched_state`
pub data SchedState : Type 0 where
  running : SchedState
  blocked : SchedState
  ready : SchedState

-- `struct task`
pub record Task : Type 0 where
  pub present : ℕ
  pub state : SchedState
  pub elapsed_total : ℕ
  pub elapsed_since_run : ℕ
  pub regs : ProcessorRegs
  pub pml4_table : ℕ
  pub privilege_level : ℕ
