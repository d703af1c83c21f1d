-- ===== src/Proc/Registers.antt =====
-- What `print_regs` prints.
use flux_kernel.Prelude.{ℕ, ◌≡◌, refl, Bool, true, false, String, List, [], ◌∷◌, ◌++◌, codes}
use flux_kernel.Words.{u64}
use flux_kernel.Machine.{Machine, ComPort, PortEvent, ok}
use flux_kernel.Serial.Offset
use flux_kernel.Serial.Console.{traffic, wire, sent}
use flux_kernel.Printk.Hex.{hex_text}
use flux_kernel.Printk.Console.{IsConsole}
use flux_kernel.Printk.Render.{render, pieces, conversion_text, printk-says}
use flux_kernel.Task.{ProcessorRegs}
use flux_kernel.Proc.{regs_format, print_regs}

-- A register by its name and value, printed in full or without leading zeros.
pub record Row : Type 0 where
  pub name : String
  pub full : Bool
  pub value : ℕ

abbrev long : String → ℕ → Row
long name value = record { name = name; full = true; value = value }

abbrev short : String → ℕ → Row
short name value = record { name = name; full = false; value = value }

abbrev pub rows : ProcessorRegs → List Row
rows r =
    long "rax" r.rax
    ∷ long "rbx" r.rbx
    ∷ long "rcx" r.rcx
    ∷ long "rdx" r.rdx
    ∷ long "rsi" r.rsi
    ∷ long "rdi" r.rdi
    ∷ long "rsp" r.rsp
    ∷ long "rbp" r.rbp
    ∷ long "r8" r.r8
    ∷ long "r9" r.r9
    ∷ long "r10" r.r10
    ∷ long "r11" r.r11
    ∷ long "r12" r.r12
    ∷ long "r13" r.r13
    ∷ long "r14" r.r14
    ∷ long "r15" r.r15
    ∷ long "rip" r.rip
    ∷ short "cs" r.cs
    ∷ short "ds" r.ds
    ∷ short "ss" r.ss
    ∷ long "rflags" r.rflags
    ∷ long "cr3" r.cr3
    ∷ []

-- A line for each: the name, a tab and the value in hexadecimal.
abbrev pub dump : List Row → List ℕ
dump [] = []
dump (row ∷ rest) =
    codes row.name
    ++ (b':' ∷ 0x09 ∷ b'0' ∷ b'x' ∷ hex_text (u64 row.value) row.full row.full
        ++ (0x0a ∷ dump rest))

-- On a console `print_regs` returns, having sent a line for each register, in the order of `rows`,
-- with its name and its value in hexadecimal (that of the three selectors without leading zeros),
-- and nothing but the port traffic has changed.
pub print_regs-dump :
    (r : ProcessorRegs) (m : Machine) (port : ComPort)
    → IsConsole m port
    → (log : List PortEvent) × (print_regs r m ≡ ok tt (traffic m log))
      × (sent (wire port Offset.io_data) log
          ≡ sent (wire port Offset.io_data) m.port_log ++ dump (rows r))
unfolding print_regs regs_format pieces render conversion_text
print_regs-dump r m port console = printk-says console regs_format _ (dump (rows r)) refl
