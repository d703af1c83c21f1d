-- ===== src/Interrupts.antt =====
-- kernel/arch/x64/exceptions.c and syscall.c: the interrupt handlers.
pub mod Reports
use flux_kernel.Prelude.{ℕ, [], ◌∷◌, ◌++◌, codes}
use flux_kernel.Machine.{Kernel, ◌>>◌}
use flux_kernel.Printk.{word, printk}
use flux_kernel.Debug.{newline, error, site}

-- The handlers that idt.h declares, `isr_DE` and so on.
pub data Isr : Type 0 where
  de : Isr
  nmi : Isr
  bp : Isr
  of : Isr
  br : Isr
  ud : Isr
  df : Isr
  ts : Isr
  np : Isr
  ss : Isr
  gp : Isr
  pf : Isr
  syscall : Isr

-- The body of a handler, given the error code that the processor pushed (if any). The `xchg` of
-- `isr_GP` changes no register.
unfoldable pub handle : Isr → ℕ → Kernel (Unit {0})
handle Isr.de error_code = error (codes "DE") (site "arch/x64/exceptions.c" 8 "isr_DE")
handle Isr.nmi error_code = error (codes "NMI") (site "arch/x64/exceptions.c" 12 "isr_NMI")
handle Isr.bp error_code = error (codes "BP") (site "arch/x64/exceptions.c" 16 "isr_BP")
handle Isr.of error_code = error (codes "OF") (site "arch/x64/exceptions.c" 20 "isr_OF")
handle Isr.br error_code = error (codes "BR") (site "arch/x64/exceptions.c" 24 "isr_BR")
handle Isr.ud error_code = error (codes "UD") (site "arch/x64/exceptions.c" 28 "isr_UD")
handle Isr.df error_code = error (codes "DF") (site "arch/x64/exceptions.c" 32 "isr_DF")
handle Isr.ts error_code = error (codes "TS") (site "arch/x64/exceptions.c" 36 "isr_TS")
handle Isr.np error_code = error (codes "NP") (site "arch/x64/exceptions.c" 40 "isr_NP")
handle Isr.ss error_code = error (codes "SS") (site "arch/x64/exceptions.c" 44 "isr_SS")
handle Isr.gp error_code = do
  printk (codes "#GP w/ error code %x" ++ newline) (word error_code ∷ [])
  error (codes "GP") (site "arch/x64/exceptions.c" 50 "isr_GP")
handle Isr.pf error_code = error (codes "PF") (site "arch/x64/exceptions.c" 54 "isr_PF")
handle Isr.syscall error_code =
    error (codes "SYSCALL not implemented!") (site "arch/x64/syscall.c" 7 "isr_SYSCALL")
