-- ===== src/Interrupts/Reports.antt =====
-- What an interrupt handler says before it stops.
use flux_kernel.Prelude.{ℕ, ◌≡◌, refl, false, List, [], ◌∷◌, ◌++◌, codes, String}
use flux_kernel.Machine.{Machine, ComPort, PortEvent, stopped}
use flux_kernel.Serial.Console.{traffic, wire, sent, Prints}
use flux_kernel.Serial.Offset
use flux_kernel.Words.{u64}
use flux_kernel.Printk.{word, printk}
use flux_kernel.Printk.Hex.{hex_text}
use flux_kernel.Printk.Decimal.{decimal_text, decimal_digits}
use flux_kernel.Printk.Console.{IsConsole}
use flux_kernel.Printk.Render.{pieces, render, conversion_text, printk-render}
use flux_kernel.Debug.{site, newline, pbad, error}
use flux_kernel.Debug.Stops.{StopsWith, error-StopsWith, Prints-StopsWith}
use flux_kernel.Interrupts.{Isr, handle}

-- The line about a message from a place in the source.
abbrev line : String → String → List ℕ
line msg place = codes "*** " ++ pbad (codes msg) ++ codes " at arch/x64/" ++ codes place ++ newline

-- The report of each handler.
abbrev pub report : Isr → ℕ → List ℕ
report Isr.de error_code = line "DE" "exceptions.c:8 [isr_DE]"
report Isr.nmi error_code = line "NMI" "exceptions.c:12 [isr_NMI]"
report Isr.bp error_code = line "BP" "exceptions.c:16 [isr_BP]"
report Isr.of error_code = line "OF" "exceptions.c:20 [isr_OF]"
report Isr.br error_code = line "BR" "exceptions.c:24 [isr_BR]"
report Isr.ud error_code = line "UD" "exceptions.c:28 [isr_UD]"
report Isr.df error_code = line "DF" "exceptions.c:32 [isr_DF]"
report Isr.ts error_code = line "TS" "exceptions.c:36 [isr_TS]"
report Isr.np error_code = line "NP" "exceptions.c:40 [isr_NP]"
report Isr.ss error_code = line "SS" "exceptions.c:44 [isr_SS]"
report Isr.gp error_code =
    (codes "#GP w/ error code " ++ (hex_text (u64 error_code) false false ++ newline))
    ++ line "GP" "exceptions.c:50 [isr_GP]"
report Isr.pf error_code = line "PF" "exceptions.c:54 [isr_PF]"
report Isr.syscall error_code = line "SYSCALL not implemented!" "syscall.c:7 [isr_SYSCALL]"

module _ {m : Machine} {port : ComPort} (console : IsConsole m port) where
  abbrev gp_format : List ℕ
  gp_format = codes "#GP w/ error code %x" ++ newline

  gp_code-Prints :
      (error_code : ℕ)
      → Prints m port
          (printk gp_format (word error_code ∷ []))
          (codes "#GP w/ error code " ++ (hex_text (u64 error_code) false false ++ newline))
  unfolding pieces render conversion_text
  gp_code-Prints error_code = printk-render console gp_format (word error_code ∷ [])

  handle-StopsWith :
      (isr : Isr) (error_code : ℕ)
      → StopsWith console (handle isr error_code) (report isr error_code)
  unfolding handle pieces render conversion_text decimal_text decimal_digits
  handle-StopsWith Isr.de error_code = error-StopsWith console _ _ _ refl
  handle-StopsWith Isr.nmi error_code = error-StopsWith console _ _ _ refl
  handle-StopsWith Isr.bp error_code = error-StopsWith console _ _ _ refl
  handle-StopsWith Isr.of error_code = error-StopsWith console _ _ _ refl
  handle-StopsWith Isr.br error_code = error-StopsWith console _ _ _ refl
  handle-StopsWith Isr.ud error_code = error-StopsWith console _ _ _ refl
  handle-StopsWith Isr.df error_code = error-StopsWith console _ _ _ refl
  handle-StopsWith Isr.ts error_code = error-StopsWith console _ _ _ refl
  handle-StopsWith Isr.np error_code = error-StopsWith console _ _ _ refl
  handle-StopsWith Isr.ss error_code = error-StopsWith console _ _ _ refl
  handle-StopsWith Isr.gp error_code =
      Prints-StopsWith console (printk gp_format (word error_code ∷ []))
        (error (codes "GP") (site "arch/x64/exceptions.c" 50 "isr_GP")) _ _
        (gp_code-Prints error_code) (error-StopsWith console _ _ _ refl)
  handle-StopsWith Isr.pf error_code = error-StopsWith console _ _ _ refl
  handle-StopsWith Isr.syscall error_code = error-StopsWith console _ _ _ refl

  -- On a console each handler sends its report, for `#GP` with the low 64 bits of the error code in hexadecimal, and
  -- stops in an endless loop, with no other change.
  pub handle-stopped :
      (isr : Isr) (error_code : ℕ) (log : List PortEvent)
      → (log' : List PortEvent) × (handle isr error_code (traffic m log) ≡ stopped (traffic m log'))
        × (sent (wire port Offset.io_data) log'
            ≡ sent (wire port Offset.io_data) log ++ report isr error_code)
  handle-stopped isr error_code log = handle-StopsWith isr error_code log
