-- ===== src/Serial/Init.antt =====
-- The set-up of the console, `serial_init` of kernel/arch/x64/serial.c.
use flux_kernel.Prelude.{ℕ, zero, suc, ◌+◌, Option, none, some, [], ◌∷◌, ◌++◌}
use flux_kernel.Prelude.{get_elem?, if◌then◌else◌, codes}
use flux_kernel.Machine.{fault, Kernel, pure, ◌>>=◌, ◌>>◌, get}
use flux_kernel.Machine.{modify, loop_forever}
use flux_kernel.Serial.{com_port_setup}
use flux_kernel.Printk.{word, printk}
use flux_kernel.Debug.{newline, system, pgood}

-- `if (!primary_com_port) primary_com_port = &com_ports[i];`
abbrev pub choose : Option ℕ → ℕ → Option ℕ
choose none i = some i
choose (some j) i = some j

-- The message for a port that works.
unfoldable pub announce : ℕ → Kernel (Unit {0})
announce i m = elim (get_elem? m.com_ports i) [
  | none ↦ fault
  | some port ↦
      printk
        (system "( SERI)"
          ++ pgood (codes "Detected as working UART com port (IO base %x)" ++ newline))
        (word port.io_port_base ∷ []) m
]

-- The loop, for the `rounds` ports from index `i` on.
unfoldable pub setup_ports : ℕ → ℕ → Kernel (Unit {0})
setup_ports zero i = pure tt
setup_ports (suc rounds) i = do
  works ← com_port_setup i 3
  if works
      then (do
        modify (λ m. record m { primary_com_port = choose m.primary_com_port i })
        announce i)
      else pure tt
  setup_ports rounds (i + 1)

unfoldable pub serial_init : Kernel (Unit {0})
serial_init = do
  setup_ports 8 0
  m ← get
  elim m.primary_com_port [
    | none ↦ loop_forever
    | some i ↦ printk (system "( SERI)" ++ codes "Flux serial console initialised!" ++ newline) []
  ]
