-- ===== src/Serial/Chosen.antt =====
-- The console that `serial_init` leaves.
use flux_kernel.Prelude.{ℕ, ◌≡◌, Bool, Option, none, some, List, [], ◌++◌, codes, map}
use flux_kernel.Machine.{Machine, PortEvent, ComPort, Run, ok, stopped, Kernel, loop_forever}
use flux_kernel.Printk.{printk}
use flux_kernel.Printk.Console.{IsConsole}
use flux_kernel.Debug.{newline, system}
use flux_kernel.Serial.Search.{at, tested, Console}

module _ (m : Machine) (works : ℕ → Bool) where
  -- The machine after the search, with every port's status set by its test.
  abbrev pub searched : Option ℕ → List PortEvent → Machine
  searched primary log = at m works (map (tested m works) m.com_ports) primary log

  -- What `r` is when the search has found `o`: the endless loop, or a machine with a console.
  abbrev pub Outcome : Option ℕ → Run (Unit {0}) → Type 0
  Outcome none r = (log : List PortEvent) × (r ≡ stopped (searched none log))
  Outcome (some i) r =
      (log : List PortEvent) × (port : ComPort) × (r ≡ ok tt (searched (some i) log))
      × IsConsole (searched (some i) log) port

  with_primary : Option ℕ → Kernel (Unit {0})
  with_primary o = elim o [
    | none ↦ loop_forever
    | some i ↦ printk (system "( SERI)" ++ codes "Flux serial console initialised!" ++ newline) []
  ]
