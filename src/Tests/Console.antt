-- ===== src/Tests/Console.antt =====
-- The console and the formatted output on it.
use flux_kernel.Prelude.{
  ℕ, ◌≡◌, refl, List, [], ◌∷◌, ◌↔◌, length, true, false, arith, codes, map, ◌++◌,
}
use flux_kernel.Words.{u8}
use flux_kernel.Machine.{Machine, PortEvent, stopped}
use flux_kernel.Serial.{com_sends}
use flux_kernel.Serial.Offset
use flux_kernel.Serial.Console.{IsPrompt, polled, Prints, com_sends-Prints, traffic, sent, wire}
use flux_kernel.Printk.{word, text, kputdec, kputhex, printk}
use flux_kernel.Printk.Console.{IsConsole}
use flux_kernel.Printk.Decimal.{IsDecimal, kputdec-IsDecimal}
use flux_kernel.Printk.Hex.{read_hex, HasNoLeadingZero, kputhex-read_hex, kputhex_shortest}
use flux_kernel.Printk.Hex.{kputhex_padded}
use flux_kernel.Printk.Render.{Renders, render, pieces, printk-render}
use flux_kernel.Frames.{get_phys_block}
use flux_kernel.Frames.Exhausted.{exhausted_message, get_phys_block-stopped}
use flux_kernel.Machine.{ok}
use flux_kernel.Scheduler.{scheduler_init}
use flux_kernel.Scheduler.Reset.{init_message, IsReset, scheduler_init-IsReset}
use flux_kernel.Tests.Machines.{port, base, empty}

prompt : IsPrompt base port
unfolding polled
prompt = record { ready = refl; prompt = λ log. (0, omega arith, refl) }

pub console : IsConsole base port
console = record { index = 0; primary = refl; found = refl; prompt = prompt }

empty-IsPrompt : IsPrompt empty port
unfolding polled
empty-IsPrompt = record { ready = refl; prompt = λ log. (0, omega arith, refl) }

empty-IsConsole : IsConsole empty port
empty-IsConsole = record { index = 0; primary = refl; found = refl; prompt = empty-IsPrompt }

com_sends-Prints_example : Prints base port (com_sends port (codes "ok")) (map u8 (codes "ok"))
com_sends-Prints_example = com_sends-Prints prompt (codes "ok")

kputdec-IsDecimal_example : (s : List ℕ) × Prints base port (kputdec 640) s × IsDecimal 640 s
kputdec-IsDecimal_example = kputdec-IsDecimal console 640 (omega arith)

kputhex-read_hex_example :
    (s : List ℕ) × Prints base port (kputhex 0xf00d true true) s × (read_hex 0 s ≡ 0xf00d)
kputhex-read_hex_example = kputhex-read_hex console 0xf00d true true (omega arith)

kputhex_shortest_example :
    (s : List ℕ) × Prints base port (kputhex 0 false false) s
    × HasNoLeadingZero s
    × ((s ≡ []) ↔ (◌≡◌ {A = ℕ} 0 0))
kputhex_shortest_example = kputhex_shortest console 0 (omega arith)

kputhex_padded_example :
    (s : List ℕ) × Prints base port (kputhex 0xbeef true true) s × (length s ≡ 19)
kputhex_padded_example = kputhex_padded console 0xbeef

printk-render_example :
    Renders base port
      (printk (codes "%d of %s") (word 3 ∷ text (codes "four") ∷ []))
      (render (pieces (codes "%d of %s")) (word 3 ∷ text (codes "four") ∷ []))
printk-render_example = printk-render console (codes "%d of %s") (word 3 ∷ text (codes "four") ∷ [])

get_phys_block-stopped_example :
    (log : List PortEvent) × (get_phys_block (traffic empty []) ≡ stopped (traffic empty log))
    × (sent (wire port Offset.io_data) log
        ≡ sent (wire port Offset.io_data) [] ++ exhausted_message)
get_phys_block-stopped_example = get_phys_block-stopped empty port empty-IsConsole refl []

scheduler_init-IsReset_example :
    (m' : Machine) × (scheduler_init base ≡ ok tt m')
    × (sent (wire port Offset.io_data) m'.port_log
        ≡ sent (wire port Offset.io_data) base.port_log ++ init_message)
    × IsReset base m'
scheduler_init-IsReset_example = scheduler_init-IsReset base port console
