-- ===== src/Gdt/Loaded.antt =====
-- `gdt_init` loads the table and the kernel's segments.
use flux_kernel.Prelude.{ℕ, ◌*◌, ◌≡◌, refl, [], ◌∷◌, ◌++◌, length, codes, List}
use flux_kernel.Machine.{Machine, PortEvent, ComPort, ok}
use flux_kernel.Serial.Console.{traffic}
use flux_kernel.Structures.Segments.{gdt_table}
use flux_kernel.Printk.{word}
use flux_kernel.Printk.Console.{IsConsole}
use flux_kernel.Printk.Render.{render, pieces, conversion_text, printk-says}
use flux_kernel.Debug.{newline, system}
use flux_kernel.Gdt.{gdt_init}

-- The machine with the table at `address` loaded.
abbrev pub loaded : ℕ → Machine → Machine
loaded address m = record m {
  gdtr = record { limit = length gdt_table * 8; base = address };
  gdtr_register = record { limit = length gdt_table * 8; base = address };
  segment_registers = record { cs = 0x08; ds = 0x10; es = 0x10; fs = 0x10; gs = 0x10; ss = 0x10 };
}

pub gdt_init-loaded :
    (address : ℕ) (m : Machine) (port : ComPort)
    → IsConsole m port
    → (log : List PortEvent) × (gdt_init address m ≡ ok tt (loaded address (traffic m log)))
unfolding gdt_init pieces render conversion_text
gdt_init-loaded address m port console =
    let (log, run, said) =
      printk-says console (system "(  GDT)" ++ codes "Loading GDT table (at %x)." ++ newline)
        (word address ∷ []) _ refl in
    (log, rw (gdt_init, run) refl)
