-- ===== src/Gdt.antt =====
-- kernel/arch/x64/gdt.c, and the registers that gdt-helpers.asm loads.
pub mod Loaded
use flux_kernel.Prelude.{ℕ, ◌*◌, [], ◌∷◌, ◌++◌, length, codes}
use flux_kernel.Machine.{Kernel, ◌>>◌, modify}
use flux_kernel.Structures.Segments.{gdt_table}
use flux_kernel.Printk.{word, printk}
use flux_kernel.Debug.{newline, system}

-- `lgdt [gdtr]`, with interrupts disabled.
abbrev pub load_gdt : Kernel (Unit {0})
load_gdt = modify (λ m. record m { gdtr_register = m.gdtr })

abbrev pub reload_seg_registers : Kernel (Unit {0})
reload_seg_registers = modify (λ m. record m {
  segment_registers = record { cs = 0x08; ds = 0x10; es = 0x10; fs = 0x10; gs = 0x10; ss = 0x10 };
})

-- `address` is that of `gdt_table`, whose entries have 8 bytes.
unfoldable pub gdt_init : ℕ → Kernel (Unit {0})
gdt_init address = do
  printk (system "(  GDT)" ++ codes "Loading GDT table (at %x)." ++ newline) (word address ∷ [])
  modify (λ m. record m { gdtr = record { limit = length gdt_table * 8; base = address } })
  load_gdt
  reload_seg_registers
