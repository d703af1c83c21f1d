-- ===== src/Idt.antt =====
-- kernel/arch/x64/idt.c: the interrupt descriptor table.
pub mod Vectors
pub mod Delivery
pub mod KernelGates
pub mod Delivered
use flux_kernel.Prelude.{ℕ, ◌<◌, Bool, Option, none, some, List, [], ◌∷◌, get_elem?, set, replicate}
use flux_kernel.Machine.{Machine, Run, ok, fault, Kernel, pure, ◌>>=◌, ◌>>◌, modify, and_then}
use flux_kernel.Structures.Gates.{
  IdtEntry, init_idt_attributes, init_idt_entry, init_idt_descriptor,
}
use flux_kernel.Structures.Gates.{
  idt_n_entries, idt_attributes_type_interrupt, idt_attributes_type_trap,
}
use flux_kernel.Structures.Segments.{init_segment_selector}
use flux_kernel.Interrupts.{Isr}

-- The table as C initialises it.
abbrev pub no_entry : IdtEntry
no_entry = record {
  offset_a = 0;
  segment_selector = 0;
  attributes = 0;
  offset_b = 0;
  offset_c = 0;
  reserved = 0;
}

unfoldable pub initial_idt_table : List IdtEntry
initial_idt_table = replicate idt_n_entries no_entry

-- `lidt`
unfoldable pub idt_load : ℕ → ℕ → Kernel (Unit {0})
idt_load table n_entries = modify (λ m. record m { idtr = init_idt_descriptor table n_entries })

-- The table has 256 entries; a write outside it is undefined.
unfoldable pub idt_attach_handler : ℕ → ℕ → ℕ → ℕ → Kernel (Unit {0})
idt_attach_handler vector seg attr handler m = elim (get_elem? m.idt_table vector) [
  | none ↦ fault
  | some old ↦
      ok tt (record m { idt_table = set m.idt_table vector (init_idt_entry seg attr handler) })
]

-- The calls of `idt_attach_handler` in `idt_init`: vectors, gate types and handlers, in order.
abbrev pub Gate : Type 0
Gate = ℕ × ℕ × Isr

unfoldable pub gates : List Gate
gates =
    (0x02, idt_attributes_type_interrupt, Isr.nmi)
    ∷ (0x32, idt_attributes_type_interrupt, Isr.syscall)
    ∷ (0x00, idt_attributes_type_trap, Isr.de)
    ∷ (0x03, idt_attributes_type_trap, Isr.bp)
    ∷ (0x04, idt_attributes_type_trap, Isr.of)
    ∷ (0x05, idt_attributes_type_trap, Isr.br)
    ∷ (0x06, idt_attributes_type_trap, Isr.ud)
    ∷ (0x08, idt_attributes_type_trap, Isr.df)
    ∷ (0x0a, idt_attributes_type_trap, Isr.ts)
    ∷ (0x0b, idt_attributes_type_trap, Isr.np)
    ∷ (0x0c, idt_attributes_type_trap, Isr.ss)
    ∷ (0x0d, idt_attributes_type_trap, Isr.gp)
    ∷ (0x0e, idt_attributes_type_trap, Isr.pf)
    ∷ []

-- Where the linker put the table and the handlers.
pub record Layout : Type 0 where
  pub idt_table_address : ℕ
  pub handler : Isr → ℕ

-- `INIT_SEGMENT_SELECTOR(0, 0, 1)`
abbrev pub isr_seg : ℕ
isr_seg = init_segment_selector 0 0 1

unfoldable pub attach_gates : Layout → List Gate → Kernel (Unit {0})
attach_gates layout [] = pure tt
attach_gates layout ((vector, type, isr) ∷ rest) =
    idt_attach_handler vector isr_seg (init_idt_attributes 0 type 0) (layout.handler isr)
    >> attach_gates layout rest

unfoldable pub idt_init : Layout → Kernel (Unit {0})
idt_init layout = do idt_load layout.idt_table_address idt_n_entries; attach_gates layout gates
