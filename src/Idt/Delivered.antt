-- ===== src/Idt/Delivered.antt =====
-- Interrupts after `gdt_init` and `idt_init`.
use flux_kernel.Prelude.{
  ℕ, List, ◌+◌, ◌*◌, ◌^◌, ◌<◌, ◌≡◌, refl, Bool, true, false, ltb, ==_refl, if◌then◌else◌, Option,
  none, some, length, length-replicate, get_elem?-replicate, get_elem?, arith, ap, ◌∙◌,
}
use flux_kernel.Machine.{Machine, ComPort, ok, and_then, ◌>>◌}
use flux_kernel.Serial.Console.{traffic}
use flux_kernel.Printk.Console.{IsConsole}
use flux_kernel.Structures.Gates.{IdtEntry, IdtDescriptor, idt_n_entries, idt_attributes_present}
use flux_kernel.Structures.Segments.{GdtrImage, gdt_table}
use flux_kernel.Gdt.{gdt_init}
use flux_kernel.Gdt.Loaded.{loaded, gdt_init-loaded}
use flux_kernel.Interrupts.{Isr}
use flux_kernel.Idt.{no_entry, initial_idt_table, Layout, idt_init}
use flux_kernel.Idt.Vectors.{isr_of, installed, idt_init-installed}
use flux_kernel.Idt.Delivery.{refused, gate_at, through, deliver}
use flux_kernel.Idt.KernelGates.{expected, tables, IsLoaded, through-expected}

pub length-initial : length initial_idt_table ≡ idt_n_entries
unfolding initial_idt_table
length-initial = length-replicate idt_n_entries no_entry

module _ (layout : Layout) (address : ℕ) (stack : Bool) where
  -- An entry of zeros is no gate.
  through-no_entry :
      (m : Machine) (software : Bool) (level : ℕ)
      → through (tables layout address stack) m software level (some no_entry) ≡ refused
  unfolding idt_attributes_present
  through-no_entry m software level = refl

  no_gate :
      (m : Machine) (software : Bool) (level : ℕ) (below : Bool)
      → through
          (tables layout address stack)
          m
          software
          level
          (if below then if below then some no_entry else none else none)
        ≡ refused
  no_gate m software level true = through-no_entry m software level
  no_gate m software level false = refl

  gate_at-loaded :
      (m : Machine) (vector : ℕ)
      → IsLoaded layout address m
      → gate_at (tables layout address stack) m vector
        ≡ (if ltb vector 256 then get_elem? m.idt_table vector else none)
  gate_at-loaded m vector l =
      let within : ltb (16 * vector + 14) 4095 ≡ ltb vector 256 = ground arith in
      rw (l.idt, ==_refl layout.idt_table_address, within) refl

  isr_of-below : (vector : ℕ) (isr : Isr) → isr_of vector ≡ some isr → ltb vector 256 ≡ true
  unfolding isr_of
  isr_of-below vector isr h = ground arith

  -- What becomes of an interrupt when the entry is the one that `idt_init` left.
  deliver-installed :
      (m : Machine) (software : Bool) (level vector : ℕ) (isr : Option Isr)
      → IsLoaded layout address m
      → ((i : Isr) → layout.handler i < 2 ^ 64)
      → isr_of vector ≡ isr
      → get_elem? m.idt_table vector
        ≡ installed layout isr (if ltb vector 256 then some no_entry else none)
      → deliver (tables layout address stack) m software level vector
        ≡ expected layout stack software level isr
  unfolding deliver
  deliver-installed m software level vector none l small e at =
      ap (through (tables layout address stack) m software level)
        (gate_at-loaded m vector l ∙ ap (λ o. if ltb vector 256 then o else none) at)
      ∙ no_gate m software level (ltb vector 256)
  deliver-installed m software level vector (some isr) l small e at =
      ap (through (tables layout address stack) m software level) (
        gate_at-loaded m vector l
        ∙ ap (λ b. if b then get_elem? m.idt_table vector else none) (isr_of-below vector isr e)
        ∙ at)
      ∙ through-expected layout address stack m software level isr l (small isr)

module _ (layout : Layout) (address : ℕ) where
  -- Every interrupt has the outcome that is expected, with and without a stack for ring 0.
  abbrev pub Delivers : Machine → Type 0
  Delivers m =
      (stack software : Bool) (level vector : ℕ)
      → deliver (tables layout address stack) m software level vector
        ≡ expected layout stack software level (isr_of vector)

  pub installed-Delivers :
      (m : Machine) (old : List IdtEntry)
      → IsLoaded layout address m
      → ((i : Isr) → layout.handler i < 2 ^ 64)
      → old ≡ initial_idt_table
      → ((vector : ℕ)
          → get_elem? m.idt_table vector ≡ installed layout (isr_of vector) (get_elem? old vector))
      → Delivers m
  unfolding initial_idt_table
  installed-Delivers m old l small initial at stack software level vector =
      deliver-installed layout address stack m software level vector (isr_of vector) l small refl (
        at vector
        ∙ ap (λ t. installed layout (isr_of vector) (get_elem? t vector)) initial
        ∙ ap (installed layout (isr_of vector)) (get_elem?-replicate idt_n_entries no_entry vector))

  -- It depends on the registers and the table only.
  pub Delivers-same :
      (m m' : Machine)
      → m'.idtr ≡ m.idtr
      → m'.gdtr_register ≡ m.gdtr_register
      → m'.idt_table ≡ m.idt_table
      → Delivers m
      → Delivers m'
  unfolding deliver
  Delivers-same m m' idtr gdtr table delivers stack software level vector =
      let with = λ (a : IdtDescriptor) (b : GdtrImage) (t : List IdtEntry).
        deliver (tables layout address stack)
          (record m' { idtr = a; gdtr_register = b; idt_table = t }) software level vector in
      ap (λ a. with a m'.gdtr_register m'.idt_table) idtr
      ∙ ap (λ b. with m.idtr b m'.idt_table) gdtr
      ∙ ap (with m.idtr m.gdtr_register) table
      ∙ delivers stack software level vector

  -- With a console, the interrupt table as C initialises it, and handlers at 64-bit addresses,
  -- `gdt_init` and `idt_init` return; then an interrupt or exception in ring 0 enters the handler of
  -- its vector in the kernel's code segment; one in another ring is refused, unless the task register
  -- holds a task state segment with a stack for ring 0, on which it then enters its handler; an `int`
  -- instruction in another ring and a vector without a handler are always refused; and further
  -- interrupts are masked by the non-maskable interrupt and the system call only.
  pub idt_init-Delivers :
      (m : Machine) (port : ComPort)
      → IsConsole m port
      → m.idt_table ≡ initial_idt_table
      → ((i : Isr) → layout.handler i < 2 ^ 64)
      → (m' : Machine) × ((gdt_init address >> idt_init layout) m ≡ ok tt m') × Delivers m'
  unfolding gdt_table
  idt_init-Delivers m port console initial small =
      let (log, run) = gdt_init-loaded address m port console in
      let m₁ = loaded address (traffic m log) in
      let whole = ap length initial ∙ length-initial in
      let (table, run', at) = idt_init-installed layout m₁ whole in
      let m₂ = record m₁ {
        idt_table = table;
        idtr = record { idt_size = 4095; offset = layout.idt_table_address };
      } in
      let l : IsLoaded layout address m₂ = record { idt = refl; gdt = refl } in
      (
        m₂,
        ap (λ r. and_then r (λ _. idt_init layout)) run ∙ run',
        installed-Delivers m₂ m.idt_table l small initial at,
      )
