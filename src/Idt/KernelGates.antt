-- ===== src/Idt/KernelGates.antt =====
-- The gates that `idt_init` makes: what becomes of an interrupt through them.
use flux_kernel.Prelude.{
  ℕ, ◌^◌, ◌<◌, ◌≡◌, refl, Bool, true, false, ◌==◌, ltb, ==_refl, zero, suc, ◌⊎◌, inl, inr, ◌&&◌,
  if◌then◌else◌, Option, none, some, bit_or, arith, ap, ◌∙◌,
}
use flux_kernel.Machine.{Machine}
use flux_kernel.Structures.Gates.{
  IdtEntry, init_idt_entry, init_idt_attributes, idt_attributes_type_interrupt, idt_attributes_type,
  idt_attributes_dpl, idt_attributes_present,
}
use flux_kernel.Structures.Fields.{gate_offset, gate_offset-init_idt_entry}
use flux_kernel.Structures.Segments.{
  GdtDescriptorLong, gdt_table, init_segment_selector, init_seg_descriptor, code_access,
  seg_flag_long, seg_flag_4k_blocks, segment_selector_index, segment_selector_table_index,
}
use flux_kernel.Interrupts.{Isr}
use flux_kernel.Idt.{Layout, isr_seg}
use flux_kernel.Idt.Vectors.{gate_type, entry_of}
use flux_kernel.Idt.Delivery.{
  Tables, Delivery, enters, switches, refused, through, jump, segment_at, is_gate,
}

-- What becomes of an interrupt: its handler in the kernel's code segment, with interrupts masked by
-- the non-maskable interrupt and the system call; but no `int` from above ring 0, and nothing from
-- above ring 0 unless there is a stack for it.
abbrev pub expected : Layout → Bool → Bool → ℕ → Option Isr → Delivery
expected layout stack software level none = refused
expected layout stack software level (some isr) =
    let masked = gate_type isr == idt_attributes_type_interrupt in
    if level == 0
    then enters (layout.handler isr) 0x08 masked
    else if software
    then refused
    else if stack
    then switches (layout.handler isr) 0x08 masked
    else refused

-- The registers of the processor point at the tables.
pub record IsLoaded (layout : Layout) (address : ℕ) (m : Machine) : Type 0 where
  pub idt : m.idtr ≡ record { idt_size = 4095; offset = layout.idt_table_address }
  pub gdt : m.gdtr_register ≡ record { limit = 40; base = address }

module _ (layout : Layout) (address : ℕ) (stack : Bool) where
  abbrev pub tables : Tables
  tables = record {
    idt_address = layout.idt_table_address;
    gdt_address = address;
    has_stack = stack;
  }

  -- The kernel's code segment.
  abbrev kernel_code : GdtDescriptorLong
  kernel_code = init_seg_descriptor 0 0 (code_access 0) (bit_or seg_flag_long seg_flag_4k_blocks)

  segment_at-kernel :
      (m : Machine) → IsLoaded layout address m → segment_at tables m isr_seg ≡ some kernel_code
  unfolding segment_selector_index segment_selector_table_index init_segment_selector gdt_table
  segment_at-kernel m l = rw (l.gdt, ==_refl address) refl

  jump-kernel :
      (level : ℕ) (g : IdtEntry)
      → jump stack level g (some kernel_code) ≡ (
          let masked = idt_attributes_type g.attributes == idt_attributes_type_interrupt in
          if level == 0
          then enters (gate_offset g) g.segment_selector masked
          else if stack
          then switches (gate_offset g) g.segment_selector masked
          else refused)
  unfolding init_seg_descriptor
  jump-kernel zero g = refl
  jump-kernel (suc level) g = ground arith

  -- A gate of the kernel's code segment for ring 0.
  record IsKernelGate (g : IdtEntry) : Type 0 where
    present : idt_attributes_present g.attributes ≡ 1
    type : (idt_attributes_type g.attributes ≡ 0xe) ⊎ (idt_attributes_type g.attributes ≡ 0xf)
    dpl : idt_attributes_dpl g.attributes ≡ 0
    selector : g.segment_selector ≡ isr_seg

  IsKernelGate-is_gate : (g : IdtEntry) → IsKernelGate g → is_gate g ≡ true
  IsKernelGate-is_gate g k = elim k.type [
    | inl e ↦ rw (k.present, e) refl
    | inr e ↦ rw (k.present, e) refl
  ]

  through-kernel :
      (m : Machine) (software : Bool) (level : ℕ) (g : IdtEntry)
      → IsLoaded layout address m
      → IsKernelGate g
      → through tables m software level (some g)
        ≡ (if software && ltb 0 level then refused else jump stack level g (some kernel_code))
  through-kernel m software level g l k =
      rw (IsKernelGate-is_gate g k, k.dpl, k.selector, segment_at-kernel m l) refl

  interrupt-IsKernelGate : (isr : Isr) → IsKernelGate (entry_of layout 0xe isr)
  unfolding init_idt_entry init_idt_attributes idt_attributes_present idt_attributes_type
      idt_attributes_dpl init_segment_selector
  interrupt-IsKernelGate isr = record {
    present = refl;
    type = inl refl;
    dpl = refl;
    selector = refl;
  }

  trap-IsKernelGate : (isr : Isr) → IsKernelGate (entry_of layout 0xf isr)
  unfolding init_idt_entry init_idt_attributes idt_attributes_present idt_attributes_type
      idt_attributes_dpl init_segment_selector
  trap-IsKernelGate isr = record { present = refl; type = inr refl; dpl = refl; selector = refl }

  kept_type :
      (isr : Isr)
      → IsKernelGate (entry_of layout (gate_type isr) isr)
        × (idt_attributes_type (entry_of layout (gate_type isr) isr).attributes ≡ gate_type isr)
  unfolding init_idt_entry init_idt_attributes idt_attributes_type
  kept_type Isr.nmi = (interrupt-IsKernelGate Isr.nmi, refl)
  kept_type Isr.syscall = (interrupt-IsKernelGate Isr.syscall, refl)
  kept_type isr = (trap-IsKernelGate isr, refl)

  -- The outcome of a jump by the address, the selector and the type of the gate.
  abbrev outcome : Bool → ℕ → ℕ → ℕ → ℕ → Delivery
  outcome software level ip selector type =
      let masked = type == idt_attributes_type_interrupt in
      if software && ltb 0 level
      then refused
      else if level == 0
      then enters ip selector masked
      else if stack
      then switches ip selector masked
      else refused

  outcome-expected :
      (software : Bool) (level : ℕ) (isr : Isr)
      → outcome software level (layout.handler isr) 0x08 (gate_type isr)
        ≡ expected layout stack software level (some isr)
  outcome-expected true zero isr = ground arith
  outcome-expected true (suc level) isr = ground arith
  outcome-expected false level isr = refl

  pub through-expected :
      (m : Machine) (software : Bool) (level : ℕ) (isr : Isr)
      → IsLoaded layout address m
      → layout.handler isr < 2 ^ 64
      → through tables m software level (some (entry_of layout (gate_type isr) isr))
        ≡ expected layout stack software level (some isr)
  unfolding init_segment_selector
  through-expected m software level isr l small =
      let (k, kind) = kept_type isr in
      let g = entry_of layout (gate_type isr) isr in
      let to =
        gate_offset-init_idt_entry isr_seg (init_idt_attributes 0 (gate_type isr) 0)
          (layout.handler isr) small in
      through-kernel m software level g l k
      ∙ ap (λ d. if software && ltb 0 level then refused else d) (jump-kernel level g)
      ∙ ap (λ ip. outcome software level ip g.segment_selector (idt_attributes_type g.attributes))
          to
      ∙ ap (λ s. outcome software level (layout.handler isr) s (idt_attributes_type g.attributes))
          k.selector
      ∙ ap (outcome software level (layout.handler isr) 0x08) kind
      ∙ outcome-expected software level isr
