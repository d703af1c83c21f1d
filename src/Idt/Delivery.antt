-- ===== src/Idt/Delivery.antt =====
-- The specification of interrupts: what a 64-bit processor does with an interrupt, from the
-- registers and tables that gdt.c and idt.c set up.
use flux_kernel.Prelude.{
  ℕ, ◌+◌, ◌*◌, ◌/◌, ◌%◌, Bool, ◌==◌, ◌&&◌, ◌||◌, not, ltb, if◌then◌else◌, Option, none, some,
  get_elem?,
}
use flux_kernel.Machine.{Machine}
use flux_kernel.Structures.Gates.{
  IdtEntry, idt_attributes_dpl, idt_attributes_type, idt_attributes_present,
  idt_attributes_type_interrupt, idt_attributes_type_trap,
}
use flux_kernel.Structures.Fields.{gate_offset}
use flux_kernel.Structures.Segments.{
  GdtDescriptorLong, gdt_table, segment_selector_index, segment_selector_table_index,
}

-- Where the two tables are; and whether the task register holds a task state segment with a stack
-- for ring 0, which is for the boot loader to have done, since nothing in the source loads it.
pub record Tables : Type 0 where
  pub idt_address : ℕ
  pub gdt_address : ℕ
  pub has_stack : Bool

-- What happens: the handler at an address runs on the current stack; or on a stack that the task
-- state segment gives, with more privilege; or there is a fault in place of the interrupt. With
-- `masked`, further interrupts wait.
pub data Delivery : Type 0 where
  enters : (ip selector : ℕ) → (masked : Bool) → Delivery
  switches : (ip selector : ℕ) → (masked : Bool) → Delivery
  refused : Delivery

-- The entry of the table that the processor's register points at, if it is within the limit.
abbrev pub gate_at : Tables → Machine → ℕ → Option IdtEntry
gate_at tables m vector =
    if (m.idtr.offset == tables.idt_address) && ltb (16 * vector + 14) m.idtr.idt_size
    then get_elem? m.idt_table vector
    else none

abbrev pub segment_at : Tables → Machine → ℕ → Option GdtDescriptorLong
segment_at tables m selector =
    if (m.gdtr_register.base == tables.gdt_address)
      && (segment_selector_table_index selector == 0)
      && ltb (8 * segment_selector_index selector + 6) m.gdtr_register.limit
    then get_elem? gdt_table (segment_selector_index selector)
    else none

abbrev pub is_gate : IdtEntry → Bool
is_gate gate =
    (idt_attributes_present gate.attributes == 1)
    && ((idt_attributes_type gate.attributes == idt_attributes_type_interrupt)
        || (idt_attributes_type gate.attributes == idt_attributes_type_trap))

-- The privilege level of a segment, and whether it is present and holds 64-bit code.
abbrev pub ring : GdtDescriptorLong → ℕ
ring d = d.access_byte / 32 % 4

abbrev pub is_code : GdtDescriptorLong → Bool
is_code d =
    (d.access_byte / 128 % 2 == 1)
    && (d.access_byte / 8 % 4 == 3)
    && (d.limit_16_19_and_flags / 32 % 2 == 1)

-- The jump through a gate, from code of the privilege level `level`; `stack` is whether there is a
-- stack for more privilege.
abbrev pub jump : Bool → ℕ → IdtEntry → Option GdtDescriptorLong → Delivery
jump stack level gate none = refused
jump stack level gate (some d) =
    let ip = gate_offset gate in
    let masked = idt_attributes_type gate.attributes == idt_attributes_type_interrupt in
    if not (is_code d)
    then refused
    else if ltb (ring d) level
    then (if stack then switches ip gate.segment_selector masked else refused)
    else if ltb level (ring d)
    then refused
    else enters ip gate.segment_selector masked

-- `software` is an `int` instruction, which may not use the gates of more privileged code.
abbrev pub through : Tables → Machine → Bool → ℕ → Option IdtEntry → Delivery
through tables m software level none = refused
through tables m software level (some gate) =
    if not (is_gate gate)
    then refused
    else if software && ltb (idt_attributes_dpl gate.attributes) level
    then refused
    else jump tables.has_stack level gate (segment_at tables m gate.segment_selector)

unfoldable pub deliver : Tables → Machine → Bool → ℕ → ℕ → Delivery
deliver tables m software level vector = through tables m software level (gate_at tables m vector)
