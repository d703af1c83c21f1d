-- ===== src/Structures/Gates.antt =====
-- kernel/arch/x64/structures.h: interrupt gates and the IDT descriptor.
use flux_kernel.Prelude.{ℕ, ◌+◌, ◌-◌, ◌*◌, ◌^◌, bit_and, bit_or}
use flux_kernel.Bits.{◌<<<◌, ◌>>>◌}
use flux_kernel.Words.{u16, u32}

-- INIT_IDT_ATTRIBUTES, kept in an `idt_attributes_t`.
unfoldable pub init_idt_attributes : ℕ → ℕ → ℕ → ℕ
init_idt_attributes dpl type ist = u16 (
    bit_or (bit_or (bit_or (1 <<< 15) (bit_and ist 0x07)) (bit_and type 0xf <<< 8))
      (bit_and dpl 0x03 <<< 13))

unfoldable pub idt_attributes_ist : ℕ → ℕ
idt_attributes_ist attributes = bit_and attributes 0x07

unfoldable pub idt_attributes_type : ℕ → ℕ
idt_attributes_type attributes = bit_and (attributes >>> 8) 0x0f

unfoldable pub idt_attributes_dpl : ℕ → ℕ
idt_attributes_dpl attributes = bit_and (attributes >>> 13) 0x03

unfoldable pub idt_attributes_present : ℕ → ℕ
idt_attributes_present attributes = bit_and (attributes >>> 15) 0x01

abbrev pub idt_attributes_type_interrupt : ℕ
idt_attributes_type_interrupt = 0xe

abbrev pub idt_attributes_type_trap : ℕ
idt_attributes_type_trap = 0xf

-- `struct idt_entry`
pub record IdtEntry : Type 0 where
  pub offset_a : ℕ
  pub segment_selector : ℕ
  pub attributes : ℕ
  pub offset_b : ℕ
  pub offset_c : ℕ
  pub reserved : ℕ

-- INIT_IDT_ENTRY
unfoldable pub init_idt_entry : ℕ → ℕ → ℕ → IdtEntry
init_idt_entry seg attr offset64 = record {
  offset_a = u16 (bit_and offset64 0xffff);
  segment_selector = u16 seg;
  attributes = u16 attr;
  offset_b = u16 (bit_and (offset64 >>> 16) 0xffff);
  offset_c = u32 (bit_and (offset64 >>> 32) 0xffff_ffff);
  reserved = 0;
}

abbrev pub idt_n_entries : ℕ
idt_n_entries = 256

-- `struct idt_descriptor`
pub record IdtDescriptor : Type 0 where
  pub idt_size : ℕ
  pub offset : ℕ

-- INIT_IDT_DESCRIPTOR, where `sizeof(struct idt_entry)` is 16. The `int` is multiplied as an
-- unsigned 64-bit number.
unfoldable pub init_idt_descriptor : ℕ → ℕ → IdtDescriptor
init_idt_descriptor idt_offset n_entries = record {
  idt_size = u16 (n_entries * 16 + (2 ^ 64 - 1));
  offset = idt_offset;
}
