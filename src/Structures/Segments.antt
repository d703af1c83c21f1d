-- ===== src/Structures/Segments.antt =====
-- kernel/arch/x64/structures.h: segment selectors and segment descriptors, and the GDT of
-- kernel/arch/x64/gdt.c.
use flux_kernel.Prelude.{ℕ, bit_and, bit_or, List, [], ◌∷◌}
use flux_kernel.Bits.{◌<<<◌, ◌>>>◌}
use flux_kernel.Words.{u8, u16}

-- INIT_SEGMENT_SELECTOR, kept in a `segment_selector_t`.
unfoldable pub init_segment_selector : ℕ → ℕ → ℕ → ℕ
init_segment_selector rpl table_index index =
    u16 (bit_or (bit_or (bit_and rpl 0x03) (bit_and table_index 0x01 <<< 2)) (index <<< 3))

unfoldable pub segment_selector_rpl : ℕ → ℕ
segment_selector_rpl selector = bit_and selector 0x03

unfoldable pub segment_selector_table_index : ℕ → ℕ
segment_selector_table_index selector = bit_and (selector >>> 2) 0x01

unfoldable pub segment_selector_index : ℕ → ℕ
segment_selector_index selector = selector >>> 3

-- `struct gdt_descriptor_long`
pub record GdtDescriptorLong : Type 0 where
  pub limit_0_15 : ℕ
  pub base_0_15 : ℕ
  pub base_16_23 : ℕ
  pub access_byte : ℕ
  pub limit_16_19_and_flags : ℕ
  pub base_24_31 : ℕ

-- INIT_SEG_DESCRIPTOR, with the conversion to the fields' widths.
unfoldable pub init_seg_descriptor : ℕ → ℕ → ℕ → ℕ → GdtDescriptorLong
init_seg_descriptor base limit access flags = record {
  limit_0_15 = u16 (bit_and limit 0xffff);
  base_0_15 = u16 (bit_and base 0xffff);
  base_16_23 = u8 (bit_and (base >>> 16) 0xff);
  access_byte = u8 (bit_and access 0xff);
  limit_16_19_and_flags = u8 (bit_or (bit_and (limit >>> 16) 0xf) (bit_and flags 0xf <<< 4));
  base_24_31 = u8 (bit_and (base >>> 24) 0xff);
}

abbrev pub seg_ab_rw : ℕ
seg_ab_rw = 1 <<< 1

abbrev pub seg_ab_exec : ℕ
seg_ab_exec = 1 <<< 3

abbrev pub seg_ab_code_data : ℕ
seg_ab_code_data = 1 <<< 4

abbrev pub seg_ab_dpl : ℕ → ℕ
seg_ab_dpl n = bit_and n 0x3 <<< 5

abbrev pub seg_ab_present : ℕ
seg_ab_present = 1 <<< 7

abbrev pub seg_flag_long : ℕ
seg_flag_long = 1 <<< 1

abbrev pub seg_flag_4k_blocks : ℕ
seg_flag_4k_blocks = 1 <<< 3

-- The access bytes of the code and of the data segments of a ring.
abbrev pub code_access : ℕ → ℕ
code_access ring =
    bit_or (bit_or (bit_or (bit_or seg_ab_present (seg_ab_dpl ring)) seg_ab_code_data) seg_ab_exec)
      seg_ab_rw

abbrev pub data_access : ℕ → ℕ
data_access ring =
    bit_or (bit_or (bit_or seg_ab_present (seg_ab_dpl ring)) seg_ab_code_data) seg_ab_rw

unfoldable pub gdt_table : List GdtDescriptorLong
gdt_table =
    init_seg_descriptor 0 0 0 0
    ∷ init_seg_descriptor 0 0 (code_access 0) (bit_or seg_flag_long seg_flag_4k_blocks)
    ∷ init_seg_descriptor 0 0 (data_access 0) seg_flag_4k_blocks
    ∷ init_seg_descriptor 0 0 (code_access 3) (bit_or seg_flag_long seg_flag_4k_blocks)
    ∷ init_seg_descriptor 0 0 (data_access 3) seg_flag_4k_blocks
    ∷ []

-- `struct gdtr_image`
pub record GdtrImage : Type 0 where
  pub limit : ℕ
  pub base : ℕ
