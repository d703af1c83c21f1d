-- ===== src/Structures/Fields.antt =====
-- The packed words of segments and gates, read back field by field.
use flux_kernel.Prelude.{ℕ, ◌+◌, ◌*◌, ◌/◌, ◌^◌, ◌<◌, ◌≡◌, bit_and, bit_or, arith, ap, ◌∙◌}
use flux_kernel.Bits.{◌<<<◌, bit_and_mask, bit_or_fields, bit_or_split, bit_or-zero, zero-bit_or}
use flux_kernel.Words.{u16}
use flux_kernel.Structures.Segments.{init_segment_selector, segment_selector_rpl}
use flux_kernel.Structures.Segments.{segment_selector_table_index, segment_selector_index}
use flux_kernel.Structures.Gates.{init_idt_attributes, idt_attributes_ist, idt_attributes_type}
use flux_kernel.Structures.Gates.{
  idt_attributes_dpl, idt_attributes_present, IdtEntry, init_idt_entry,
}

-- `r | (q << k)`, where `r` fits below bit `k`.
bit_or_above : (k q r : ℕ) → r < 2 ^ k → bit_or r (q <<< k) ≡ q * 2 ^ k + r
bit_or_above k q r h = ground (arith, bit_or_split k 0 r q 0 h, zero-bit_or q, bit_or-zero r)

-- `|` of a field above bit `k` with a word whose low `k` bits are `r`.
bit_or_onto :
    (k q r q' : ℕ) → r < 2 ^ k → bit_or (q * 2 ^ k + r) (q' <<< k) ≡ bit_or q q' * 2 ^ k + r
bit_or_onto k q r q' h = ground (arith, bit_or_split k q r q' 0 h, bit_or-zero r)

selector-sum :
    (rpl table_index index : ℕ)
    → rpl < 4
    → table_index < 2
    → index < 2 ^ 13
    → init_segment_selector rpl table_index index ≡ index * 8 + table_index * 4 + rpl
unfolding init_segment_selector
selector-sum rpl table_index index hr ht hi =
    let r : bit_and rpl 0x03 ≡ rpl = omega (arith, bit_and_mask 2 rpl) in
    let t : bit_and table_index 0x01 ≡ table_index = omega (arith, bit_and_mask 1 table_index) in
    rw (r, t)
      (omega (
        arith,
        bit_or_above 2 table_index rpl hr,
        bit_or_above 3 index (bit_or rpl (table_index <<< 2))
            (omega (arith, bit_or_above 2 table_index rpl hr)),
      ))

-- Of a selector made of a privilege level, a table and an index that fit their fields, each macro
-- reads back its part.
pub init_segment_selector-fields :
    (rpl table_index index : ℕ)
    → rpl < 4
    → table_index < 2
    → index < 2 ^ 13
    → (segment_selector_rpl (init_segment_selector rpl table_index index) ≡ rpl)
      × (segment_selector_table_index (init_segment_selector rpl table_index index) ≡ table_index)
      × (segment_selector_index (init_segment_selector rpl table_index index) ≡ index)
unfolding segment_selector_rpl segment_selector_table_index segment_selector_index
init_segment_selector-fields rpl table_index index hr ht hi =
    let s = init_segment_selector rpl table_index index in
    let e = selector-sum rpl table_index index hr ht hi in
    (omega (arith, e, bit_and_mask 2 s), omega (arith, e, bit_and_mask 1 (s / 4)), omega (arith, e))

attributes-sum :
    (dpl type ist : ℕ)
    → dpl < 4
    → type < 16
    → ist < 8
    → init_idt_attributes dpl type ist ≡ 32768 + dpl * 8192 + type * 256 + ist
unfolding init_idt_attributes
attributes-sum dpl type ist hd ht hi =
    let i : bit_and ist 0x07 ≡ ist = omega (arith, bit_and_mask 3 ist) in
    let t : bit_and type 0xf ≡ type = omega (arith, bit_and_mask 4 type) in
    let d : bit_and dpl 0x03 ≡ dpl = omega (arith, bit_and_mask 2 dpl) in
    let low : bit_or (1 <<< 15) ist ≡ 128 * 2 ^ 8 + ist =
      omega (arith, bit_or_fields 15 1 ist (omega arith)) in
    let mid : bit_or (128 * 2 ^ 8 + ist) (type <<< 8) ≡ (4 * 2 ^ 13) + (type * 256 + ist) =
      omega
        (arith, bit_or_onto 8 128 ist type (omega arith), bit_or_fields 7 1 type (omega arith)) in
    let high : bit_or (4 * 2 ^ 13 + (type * 256 + ist)) (dpl <<< 13)
        ≡ (4 + dpl) * 2 ^ 13 + (type * 256 + ist) =
      omega (
        arith,
        bit_or_onto 13 4 (type * 256 + ist) dpl (omega arith),
        bit_or_fields 2 1 dpl (omega arith),
      ) in
    rw (i, t, d)
      (ap (λ x. u16 (bit_or (bit_or x (type <<< 8)) (dpl <<< 13))) low
        ∙ ap (λ x. u16 (bit_or x (dpl <<< 13))) mid
        ∙ ap u16 high
        ∙ omega arith)

-- Of the attributes of a gate made of a privilege level, a type and a stack number that fit their
-- fields, each macro reads back its part, and the gate is present.
pub init_idt_attributes-fields :
    (dpl type ist : ℕ)
    → dpl < 4
    → type < 16
    → ist < 8
    → (idt_attributes_dpl (init_idt_attributes dpl type ist) ≡ dpl)
      × (idt_attributes_type (init_idt_attributes dpl type ist) ≡ type)
      × (idt_attributes_ist (init_idt_attributes dpl type ist) ≡ ist)
      × (idt_attributes_present (init_idt_attributes dpl type ist) ≡ 1)
unfolding idt_attributes_dpl idt_attributes_type idt_attributes_ist idt_attributes_present
init_idt_attributes-fields dpl type ist hd ht hi =
    let s = init_idt_attributes dpl type ist in
    let e = attributes-sum dpl type ist hd ht hi in
    (
      omega (arith, e, bit_and_mask 2 (s / 2 ^ 13)),
      omega (arith, e, bit_and_mask 4 (s / 2 ^ 8)),
      omega (arith, e, bit_and_mask 3 s),
      omega (arith, e, bit_and_mask 1 (s / 2 ^ 15)),
    )

-- The address that the processor reads from a gate.
abbrev pub gate_offset : IdtEntry → ℕ
gate_offset entry = entry.offset_c * 2 ^ 32 + entry.offset_b * 2 ^ 16 + entry.offset_a

-- In the gate of a 64-bit handler address the three parts of the address make up the address again.
pub gate_offset-init_idt_entry :
    (seg attr offset64 : ℕ)
    → offset64 < 2 ^ 64
    → gate_offset (init_idt_entry seg attr offset64) ≡ offset64
unfolding init_idt_entry
gate_offset-init_idt_entry seg attr offset64 h = omega (
  arith,
  bit_and_mask 16 offset64,
  bit_and_mask 16 (offset64 / 2 ^ 16),
  bit_and_mask 32 (offset64 / 2 ^ 32),
)
