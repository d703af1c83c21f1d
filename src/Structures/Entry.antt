-- ===== src/Structures/Entry.antt =====
-- What the fields of page table entries and virtual addresses are, as arithmetic.
use flux_kernel.Prelude.{
  ℕ, ◌+◌, ◌*◌, ◌/◌, ◌%◌, ◌^◌, ◌<◌, ◌≡◌, bit_and, bit_or, arith, ◌∙◌, ap, refl,
}
use flux_kernel.Bits.{
  bit_and_field, bit_and_mask, bit_or_fields, bit_or_split, bit_or-zero, bit_or-lt,
}
use flux_kernel.Bits.{bit_or-odd, zero-bit_or}
use flux_kernel.Structures.{pse_present, pse_ptr, cr3_base_addr, extract_pml4_index}
use flux_kernel.Structures.{extract_pdpt_index, extract_pdt_index, extract_pt_index, extract_offset}

pub pse_ptr-field : (v : ℕ) → pse_ptr v ≡ v / 4096 % 2 ^ 40 * 4096
unfolding pse_ptr
pse_ptr-field v = bit_and_field 40 12 v

-- A page-aligned address below 2^52 is its own pointer field.
pub pse_ptr-aligned : (p : ℕ) → p % 4096 ≡ 0 → p < 2 ^ 52 → pse_ptr p ≡ p
pse_ptr-aligned p aligned small = omega (arith, pse_ptr-field p)

-- `PSE_PTR(p) | PSE_PRESENT | flags`, where the flags stay below the pointer.
abbrev pub entry : ℕ → ℕ → ℕ
entry p flags = bit_or (bit_or (pse_ptr p) pse_present) flags

pub entry-sum :
    (p flags : ℕ) → flags < 4096 → entry p flags ≡ p / 4096 % 2 ^ 40 * 4096 + bit_or 1 flags
entry-sum p flags small =
    let q = p / 4096 % 2 ^ 40 in
    ap (λ t. bit_or (bit_or t pse_present) flags) (pse_ptr-field p)
    ∙ ap (λ t. bit_or t flags) (bit_or_fields 12 q 1 (omega arith))
    ∙ ap (λ t. bit_or (q * 2 ^ 12 + 1) t) (omega arith)
    ∙ bit_or_split 12 q 1 0 flags (omega arith) small
    ∙ ap (λ t. t * 4096 + bit_or 1 flags) (bit_or-zero q)

pub pse_ptr-entry : (p flags : ℕ) → flags < 4096 → pse_ptr (entry p flags) ≡ pse_ptr p
pse_ptr-entry p flags small = omega (
  arith,
  pse_ptr-field (entry p flags),
  pse_ptr-field p,
  entry-sum p flags small,
  bit_or-lt 12 1 flags (omega arith) small,
)

pub entry-present : (p flags : ℕ) → flags < 4096 → entry p flags % 2 ≡ 1
entry-present p flags small = omega (arith, entry-sum p flags small, bit_or-odd flags)

-- The bit for a large page is that of the flags.
pub entry-large : (p flags : ℕ) → flags < 4096 → entry p flags / 128 % 2 ≡ flags / 128 % 2
entry-large p flags small =
    let split : bit_or 1 flags ≡ bit_or 0 (flags / 128) * 2 ^ 7 + bit_or 1 (flags % 128) =
      ap (λ t. bit_or 1 t) (omega arith)
      ∙ bit_or_split 7 0 1 (flags / 128) (flags % 128) (omega arith) (omega arith) in
    omega (
      arith,
      entry-sum p flags small,
      bit_or-lt 7 1 (flags % 128) (omega arith) (omega arith),
      split,
      zero-bit_or (flags / 128),
    )

-- The fields of a virtual address.
abbrev pub index : ℕ → ℕ → ℕ
index level v = v / 2 ^ (12 + 9 * level) % 512

pub extract-index :
    (v : ℕ)
    → (extract_pml4_index v ≡ index 3 v)
      × (extract_pdpt_index v ≡ index 2 v)
      × (extract_pdt_index v ≡ index 1 v)
      × (extract_pt_index v ≡ index 0 v)
      × (extract_offset v ≡ v % 4096)
unfolding extract_pml4_index extract_pdpt_index extract_pdt_index extract_pt_index extract_offset
extract-index v = (
  bit_and_mask 9 (v / 2 ^ 39),
  bit_and_mask 9 (v / 2 ^ 30),
  bit_and_mask 9 (v / 2 ^ 21),
  bit_and_mask 9 (v / 2 ^ 12),
  bit_and_mask 12 v,
)

pub cr3_base_addr-pse_ptr : (v : ℕ) → cr3_base_addr v ≡ pse_ptr v
unfolding cr3_base_addr pse_ptr
cr3_base_addr-pse_ptr v = refl

pub present-odd : (e : ℕ) → bit_and e pse_present ≡ e % 2
present-odd e = bit_and_mask 1 e
