-- ===== src/Structures.antt =====
-- The words of kernel/arch/x64/structures.h that paging uses: page table entries, CR3 and virtual
-- addresses.
pub mod Entry
pub mod Fields
pub mod Gates
pub mod Segments
use flux_kernel.Prelude.{ℕ, bit_and, bit_or}
use flux_kernel.Bits.{◌<<<◌, ◌>>>◌}

abbrev pub pse_present : ℕ
pse_present = 1 <<< 0

abbrev pub pse_writeable : ℕ
pse_writeable = 1 <<< 1

abbrev pub pse_user_mode : ℕ
pse_user_mode = 1 <<< 2

unfoldable pub pse_ptr : ℕ → ℕ
pse_ptr val = bit_and val 0x000f_ffff_ffff_f000

unfoldable pub cr3_base_addr : ℕ → ℕ
cr3_base_addr cr3 = bit_and cr3 0x000f_ffff_ffff_f000

unfoldable pub extract_pml4_index : ℕ → ℕ
extract_pml4_index vaddr = bit_and (vaddr >>> 39) 0x1ff

unfoldable pub extract_pdpt_index : ℕ → ℕ
extract_pdpt_index vaddr = bit_and (vaddr >>> 30) 0x1ff

unfoldable pub extract_pdt_index : ℕ → ℕ
extract_pdt_index vaddr = bit_and (vaddr >>> 21) 0x1ff

unfoldable pub extract_pt_index : ℕ → ℕ
extract_pt_index vaddr = bit_and (vaddr >>> 12) 0x1ff

unfoldable pub extract_offset : ℕ → ℕ
extract_offset vaddr = bit_and vaddr 0xfff
