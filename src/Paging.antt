-- ===== src/Paging.antt =====
-- kernel/arch/x64/paging.c: the four-level page tables. A page table entry at index `i` of a table
-- is the word at `table + 8 * i`.
pub mod Walk
pub mod Tree
pub mod Zero
pub mod Link
pub mod Grow
pub mod Untouched
pub mod Enter
pub mod Leaf
pub mod Below
pub mod Descend
pub mod Short
pub mod Map
pub mod Current
pub mod Root
pub mod Change
pub mod Held
pub mod Outside
use flux_kernel.Prelude.{
  ℕ, zero, suc, ◌+◌, ◌*◌, Bool, true, false, ◌==◌, if◌then◌else◌, bit_and, bit_or,
}
use flux_kernel.Machine.{
  Machine, Run, ok, Kernel, pure, ◌>>=◌, ◌>>◌, get, modify, load, store, and_then,
}
use flux_kernel.Frames.{get_phys_block}
use flux_kernel.Structures.{pse_present, pse_ptr, cr3_base_addr, extract_pml4_index}
use flux_kernel.Structures.{extract_pdpt_index, extract_pdt_index, extract_pt_index}

-- `set_cr3` transfers the register.
abbrev pub set_cr3 : ℕ → Kernel (Unit {0})
set_cr3 val = modify (λ m. record m { cr3 = val })

-- `table[i] = 0` for the `rounds` indices from `i` on.
unfoldable pub zero_from : ℕ → ℕ → ℕ → Kernel (Unit {0})
zero_from zero i table = pure tt
zero_from (suc rounds) i table = store (table + 8 * i) 0x0 >> zero_from rounds (i + 1) table

unfoldable pub zero_paging_structure : ℕ → Kernel (Unit {0})
zero_paging_structure table = zero_from 512 0 table

unfoldable pub paging_init : Kernel (Unit {0})
paging_init = do m ← get; set_cr3 (cr3_base_addr m.kernel_pml4_table)

-- `PSE_PTR(paddr) | PSE_PRESENT | flags`
abbrev pub make_entry : ℕ → ℕ → ℕ
make_entry paddr flags = bit_or (bit_or (pse_ptr paddr) pse_present) flags

-- A new, empty table behind the entry at `e`.
unfoldable pub add_table : ℕ → ℕ → Kernel (Unit {0})
add_table e flags = do
  new_table ← get_phys_block
  zero_paging_structure new_table
  store e (make_entry new_table flags)

-- The step that `map_page_specific_pml4` makes at the entries of the three upper levels: if the
-- entry at `e` is not present, it gets a table; then the step goes to the table of the entry.
unfoldable pub enter_table : ℕ → ℕ → Kernel ℕ
enter_table e flags = do
  val ← load e
  if bit_and val pse_present == 0 then add_table e flags else pure tt
  val' ← load e
  pure (pse_ptr val')

unfoldable pub map_page_specific_pml4 : ℕ → ℕ → ℕ → ℕ → Kernel (Unit {0})
map_page_specific_pml4 pml4_addr paddr vaddr flags = do
  pdpt ← enter_table (pml4_addr + 8 * extract_pml4_index vaddr) flags
  pdt ← enter_table (pdpt + 8 * extract_pdpt_index vaddr) flags
  pt ← enter_table (pdt + 8 * extract_pdt_index vaddr) flags
  store (pt + 8 * extract_pt_index vaddr) (make_entry paddr flags)
