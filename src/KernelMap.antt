-- ===== src/KernelMap.antt =====
-- kernel/arch/x64/mem.c: the kernel's own page tables, and the start of the memory manager.
pub mod Range
pub mod Blocks
pub mod Stage
pub mod Setup
pub mod Made
pub mod Listed
pub mod Steps
pub mod Start
use flux_kernel.Prelude.{ℕ, zero, suc, ◌+◌, ◌/◌, Bool, Option, none, some, List, [], ◌∷◌, ◌++◌}
use flux_kernel.Prelude.{◌==◌, ltb, if◌then◌else◌, bit_or, codes}
use flux_kernel.Words.{u64, int_to_u64}
use flux_kernel.Machine.{MemmapEntry, fault, waiting, Kernel, pure, ◌>>=◌, ◌>>◌}
use flux_kernel.Machine.{get, modify}
use flux_kernel.Structures.{pse_writeable, pse_user_mode}
use flux_kernel.Printk.{word, printk}
use flux_kernel.Debug.{newline, system, pgood, assert, site}
use flux_kernel.Frames.{null, page_size, set_first_page_frame, get_phys_block, find_free_frames}
use flux_kernel.Paging.{map_page_specific_pml4}

-- `PSE_WRITEABLE | PSE_USER_MODE`
abbrev pub kernel_flags : ℕ
kernel_flags = bit_or pse_writeable pse_user_mode

-- LIMINE_MEMMAP_KERNEL_AND_MODULES
abbrev pub limine_memmap_kernel_and_modules : ℕ
limine_memmap_kernel_and_modules = 6

-- A loop that maps the 4 KiB blocks of `length` bytes, from `offset` on, for at most `rounds`
-- rounds: the block at an offset of `phys` is mapped to that offset of `virt`.
unfoldable pub map_blocks : ℕ → ℕ → ℕ → ℕ → ℕ → ℕ → ℕ → Kernel (Unit {0})
map_blocks zero pml4 length phys virt flags offset = λ _. waiting
map_blocks (suc rounds) pml4 length phys virt flags offset = elim (ltb offset length) [
  | Bool.false ↦ pure tt
  | Bool.true ↦ do
    map_page_specific_pml4 pml4 (u64 (phys + offset)) (u64 (virt + offset)) flags
    map_blocks rounds pml4 length phys virt flags (u64 (offset + page_size))
]

-- A read behind a response: of a NULL one it is undefined.
unfoldable pub read_response : Bool → Kernel (Unit {0})
read_response Bool.true = pure tt
read_response Bool.false = λ _. fault

-- A round of the loop over the memory map, and the loop. `kernel_pml4_table` is a global, read
-- where it is used; nothing in the loop changes it.
unfoldable pub map_entry : MemmapEntry → Kernel (Unit {0})
map_entry entry = do
  m ← get
  let here = entry.base == m.boot.kernel_physical_base
  let offset = if here then 0 else entry.base
  if entry.kind == limine_memmap_kernel_and_modules
      then (do
        read_response m.boot.address_given
        if here
            then printk (codes "[Kernel map] Mapping phys %p (%d blocks) to virt %p" ++ newline)
                (word entry.base ∷ word (entry.length / 4096) ∷ word m.boot.flux_base_virt ∷ [])
            else printk (codes "[Module map] Mapping phys %p (%d blocks) to virt %p" ++ newline) (
                word entry.base
                ∷ word (entry.length / 4096)
                ∷ word (u64 (m.boot.flux_base_virt + entry.base))
                ∷ [])
        map_blocks (entry.length / page_size + 2) m.kernel_pml4_table entry.length entry.base
            (m.boot.flux_base_virt + offset) kernel_flags 0)
      else pure tt

unfoldable pub map_entries : List MemmapEntry → Kernel (Unit {0})
map_entries [] = pure tt
map_entries (entry ∷ entries) = map_entry entry >> map_entries entries

-- The last loop: the first 4 GiB of physical memory at the offset of the direct map.
unfoldable pub map_direct : Kernel (Unit {0})
map_direct = do
  m ← get
  map_blocks 1048577 m.kernel_pml4_table 0x1_0000_0000 0 m.boot.hhdm_offset kernel_flags 0

unfoldable pub setup_response : Option (List MemmapEntry) → Kernel (Unit {0})
setup_response none = λ _. fault
setup_response (some entries) = map_entries entries

unfoldable pub setup_kernel_map : Kernel (Unit {0})
setup_kernel_map = do
  block ← get_phys_block
  modify (λ m. record m { kernel_pml4_table = block })
  m ← get
  setup_response m.boot.memmap
  read_response m.boot.hhdm_given
  printk (codes "[HHDM map] Mapping first 4GB to virt %p" ++ newline) (word m.boot.hhdm_offset ∷ [])
  map_direct

-- Whether a response is there.
abbrev pub is_some {ℓ} : {A : Type ℓ} → Option A → Bool
is_some none = Bool.false
is_some (some a) = Bool.true

unfoldable pub mem_init : Kernel ℕ
mem_init = do
  m ← get
  set_first_page_frame null
  assert (is_some m.boot.memmap) (codes "resp != NULL") (site "arch/x64/mem.c" 109 "mem_init")
  printk (system "( PMEM)" ++ codes "Initialising physical memory manager" ++ newline) []
  count ← find_free_frames
  modify (λ m. record m { n_free_page_frames = int_to_u64 count })
  printk
      (system "( PMEM)"
        ++ pgood (codes "Added %d 4K blocks to the physical page frame list." ++ newline))
      (word (int_to_u64 count) ∷ [])
  setup_kernel_map
  m ← get
  printk
      (system "( PAGE)"
        ++ pgood (codes "Successfully set up kernel page mapping. %d blocks left." ++ newline))
      (word m.n_free_page_frames ∷ [])
  pure m.n_free_page_frames
