-- ===== src/Spaces.antt =====
-- Address spaces as the kernel uses kernel/arch/x64/paging.c and mem.c: a frame from the allocator is
-- the root of a new one, and pages are mapped in it.
pub mod Represents
pub mod Refines
use flux_kernel.Prelude.{
  ℕ, ◌/◌, ◌%◌, Option, none, some, List, [], ◌∷◌, ◌++◌, ◌==◌, ◌&&◌, ltb, Bool, if◌then◌else◌,
  get_elem?, set,
}
use flux_kernel.Machine.{fault, Kernel, pure, ◌>>=◌, ◌>>◌}
use flux_kernel.Frames.{get_phys_block}
use flux_kernel.Paging.{map_page_specific_pml4}
use flux_kernel.KernelMap.Range.{in_range}

-- A new address space, or a page of the one with the given number.
pub data Request : Type 0 where
  create : Request
  map_in : (space paddr vaddr flags : ℕ) → Request

-- A request, and the requests in turn, on the roots of the address spaces that there are.
abbrev pub map_root : Option ℕ → ℕ → ℕ → ℕ → Kernel (Unit {0})
map_root none paddr vaddr flags = λ _. fault
map_root (some root) paddr vaddr flags = map_page_specific_pml4 root paddr vaddr flags

unfoldable pub carry_out : List Request → List ℕ → Kernel (List ℕ)
carry_out [] roots = pure roots
carry_out (create ∷ rs) roots = do root ← get_phys_block; carry_out rs (roots ++ (root ∷ []))
carry_out (map_in space paddr vaddr flags ∷ rs) roots = do
  map_root (get_elem? roots space) paddr vaddr flags
  carry_out rs roots

-- The specification: an address space is a partial function from virtual to physical addresses.
abbrev pub Space : Type 0
Space = ℕ → Option ℕ

abbrev pub empty : Space
empty w = none

abbrev pub mapped : ℕ → ℕ → Space → Space
mapped paddr vaddr space w = in_range paddr vaddr 1 w (space w)

abbrev pub map_space : List Space → ℕ → ℕ → ℕ → Option Space → Option (List Space)
map_space spaces k paddr vaddr none = none
map_space spaces k paddr vaddr (some space) = some (set spaces k (mapped paddr vaddr space))

-- Flags in the low 12 bits that do not ask for a large page.
abbrev pub allowed : ℕ → Bool
allowed flags = ltb flags 4096 && (flags / 128 % 2 == 0)

-- `none` is a request that the kernel must not make: for a space that is not there, or with other
-- flags.
abbrev pub step : Request → List Space → Option (List Space)
step create spaces = some (spaces ++ (empty ∷ []))
step (map_in k paddr vaddr flags) spaces =
    if allowed flags then map_space spaces k paddr vaddr (get_elem? spaces k) else none

unfoldable pub spec : List Request → List Space → Option (List Space)
spec [] spaces = some spaces
spec (r ∷ rs) spaces = elim (step r spaces) [ none ↦ none | some spaces' ↦ spec rs spaces' ]
