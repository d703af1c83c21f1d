-- ===== src/Paging/Current.antt =====
-- `paging_init` makes the kernel's tables the current ones.
use flux_kernel.Prelude.{ℕ, ◌≡◌, ◌∙◌, ap}
use flux_kernel.Machine.{Machine, ok}
use flux_kernel.Structures.{cr3_base_addr}
use flux_kernel.Structures.Entry.{pse_ptr-aligned, cr3_base_addr-pse_ptr}
use flux_kernel.Paging.{paging_init}
use flux_kernel.Paging.Tree.{IsFrame}

-- The machine with a page table root in CR3.
abbrev pub with_cr3 : ℕ → Machine → Machine
with_cr3 root m = record m { cr3 = root }

pub cr3_base_addr-root : (root : ℕ) → IsFrame root → cr3_base_addr root ≡ root
cr3_base_addr-root root frame =
    cr3_base_addr-pse_ptr root ∙ pse_ptr-aligned root frame.aligned frame.small

pub paging_init_run :
    (m : Machine)
    → IsFrame m.kernel_pml4_table
    → paging_init m ≡ ok tt (with_cr3 m.kernel_pml4_table m)
unfolding paging_init
paging_init_run m frame =
    ap (λ root. ok tt (with_cr3 root m)) (cr3_base_addr-root m.kernel_pml4_table frame)
