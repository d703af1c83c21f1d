-- ===== src/Tests/Paging.antt =====
-- The page tables of the small machine.
use flux_kernel.Prelude.{ℕ, ◌+◌, ◌*◌, ◌<◌, ◌≡◌, refl, ◌==◌, if◌then◌else◌, true, none, some}
use flux_kernel.Prelude.{suc, ◌≢◌, ap, ◌∙◌, List, [], ◌∷◌, arith}
use flux_kernel.Machine.{Machine, ok}
use flux_kernel.Frames.Chain.{has}
use flux_kernel.Paging.{map_page_specific_pml4}
use flux_kernel.Paging.Walk.{present, missing-le, missing-empty}
use flux_kernel.Paging.Tree.{Roles, IsFrame, IsTree}
use flux_kernel.Paging.Enter.{Enters, enter_table-Entered}
use flux_kernel.Paging.Map.{IsMapped, map_page_specific_pml4-IsMapped}
use flux_kernel.Frames.Pool.{taken}
use flux_kernel.Printk.Console.{IsConsole-same}
use flux_kernel.Paging.Root.{get_phys_block-IsTaken}
use flux_kernel.Paging.Short.{IsShort, map_page_specific_pml4-IsShort}
use flux_kernel.Tests.Machines.{base, memory, port}
use flux_kernel.Tests.Console.{console}
use flux_kernel.Tests.Frames.{pool}

abbrev free : List ℕ
free = 0x2000 ∷ 0x3000 ∷ 0x4000 ∷ []

abbrev role : Roles
role y = if y == 0x1000 then some (3, 0) else none

role-root : (t l q : ℕ) → role t ≡ some (l, q) → t ≡ 0x1000
role-root t l q h = ground arith

role-none : (t : ℕ) → has t free ≡ true → role t ≡ none
role-none t h = ground arith

free-IsFrame : (t : ℕ) → has t free ≡ true → IsFrame t
free-IsFrame t h = record { aligned = ground arith; small = ground arith }

empty_root : (i : ℕ) → i < 512 → memory (0x1000 + 8 * i) ≡ 0
empty_root i h = ground arith

not_present : (e : ℕ) → e ≡ 0 → present e ≢ true
not_present e h p = ground arith

tree : IsTree base free role
tree = record {
  pool = pool;
  free_frame = free-IsFrame;
  free_role = role-none;
  table_frame = λ t l q h.
      let e = role-root t l q h in record { aligned = omega (arith, e); small = omega (arith, e) };
  link = λ t l q i h hi p.
      let e = role-root t (suc l) q h in
      absurd (not_present _ (ap (λ z. memory (z + 8 * i)) e ∙ empty_root i hi) p);
}

map_page_specific_pml4-IsMapped_example :
    (m' : Machine) × (map_page_specific_pml4 0x1000 0x9000 0x40_0123 6 base ≡ ok tt m')
    × IsMapped base free role 0x1000 0 0x9000 0x40_0123 m'
map_page_specific_pml4-IsMapped_example =
    map_page_specific_pml4-IsMapped base free role 0x1000 0 0x9000 0x40_0123 6 tree refl
      (omega arith, refl) (omega (arith, missing-le memory 3 0x1000 0x40_0123))

enter_table-Entered_example : Enters base free role 0x1000 2 0 5 6
enter_table-Entered_example =
    enter_table-Entered base role 0x1000 2 0 5 6 refl (omega arith) (omega arith, refl) free tree
      (λ e. omega arith)

-- One frame less than the mapping wants.
two_free : IsTree (taken base) (0x3000 ∷ 0x4000 ∷ []) role
two_free = (get_phys_block-IsTaken base 0x2000 (0x3000 ∷ 0x4000 ∷ []) role tree).tree

map_page_specific_pml4-IsShort_example :
    IsShort port (taken base) role (map_page_specific_pml4 0x1000 0x9000 0x40_0123 6 (taken base))
map_page_specific_pml4-IsShort_example =
    map_page_specific_pml4-IsShort (taken base) (0x3000 ∷ 0x4000 ∷ []) role 0x1000 0 0x9000
      0x40_0123 6 port two_free refl (omega arith, refl)
      (IsConsole-same base (taken base) port refl refl refl refl console)
      (omega (arith, missing-empty memory 3 0x1000 0x40_0123 empty_root))
