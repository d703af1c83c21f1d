-- ===== src/Paging/Tree.antt =====
-- The invariant of the page tables. A ghost function says of a frame which table it is: `some
-- (l, q)` is the table of level `l` for the virtual addresses whose indices above level `l` read
-- `q` in base 512. So no two entries share a table, and no table is a free frame.
use flux_kernel.Prelude.{ℕ, suc, ◌+◌, ◌*◌, ◌%◌, ◌^◌, ◌<◌, ◌≡◌, true, Option, none, some}
use flux_kernel.Prelude.{List}
use flux_kernel.Machine.{Machine}
use flux_kernel.Frames.Chain.{has}
use flux_kernel.Frames.Pool.{IsPool}
use flux_kernel.Structures.{pse_ptr}
use flux_kernel.Paging.Walk.{present, linked}

abbrev pub Roles : Type 0
Roles = ℕ → Option (ℕ × ℕ)

-- A frame that a page table entry can point to.
pub record IsFrame (p : ℕ) : Type 0 where
  pub aligned : p % 4096 ≡ 0
  pub small : p < 2 ^ 52

pub record IsTree (m : Machine) (free : List ℕ) (role : Roles) : Type 0 where
  pub pool : IsPool m free
  pub free_frame : (x : ℕ) → has x free ≡ true → IsFrame x
  pub free_role : (x : ℕ) → has x free ≡ true → role x ≡ none
  pub table_frame : (t l q : ℕ) → role t ≡ some (l, q) → IsFrame t
  pub link :
      (t l q i : ℕ)
      → role t ≡ some (suc l, q)
      → i < 512
      → present (m.memory (t + 8 * i)) ≡ true
      → (linked (m.memory (t + 8 * i)) ≡ true)
        × (role (pse_ptr (m.memory (t + 8 * i))) ≡ some (l, q * 512 + i))
