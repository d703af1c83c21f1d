-- ===== src/Paging/Map.antt =====
-- `map_page_specific_pml4` maps one page and leaves every other translation alone.
use flux_kernel.Prelude.{ℕ, ◌+◌, ◌*◌, ◌%◌, ◌/◌, ◌^◌, ◌<◌, ◌≤◌, ◌≡◌, ◌≢◌, true, false, none, some}
use flux_kernel.Prelude.{List, length, arith, ◌∙◌}
use flux_kernel.Machine.{Machine, ok}
use flux_kernel.Structures.{pse_ptr}
use flux_kernel.Frames.Chain.{has}
use flux_kernel.Paging.{map_page_specific_pml4}
use flux_kernel.Paging.Walk.{translate, missing}
use flux_kernel.Paging.Tree.{Roles, IsFrame, IsTree}
use flux_kernel.Paging.Link.{IsFlags}
use flux_kernel.Paging.Enter.{AgreesOutside}
use flux_kernel.Paging.Leaf.{page_from, page_from-page}
use flux_kernel.Paging.Below.{map_from-three}
use flux_kernel.Paging.Descend.{map_from-Maps}

-- The 36 bits of a virtual address that choose its page.
abbrev pub page : ℕ → ℕ
page v = v / 4096 % 2 ^ 36

-- `m'` is `m` with the page of `v` mapped to `paddr` in the address space number `q`.
pub record IsMapped (m : Machine) (free : List ℕ) (role : Roles) (pml4 q paddr v : ℕ) (m' : Machine)
    : Type 0 where
  pub free' : List ℕ
  pub role' : Roles
  pub tree : IsTree m' free' role'
  pub kept : (y l₂ q₂ : ℕ) → role y ≡ some (l₂, q₂) → role' y ≡ some (l₂, q₂)
  pub here :
      (w : ℕ) → page w ≡ page v → translate m'.memory pml4 w ≡ some (pse_ptr paddr + w % 4096)
  pub others : (w : ℕ) → page w ≢ page v → translate m'.memory pml4 w ≡ translate m.memory pml4 w
  -- The other address spaces.
  pub elsewhere :
      (u q₂ w : ℕ)
      → role u ≡ some (3, q₂)
      → q₂ ≢ q
      → translate m'.memory u w ≡ translate m.memory u w
  pub used : length free ≤ length free' + missing m.memory 3 pml4 v
  pub complete : (w : ℕ) → page w / 512 ≡ page v / 512 → missing m'.memory 3 pml4 w ≡ 0
  pub fewer : (y : ℕ) → has y free' ≡ true → has y free ≡ true
  pub fresh : (y : ℕ) → role y ≡ none → has y free ≡ false → role' y ≡ none
  pub untouched :
      (y j : ℕ)
      → IsFrame y
      → j < 512
      → role' y ≡ none
      → m'.memory (y + 8 * j) ≡ m.memory (y + 8 * j)
  pub agrees : AgreesOutside m m'

page_ne : (q q₂ v w : ℕ) → q₂ ≢ q → page_from 3 q₂ w ≢ page_from 3 q v
page_ne q q₂ v w ne e = ne (omega (arith, page_from-page q v, page_from-page q₂ w))

-- On well-formed page tables with a frame free for each table that is missing on the way to the
-- page, and for flags in the low 12 bits that do not ask for a large page,
-- `map_page_specific_pml4` returns; then every address of the page is translated to the frame,
-- every other address of the address space as before, and so is every address of every other
-- address space; the tables are well formed again, as many frames were used as tables were missing
-- at most, no frame that is not a table was written, and only memory and the free list changed.
pub map_page_specific_pml4-IsMapped :
    (m : Machine) (free : List ℕ) (role : Roles) (pml4 q paddr v flags : ℕ)
    → IsTree m free role
    → role pml4 ≡ some (3, q)
    → IsFlags flags
    → missing m.memory 3 pml4 v ≤ length free
    → (m' : Machine) × (map_page_specific_pml4 pml4 paddr v flags m ≡ ok tt m')
      × IsMapped m free role pml4 q paddr v m'
map_page_specific_pml4-IsMapped m free role pml4 q paddr v flags tree root fl enough =
    let (m', run, mapped) = map_from-Maps paddr v flags fl 3 m free role pml4 q tree root enough in
    (
      m',
      map_from-three pml4 paddr v flags m ∙ run,
      record {
        free' = mapped.free';
        role' = mapped.role';
        tree = mapped.tree;
        kept = mapped.kept;
        here = λ w e. mapped.here w (omega (arith, page_from-page q w, page_from-page q v));
        others = λ w ne.
            mapped.others 3 pml4 q w root
              (λ e. ne (omega (arith, page_from-page q w, page_from-page q v)));
        elsewhere = λ u q₂ w h ne. mapped.others 3 u q₂ w h (page_ne q q₂ v w ne);
        used = mapped.used;
        complete =
            λ w near. mapped.complete w (omega (arith, page_from-page q w, page_from-page q v));
        fewer = mapped.fewer;
        fresh = mapped.fresh;
        untouched = mapped.untouched;
        agrees = mapped.agrees;
      },
    )
