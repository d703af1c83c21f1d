-- ===== src/KernelMap/Range.antt =====
-- What it is to map a range of blocks.
use flux_kernel.Prelude.{ℕ, ◌+◌, ◌*◌, ◌%◌, ◌^◌, ◌<◌, ◌≤◌, ◌≡◌, ◌≢◌, some, inl, inr}
use flux_kernel.Prelude.{◌∙◌, ap, List, length, arith}
use flux_kernel.Machine.{Machine}
use flux_kernel.Structures.{pse_ptr}
use flux_kernel.Paging.Walk.{translate}
use flux_kernel.Frames.Chain.{has}
use flux_kernel.Prelude.{
  ◌/◌, ◌-◌, true, false, none, Option, ltb, if◌then◌else◌, Bool-cases, ltb→lt, ltb→le,
}
use flux_kernel.Paging.Tree.{Roles, IsFrame, IsTree}
use flux_kernel.Paging.Enter.{AgreesOutside}
use flux_kernel.Paging.Map.{page, IsMapped}

-- The tables that `n` blocks need at most.
abbrev pub tables_for : ℕ → ℕ
tables_for n = 3 * (n / 512 + 2)

-- The number of blocks of a length, and the number of the block of a range that holds an address.
abbrev pub blocks : ℕ → ℕ
blocks total = (total + 4095) / 4096

abbrev pub block_of : ℕ → ℕ → ℕ
block_of virt w = (page w + (2 ^ 36 - page virt)) % 2 ^ 36

-- What a range of `n` blocks makes of a translation.
abbrev pub in_range : (phys virt n w : ℕ) → Option ℕ → Option ℕ
in_range phys virt n w old =
    if ltb (block_of virt w) n
    then some (pse_ptr (phys + block_of virt w * 4096) + w % 4096)
    else old

module _ (pml4 q phys virt flags : ℕ) where
  -- `m'` is `m` with the blocks from number `i` to `i + n - 1` mapped, at the price of `c` frames.
  pub record IsMappedFrom (m : Machine) (free : List ℕ) (role : Roles) (i n c : ℕ) (m' : Machine)
      : Type 0 where
    pub free' : List ℕ
    pub role' : Roles
    pub tree : IsTree m' free' role'
    pub kept : (y l₂ q₂ : ℕ) → role y ≡ some (l₂, q₂) → role' y ≡ some (l₂, q₂)
    pub here :
        (k w : ℕ)
        → i ≤ k
        → k < i + n
        → page w ≡ page (virt + k * 4096)
        → translate m'.memory pml4 w ≡ some (pse_ptr (phys + k * 4096) + w % 4096)
    pub others :
        (w : ℕ)
        → ((k : ℕ) → i ≤ k → k < i + n → page w ≢ page (virt + k * 4096))
        → translate m'.memory pml4 w ≡ translate m.memory pml4 w
    pub elsewhere :
        (u q₂ w : ℕ)
        → role u ≡ some (3, q₂)
        → q₂ ≢ q
        → translate m'.memory u w ≡ translate m.memory u w
    pub used : length free ≤ length free' + c
    pub fewer : (y : ℕ) → has y free' ≡ true → has y free ≡ true
    pub fresh : (y : ℕ) → role y ≡ none → has y free ≡ false → role' y ≡ none
    pub untouched :
        (y j : ℕ)
        → IsFrame y
        → j < 512
        → role' y ≡ none
        → m'.memory (y + 8 * j) ≡ m.memory (y + 8 * j)
    pub agrees : AgreesOutside m m'

  -- A range of `total` bytes.
  abbrev pub IsMappedRange : Machine → List ℕ → Roles → ℕ → Machine → Type 0
  IsMappedRange m free role total m' =
      IsMappedFrom m free role 0 (blocks total) (tables_for (blocks total)) m'

  -- The translations after a range was mapped, in one equation.
  pub translate-IsMappedRange :
      (total : ℕ) (m m' : Machine) (free : List ℕ) (role : Roles) (w : ℕ)
      → blocks total ≤ 2 ^ 36
      → IsMappedRange m free role total m'
      → translate m'.memory pml4 w ≡ in_range phys virt (blocks total) w (translate m.memory pml4 w)
  translate-IsMappedRange total m m' free role w small mapped =
      let k = block_of virt w in
      elim (Bool-cases (ltb k (blocks total))) [
        | inl e ↦
            rw e (
              mapped.here k w (omega arith) (omega (arith, ltb→lt k (blocks total) e))
                (omega arith))
        | inr e ↦ rw e (
            mapped.others w
              λ k' le lt at_k. absurd (omega (arith, ltb→le k (blocks total) e, at_k, lt, small)))
      ]

-- The same of one page.
pub translate-IsMapped :
    (m m' : Machine) (free : List ℕ) (role : Roles) (pml4 q paddr v w : ℕ)
    → IsMapped m free role pml4 q paddr v m'
    → translate m'.memory pml4 w ≡ in_range paddr v 1 w (translate m.memory pml4 w)
translate-IsMapped m m' free role pml4 q paddr v w mapped =
    elim (Bool-cases (ltb (block_of v w) 1)) [
      | inl e ↦
          let first : block_of v w ≡ 0 = omega (arith, ltb→lt (block_of v w) 1 e) in
          let same : paddr ≡ paddr + block_of v w * 4096 = omega (arith, first) in
          rw e (mapped.here w (omega (arith, first)) ∙ ap (λ z. some (pse_ptr z + w % 4096)) same)
      | inr e ↦
          rw e (mapped.others w λ near. absurd (omega (arith, ltb→le (block_of v w) 1 e, near)))
    ]
