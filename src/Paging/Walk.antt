-- ===== src/Paging/Walk.antt =====
-- The specification of the page tables: how the processor translates a virtual address. An entry
-- of an upper level that is not present, or that would map a large page, ends the walk.
use flux_kernel.Prelude.{ℕ, zero, suc, ◌+◌, ◌*◌, ◌/◌, ◌%◌, Bool, ◌==◌, ◌&&◌, Option, none, some}
use flux_kernel.Prelude.{
  if◌then◌else◌, ◌<◌, ◌≤◌, ◌≡◌, refl, ap, arith, true, false, ◌∙◌, sym, Bool-cases, inl, inr,
}
use native.Mathlib.Nat.{mod-lt}
use flux_kernel.Structures.{pse_ptr}
use flux_kernel.Structures.Entry.{index}

abbrev pub present : ℕ → Bool
present e = e % 2 == 1

abbrev pub linked : ℕ → Bool
linked e = present e && (e / 128 % 2 == 0)

-- The walk from a table of the given level, 0 for a page table and 3 for the PML4 table.
unfoldable pub walk : (ℕ → ℕ) → ℕ → ℕ → ℕ → Option ℕ
walk mem zero table v =
    let e = mem (table + 8 * index 0 v) in if present e then some (pse_ptr e + v % 4096) else none
walk mem (suc level) table v =
    let e = mem (table + 8 * index (suc level) v) in
    let rest = walk mem level (pse_ptr e) v in if linked e then rest else none

abbrev pub translate : (ℕ → ℕ) → ℕ → ℕ → Option ℕ
translate mem pml4 v = walk mem 3 pml4 v

-- A round of the walk.
module _ (mem : ℕ → ℕ) (level table v : ℕ) where
  abbrev pub at_index : ℕ
  at_index = mem (table + 8 * index (suc level) v)

  pub walk-follow :
      linked at_index ≡ true → walk mem (suc level) table v ≡ walk mem level (pse_ptr at_index) v
  unfolding walk
  walk-follow h = rw h refl

  pub walk-stop : linked at_index ≡ false → walk mem (suc level) table v ≡ none
  unfolding walk
  walk-stop h = rw h refl

pub present_of_linked : (e : ℕ) → linked e ≡ true → present e ≡ true
present_of_linked e h = ground arith

pub absent-linked : (e : ℕ) → present e ≡ false → linked e ≡ false
absent-linked e h = ground arith

-- A walk reads one word of a table.
pub walk-leaf :
    (mem mem' : ℕ → ℕ) (table v : ℕ)
    → mem' (table + 8 * index 0 v) ≡ mem (table + 8 * index 0 v)
    → walk mem' 0 table v ≡ walk mem 0 table v
unfolding walk
walk-leaf mem mem' table v e = ap (λ w. if present w then some (pse_ptr w + v % 4096) else none) e

-- A walk that enters an empty table ends there.
pub walk-empty :
    (mem : ℕ → ℕ) (level table v : ℕ)
    → ((j : ℕ) → j < 512 → mem (table + 8 * j) ≡ 0)
    → walk mem level table v ≡ none
walk-empty mem zero table v h = unfold walk in rw (h (index 0 v) (omega arith)) refl
walk-empty mem (suc level) table v h =
    walk-stop mem level table v (ap linked (h (index (suc level) v) (mod-lt _ (omega arith))))

-- A walk past a word that is the same in both memories.
pub walk-same :
    (mem mem' : ℕ → ℕ) (level table v : ℕ)
    → at_index mem' level table v ≡ at_index mem level table v
    → (linked (at_index mem level table v) ≡ true
        → walk mem' level (pse_ptr (at_index mem level table v)) v
          ≡ walk mem level (pse_ptr (at_index mem level table v)) v)
    → walk mem' (suc level) table v ≡ walk mem (suc level) table v
walk-same mem mem' level table v same rest =
    elim (Bool-cases (linked (at_index mem level table v))) [
      | inl h ↦
          walk-follow mem' level table v (ap linked same ∙ h)
          ∙ ap (λ w. walk mem' level (pse_ptr w) v) same
          ∙ rest h
          ∙ sym (walk-follow mem level table v h)
      | inr h ↦
          walk-stop mem' level table v (ap linked same ∙ h) ∙ sym (walk-stop mem level table v h)
    ]

-- How many tables are missing on the way to the page table of `v`.
unfoldable pub missing : (ℕ → ℕ) → ℕ → ℕ → ℕ → ℕ
missing mem zero table v = 0
missing mem (suc level) table v =
    let e = mem (table + 8 * index (suc level) v) in
    let rest = missing mem level (pse_ptr e) v in if linked e then rest else suc level

pub missing-le : (mem : ℕ → ℕ) (level table v : ℕ) → missing mem level table v ≤ level
unfolding missing
missing-le mem zero table v = omega arith
missing-le mem (suc level) table v =
    let below = missing-le mem level (pse_ptr (at_index mem level table v)) v in ground arith

pub missing-follow :
    (mem : ℕ → ℕ) (level table v : ℕ)
    → linked (at_index mem level table v) ≡ true
    → missing mem (suc level) table v ≡ missing mem level (pse_ptr (at_index mem level table v)) v
unfolding missing
missing-follow mem level table v h = rw h refl

pub missing-stop :
    (mem : ℕ → ℕ) (level table v : ℕ)
    → linked (at_index mem level table v) ≡ false
    → missing mem (suc level) table v ≡ suc level
unfolding missing
missing-stop mem level table v h = rw h refl

-- Below an empty table every table is missing.
pub missing-empty :
    (mem : ℕ → ℕ) (level table v : ℕ)
    → ((j : ℕ) → j < 512 → mem (table + 8 * j) ≡ 0)
    → missing mem level table v ≡ level
missing-empty mem zero table v h = unfold missing in refl
missing-empty mem (suc level) table v h =
    missing-stop mem level table v (ap linked (h (index (suc level) v) (mod-lt _ (omega arith))))
