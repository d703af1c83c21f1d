-- ===== src/Paging/Zero.antt =====
-- `zero_paging_structure` clears the 512 words of a table and no other.
use flux_kernel.Prelude.{
  ℕ, zero, suc, ◌+◌, ◌*◌, ◌<◌, ◌≤◌, ◌≡◌, refl, ◌≢◌, ◌⊎◌, inl, inr, arith, ◌∙◌,
}
use flux_kernel.Prelude.{Bool-cases, ◌==◌, ==_true}
use flux_kernel.Machine.{Machine, ok, write, write_self, write_ne}
use flux_kernel.Paging.{zero_from, zero_paging_structure}

cleared_from : ℕ → ℕ → ℕ → (ℕ → ℕ) → ℕ → ℕ
cleared_from zero i table mem = mem
cleared_from (suc rounds) i table mem =
    cleared_from rounds (i + 1) table (write mem (table + 8 * i) 0)

-- Memory with the table cleared.
pub cleared : ℕ → (ℕ → ℕ) → ℕ → ℕ
cleared table mem = cleared_from 512 0 table mem

zero_from_run :
    (rounds i table : ℕ) (m : Machine)
    → zero_from rounds i table m
      ≡ ok tt (record m { memory = cleared_from rounds i table m.memory })
unfolding zero_from cleared_from
zero_from_run zero i table m = refl
zero_from_run (suc rounds) i table m =
    zero_from_run rounds (i + 1) table (record m { memory = write m.memory (table + 8 * i) 0 })

pub zero_paging_structure_run :
    (table : ℕ) (m : Machine)
    → zero_paging_structure table m ≡ ok tt (record m { memory = cleared table m.memory })
unfolding zero_paging_structure cleared
zero_paging_structure_run table m = zero_from_run 512 0 table m

cleared_from-outside :
    (rounds i table : ℕ) (mem : ℕ → ℕ) (a : ℕ)
    → ((j : ℕ) → i ≤ j → j < i + rounds → a ≢ table + 8 * j)
    → cleared_from rounds i table mem a ≡ mem a
unfolding cleared_from
cleared_from-outside zero i table mem a out = refl
cleared_from-outside (suc rounds) i table mem a out =
    cleared_from-outside rounds (i + 1) table _ a (λ j p q. out j (omega arith) (omega arith))
    ∙ write_ne mem (table + 8 * i) 0 a (out i (omega arith) (omega arith))

write-zero : (mem : ℕ → ℕ) (a b : ℕ) → mem b ≡ 0 → write mem a 0 b ≡ 0
unfolding write
write-zero mem a b h = ground arith

cleared_from-zero :
    (rounds i table : ℕ) (mem : ℕ → ℕ) (j : ℕ)
    → (mem (table + 8 * j) ≡ 0) ⊎ (i ≤ j)
    → j < i + rounds
    → cleared_from rounds i table mem (table + 8 * j) ≡ 0
unfolding cleared_from
cleared_from-zero zero i table mem j (inl h) lt = h
cleared_from-zero zero i table mem j (inr h) lt = absurd (omega arith)
cleared_from-zero (suc rounds) i table mem j h lt =
    cleared_from-zero rounds (i + 1) table (write mem (table + 8 * i) 0) j (step h) (omega arith)
  where
    step :
        (mem (table + 8 * j) ≡ 0) ⊎ (i ≤ j)
        → (write mem (table + 8 * i) 0 (table + 8 * j) ≡ 0) ⊎ (i + 1 ≤ j)
    step (inl z) = inl (write-zero mem (table + 8 * i) (table + 8 * j) z)
    step (inr p) = elim (Bool-cases (j == i)) [
      | inl e ↦ inl (rw (==_true j i e) (write_self mem (table + 8 * i) 0))
      | inr e ↦ inr (ground arith)
    ]

pub cleared-zero :
    (table : ℕ) (mem : ℕ → ℕ) (j : ℕ) → j < 512 → cleared table mem (table + 8 * j) ≡ 0
unfolding cleared
cleared-zero table mem j lt = cleared_from-zero 512 0 table mem j (inr (omega arith)) (omega arith)

pub cleared-outside :
    (table : ℕ) (mem : ℕ → ℕ) (a : ℕ)
    → ((j : ℕ) → j < 512 → a ≢ table + 8 * j)
    → cleared table mem a ≡ mem a
unfolding cleared
cleared-outside table mem a out =
    cleared_from-outside 512 0 table mem a (λ j p q. out j (omega arith))
