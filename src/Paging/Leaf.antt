-- ===== src/Paging/Leaf.antt =====
-- The write of the last entry changes the translation of one page.
use flux_kernel.Prelude.{
  ℕ, zero, suc, ◌+◌, ◌*◌, ◌%◌, ◌/◌, ◌^◌, ◌<◌, ◌≡◌, refl, ◌≢◌, true, Option, some,
}
use flux_kernel.Prelude.{List, arith, ◌∙◌, ap, sym, subst}
use flux_kernel.Machine.{Machine, write, write_self, write_ne}
use flux_kernel.Structures.{pse_ptr}
use flux_kernel.Structures.Entry.{index}
use flux_kernel.Frames.Chain.{has}
use flux_kernel.Paging.Walk.{present, walk, walk-leaf, walk-same, present_of_linked}
use flux_kernel.Paging.Tree.{Roles, IsFrame, IsTree}
use flux_kernel.Paging.Link.{entry_ne}
use flux_kernel.Paging.Grow.{IsFreeList-ext}
use native.Mathlib.Nat.{mod-lt}

-- The page that a walk from the table `(level, q)` comes to: the indices in base 512.
unfoldable pub page_from : ℕ → ℕ → ℕ → ℕ
page_from zero q v = q * 512 + index 0 v
page_from (suc level) q v = page_from level (q * 512 + index (suc level) v) v

-- From the PML4 table, that is the number of the page, of its 36 bits, behind the prefix.
pub page_from-page : (q v : ℕ) → page_from 3 q v ≡ q * 2 ^ 36 + v / 4096 % 2 ^ 36
unfolding page_from
page_from-page q v = omega arith

module _ (m : Machine) (free : List ℕ) (role : Roles) (tree : IsTree m free role) (t q i val : ℕ)
    (rt : role t ≡ some (0, q)) (hi : i < 512) where
  abbrev pub leaf_written : Machine
  leaf_written = record m { memory = write m.memory (t + 8 * i) val }

  ft : IsFrame t
  ft = tree.table_frame t 0 q rt

  -- A word of another table, or at another index.
  leaf_other :
      (u l₂ q₂ j : ℕ)
      → role u ≡ some (l₂, q₂)
      → j < 512
      → (u ≡ t → j ≢ i)
      → leaf_written.memory (u + 8 * j) ≡ m.memory (u + 8 * j)
  leaf_other u l₂ q₂ j h hj away = write_ne m.memory (t + 8 * i) val (u + 8 * j) λ e.
      let fu = tree.table_frame u l₂ q₂ h in
      away (omega (arith, fu.aligned, ft.aligned)) (omega (arith, fu.aligned, ft.aligned))

  pub upper_word :
      (l₂ u q₂ j : ℕ)
      → role u ≡ some (suc l₂, q₂)
      → j < 512
      → leaf_written.memory (u + 8 * j) ≡ m.memory (u + 8 * j)
  upper_word l₂ u q₂ j h hj =
      leaf_other u (suc l₂) q₂ j h hj (λ e. absurd (clash q₂ (sym h ∙ ap role e ∙ rt)))
    where
      clash : (q₂ : ℕ) → ◌≡◌ {A = Option (ℕ × ℕ)} (some (suc l₂, q₂)) (some (0, q)) → ⊥
      clash q₂ e = cc

  -- Translations to other pages stay.
  pub walk_leaf_other :
      (l₂ u q₂ v : ℕ)
      → role u ≡ some (l₂, q₂)
      → page_from l₂ q₂ v ≢ q * 512 + i
      → walk leaf_written.memory l₂ u v ≡ walk m.memory l₂ u v
  unfolding page_from
  walk_leaf_other zero u q₂ v h ne = walk-leaf m.memory leaf_written.memory u v (
      leaf_other u zero q₂ (index 0 v) h (omega arith)
        λ e k. let prefix : q₂ ≡ q = same_prefix q₂ (sym h ∙ ap role e ∙ rt) in ne (omega arith))
    where
      same_prefix : (q₂ : ℕ) → ◌≡◌ {A = Option (ℕ × ℕ)} (some (0, q₂)) (some (0, q)) → q₂ ≡ q
      same_prefix q₂ e = ground arith
  walk_leaf_other (suc l₂) u q₂ v h ne =
      let j = index (suc l₂) v in
      let hj : j < 512 = mod-lt _ (omega arith) in
      walk-same m.memory leaf_written.memory l₂ u v (upper_word l₂ u q₂ j h hj)
        λ k. walk_leaf_other l₂ _ _ v (tree.link u l₂ q₂ j h hj (present_of_linked _ k)).1 ne

  -- The page itself is translated by the new entry.
  pub walk_leaf_here :
      (v : ℕ)
      → index 0 v ≡ i
      → present val ≡ true
      → walk leaf_written.memory 0 t v ≡ some (pse_ptr val + v % 4096)
  unfolding walk
  walk_leaf_here v at here = rw at (rw (write_self m.memory (t + 8 * i) val) (rw here refl))

  leaf_free : (y : ℕ) → has y free ≡ true → leaf_written.memory y ≡ m.memory y
  leaf_free y h =
      let fy = tree.free_frame y h in
      let y≢t : y ≢ t = λ (e : y ≡ t). cc (ap role e, tree.free_role y h, rt) in
      let start : y + 8 * 0 ≡ y = omega arith in
      subst (λ z. leaf_written.memory z ≡ m.memory z) start
        (write_ne m.memory (t + 8 * i) val (y + 8 * 0) (entry_ne 0 i fy ft (omega arith) hi y≢t))

  pub leaf_written-IsTree : IsTree leaf_written free role
  leaf_written-IsTree = record {
    pool = record {
      chain =
          IsFreeList-ext m.memory leaf_written.memory m.first_page_frame free leaf_free
            tree.pool.chain;
      distinct = tree.pool.distinct;
      counted = tree.pool.counted;
      bounded = tree.pool.bounded;
    };
    free_frame = tree.free_frame;
    free_role = tree.free_role;
    table_frame = tree.table_frame;
    link = λ u l₂ q₂ j h hj here.
        let same = upper_word l₂ u q₂ j h hj in
        rw same (tree.link u l₂ q₂ j h hj (rw same at here));
  }

-- Walks to one page start at one prefix.
pub page_from-prefix : (level q q' v w : ℕ) → page_from level q v ≡ page_from level q' w → q ≡ q'
unfolding page_from
page_from-prefix zero q q' v w e = omega arith
page_from-prefix (suc level) q q' v w e =
    omega (arith, page_from-prefix level (q * 512 + index (suc level) v) _ v w e)

pub page_from-block :
    (level q q' v w : ℕ) → page_from level q v / 512 ≡ page_from level q' w / 512 → q ≡ q'
unfolding page_from
page_from-block zero q q' v w e = omega arith
page_from-block (suc level) q q' v w e =
    omega (arith, page_from-block level (q * 512 + index (suc level) v) _ v w e)
