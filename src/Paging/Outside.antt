-- ===== src/Paging/Outside.antt =====
-- A write to a frame that is neither free nor a table changes nothing of the page tables.
use native.Mathlib.Nat.{mod-lt}
use flux_kernel.Prelude.{
  ℕ, zero, suc, ◌+◌, ◌*◌, ◌<◌, ◌≡◌, ◌≢◌, true, false, none, some, List, ap, subst, ◌%◌,
  if◌then◌else◌, arith,
}
use flux_kernel.Machine.{Machine, write, write_ne}
use flux_kernel.Structures.{pse_ptr}
use flux_kernel.Structures.Entry.{index}
use flux_kernel.Frames.Chain.{has}
use flux_kernel.Paging.Walk.{present, walk, walk-same, present_of_linked}
use flux_kernel.Paging.Tree.{Roles, IsFrame, IsTree}
use flux_kernel.Paging.Link.{entry_ne}
use flux_kernel.Paging.Grow.{IsFreeList-ext}

module _ (m : Machine) (free : List ℕ) (role : Roles) (tree : IsTree m free role) (y j v : ℕ)
    (fy : IsFrame y) (hj : j < 512) (ry : role y ≡ none) (out : has y free ≡ false) where
  abbrev pub written : Machine
  written = record m { memory = write m.memory (y + 8 * j) v }

  pub written-other :
      (u i : ℕ) → IsFrame u → i < 512 → u ≢ y → written.memory (u + 8 * i) ≡ m.memory (u + 8 * i)
  written-other u i fu hi ne =
      write_ne m.memory (y + 8 * j) v (u + 8 * i) (entry_ne i j fu fy hi hj ne)

  free_word : (u : ℕ) → has u free ≡ true → written.memory u ≡ m.memory u
  free_word u h =
      let ne : u ≢ y = λ e. cc (subst (λ z. has z free ≡ true) e h, out) in
      let start : u + 8 * 0 ≡ u = omega arith in
      subst (λ z. written.memory z ≡ m.memory z) start
        (written-other u 0 (tree.free_frame u h) (omega arith) ne)

  table_word :
      (t l q i : ℕ)
      → role t ≡ some (l, q)
      → i < 512
      → written.memory (t + 8 * i) ≡ m.memory (t + 8 * i)
  table_word t l q i h hi =
      written-other t i (tree.table_frame t l q h) hi (λ (e : t ≡ y). cc (ap role e, ry))

  pub written-IsTree : IsTree written free role
  written-IsTree = record {
    pool = record {
      chain =
          IsFreeList-ext m.memory written.memory m.first_page_frame free free_word tree.pool.chain;
      distinct = tree.pool.distinct;
      counted = tree.pool.counted;
      bounded = tree.pool.bounded;
    };
    free_frame = tree.free_frame;
    free_role = tree.free_role;
    table_frame = tree.table_frame;
    link = λ t l q i h hi p.
        rw (table_word t (suc l) q i h hi)
          (tree.link t l q i h hi (rw (table_word t (suc l) q i h hi) at p));
  }

  pub written-walk :
      (l u q w : ℕ) → role u ≡ some (l, q) → walk written.memory l u w ≡ walk m.memory l u w
  unfolding walk
  written-walk zero u q w h =
      let same = table_word u zero q (index 0 w) h (mod-lt _ (omega arith)) in
      ap (λ e. if present e then some (pse_ptr e + w % 4096) else none) same
  written-walk (suc l) u q w h =
      let hi = mod-lt _ (omega arith) in
      let same = table_word u (suc l) q (index (suc l) w) h hi in
      walk-same m.memory written.memory l u w same λ k.
        let (_, child) = tree.link u l q _ h hi (present_of_linked _ k) in
        written-walk l _ _ w child
