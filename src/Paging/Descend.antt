-- ===== src/Paging/Descend.antt =====
-- Mapping a page from a table of any level downwards.
use native.Mathlib.Nat.{mod-lt}
use flux_kernel.Prelude.{ℕ, zero, suc, ◌+◌, ◌*◌, ◌%◌, ◌/◌, ◌<◌, ◌≤◌, ◌≡◌, refl, true, some}
use flux_kernel.Prelude.{List, length, arith, ◌∙◌, ap, subst, ◌==◌}
use flux_kernel.Machine.{Machine, ok}
use flux_kernel.Structures.{pse_ptr}
use flux_kernel.Structures.Entry.{entry, pse_ptr-entry, entry-present, index}
use flux_kernel.Paging.Walk.{present, linked, walk, walk-follow, missing, missing-follow}
use flux_kernel.Machine.{write_ne}
use flux_kernel.Paging.Untouched.{role_ne}
use flux_kernel.Paging.Tree.{Roles, IsTree}
use flux_kernel.Paging.Link.{IsFlags, entry_ne}
use flux_kernel.Paging.Enter.{Entered, enter_table-Entered, missing-absent}
use flux_kernel.Paging.Leaf.{
  page_from, page_from-prefix, page_from-block, leaf_written, walk_leaf_other,
}
use flux_kernel.Paging.Leaf.{walk_leaf_here, leaf_written-IsTree, upper_word}
use flux_kernel.Paging.Below.{
  map_from, map_from-suc, not_free, no_role_before, Mapped, AgreesOutside-trans,
}

module _ (paddr v flags : ℕ) (fl : IsFlags flags) where
  abbrev Maps : ℕ → Machine → List ℕ → Roles → ℕ → ℕ → Type 0
  Maps level m free role t q =
      (m' : Machine) × (map_from level t paddr v flags m ≡ ok tt m')
      × Mapped m free role level t q paddr v m'

  above :
      (m : Machine) (free : List ℕ) (role : Roles) (tree : IsTree m free role) (t q i val : ℕ)
      (rt : role t ≡ some (0, q)) (hi : i < 512) (l₂ u q₂ j : ℕ)
      → role u ≡ some (l₂, q₂)
      → 0 < l₂
      → j < 512
      → (leaf_written m free role tree t q i val rt hi).memory (u + 8 * j) ≡ m.memory (u + 8 * j)
  above m free role tree t q i val rt hi zero u q₂ j h lt hj = elim lt [ ]
  above m free role tree t q i val rt hi (suc l₂) u q₂ j h lt hj =
      upper_word m free role tree t q i val rt hi l₂ u q₂ j h hj

  map_leaf :
      (m : Machine) (free : List ℕ) (role : Roles) (t q : ℕ)
      → IsTree m free role
      → role t ≡ some (0, q)
      → Maps 0 m free role t q
  unfolding map_from page_from
  map_leaf m free role t q tree rt =
      let i = index 0 v in
      let hi : i < 512 = mod-lt _ (omega arith) in
      let val = entry paddr flags in
      let here : present val ≡ true = ap (λ b. b == 1) (entry-present paddr flags fl.0) in
      (
        leaf_written m free role tree t q i val rt hi,
        refl,
        record {
          free' = free;
          role' = role;
          tree = leaf_written-IsTree m free role tree t q i val rt hi;
          kept = λ y l₂ q₂ h. h;
          here = λ w e.
              walk_leaf_here m free role tree t q i val rt hi w (omega arith) here
              ∙ ap (λ p. some (p + w % 4096)) (pse_ptr-entry paddr flags fl.0);
          others =
              λ l₂ u q₂ w h ne. walk_leaf_other m free role tree t q i val rt hi l₂ u q₂ w h ne;
          upper = above m free role tree t q i val rt hi;
          used = omega arith;
          complete = λ w e. unfold missing in refl;
          fewer = λ y h. h;
          fresh = λ y h out. h;
          untouched = λ y j fy hj h.
              write_ne m.memory (t + 8 * i) val (y + 8 * j)
                (entry_ne j i fy (tree.table_frame t 0 q rt) hj hi (role_ne role y t h rt));
          agrees = refl;
        },
      )

  -- A step, and what the levels below make of its result.
  map_step :
      (level : ℕ) (m m₁ m₂ : Machine) (free : List ℕ) (role : Roles) (t q r : ℕ)
      → role t ≡ some (suc level, q)
      → (e : Entered m free role t level q (index (suc level) v) m₁ r)
      → Mapped m₁ e.free' e.role' level r (q * 512 + index (suc level) v) paddr v m₂
      → Mapped m free role (suc level) t q paddr v m₂
  unfolding page_from
  map_step level m m₁ m₂ free role t q r rt e below =
      let i = index (suc level) v in
      let hi : i < 512 = mod-lt _ (omega arith) in
      let entry_kept = below.upper (suc level) t q i (e.kept t (suc level) q rt) (omega arith) hi in
      record {
        free' = below.free';
        role' = below.role';
        tree = below.tree;
        kept = λ y l₂ q₂ h. below.kept y l₂ q₂ (e.kept y l₂ q₂ h);
        here = λ w page.
            let at : index (suc level) w ≡ i =
              omega (arith, page_from-prefix level (q * 512 + index (suc level) w) _ w v page) in
            let word = ap (λ j. m₂.memory (t + 8 * j)) at ∙ entry_kept in
            walk-follow m₂.memory level t w (ap linked word ∙ e.links)
            ∙ ap (λ p. walk m₂.memory level p w) (ap pse_ptr word ∙ e.points)
            ∙ below.here w (
                subst (λ j. page_from level (q * 512 + j) w ≡ page_from level (q * 512 + i) v) at
                  page);
        others =
            λ l₂ u q₂ w h ne. below.others l₂ u q₂ w (e.kept u l₂ q₂ h) ne ∙ e.walks l₂ u q₂ w h;
        upper = λ l₂ u q₂ j h lt hj.
            below.upper l₂ u q₂ j (e.kept u l₂ q₂ h) (omega arith) hj ∙ e.upper l₂ u q₂ j h lt hj;
        used = omega (arith, below.used, e.cost v refl);
        complete = λ w near.
            let at : index (suc level) w ≡ i = omega (
              arith,
              page_from-block level (q * 512 + index (suc level) w) (q * 512 + i) w v near,
            ) in
            let word = ap (λ j. m₂.memory (t + 8 * j)) at ∙ entry_kept in
            missing-follow m₂.memory level t w (ap linked word ∙ e.links)
            ∙ ap (λ p. missing m₂.memory level p w) (ap pse_ptr word ∙ e.points)
            ∙ below.complete w (
                subst
                  (λ j.
                    page_from level (q * 512 + j) w / 512 ≡ page_from level (q * 512 + i) v / 512)
                  at near);
        fewer = λ y h. e.fewer y (below.fewer y h);
        fresh =
            λ y h out. below.fresh y (e.fresh y h out) (not_free e.free' free y (e.fewer y) out);
        untouched = λ y j fy hj h.
            below.untouched y j fy hj h
            ∙ e.untouched y j fy hj (no_role_before e.role' below.role' y below.kept h);
        agrees = AgreesOutside-trans m m₁ m₂ e.agrees below.agrees;
      }

  pub map_from-Maps :
      (level : ℕ) (m : Machine) (free : List ℕ) (role : Roles) (t q : ℕ)
      → IsTree m free role
      → role t ≡ some (level, q)
      → missing m.memory level t v ≤ length free
      → Maps level m free role t q
  map_from-Maps zero m free role t q tree rt enough = map_leaf m free role t q tree rt
  map_from-Maps (suc level) m free role t q tree rt enough =
      let i = index (suc level) v in
      let hi : i < 512 = mod-lt _ (omega arith) in
      let (m₁, r, run₁, e) =
        enter_table-Entered m role t level q i flags rt hi fl free tree
          (λ h. omega (arith, missing-absent m.memory level t v i refl h)) in
      let (m₂, run₂, below) =
        map_from-Maps level m₁ e.free' e.role' r (q * 512 + i) e.tree e.table
          (omega (arith, e.cost v refl)) in
      (
        m₂,
        map_from-suc paddr v flags level t m m₁ r run₁ ∙ run₂,
        map_step level m m₁ m₂ free role t q r rt e below,
      )
