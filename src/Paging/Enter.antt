-- ===== src/Paging/Enter.antt =====
-- `enter_table` keeps the invariant and every translation, and leads to a table of the next level.
use flux_kernel.Prelude.{ℕ, suc, ◌+◌, ◌*◌, ◌<◌, ◌≡◌, refl, true, false, none, some, List, [], ◌∷◌}
use flux_kernel.Prelude.{length, arith, ◌∙◌, ap, ◌==◌, Bool-cases, inl, inr, bit_and}
use flux_kernel.Machine.{Machine, ok}
use flux_kernel.Structures.{pse_present, pse_ptr}
use flux_kernel.Structures.Entry.{present-odd}
use flux_kernel.Frames.{get_phys_block}
use flux_kernel.Frames.Pool.{taken, get_phys_block-IsPool}
use flux_kernel.Paging.{add_table, enter_table}
use flux_kernel.Structures.Entry.{index}
use flux_kernel.Frames.Chain.{has}
use flux_kernel.Paging.Walk.{
  present, linked, absent-linked, walk, missing, missing-empty, missing-follow, missing-stop,
}
use flux_kernel.Paging.Untouched.{grown_untouched, grown_fresh}
use flux_kernel.Paging.Tree.{Roles, IsFrame, IsTree}
use flux_kernel.Paging.Link.{linked_memory, IsFlags}
use flux_kernel.Paging.Grow.{grown, grown_role, grown-IsTree, walk_grown, role_new, role_kept}
use flux_kernel.Paging.Grow.{same_upper, grown_link, grown_empty}
use flux_kernel.Paging.Zero.{zero_paging_structure_run}

-- Only memory and the free list differ.
abbrev pub AgreesOutside : Machine → Machine → Type 0
AgreesOutside m m' = m' ≡ record m {
  memory = m'.memory;
  first_page_frame = m'.first_page_frame;
  n_free_page_frames = m'.n_free_page_frames;
}

-- `m'` and `r` are what the step at entry `i` of the table `t` makes of `m`.
pub record Entered (m : Machine) (free : List ℕ) (role : Roles) (t l q i : ℕ) (m' : Machine) (r : ℕ)
    : Type 0 where
  pub free' : List ℕ
  pub role' : Roles
  pub tree : IsTree m' free' role'
  pub table : role' r ≡ some (l, q * 512 + i)
  pub kept : (y l₂ q₂ : ℕ) → role y ≡ some (l₂, q₂) → role' y ≡ some (l₂, q₂)
  pub walks :
      (l₂ u q₂ v : ℕ) → role u ≡ some (l₂, q₂) → walk m'.memory l₂ u v ≡ walk m.memory l₂ u v
  pub upper :
      (l₂ u q₂ j : ℕ)
      → role u ≡ some (l₂, q₂)
      → suc l < l₂
      → j < 512
      → m'.memory (u + 8 * j) ≡ m.memory (u + 8 * j)
  pub links : linked (m'.memory (t + 8 * i)) ≡ true
  pub points : pse_ptr (m'.memory (t + 8 * i)) ≡ r
  -- A frame was used for a table that was missing, and for no other.
  pub cost :
      (v : ℕ)
      → index (suc l) v ≡ i
      → length free + missing m'.memory l r v ≡ length free' + missing m.memory (suc l) t v
  pub fewer : (y : ℕ) → has y free' ≡ true → has y free ≡ true
  pub fresh : (y : ℕ) → role y ≡ none → has y free ≡ false → role' y ≡ none
  pub untouched :
      (y j : ℕ)
      → IsFrame y
      → j < 512
      → role' y ≡ none
      → m'.memory (y + 8 * j) ≡ m.memory (y + 8 * j)
  pub agrees : AgreesOutside m m'

enter_table-present :
    (e flags : ℕ) (m : Machine)
    → present (m.memory e) ≡ true
    → enter_table e flags m ≡ ok (pse_ptr (m.memory e)) m
unfolding enter_table
enter_table-present e flags m h =
    let test : (bit_and (m.memory e) pse_present == 0) ≡ false =
      ground (arith, present-odd (m.memory e)) in
    rw test refl

add_table_run :
    (e flags x : ℕ) (m : Machine)
    → get_phys_block m ≡ ok x (taken m)
    → add_table e flags m ≡ ok tt (record (taken m) { memory = linked_memory m.memory e x flags })
unfolding add_table
add_table_run e flags x m run = rw (run, zero_paging_structure_run x (taken m)) refl

enter_table-absent :
    (e flags x : ℕ) (m : Machine)
    → present (m.memory e) ≡ false
    → get_phys_block m ≡ ok x (taken m)
    → enter_table e flags m
      ≡ ok
          (pse_ptr (linked_memory m.memory e x flags e))
          (record (taken m) { memory = linked_memory m.memory e x flags })
unfolding enter_table
enter_table-absent e flags x m h run =
    let test : (bit_and (m.memory e) pse_present == 0) ≡ true =
      ground (arith, present-odd (m.memory e)) in
    rw (test, add_table_run e flags x m run) refl

module _ (mem : ℕ → ℕ) (l t v i : ℕ) (at : index (suc l) v ≡ i) where
  missing-linked :
      linked (mem (t + 8 * i)) ≡ true
      → missing mem (suc l) t v ≡ missing mem l (pse_ptr (mem (t + 8 * i))) v
  missing-linked h =
      missing-follow mem l t v (ap (λ j. linked (mem (t + 8 * j))) at ∙ h)
      ∙ ap (λ j. missing mem l (pse_ptr (mem (t + 8 * j))) v) at

  pub missing-absent : present (mem (t + 8 * i)) ≡ false → missing mem (suc l) t v ≡ suc l
  missing-absent h =
      missing-stop mem l t v (ap (λ j. linked (mem (t + 8 * j))) at ∙ absent-linked _ h)

-- The result of the step: its machine, the table that it leads to, and what holds of them.
abbrev pub Enters : Machine → List ℕ → Roles → ℕ → ℕ → ℕ → ℕ → ℕ → Type 0
Enters m free role t l q i flags =
    (m' : Machine) × (r : ℕ) × (enter_table (t + 8 * i) flags m ≡ ok r m')
    × Entered m free role t l q i m' r

module _ (m : Machine) (role : Roles) (t l q i flags : ℕ) (rt : role t ≡ some (suc l, q))
    (hi : i < 512) (fl : IsFlags flags) where
  Enters-present :
      (free : List ℕ)
      → IsTree m free role
      → present (m.memory (t + 8 * i)) ≡ true
      → Enters m free role t l q i flags
  Enters-present free tree h =
      let (links, child) = tree.link t l q i rt hi h in
      (
        m,
        pse_ptr (m.memory (t + 8 * i)),
        enter_table-present (t + 8 * i) flags m h,
        record {
          free' = free;
          role' = role;
          tree = tree;
          table = child;
          kept = λ y l₂ q₂ h. h;
          walks = λ l₂ u q₂ v h. refl;
          upper = λ l₂ u q₂ j h above hj. refl;
          links = links;
          points = refl;
          cost = λ v at. omega (arith, missing-linked m.memory l t v i at links);
          fewer = λ y h. h;
          fresh = λ y h out. h;
          untouched = λ y j fy hj h. refl;
          agrees = refl;
        },
      )

  Enters-absent :
      (x : ℕ) (free : List ℕ)
      → IsTree m (x ∷ free) role
      → present (m.memory (t + 8 * i)) ≡ false
      → Enters m (x ∷ free) role t l q i flags
  Enters-absent x free tree h =
      let (run, ne, out, rest) = get_phys_block-IsPool m x free tree.pool in
      let (links, points) = grown_link m role x free tree t l q i flags rt hi h fl in
      (
        grown m role x free tree t l q i flags rt hi h fl,
        x,
        enter_table-absent (t + 8 * i) flags x m h run
            ∙ ap (λ p. ok p (grown m role x free tree t l q i flags rt hi h fl)) points,
        record {
          free' = free;
          role' = grown_role m role x free tree t l q i flags rt hi h fl;
          tree = grown-IsTree m role x free tree t l q i flags rt hi h fl;
          table = role_new m role x free tree t l q i flags rt hi h fl;
          kept = role_kept m role x free tree t l q i flags rt hi h fl;
          walks = walk_grown m role x free tree t l q i flags rt hi h fl;
          upper = same_upper m role x free tree t l q i flags rt hi h fl;
          links = links;
          points = points;
          cost = λ v at. omega (
            arith,
            missing-absent m.memory l t v i at h,
            missing-empty (grown m role x free tree t l q i flags rt hi h fl).memory l x v
                (grown_empty m role x free tree t l q i flags rt hi h fl),
          );
          fewer = λ y h. ground arith;
          fresh = grown_fresh m role x free tree t l q i flags rt hi h fl;
          untouched = grown_untouched m role x free tree t l q i flags rt hi h fl;
          agrees = refl;
        },
      )

  -- On well-formed page tables, with a frame free if the entry is not present, and for flags in the
  -- low 12 bits that do not ask for a large page, the step at an entry of a table of an upper level
  -- returns a table of the next level; the tables are well formed again, every translation is as
  -- before, and only memory and the free list changed.
  pub enter_table-Entered :
      (free : List ℕ)
      → IsTree m free role
      → (present (m.memory (t + 8 * i)) ≡ false → 0 < length free)
      → Enters m free role t l q i flags
  enter_table-Entered free tree enough = elim (Bool-cases (present (m.memory (t + 8 * i)))) [
    | inl h ↦ Enters-present free tree h
    | inr h ↦ absent free tree (enough h) h
  ]
    where
      absent :
          (free : List ℕ)
          → IsTree m free role
          → 0 < length free
          → present (m.memory (t + 8 * i)) ≡ false
          → Enters m free role t l q i flags
      absent [] tree pos h = elim pos [ ]
      absent (x ∷ free) tree pos h = Enters-absent x free tree h
