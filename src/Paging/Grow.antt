-- ===== src/Paging/Grow.antt =====
-- The invariant after a free frame became an empty table behind an entry that was not present.
use flux_kernel.Prelude.{ℕ, zero, suc, ◌+◌, ◌*◌, ◌<◌, ◌≡◌, refl, ◌≢◌, true, false}
use flux_kernel.Prelude.{Option, none, some, List, [], ◌∷◌, arith, sym, ◌∙◌, ap, subst}
use flux_kernel.Prelude.{◌==◌, Bool-cases, inl, inr, ==_true, ==_false, ==_refl}
use flux_kernel.Machine.{Machine}
use flux_kernel.Structures.{pse_ptr}
use flux_kernel.Structures.Entry.{
  entry, pse_ptr-entry, entry-present, entry-large, pse_ptr-aligned, index,
}
use flux_kernel.Frames.Chain.{has, IsFreeList}
use flux_kernel.Frames.Pool.{IsPool, taken, get_phys_block-IsPool}
use flux_kernel.Paging.Walk.{
  present, linked, walk, walk-follow, walk-stop, walk-leaf, walk-empty, walk-same,
}
use flux_kernel.Paging.Walk.{present_of_linked, absent-linked}
use native.Mathlib.Nat.{mod-lt}
use flux_kernel.Paging.Tree.{Roles, IsFrame, IsTree}
use flux_kernel.Paging.Link.{with_role, linked_memory, IsFlags, entry_ne}
use flux_kernel.Paging.Link.{linked_memory_self, linked_memory_new, linked_memory_other}

entry-linked : (x flags : ℕ) → IsFlags flags → linked (entry x flags) ≡ true
entry-linked x flags h = ground (arith, entry-present x flags h.0, entry-large x flags h.0)

pub IsFreeList-ext :
    (mem mem' : ℕ → ℕ) (p : ℕ) (xs : List ℕ)
    → ((y : ℕ) → has y xs ≡ true → mem' y ≡ mem y)
    → IsFreeList mem p xs
    → IsFreeList mem' p xs
IsFreeList-ext mem mem' p [] same h = h
IsFreeList-ext mem mem' p (x ∷ xs) same (e, ne, rest) = (
  e,
  ne,
  rw (same x (ground arith))
      (IsFreeList-ext mem mem' (mem x) xs (λ y h. same y (ground (arith, h))) rest),
)

module _ (m : Machine) (role : Roles) (x : ℕ) (free : List ℕ) (tree : IsTree m (x ∷ free) role)
    (t l q i flags : ℕ) (rt : role t ≡ some (suc l, q)) (hi : i < 512)
    (absent : present (m.memory (t + 8 * i)) ≡ false) (fl : IsFlags flags) where
  abbrev pub grown : Machine
  grown = record (taken m) { memory = linked_memory m.memory (t + 8 * i) x flags }

  abbrev pub grown_role : Roles
  grown_role = with_role role x (l, q * 512 + i)

  x-IsFrame : IsFrame x
  x-IsFrame = tree.free_frame x (ground arith)

  x-free : role x ≡ none
  x-free = tree.free_role x (ground arith)

  table_ne : (u l₂ q₂ : ℕ) → role u ≡ some (l₂, q₂) → u ≢ x
  table_ne u l₂ q₂ h e = cc (x-free)

  free_ne : (y : ℕ) → has y free ≡ true → y ≢ x
  free_ne y h e = cc (subst (λ z. has z free ≡ true) e h, tree.pool.distinct.0)

  pub role_kept : (y l₂ q₂ : ℕ) → role y ≡ some (l₂, q₂) → grown_role y ≡ some (l₂, q₂)
  role_kept y l₂ q₂ h = rw (==_false y x (table_ne y l₂ q₂ h)) h

  pub role_new : grown_role x ≡ some (l, q * 512 + i)
  role_new = rw (==_refl x) refl

  -- The words of the tables that were there, but for the new entry.
  same_word :
      (u j l₂ q₂ : ℕ)
      → role u ≡ some (l₂, q₂)
      → j < 512
      → u + 8 * j ≢ t + 8 * i
      → grown.memory (u + 8 * j) ≡ m.memory (u + 8 * j)
  same_word u j l₂ q₂ h hj away =
      linked_memory_other m.memory t x i flags (tree.table_frame t (suc l) q rt) x-IsFrame hi
        (table_ne t (suc l) q rt) u j (tree.table_frame u l₂ q₂ h) hj (table_ne u l₂ q₂ h) away

  free_word : (y : ℕ) → has y free ≡ true → grown.memory y ≡ m.memory y
  free_word y h =
      let fy = tree.free_frame y (ground arith) in
      let ry = tree.free_role y (ground arith) in
      let ft = tree.table_frame t (suc l) q rt in
      let y≢t : y ≢ t = λ (e : y ≡ t). cc (subst (λ z. role z ≡ none) e ry, rt) in
      let start : y + 8 * 0 ≡ y = omega arith in
      subst (λ z. grown.memory z ≡ m.memory z) start
        (linked_memory_other m.memory t x i flags ft x-IsFrame hi (table_ne t (suc l) q rt) y 0 fy
          (omega arith) (free_ne y h) (entry_ne 0 i fy ft (omega arith) hi y≢t))

  grown-IsPool : IsPool grown free
  grown-IsPool =
      let (run, ne, out, rest) = get_phys_block-IsPool m x free tree.pool in
      record {
        chain =
            IsFreeList-ext m.memory grown.memory (taken m).first_page_frame free free_word
              rest.chain;
        distinct = rest.distinct;
        counted = rest.counted;
        bounded = rest.bounded;
      }

  ft : IsFrame t
  ft = tree.table_frame t (suc l) q rt

  t≢x : t ≢ x
  t≢x = table_ne t (suc l) q rt

  entry_points : pse_ptr (entry x flags) ≡ x
  entry_points = pse_ptr-entry x flags fl.0 ∙ pse_ptr-aligned x x-IsFrame.aligned x-IsFrame.small

  -- Two entries at one address are one entry.
  here_is :
      (u j l₂ q₂ : ℕ)
      → role u ≡ some (l₂, q₂)
      → j < 512
      → u + 8 * j ≡ t + 8 * i
      → (u + 8 * j ≡ t + 8 * i) × (u ≡ t) × (j ≡ i) × (l₂ ≡ suc l) × (q₂ ≡ q)
  here_is u j l₂ q₂ h hj e =
      let fu = tree.table_frame u l₂ q₂ h in
      let same : u ≡ t = omega (arith, fu.aligned, ft.aligned) in
      let roles : ◌≡◌ {A = Option (ℕ × ℕ)} (some (l₂, q₂)) (some (suc l, q)) =
        sym h ∙ ap role same ∙ rt in
      (e, same, omega arith, ground arith, ground arith)

  -- An entry of a table other than the new one links to the table of its addresses.
  link_kept :
      (u l₂ q₂ j : ℕ)
      → role u ≡ some (suc l₂, q₂)
      → j < 512
      → present (grown.memory (u + 8 * j)) ≡ true
      → (linked (grown.memory (u + 8 * j)) ≡ true)
        × (grown_role (pse_ptr (grown.memory (u + 8 * j))) ≡ some (l₂, q₂ * 512 + j))
  link_kept u l₂ q₂ j h hj here = elim (Bool-cases (u + 8 * j == t + 8 * i)) [
    | inl e ↦
        let (at, same, index_same, level_same, prefix_same) =
          here_is u j (suc l₂) q₂ h hj (==_true (u + 8 * j) (t + 8 * i) e) in
        let self =
          ap grown.memory at ∙ linked_memory_self m.memory t x i flags ft x-IsFrame hi t≢x in
        (
          ap linked self ∙ entry-linked x flags fl,
          ap grown_role (ap pse_ptr self ∙ entry_points) ∙ role_new ∙ ground arith,
        )
    | inr e ↦
        let same = same_word u j (suc l₂) q₂ h hj (λ e'. cc (e, ==_refl (u + 8 * j))) in
        let (linked_here, child) = tree.link u l₂ q₂ j h hj (rw same at here) in
        rw same (linked_here, role_kept _ l₂ _ child)
  ]

  grown-IsFrame : (y l₂ q₂ : ℕ) → grown_role y ≡ some (l₂, q₂) → IsFrame y
  grown-IsFrame y l₂ q₂ h = elim (Bool-cases (y == x)) [
    | inl e ↦ subst IsFrame (sym (==_true y x e)) x-IsFrame
    | inr e ↦ tree.table_frame y l₂ q₂ (rw e at h)
  ]

  link_grown :
      (u l₂ q₂ j : ℕ)
      → grown_role u ≡ some (suc l₂, q₂)
      → j < 512
      → present (grown.memory (u + 8 * j)) ≡ true
      → (linked (grown.memory (u + 8 * j)) ≡ true)
        × (grown_role (pse_ptr (grown.memory (u + 8 * j))) ≡ some (l₂, q₂ * 512 + j))
  link_grown u l₂ q₂ j h hj here = elim (Bool-cases (u == x)) [
    | inl e ↦
        let empty = linked_memory_new m.memory t x i flags ft x-IsFrame hi t≢x j hj in
        let here' : present 0 ≡ true =
          ap present (sym (ap (λ z. grown.memory (z + 8 * j)) (==_true u x e) ∙ empty)) ∙ here in
        cc
    | inr e ↦ link_kept u l₂ q₂ j (rw e at h) hj here
  ]

  pub grown-IsTree : IsTree grown free grown_role
  grown-IsTree = record {
    pool = grown-IsPool;
    free_frame = λ y h. tree.free_frame y (ground arith);
    free_role = λ y h. rw (==_false y x (free_ne y h)) (tree.free_role y (ground arith));
    table_frame = grown-IsFrame;
    link = link_grown;
  }

  pub grown_empty : (j : ℕ) → j < 512 → grown.memory (x + 8 * j) ≡ 0
  grown_empty = linked_memory_new m.memory t x i flags ft x-IsFrame hi t≢x

  -- Through the new entry the walk ends, as it did before.
  walk_new :
      (l₂ u v : ℕ)
      → u + 8 * index (suc l₂) v ≡ t + 8 * i
      → walk grown.memory (suc l₂) u v ≡ walk m.memory (suc l₂) u v
  walk_new l₂ u v at =
      let self = ap grown.memory at ∙ linked_memory_self m.memory t x i flags ft x-IsFrame hi t≢x in
      walk-follow grown.memory l₂ u v (ap linked self ∙ entry-linked x flags fl)
      ∙ ap (λ w. walk grown.memory l₂ (pse_ptr w) v) self
      ∙ ap (λ p. walk grown.memory l₂ p v) entry_points
      ∙ walk-empty grown.memory l₂ x v grown_empty
      ∙ sym (walk-stop m.memory l₂ u v (ap linked (ap m.memory at) ∙ absent-linked _ absent))

  -- No translation changes.
  pub walk_grown :
      (l₂ u q₂ v : ℕ) → role u ≡ some (l₂, q₂) → walk grown.memory l₂ u v ≡ walk m.memory l₂ u v
  walk_grown zero u q₂ v h =
      let fu = tree.table_frame u zero q₂ h in
      let u≢t : u ≢ t = λ (e : u ≡ t). cc (ap role e, h, rt) in
      walk-leaf m.memory grown.memory u v (
        same_word u (index 0 v) zero q₂ h (omega arith)
          (entry_ne (index 0 v) i fu ft (omega arith) hi u≢t))
  walk_grown (suc l₂) u q₂ v h =
      let j = index (suc l₂) v in
      let hj : j < 512 = mod-lt _ (omega arith) in
      elim (Bool-cases (u + 8 * j == t + 8 * i)) [
        | inl e ↦ walk_new l₂ u v (==_true (u + 8 * j) (t + 8 * i) e)
        | inr e ↦
            let same = same_word u j (suc l₂) q₂ h hj (λ e'. cc (e, ==_refl (u + 8 * j))) in
            walk-same m.memory grown.memory l₂ u v same λ k.
              let (_, child) = tree.link u l₂ q₂ j h hj (present_of_linked _ k) in
              walk_grown l₂ _ _ v child
      ]

  pub same_upper :
      (l₂ u q₂ j : ℕ)
      → role u ≡ some (l₂, q₂)
      → suc l < l₂
      → j < 512
      → grown.memory (u + 8 * j) ≡ m.memory (u + 8 * j)
  same_upper l₂ u q₂ j h above hj =
      let fu = tree.table_frame u l₂ q₂ h in
      let u≢t : u ≢ t = λ (e : u ≡ t). same_level l₂ q₂ (sym h ∙ ap role e ∙ rt) above in
      same_word u j l₂ q₂ h hj (entry_ne j i fu ft hj hi u≢t)
    where
      same_level :
          (l₂ q₂ : ℕ) → ◌≡◌ {A = Option (ℕ × ℕ)} (some (l₂, q₂)) (some (suc l, q)) → suc l < l₂ → ⊥
      same_level l₂ q₂ e above = ground arith

  pub grown_link :
      (linked (grown.memory (t + 8 * i)) ≡ true) × (pse_ptr (grown.memory (t + 8 * i)) ≡ x)
  grown_link =
      let self = linked_memory_self m.memory t x i flags ft x-IsFrame hi t≢x in
      (ap linked self ∙ entry-linked x flags fl, ap pse_ptr self ∙ entry_points)
