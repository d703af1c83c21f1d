-- ===== src/Paging/Root.antt =====
-- Frames taken off the free list, and a frame that becomes the root of a new address space.
use flux_kernel.Prelude.{
  ℕ, suc, ◌+◌, ◌*◌, ◌^◌, ◌<◌, ◌≡◌, ◌≢◌, refl, true, false, none, some, List, ◌∷◌,
}
use flux_kernel.Prelude.{
  arith, ap, sym, ◌∙◌, subst, ◌==◌, ==_refl, ==_false, ==_true, Bool-cases, inl, inr,
}
use flux_kernel.Machine.{Machine, ok}
use flux_kernel.Structures.{pse_ptr}
use flux_kernel.Frames.{get_phys_block}
use flux_kernel.Frames.Chain.{has, IsFreeList}
use flux_kernel.Frames.Pool.{taken, get_phys_block-IsPool}
use flux_kernel.Structures.Entry.{index}
use flux_kernel.Paging.Walk.{present, linked, absent-linked, translate, walk-stop}
use flux_kernel.Paging.Tree.{Roles, IsFrame, IsTree}
use flux_kernel.Paging.Link.{with_role}
use native.Mathlib.Nat.{mod-lt}

-- The tables and frames of a machine are those of its memory and its free list.
pub IsTree-same :
    (m m' : Machine) (free : List ℕ) (role : Roles)
    → m'.memory ≡ m.memory
    → m'.first_page_frame ≡ m.first_page_frame
    → m'.n_free_page_frames ≡ m.n_free_page_frames
    → IsTree m free role
    → IsTree m' free role
IsTree-same m m' free role memory first count tree = record {
  pool = record {
    chain =
        subst (λ p. IsFreeList m'.memory p free) (sym first)
          (subst (λ mem. IsFreeList mem m.first_page_frame free) (sym memory) tree.pool.chain);
    distinct = tree.pool.distinct;
    counted = count ∙ tree.pool.counted;
    bounded = subst (λ n. n < 2 ^ 64) (sym count) tree.pool.bounded;
  };
  free_frame = tree.free_frame;
  free_role = tree.free_role;
  table_frame = tree.table_frame;
  link = λ t l q i h hi p.
      subst
        (λ mem.
          (linked (mem (t + 8 * i)) ≡ true)
          × (role (pse_ptr (mem (t + 8 * i))) ≡ some (l, q * 512 + i)))
        (sym memory)
        (tree.link t l q i h hi (ap (λ mem. present (mem (t + 8 * i))) (sym memory) ∙ p));
}

-- No entry of the frame `x` is present.
abbrev pub IsBlank : (ℕ → ℕ) → ℕ → Type 0
IsBlank mem x = (j : ℕ) → j < 512 → present (mem (x + 8 * j)) ≡ false

-- What `get_phys_block` hands out.
pub record IsTaken (m : Machine) (x : ℕ) (free : List ℕ) (role : Roles) : Type 0 where
  pub run : get_phys_block m ≡ ok x (taken m)
  pub tree : IsTree (taken m) free role
  pub frame : IsFrame x
  pub no_role : role x ≡ none
  pub not_null : x ≢ 0
  pub not_free : has x free ≡ false

pub get_phys_block-IsTaken :
    (m : Machine) (x : ℕ) (free : List ℕ) (role : Roles)
    → IsTree m (x ∷ free) role
    → IsTaken m x free role
get_phys_block-IsTaken m x free role tree =
    let (run, ne, out, rest) = get_phys_block-IsPool m x free tree.pool in
    record {
      run = run;
      tree = record {
        pool = rest;
        free_frame = λ y h. tree.free_frame y (ground arith);
        free_role = λ y h. tree.free_role y (ground arith);
        table_frame = tree.table_frame;
        link = tree.link;
      };
      frame = tree.free_frame x (ground arith);
      no_role = tree.free_role x (ground arith);
      not_null = ne;
      not_free = out;
    }

module _ (m : Machine) (free : List ℕ) (role : Roles) (tree : IsTree m free role) (x q : ℕ)
    (frame : IsFrame x) (no_role : role x ≡ none) (out : has x free ≡ false)
    (blank : IsBlank m.memory x) where
  abbrev pub root_role : Roles
  root_role = with_role role x (3, q)

  pub root_self : root_role x ≡ some (3, q)
  root_self = rw (==_refl x) refl

  pub root_kept : (y l q₂ : ℕ) → role y ≡ some (l, q₂) → root_role y ≡ some (l, q₂)
  root_kept y l q₂ h = rw (==_false y x (λ (e : y ≡ x). cc (ap role e, no_role))) h

  root_free : (y : ℕ) → has y free ≡ true → root_role y ≡ none
  root_free y h =
      rw (==_false y x (λ (e : y ≡ x). cc (subst (λ z. has z free ≡ true) e h)))
        (tree.free_role y h)

  root-IsFrame : (y l q₂ : ℕ) → root_role y ≡ some (l, q₂) → IsFrame y
  root-IsFrame y l q₂ h = elim (Bool-cases (y == x)) [
    | inl e ↦ subst IsFrame (sym (==_true y x e)) frame
    | inr e ↦ tree.table_frame y l q₂ (rw e at h)
  ]

  root_link :
      (t l q₂ i : ℕ)
      → root_role t ≡ some (suc l, q₂)
      → i < 512
      → present (m.memory (t + 8 * i)) ≡ true
      → (linked (m.memory (t + 8 * i)) ≡ true)
        × (root_role (pse_ptr (m.memory (t + 8 * i))) ≡ some (l, q₂ * 512 + i))
  root_link t l q₂ i h hi p = elim (Bool-cases (t == x)) [
    | inl e ↦ cc (blank i hi, subst (λ z. present (m.memory (z + 8 * i)) ≡ true) (==_true t x e) p)
    | inr e ↦
        let (links, child) = tree.link t l q₂ i (rw e at h) hi p in
        (links, root_kept _ l (q₂ * 512 + i) child)
  ]

  pub root-IsTree : IsTree m free root_role
  root-IsTree = record {
    pool = tree.pool;
    free_frame = tree.free_frame;
    free_role = root_free;
    table_frame = root-IsFrame;
    link = root_link;
  }

  -- Nothing is translated in the new address space.
  pub root_empty : (w : ℕ) → translate m.memory x w ≡ none
  root_empty w =
      walk-stop m.memory 2 x w (absent-linked _ (blank (index 3 w) (mod-lt _ (omega arith))))
