-- ===== src/Paging/Untouched.antt =====
-- What a new table leaves alone: the words of every frame that is not a table afterwards.
use flux_kernel.Prelude.{ℕ, suc, ◌+◌, ◌*◌, ◌<◌, ◌≡◌, ◌≢◌, false, none, some, List, ◌∷◌, arith}
use flux_kernel.Prelude.{==_false}
use flux_kernel.Machine.{Machine}
use flux_kernel.Frames.Chain.{has, not-has-head}
use flux_kernel.Paging.Walk.{present}
use flux_kernel.Paging.Tree.{Roles, IsFrame, IsTree}
use flux_kernel.Paging.Link.{IsFlags, entry_ne, linked_memory_other}
use flux_kernel.Paging.Grow.{grown, grown_role, role_kept, role_new}

-- A frame with a role is not one without.
pub role_ne : (role : Roles) (y t : ℕ) {r : ℕ × ℕ} → role y ≡ none → role t ≡ some r → y ≢ t
role_ne role y t h h' e = cc

module _ (m : Machine) (role : Roles) (x : ℕ) (free : List ℕ) (tree : IsTree m (x ∷ free) role)
    (t l q i flags : ℕ) (rt : role t ≡ some (suc l, q)) (hi : i < 512)
    (absent : present (m.memory (t + 8 * i)) ≡ false) (fl : IsFlags flags) where
  abbrev role' : Roles
  role' = grown_role m role x free tree t l q i flags rt hi absent fl

  pub grown_untouched :
      (y j : ℕ)
      → IsFrame y
      → j < 512
      → role' y ≡ none
      → (grown m role x free tree t l q i flags rt hi absent fl).memory (y + 8 * j)
        ≡ m.memory (y + 8 * j)
  grown_untouched y j fy hj free_role =
      let ft = tree.table_frame t (suc l) q rt in
      let fx = tree.free_frame x (ground arith) in
      let t≢x : t ≢ x = λ (e : t ≡ x). cc (tree.free_role x (ground arith)) in
      let y≢x =
        role_ne role' y x free_role (role_new m role x free tree t l q i flags rt hi absent fl) in
      let y≢t =
        role_ne role' y t free_role
          (role_kept m role x free tree t l q i flags rt hi absent fl t (suc l) q rt) in
      linked_memory_other m.memory t x i flags ft fx hi t≢x y j fy hj y≢x
        (entry_ne j i fy ft hj hi y≢t)

  pub grown_fresh : (y : ℕ) → role y ≡ none → has y (x ∷ free) ≡ false → role' y ≡ none
  grown_fresh y h out = rw (==_false y x (not-has-head y x free out)) h
