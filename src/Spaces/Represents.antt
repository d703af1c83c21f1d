-- ===== src/Spaces/Represents.antt =====
-- What it is for page tables to represent a list of address spaces.
use flux_kernel.Prelude.{
  ℕ, zero, suc, ◌+◌, ◌≡◌, ◌≢◌, refl, true, some, List, [], ◌∷◌, ◌++◌, get_elem?, set, length, arith,
  ap, ◌∙◌, sym, subst, ◌≤◌,
}
use flux_kernel.Machine.{Machine}
use flux_kernel.Frames.Chain.{has}
use flux_kernel.Paging.Walk.{translate}
use flux_kernel.Paging.Tree.{Roles, IsTree}
use flux_kernel.Paging.Root.{IsBlank}
use flux_kernel.Spaces.{Space}

-- The roots represent the spaces, with the numbers from `q` on.
abbrev pub Represents : (ℕ → ℕ) → Roles → ℕ → List ℕ → List Space → Type 0
Represents mem role q [] [] = Unit
Represents mem role q [] (space ∷ spaces) = ⊥
Represents mem role q (root ∷ roots) [] = ⊥
Represents mem role q (root ∷ roots) (space ∷ spaces) =
    (role root ≡ some (3, q))
    × ((w : ℕ) → translate mem root w ≡ space w)
    × Represents mem role (q + 1) roots spaces

-- Well-formed tables for a list of spaces, and free frames that are clear.
pub record IsState (m : Machine) (free : List ℕ) (role : Roles) (roots : List ℕ)
    (spaces : List Space) : Type 0 where
  pub tree : IsTree m free role
  pub blank : (y : ℕ) → has y free ≡ true → IsBlank m.memory y
  pub represents : Represents m.memory role 0 roots spaces

-- Other tables and memory, which keep the roots and the translations from them.
pub Represents-same :
    (mem mem' : ℕ → ℕ) (role role' : Roles) (q : ℕ) (roots : List ℕ) (spaces : List Space)
    → ((u q₂ : ℕ)
        → q ≤ q₂
        → role u ≡ some (3, q₂)
        → (role' u ≡ some (3, q₂)) × ((w : ℕ) → translate mem' u w ≡ translate mem u w))
    → Represents mem role q roots spaces
    → Represents mem' role' q roots spaces
Represents-same mem mem' role role' q [] [] same h = tt
Represents-same mem mem' role role' q [] (s ∷ spaces) same h = elim h [ ]
Represents-same mem mem' role role' q (root ∷ roots) [] same h = elim h [ ]
Represents-same mem mem' role role' q (root ∷ roots) (space ∷ spaces) same (at, reads, rest) =
    let (at', keep) = same root q (omega arith) at in
    (
      at',
      λ w. keep w ∙ reads w,
      Represents-same mem mem' role role' (q + 1) roots spaces (λ u q₂ le. same u q₂ (omega arith))
          rest,
    )

-- One more space, behind those that are there.
pub Represents-more :
    (mem : ℕ → ℕ) (role : Roles) (q : ℕ) (roots : List ℕ) (spaces : List Space) (x : ℕ)
    (space : Space)
    → Represents mem role q roots spaces
    → role x ≡ some (3, q + length roots)
    → ((w : ℕ) → translate mem x w ≡ space w)
    → Represents mem role q (roots ++ (x ∷ [])) (spaces ++ (space ∷ []))
Represents-more mem role q [] [] x space h at reads =
    let last : q + 0 ≡ q = omega arith in (subst (λ n. role x ≡ some (3, n)) last at, reads, tt)
Represents-more mem role q [] (s ∷ spaces) x space h at reads = elim h [ ]
Represents-more mem role q (root ∷ roots) [] x space h at reads = elim h [ ]
Represents-more mem role q (root ∷ roots) (s ∷ spaces) x space (at₀, reads₀, h) at reads =
    let next : q + suc (length roots) ≡ q + 1 + length roots = omega arith in
    (
      at₀,
      reads₀,
      Represents-more mem role (q + 1) roots spaces x space h
          (subst (λ n. role x ≡ some (3, n)) next at) reads,
    )

-- The space at an index, and its root.
pub Represents-at :
    (mem : ℕ → ℕ) (role : Roles) (q : ℕ) (roots : List ℕ) (spaces : List Space) (k : ℕ)
    (space : Space)
    → Represents mem role q roots spaces
    → get_elem? spaces k ≡ some space
    → (root : ℕ) × (get_elem? roots k ≡ some root)
      × (role root ≡ some (3, q + k))
      × ((w : ℕ) → translate mem root w ≡ space w)
Represents-at mem role q [] [] k space h e = absurd (cc e)
Represents-at mem role q [] (s ∷ spaces) k space h e = elim h [ ]
Represents-at mem role q (root ∷ roots) [] k space h e = elim h [ ]
Represents-at mem role q (root ∷ roots) (s ∷ spaces) zero space (at, reads, h) e =
    let first : q ≡ q + 0 = omega arith in
    let same : s ≡ space = cc in
    (root, refl, subst (λ n. role root ≡ some (3, n)) first at, λ w. reads w ∙ ap (λ f. f w) same)
Represents-at mem role q (root ∷ roots) (s ∷ spaces) (suc k) space (at, reads, h) e =
    let (r, found, at', reads') = Represents-at mem role (q + 1) roots spaces k space h e in
    let next : q + 1 + k ≡ q + suc k = omega arith in
    (r, found, subst (λ n. role r ≡ some (3, n)) next at', reads')

-- The space at an index changes, and no other.
pub Represents-set :
    (mem mem' : ℕ → ℕ) (role role' : Roles) (q : ℕ) (roots : List ℕ) (spaces : List Space)
    (k root : ℕ) (space : Space)
    → Represents mem role q roots spaces
    → get_elem? roots k ≡ some root
    → ((u q₂ : ℕ) → role u ≡ some (3, q₂) → role' u ≡ some (3, q₂))
    → ((u q₂ : ℕ)
        → role u ≡ some (3, q₂)
        → q₂ ≢ q + k
        → (w : ℕ) → translate mem' u w ≡ translate mem u w)
    → ((w : ℕ) → translate mem' root w ≡ space w)
    → Represents mem' role' q roots (set spaces k space)
Represents-set mem mem' role role' q [] [] k root space h e kept others here = absurd (cc e)
Represents-set mem mem' role role' q [] (s ∷ spaces) k root space h e kept others here = elim h [ ]
Represents-set mem mem' role role' q (r ∷ roots) [] k root space h e kept others here = elim h [ ]
Represents-set mem mem' role role' q (r ∷ roots) (s ∷ spaces) zero root space (at, reads, h) e kept
      others here =
    (
      kept r q at,
      let same : r ≡ root = cc in
          subst (λ y. (w : ℕ) → translate mem' y w ≡ space w) (sym same) here,
      Represents-same mem mem' role role' (q + 1) roots spaces
          (λ u q₂ le hu. (kept u q₂ hu, others u q₂ hu (omega arith))) h,
    )
Represents-set mem mem' role role' q (r ∷ roots) (s ∷ spaces) (suc k) root space (at, reads, h) e
      kept others here =
    (
      kept r q at,
      λ w. others r q at (omega arith) w ∙ reads w,
      Represents-set mem mem' role role' (q + 1) roots spaces k root space h e kept
          (λ u q₂ hu ne. others u q₂ hu (omega arith)) here,
    )
