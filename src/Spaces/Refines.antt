-- ===== src/Spaces/Refines.antt =====
-- The kernel's page tables implement the specification of the address spaces.
use flux_kernel.Prelude.{
  ℕ, ◌+◌, ◌≤◌, ◌≡◌, refl, true, none, some, Option, List, [], ◌∷◌, ◌++◌, length, arith, ap, ◌∙◌,
  sym, subst, get_elem?, set, Bool-cases, Option-cases, inl, inr,
}
use flux_kernel.Machine.{Machine, ok}
use flux_kernel.Frames.Pool.{taken}
use flux_kernel.Paging.{map_page_specific_pml4}
use flux_kernel.Frames.{get_phys_block}
use flux_kernel.Paging.Walk.{translate, missing-le, present}
use flux_kernel.Paging.Tree.{Roles}
use flux_kernel.Paging.Link.{IsFlags, with_role}
use flux_kernel.Paging.Map.{IsMapped, map_page_specific_pml4-IsMapped}
use flux_kernel.Paging.Root.{get_phys_block-IsTaken, root_self, root_kept, root-IsTree, root_empty}
use flux_kernel.KernelMap.Range.{in_range, translate-IsMapped}
use flux_kernel.Spaces.{
  Request, create, map_in, carry_out, Space, empty, mapped, allowed, step, spec,
}
use flux_kernel.Spaces.Represents.{
  IsState, Represents, Represents-same, Represents-more, Represents-at, Represents-set,
}

-- The kernel carries out the requests, and ends in a state for the spaces that are specified.
abbrev pub Refines : List Request → List ℕ → Machine → Option (List Space) → Type 0
Refines rs roots m none = Unit
Refines rs roots m (some spaces') =
    (m' : Machine) × (roots' : List ℕ) × (free' : List ℕ) × (role' : Roles) × (carry_out rs roots m
      ≡ ok roots' m')
    × IsState m' free' role' roots' spaces'

allowed-IsFlags : (flags : ℕ) → allowed flags ≡ true → IsFlags flags
allowed-IsFlags flags h = (ground arith, ground arith)

length-Represents :
    (mem : ℕ → ℕ) (role : Roles) (q : ℕ) (roots : List ℕ) (spaces : List Space)
    → Represents mem role q roots spaces
    → length roots ≡ length spaces
length-Represents mem role q [] [] h = refl
length-Represents mem role q [] (s ∷ spaces) h = elim h [ ]
length-Represents mem role q (r ∷ roots) [] h = elim h [ ]
length-Represents mem role q (r ∷ roots) (s ∷ spaces) (at, reads, h) =
    omega (arith, length-Represents mem role (q + 1) roots spaces h)

-- A new address space.
module _ (m : Machine) (x : ℕ) (free : List ℕ) (role : Roles) (roots : List ℕ) (spaces : List Space)
    (state : IsState m (x ∷ free) role roots spaces) where
  created_role : Roles
  created_role = with_role role x (3, length roots)

  created-IsState : IsState (taken m) free created_role (roots ++ (x ∷ [])) (spaces ++ (empty ∷ []))
  unfolding created_role
  created-IsState =
      let t = get_phys_block-IsTaken m x free role state.tree in
      let blank = state.blank x (ground arith) in
      let q = length roots in
      let zero_q : length roots ≡ 0 + length roots = omega arith in
      let self = root_self (taken m) free role t.tree x q t.frame t.no_role t.not_free blank in
      let kept = root_kept (taken m) free role t.tree x q t.frame t.no_role t.not_free blank in
      record {
        tree = root-IsTree (taken m) free role t.tree x q t.frame t.no_role t.not_free blank;
        blank = λ y h. state.blank y (ground arith);
        represents =
            Represents-more m.memory (with_role role x (3, q)) 0 roots spaces x empty
              (Represents-same m.memory m.memory role (with_role role x (3, q)) 0 roots spaces
                (λ u q₂ le h. (kept u 3 q₂ h, λ w. refl)) state.represents)
              (subst (λ n. with_role role x (3, q) x ≡ some (3, n)) zero_q self)
              (root_empty (taken m) free role t.tree x q t.frame t.no_role t.not_free blank);
      }

-- A page in one of the address spaces.
module _ (m : Machine) (free : List ℕ) (role : Roles) (roots : List ℕ) (spaces : List Space)
    (state : IsState m free role roots spaces) (k root paddr v : ℕ) (space : Space) (m' : Machine)
    (found : get_elem? roots k ≡ some root) (reads : (w : ℕ) → translate m.memory root w ≡ space w)
    (mapping : IsMapped m free role root k paddr v m') where
  mapped-IsState :
      IsState m' mapping.free' mapping.role' roots (set spaces k (mapped paddr v space))
  mapped-IsState = record {
    tree = mapping.tree;
    blank = λ y h j hj.
        ap present
          (mapping.untouched y j (mapping.tree.free_frame y h) hj (mapping.tree.free_role y h))
        ∙ state.blank y (mapping.fewer y h) j hj;
    represents =
        Represents-set m.memory m'.memory role mapping.role' 0 roots spaces k root
          (mapped paddr v space) state.represents found (λ u q₂ h. mapping.kept u 3 q₂ h)
          (λ u q₂ h ne w. mapping.elsewhere u q₂ w h (λ e. ne (omega (arith, e))))
          (λ w.
            translate-IsMapped m m' free role root k paddr v w mapping
            ∙ ap (λ old. in_range paddr v 1 w old) (reads w));
  }

-- The frames that the requests take at most.
abbrev pub cost : List Request → ℕ
cost [] = 0
cost (create ∷ rs) = 1 + cost rs
cost (map_in k paddr vaddr flags ∷ rs) = 3 + cost rs

-- A request more in front.
Refines-create :
    (rs : List Request) (roots : List ℕ) (m : Machine) (x : ℕ) (out : Option (List Space))
    → get_phys_block m ≡ ok x (taken m)
    → Refines rs (roots ++ (x ∷ [])) (taken m) out
    → Refines (create ∷ rs) roots m out
unfolding carry_out
Refines-create rs roots m x none run h = tt
Refines-create rs roots m x (some spaces') run (m', roots', free', role', runs, state) =
    (m', roots', free', role', rw (carry_out, run) runs, state)

Refines-map_in :
    (rs : List Request) (roots : List ℕ) (m : Machine) (k paddr v flags root : ℕ) (m₁ : Machine)
    (out : Option (List Space))
    → get_elem? roots k ≡ some root
    → map_page_specific_pml4 root paddr v flags m ≡ ok tt m₁
    → Refines rs roots m₁ out
    → Refines (map_in k paddr v flags ∷ rs) roots m out
unfolding carry_out
Refines-map_in rs roots m k paddr v flags root m₁ none found run h = tt
Refines-map_in rs roots m k paddr v flags root m₁ (some spaces') found run
      (m', roots', free', role', runs, state) =
    (m', roots', free', role', rw (carry_out, found, run) runs, state)

-- The specification of a sequence of requests, from that of its first one.
spec-step :
    (r : Request) (rs : List Request) (spaces spaces' : List Space)
    → step r spaces ≡ some spaces'
    → spec (r ∷ rs) spaces ≡ spec rs spaces'
unfolding spec
spec-step r rs spaces spaces' e = rw (spec, e) refl

spec-refused :
    (r : Request) (rs : List Request) (spaces : List Space)
    → step r spaces ≡ none
    → spec (r ∷ rs) spaces ≡ none
unfolding spec
spec-refused r rs spaces e = rw (spec, e) refl

-- A page of a space that is there, with flags that are allowed.
mapped_page :
    (m : Machine) (free : List ℕ) (role : Roles) (roots : List ℕ) (spaces : List Space)
    (k paddr v flags : ℕ) (space : Space)
    → IsState m free role roots spaces
    → allowed flags ≡ true
    → get_elem? spaces k ≡ some space
    → 3 ≤ length free
    → (root : ℕ) × (m₁ : Machine) × (free₁ : List ℕ) × (role₁ : Roles) × (get_elem? roots k
        ≡ some root)
      × (map_page_specific_pml4 root paddr v flags m ≡ ok tt m₁)
      × (length free ≤ length free₁ + 3)
      × IsState m₁ free₁ role₁ roots (set spaces k (mapped paddr v space))
mapped_page m free role roots spaces k paddr v flags space state good there enough =
    let (root, found, at, reads) =
      Represents-at m.memory role 0 roots spaces k space state.represents there in
    let at_k : role root ≡ some (3, k) = subst (λ n. role root ≡ some (3, n)) (omega arith) at in
    let three = missing-le m.memory 3 root v in
    let (m₁, run, mapping) =
      map_page_specific_pml4-IsMapped m free role root k paddr v flags state.tree at_k
        (allowed-IsFlags flags good) (omega (arith, three)) in
    (
      root,
      m₁,
      mapping.free',
      mapping.role',
      found,
      run,
      omega (arith, mapping.used, three),
      mapped-IsState m free role roots spaces state k root paddr v space m₁ found reads mapping,
    )

-- In a state that represents address spaces, with as many clear free frames as the requests take at
-- most, the kernel carries out every sequence of requests that the specification has an answer to,
-- without a fault, and ends in a state that represents the specified address spaces.
pub carry_out-Refines :
    (rs : List Request) (m : Machine) (free : List ℕ) (role : Roles) (roots : List ℕ)
    (spaces : List Space)
    → IsState m free role roots spaces
    → cost rs ≤ length free
    → Refines rs roots m (spec rs spaces)
unfolding carry_out spec
carry_out-Refines [] m free role roots spaces state enough = (m, roots, free, role, refl, state)
carry_out-Refines (create ∷ rs) m [] role roots spaces state enough = absurd (omega arith)
carry_out-Refines (create ∷ rs) m (x ∷ free) role roots spaces state enough =
    let t = get_phys_block-IsTaken m x free role state.tree in
    Refines-create rs roots m x (spec rs (spaces ++ (empty ∷ []))) t.run (
      carry_out-Refines rs (taken m) free (created_role m x free role roots spaces state)
        (roots ++ (x ∷ [])) (spaces ++ (empty ∷ []))
        (created-IsState m x free role roots spaces state) (omega arith))
carry_out-Refines (map_in k paddr v flags ∷ rs) m free role roots spaces state enough =
    let r = map_in k paddr v flags in
    let refused = λ (e : step r spaces ≡ none).
      subst (Refines (r ∷ rs) roots m) (sym (spec-refused r rs spaces e)) tt in
    elim (Bool-cases (allowed flags)) [
      | inr bad ↦ refused (ground arith)
      | inl good ↦ elim (Option-cases (get_elem? spaces k)) [
        | inl absent ↦ refused (ground arith)
        | inr (space, there) ↦
            let spaces' = set spaces k (mapped paddr v space) in
            let (root, m₁, free₁, role₁, found, run, used, state₁) =
              mapped_page m free role roots spaces k paddr v flags space state good there
                (omega arith) in
            let e : step r spaces ≡ some spaces' = ground arith in
            subst (Refines (r ∷ rs) roots m) (sym (spec-step r rs spaces spaces' e)) (
              Refines-map_in rs roots m k paddr v flags root m₁ (spec rs spaces') found run
                (carry_out-Refines rs m₁ free₁ role₁ roots spaces' state₁ (omega arith)))
      ]
    ]
