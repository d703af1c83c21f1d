-- ===== src/Paging/Below.antt =====
-- `map_page_specific_pml4` from a table of any level downwards, and what it is meant to make.
use flux_kernel.Prelude.{ℕ, zero, suc, ◌+◌, ◌*◌, ◌%◌, ◌/◌, ◌<◌, ◌≤◌, ◌≡◌, refl, ◌≢◌, true, some}
use flux_kernel.Prelude.{List, length, ◌∙◌, ap}
use flux_kernel.Machine.{Machine, ok, Kernel, ◌>>=◌, store, and_then}
use flux_kernel.Structures.{pse_ptr}
use flux_kernel.Structures.Entry.{entry, index, extract-index}
use flux_kernel.Paging.{enter_table, map_page_specific_pml4}
use flux_kernel.Paging.Walk.{walk, missing}
use flux_kernel.Frames.Chain.{has}
use flux_kernel.Paging.Untouched.{role_ne}
use flux_kernel.Prelude.{Bool-cases, Option-cases, inl, inr, false, none}
use flux_kernel.Paging.Tree.{Roles, IsFrame, IsTree}
use flux_kernel.Paging.Enter.{AgreesOutside}
use flux_kernel.Paging.Leaf.{page_from}

-- The same, for a table of any level.
unfoldable pub map_from : ℕ → ℕ → ℕ → ℕ → ℕ → Kernel (Unit {0})
map_from zero table paddr v flags = store (table + 8 * index 0 v) (entry paddr flags)
map_from (suc level) table paddr v flags =
    enter_table (table + 8 * index (suc level) v) flags >>= λ next.
    map_from level next paddr v flags

pub map_from-three :
    (pml4 paddr v flags : ℕ) (m : Machine)
    → map_page_specific_pml4 pml4 paddr v flags m ≡ map_from 3 pml4 paddr v flags m
unfolding map_page_specific_pml4 map_from
map_from-three pml4 paddr v flags m =
    let (e₃, e₂, e₁, e₀, _) = extract-index v in rw (e₃, e₂, e₁, e₀) refl

pub map_from-suc :
    (paddr v flags level table : ℕ) (m m₁ : Machine) (r : ℕ)
    → enter_table (table + 8 * index (suc level) v) flags m ≡ ok r m₁
    → map_from (suc level) table paddr v flags m ≡ map_from level r paddr v flags m₁
unfolding map_from
map_from-suc paddr v flags level table m m₁ r run =
    ap (λ z. and_then z (λ next. map_from level next paddr v flags)) run

-- A frame that is not free is not free when fewer are, and one without a role had none.
pub not_free :
    (free' free : List ℕ) (y : ℕ)
    → (has y free' ≡ true → has y free ≡ true)
    → has y free ≡ false
    → has y free' ≡ false
not_free free' free y fewer out = elim (Bool-cases (has y free')) [
  | inl h ↦ cc (fewer h)
  | inr h ↦ h
]

pub no_role_before :
    (role role' : Roles) (y : ℕ)
    → ((y l q : ℕ) → role y ≡ some (l, q) → role' y ≡ some (l, q))
    → role' y ≡ none
    → role y ≡ none
no_role_before role role' y kept h = elim (Option-cases (role y)) [
  | inl e ↦ e
  | inr (r, e) ↦ absurd (role_ne role' y y h (kept y r.0 r.1 e) refl)
]

-- `m'` is what mapping `v` to `paddr` below the table `t` makes of `m`.
pub record Mapped (m : Machine) (free : List ℕ) (role : Roles) (level t q paddr v : ℕ)
    (m' : Machine) : Type 0 where
  pub free' : List ℕ
  pub role' : Roles
  pub tree : IsTree m' free' role'
  pub kept : (y l₂ q₂ : ℕ) → role y ≡ some (l₂, q₂) → role' y ≡ some (l₂, q₂)
  -- Every address of the page is translated to the frame.
  pub here :
      (w : ℕ)
      → page_from level q w ≡ page_from level q v
      → walk m'.memory level t w ≡ some (pse_ptr paddr + w % 4096)
  pub others :
      (l₂ u q₂ w : ℕ)
      → role u ≡ some (l₂, q₂)
      → page_from l₂ q₂ w ≢ page_from level q v
      → walk m'.memory l₂ u w ≡ walk m.memory l₂ u w
  pub upper :
      (l₂ u q₂ j : ℕ)
      → role u ≡ some (l₂, q₂)
      → level < l₂
      → j < 512
      → m'.memory (u + 8 * j) ≡ m.memory (u + 8 * j)
  pub used : length free ≤ length free' + missing m.memory level t v
  -- No table is missing for the pages beside that of `v`.
  pub complete :
      (w : ℕ)
      → page_from level q w / 512 ≡ page_from level q v / 512
      → missing m'.memory level t w ≡ 0
  pub fewer : (y : ℕ) → has y free' ≡ true → has y free ≡ true
  pub fresh : (y : ℕ) → role y ≡ none → has y free ≡ false → role' y ≡ none
  pub untouched :
      (y j : ℕ)
      → IsFrame y
      → j < 512
      → role' y ≡ none
      → m'.memory (y + 8 * j) ≡ m.memory (y + 8 * j)
  pub agrees : AgreesOutside m m'

pub AgreesOutside-trans :
    (m m₁ m₂ : Machine) → AgreesOutside m m₁ → AgreesOutside m₁ m₂ → AgreesOutside m m₂
AgreesOutside-trans m m₁ m₂ e f =
    f
    ∙ ap {A = Machine} {B = Machine}
        (λ z. record z {
          memory = m₂.memory;
          first_page_frame = m₂.first_page_frame;
          n_free_page_frames = m₂.n_free_page_frames;
        })
        e
