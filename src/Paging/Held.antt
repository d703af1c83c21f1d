-- ===== src/Paging/Held.antt =====
-- A variable in memory that mapping pages leaves alone.
use flux_kernel.Prelude.{ℕ, ◌+◌, ◌*◌, ◌<◌, ◌≡◌, false, none, List, ap, ◌∙◌, sym}
use flux_kernel.Machine.{Machine}
use flux_kernel.Frames.Chain.{has}
use flux_kernel.Paging.Tree.{Roles, IsFrame}
use flux_kernel.Paging.Below.{not_free}
use flux_kernel.Paging.Change.{Grows}

-- A word that is neither in a free frame nor in a table, and holds `x`.
pub record IsHeld (m : Machine) (free : List ℕ) (role : Roles) (p x : ℕ) : Type 0 where
  pub frame : ℕ
  pub slot : ℕ
  pub at : p ≡ frame + 8 * slot
  pub aligned : IsFrame frame
  pub inside : slot < 512
  pub no_role : role frame ≡ none
  pub not_free : has frame free ≡ false
  pub holds : m.memory p ≡ x

pub Grows-IsHeld :
    (q : ℕ) (m : Machine) (free : List ℕ) (role : Roles) (m' : Machine) (free' : List ℕ)
    (role' : Roles) (p x : ℕ)
    → Grows q m free role m' free' role'
    → IsHeld m free role p x
    → IsHeld m' free' role' p x
Grows-IsHeld q m free role m' free' role' p x grows held =
    let no_role' = grows.fresh held.frame held.no_role held.not_free in
    record {
      frame = held.frame;
      slot = held.slot;
      at = held.at;
      aligned = held.aligned;
      inside = held.inside;
      no_role = no_role';
      not_free = not_free free' free held.frame (grows.fewer held.frame) held.not_free;
      holds =
          ap m'.memory held.at
          ∙ grows.untouched held.frame held.slot held.aligned held.inside no_role'
          ∙ ap m.memory (sym held.at)
          ∙ held.holds;
    }
