-- ===== src/Paging/Change.antt =====
-- What mapping pages leaves of a machine, over any number of pages and messages.
use flux_kernel.Prelude.{
  ℕ, ◌+◌, ◌*◌, ◌<◌, ◌≡◌, ◌≢◌, refl, true, false, none, some, List, ap, sym, ◌∙◌,
}
use flux_kernel.Machine.{Machine, ComPort, PortEvent}
use flux_kernel.Serial.Console.{traffic}
use flux_kernel.Printk.Console.{IsConsole, IsConsole-same}
use flux_kernel.Frames.Chain.{has}
use flux_kernel.Paging.Walk.{translate}
use flux_kernel.Paging.Tree.{Roles, IsFrame}
use flux_kernel.Paging.Below.{not_free, no_role_before}
use flux_kernel.Paging.Map.{IsMapped}
use flux_kernel.Paging.Enter.{AgreesOutside}

-- Only memory, the free list and the traffic differ.
abbrev pub AgreesApart : Machine → Machine → Type 0
AgreesApart m m' = m' ≡ record m {
  memory = m'.memory;
  first_page_frame = m'.first_page_frame;
  n_free_page_frames = m'.n_free_page_frames;
  port_log = m'.port_log;
}

pub AgreesApart-trans :
    (m m₁ m₂ : Machine) → AgreesApart m m₁ → AgreesApart m₁ m₂ → AgreesApart m m₂
AgreesApart-trans m m₁ m₂ e f =
    f
    ∙ ap {A = Machine} {B = Machine}
        (λ z. record z {
          memory = m₂.memory;
          first_page_frame = m₂.first_page_frame;
          n_free_page_frames = m₂.n_free_page_frames;
          port_log = m₂.port_log;
        })
        e

pub AgreesApart-outside : (m m' : Machine) → AgreesOutside m m' → AgreesApart m m'
AgreesApart-outside m m' e =
    e
    ∙ ap {A = List PortEvent} {B = Machine}
        (λ log. record m {
          memory = m'.memory;
          first_page_frame = m'.first_page_frame;
          n_free_page_frames = m'.n_free_page_frames;
          port_log = log;
        })
        (sym (ap (λ z. z.port_log) e))

pub AgreesApart-IsConsole :
    (m m' : Machine) (port : ComPort) → AgreesApart m m' → IsConsole m port → IsConsole m' port
AgreesApart-IsConsole m m' port e console =
    IsConsole-same m m' port (ap (λ z. z.primary_com_port) e) (ap (λ z. z.com_ports) e)
      (ap (λ z. z.device) e) (ap (λ z. z.patience) e) console

-- From the frames `free` and the tables `role` to `free'` and `role'`, with changes in the address
-- space number `q` only.
pub record Grows (q : ℕ) (m : Machine) (free : List ℕ) (role : Roles) (m' : Machine)
    (free' : List ℕ) (role' : Roles) : Type 0 where
  pub kept : (y l₂ q₂ : ℕ) → role y ≡ some (l₂, q₂) → role' y ≡ some (l₂, q₂)
  pub elsewhere :
      (u q₂ w : ℕ)
      → role u ≡ some (3, q₂)
      → q₂ ≢ q
      → translate m'.memory u w ≡ translate m.memory u w
  pub fewer : (y : ℕ) → has y free' ≡ true → has y free ≡ true
  pub fresh : (y : ℕ) → role y ≡ none → has y free ≡ false → role' y ≡ none
  pub untouched :
      (y j : ℕ)
      → IsFrame y
      → j < 512
      → role' y ≡ none
      → m'.memory (y + 8 * j) ≡ m.memory (y + 8 * j)
  pub agrees : AgreesApart m m'

-- Messages change nothing of it.
pub Grows-traffic :
    (q : ℕ) (m : Machine) (free : List ℕ) (role : Roles) (log : List PortEvent)
    → Grows q m free role (traffic m log) free role
Grows-traffic q m free role log = record {
  kept = λ y l₂ q₂ h. h;
  elsewhere = λ u q₂ w h ne. refl;
  fewer = λ y h. h;
  fresh = λ y h out. h;
  untouched = λ y j fy hj h. refl;
  agrees = refl;
}

-- One page.
pub IsMapped-Grows :
    (m : Machine) (free : List ℕ) (role : Roles) (pml4 q paddr v : ℕ) (m' : Machine)
    → (mapped : IsMapped m free role pml4 q paddr v m')
    → Grows q m free role m' mapped.free' mapped.role'
IsMapped-Grows m free role pml4 q paddr v m' mapped = record {
  kept = mapped.kept;
  elsewhere = mapped.elsewhere;
  fewer = mapped.fewer;
  fresh = mapped.fresh;
  untouched = mapped.untouched;
  agrees = AgreesApart-outside m m' mapped.agrees;
}

pub Grows-trans :
    (q : ℕ) (m : Machine) (free : List ℕ) (role : Roles) (m₁ : Machine) (free₁ : List ℕ)
    (role₁ : Roles) (m₂ : Machine) (free₂ : List ℕ) (role₂ : Roles)
    → Grows q m free role m₁ free₁ role₁
    → Grows q m₁ free₁ role₁ m₂ free₂ role₂
    → Grows q m free role m₂ free₂ role₂
Grows-trans q m free role m₁ free₁ role₁ m₂ free₂ role₂ g g' = record {
  kept = λ y l₂ q₂ h. g'.kept y l₂ q₂ (g.kept y l₂ q₂ h);
  elsewhere = λ u q₂ w h ne. g'.elsewhere u q₂ w (g.kept u 3 q₂ h) ne ∙ g.elsewhere u q₂ w h ne;
  fewer = λ y h. g.fewer y (g'.fewer y h);
  fresh = λ y h out. g'.fresh y (g.fresh y h out) (not_free free₁ free y (g.fewer y) out);
  untouched = λ y j fy hj h.
      g'.untouched y j fy hj h ∙ g.untouched y j fy hj (no_role_before role₁ role₂ y g'.kept h);
  agrees = AgreesApart-trans m m₁ m₂ g.agrees g'.agrees;
}
