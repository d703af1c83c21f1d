-- ===== src/Paging/Short.antt =====
-- Mapping a page with fewer free frames than tables are missing.
use native.Mathlib.Nat.{mod-lt}
use flux_kernel.Prelude.{
  ℕ, zero, suc, ◌+◌, ◌*◌, ◌<◌, ◌≡◌, refl, true, false, some, List, [], ◌∷◌, ◌++◌, length, arith,
  ◌∙◌, ap, sym, subst, Bool-cases, inl, inr, ◌==◌, bit_and, ltb, ltb→lt, ltb→le,
}
use flux_kernel.Machine.{Machine, ComPort, Run, ok, stopped, and_then}
use flux_kernel.Serial.Console.{wire, sent}
use flux_kernel.Serial.Offset
use flux_kernel.Printk.Console.{IsConsole, IsConsole-same}
use flux_kernel.Structures.{pse_present}
use flux_kernel.Structures.Entry.{index, present-odd}
use flux_kernel.Frames.{null}
use flux_kernel.Frames.Exhausted.{exhausted_message, get_phys_block-stopped}
use flux_kernel.Frames.Pool.{IsPool}
use flux_kernel.Paging.{add_table, enter_table, map_page_specific_pml4}
use flux_kernel.Paging.Walk.{present, walk, missing, missing-le}
use flux_kernel.Paging.Tree.{Roles, IsTree}
use flux_kernel.Paging.Link.{IsFlags}
use flux_kernel.Paging.Enter.{AgreesOutside, Entered, enter_table-Entered}
use flux_kernel.Paging.Below.{map_from, map_from-three, map_from-suc}

empty_pool :
    (m : Machine) (free : List ℕ) → IsPool m free → length free ≡ 0 → m.first_page_frame ≡ null
empty_pool m [] pool e = pool.chain
empty_pool m (x ∷ free) pool e = absurd (omega arith)

module _ (port : ComPort) where
  -- The mapping stops with the message of the allocator: no frame is left, no translation changed,
  -- and only memory, the free list and the port traffic did.
  pub record IsShort {A : Type 0} (m : Machine) (role : Roles) (r : Run A) : Type 0 where
    pub m' : Machine
    pub run : r ≡ stopped m'
    pub no_frame : m'.first_page_frame ≡ null
    pub walks : (l u q v : ℕ) → role u ≡ some (l, q) → walk m'.memory l u v ≡ walk m.memory l u v
    pub says :
        sent (wire port Offset.io_data) m'.port_log
        ≡ sent (wire port Offset.io_data) m.port_log ++ exhausted_message
    pub agrees : AgreesOutside (record m { port_log = m'.port_log }) m'

  -- The step at an entry that is not present, when no frame is left.
  enter_table-IsShort :
      (m : Machine) (role : Roles) (e flags : ℕ)
      → IsConsole m port
      → m.first_page_frame ≡ null
      → present (m.memory e) ≡ false
      → IsShort m role (enter_table e flags m)
  unfolding enter_table add_table
  enter_table-IsShort m role e flags console none_left h =
      let test : (bit_and (m.memory e) pse_present == 0) ≡ true =
        ground (arith, present-odd (m.memory e)) in
      let (log', run, says) = get_phys_block-stopped m port console none_left m.port_log in
      record {
        m' = record m { port_log = log' };
        run = rw (test, run) refl;
        no_frame = none_left;
        walks = λ l u q v h. refl;
        says = says;
        agrees = refl;
      }

  IsConsole-agrees : (m m' : Machine) → AgreesOutside m m' → IsConsole m port → IsConsole m' port
  IsConsole-agrees m m' agrees console =
      IsConsole-same m m' port (ap (λ z. z.primary_com_port) agrees) (ap (λ z. z.com_ports) agrees)
        (ap (λ z. z.device) agrees) (ap (λ z. z.patience) agrees) console

  module _ (paddr v flags : ℕ) (fl : IsFlags flags) where
    -- The step at an upper level stops, or leads to a level below that stops.
    IsShort-here :
        (level : ℕ) (m : Machine) (role : Roles) (t : ℕ)
        → IsShort m role (enter_table (t + 8 * index (suc level) v) flags m)
        → IsShort m role (map_from (suc level) t paddr v flags m)
    unfolding map_from
    IsShort-here level m role t s = record {
      m' = s.m';
      run = ap (λ z. and_then z (λ next. map_from level next paddr v flags)) s.run;
      no_frame = s.no_frame;
      walks = s.walks;
      says = s.says;
      agrees = s.agrees;
    }

    IsShort-below :
        (level : ℕ) (m m₁ : Machine) (free : List ℕ) (role : Roles) (t q r : ℕ)
        → enter_table (t + 8 * index (suc level) v) flags m ≡ ok r m₁
        → (e : Entered m free role t level q (index (suc level) v) m₁ r)
        → IsShort m₁ e.role' (map_from level r paddr v flags m₁)
        → IsShort m role (map_from (suc level) t paddr v flags m)
    IsShort-below level m m₁ free role t q r run e s = record {
      m' = s.m';
      run = map_from-suc paddr v flags level t m m₁ r run ∙ s.run;
      no_frame = s.no_frame;
      walks = λ l u q₂ w h. s.walks l u q₂ w (e.kept u l q₂ h) ∙ e.walks l u q₂ w h;
      says =
          s.says
          ∙ ap (λ z. sent (wire port Offset.io_data) z.port_log ++ exhausted_message) e.agrees;
      agrees =
          s.agrees
          ∙ ap {A = Machine} {B = Machine}
              (λ z. record z {
                port_log = s.m'.port_log;
                memory = s.m'.memory;
                first_page_frame = s.m'.first_page_frame;
                n_free_page_frames = s.m'.n_free_page_frames;
              })
              e.agrees;
    }

    map_from-IsShort :
        (level : ℕ) (m : Machine) (free : List ℕ) (role : Roles) (t q : ℕ)
        → IsTree m free role
        → role t ≡ some (level, q)
        → IsConsole m port
        → length free < missing m.memory level t v
        → IsShort m role (map_from level t paddr v flags m)
    map_from-IsShort zero m free role t q tree rt console few =
        absurd (omega (arith, missing-le m.memory 0 t v))
    map_from-IsShort (suc level) m free role t q tree rt console few =
        let i = index (suc level) v in
        let hi : i < 512 = mod-lt _ (omega arith) in
        let below = λ (some_left : present (m.memory (t + 8 * i)) ≡ false → 0 < length free).
          let (m₁, r, run, e) =
            enter_table-Entered m role t level q i flags rt hi fl free tree some_left in
          IsShort-below level m m₁ free role t q r run e (
            map_from-IsShort level m₁ e.free' e.role' r (q * 512 + i) e.tree e.table
              (IsConsole-agrees m m₁ e.agrees console) (omega (arith, e.cost v refl))) in
        elim (Bool-cases (present (m.memory (t + 8 * i)))) [
          | inl h ↦ below (λ h'. cc)
          | inr h ↦ elim (Bool-cases (ltb 0 (length free))) [
            | inl p ↦ below (λ h'. ltb→lt 0 (length free) p)
            | inr none_left ↦ IsShort-here level m role t (
                enter_table-IsShort m role (t + 8 * i) flags console
                  (empty_pool m free tree.pool (omega (arith, ltb→le 0 (length free) none_left))) h)
          ]
        ]

-- On well-formed page tables, with a console, with fewer free frames than tables are missing on the
-- way to the page, and for flags in the low 12 bits that do not ask for a large page,
-- `map_page_specific_pml4` sends the message of the allocator's failed assertion and stops: no frame
-- is left then, every table translates as before, and only memory, the free list and the port
-- traffic changed.
pub map_page_specific_pml4-IsShort :
    (m : Machine) (free : List ℕ) (role : Roles) (pml4 q paddr v flags : ℕ) (port : ComPort)
    → IsTree m free role
    → role pml4 ≡ some (3, q)
    → IsFlags flags
    → IsConsole m port
    → length free < missing m.memory 3 pml4 v
    → IsShort port m role (map_page_specific_pml4 pml4 paddr v flags m)
map_page_specific_pml4-IsShort m free role pml4 q paddr v flags port tree root fl console few =
    subst (IsShort port m role) (sym (map_from-three pml4 paddr v flags m))
      (map_from-IsShort port paddr v flags fl 3 m free role pml4 q tree root console few)
