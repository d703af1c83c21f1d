-- ===== src/KernelMap/Start.antt =====
-- What `mem_init` makes.
use mathlib.Core.List.{reverse}
use flux_kernel.Prelude.{◌+◌, ◌*◌, ◌<◌, ◌≤◌, true, false, none, length, arith, subst, ==_false}
use flux_kernel.Machine.{ComPort, PortEvent}
use flux_kernel.Serial.Console.{traffic}
use flux_kernel.Printk.Console.{IsConsole, IsConsole-same}
use flux_kernel.Frames.Chain.{has, not-has-head, not-has-tail}
use flux_kernel.Frames.Init.{pushed, usable_frames}
use flux_kernel.Frames.Free.{find_free_frames-pushed}
use flux_kernel.Frames.Pushed.{has-reverse}
use flux_kernel.Paging.Walk.{translate}
use flux_kernel.Paging.Walk.{present}
use flux_kernel.Paging.Below.{not_free}
use flux_kernel.Paging.Tree.{Roles, IsFrame, IsTree}
use flux_kernel.Paging.Root.{IsBlank}
use flux_kernel.KernelMap.Setup.{entries_change, direct_change}
use flux_kernel.KernelMap.Made.{kernel_cost, IsMade, setup_kernel_map-IsMade}
use flux_kernel.Prelude.{ℕ, ◌≡◌, refl, some, List, ◌∷◌, ap, ◌∙◌}
use flux_kernel.Machine.{Machine, MemmapEntry, ok}
use flux_kernel.KernelMap.{mem_init}
use flux_kernel.KernelMap.Listed.{
  IsHandedOver-same, emptied, IsHandedOver, no_roles, listed, listed-IsTree, listed-IsBlank,
  listed-pushed, listed-memory,
}
use flux_kernel.Paging.Root.{IsTree-same}
use flux_kernel.KernelMap.Steps.{
  announce_added, mem_init_past_assert, mem_init_run, announce_memory-Says, announce_added-Says,
  announce_left-Says,
}

-- The memory manager is started: the kernel's address space has its root in the frame `x`.
pub record IsStarted (m : Machine) (x : ℕ) (free : List ℕ) (port : ComPort)
    (entries : List MemmapEntry) (m' : Machine) : Type 0 where
  pub free' : List ℕ
  pub role' : Roles
  pub tree : IsTree m' free' role'
  pub root : role' x ≡ some (3, 0)
  pub console : IsConsole m' port
  pub used : length free ≤ length free' + kernel_cost m.boot entries
  pub maps :
      (w : ℕ)
      → translate m'.memory x w ≡ direct_change m.boot w (entries_change m.boot entries w none)
  pub outside :
      (y j : ℕ)
      → IsFrame y
      → j < 512
      → has y (usable_frames entries) ≡ false
      → m'.memory (y + 8 * j) ≡ m.memory (y + 8 * j)
  -- The frames that are left are as clear as they were, and those that are not usable are not taken.
  pub blank : (y : ℕ) → has y free' ≡ true → IsBlank m.memory y → IsBlank m'.memory y
  pub reserved :
      (y : ℕ) → has y (usable_frames entries) ≡ false → (role' y ≡ none) × (has y free' ≡ false)
  pub agrees : m' ≡ record m {
    memory = m'.memory;
    first_page_frame = m'.first_page_frame;
    n_free_page_frames = m'.n_free_page_frames;
    port_log = m'.port_log;
    kernel_pml4_table = x;
  }

IsConsole-traffic :
    {m : Machine} {port : ComPort} (log : List PortEvent)
    → IsConsole m port
    → IsConsole (traffic m log) port
IsConsole-traffic log console = IsConsole-same _ _ _ refl refl refl refl console

-- The machine on which `setup_kernel_map` starts.
abbrev ready : Machine → List MemmapEntry → List PortEvent → List PortEvent → Machine
ready m entries log₂ log₅ = traffic (listed (traffic (emptied m) log₂) entries) log₅

made-IsStarted :
    (m : Machine) (entries : List MemmapEntry) (x : ℕ) (free : List ℕ) (port : ComPort)
    (log₂ log₅ : List PortEvent) (m₆ : Machine) (log₇ : List PortEvent)
    → IsHandedOver m entries
    → reverse (usable_frames entries) ≡ x ∷ free
    → IsMade (ready m entries log₂ log₅) x free no_roles 0 port entries m₆
    → IsStarted m x free port entries (traffic m₆ log₇)
made-IsStarted m entries x free port log₂ log₅ m₆ log₇ handed e made =
    let m₂ = traffic (emptied m) log₂ in
    record {
      free' = made.free';
      role' = made.role';
      tree = IsTree-same m₆ (traffic m₆ log₇) made.free' made.role' refl refl refl made.ready.tree;
      root = made.ready.root;
      console = IsConsole-traffic log₇ made.ready.console;
      used = made.used;
      maps = made.maps;
      outside = λ y j frame lt out.
          made.ready.since.untouched y j frame lt (fresh y out)
          ∙ listed-memory m₂ entries y j (IsHandedOver-same m m₂ entries refl handed) frame lt out;
      blank = λ y h clear j hj.
          ap present (
            made.ready.since.untouched y j (made.ready.tree.free_frame y h) hj
              (made.ready.tree.free_role y h))
          ∙ listed-IsBlank m₂ entries (IsHandedOver-same m m₂ entries refl handed) refl y clear j
              hj;
      reserved = λ y out. (
        fresh y out,
        not_free made.free' free y (made.ready.since.fewer y)
            (not-has-tail y x free (not_listed y out)),
      );
      agrees =
          ap {A = Machine} {B = Machine} (λ z. record z { port_log = log₇ })
            made.ready.since.agrees;
    }
  where
    not_listed : (y : ℕ) → has y (usable_frames entries) ≡ false → has y (x ∷ free) ≡ false
    not_listed y out =
        subst (λ xs. has y xs ≡ false) e (has-reverse y (usable_frames entries) ∙ out)

    fresh : (y : ℕ) → has y (usable_frames entries) ≡ false → made.role' y ≡ none
    fresh y out =
        made.ready.since.fresh y (rw (==_false y x (not-has-head y x free (not_listed y out))) refl)
          (not-has-tail y x free (not_listed y out))

-- At boot, with a console, the boot loader's responses there, a memory map in order, with usable entries aligned and usable frames
-- below 2^52, fewer than 2^31 of them, with enough usable frames for the tables, and when the last
-- usable frame happens to hold no present entries (which no protocol promises, and which the kernel
-- does not see to: it does not clear this table), `mem_init` returns the number of frames that
-- are left; then `kernel_pml4_table` is the last usable frame and the root of well-formed tables
-- that translate an address by the direct map of the first 4 GiB, otherwise by the last loaded entry
-- whose range holds it, and otherwise not at all; no page frame outside the usable entries was
-- written, and only memory, the free list, `kernel_pml4_table` and the port traffic changed.
pub mem_init-IsStarted :
    (m : Machine) (entries : List MemmapEntry) (x : ℕ) (free : List ℕ) (port : ComPort)
    → IsHandedOver m entries
    → IsConsole m port
    → reverse (usable_frames entries) ≡ x ∷ free
    → IsBlank m.memory x
    → kernel_cost m.boot entries ≤ length free
    → (m' : Machine) × (mem_init m ≡ ok m'.n_free_page_frames m')
      × IsStarted m x free port entries m'
mem_init-IsStarted m entries x free port handed console e clear enough =
    let console₁ = IsConsole-same m (emptied m) port refl refl refl refl console in
    let (log₂, run₂) = announce_memory-Says console₁ in
    let m₂ = traffic (emptied m) log₂ in
    let handed₂ : IsHandedOver m₂ entries = IsHandedOver-same m m₂ entries refl handed in
    let console₄ = IsConsole-same m (listed m₂ entries) port refl refl refl refl console in
    let (log₅, run₅) = announce_added-Says console₄ (length (usable_frames entries)) in
    let m₅ = traffic (listed m₂ entries) log₅ in
    let free₅ : IsTree m₅ (x ∷ free) no_roles =
      subst (λ xs. IsTree m₅ xs no_roles) e
        (IsTree-same (listed m₂ entries) m₅ _ no_roles refl refl refl
          (listed-IsTree m₂ entries handed₂ refl)) in
    let blank₅ : IsBlank m₅.memory x = listed-IsBlank m₂ entries handed₂ refl x clear in
    let (m₆, run₆, made) =
      setup_kernel_map-IsMade m₅ x free no_roles 0 port entries free₅
        (IsConsole-traffic log₅ console₄) handed.response handed.answered handed.loaded blank₅
        enough in
    let (log₇, run₇) = announce_left-Says made.ready.console m₆.n_free_page_frames in
    (
      traffic m₆ log₇,
      mem_init_past_assert m entries handed.response
          ∙ mem_init_run m m₂ (pushed (usable_frames entries) m₂) m₅ m₆ (traffic m₆ log₇)
              (length (usable_frames entries)) run₂
              (find_free_frames-pushed m₂ entries handed.response handed.in_order
                (omega (arith, handed.few)))
              (ap (announce_added (length (usable_frames entries))) (listed-pushed m₂ entries)
                ∙ run₅)
              run₆ run₇,
      made-IsStarted m entries x free port log₂ log₅ m₆ log₇ handed e made,
    )
