-- ===== src/Scheduler/Sequence.antt =====
-- Tasks that are created one after another: a program, and what it is for the table to hold them.
pub mod Added
pub mod Created
use flux_kernel.Prelude.{
  ℕ, zero, suc, ◌+◌, ◌*◌, ◌<◌, ◌≤◌, ◌≡◌, ◌≢◌, refl, true, false, none, some, Option, List, [], ◌∷◌,
  ◌++◌, ap, ◌∙◌, sym, subst, length, length-set, length-append, append-nil, append_assoc, set,
  arith, get_elem?, get_elem?-below, get_elem?-last, ◌⊎◌, inl, inr, ◌==◌, ==_false,
}
use flux_kernel.Machine.{Machine, ComPort, Kernel, pure, ok, ◌>>=◌, and_then}
use flux_kernel.Printk.Console.{IsConsole}
use flux_kernel.Task.{Task}
use flux_kernel.Frames.Chain.{has, not-has-head, not-has-tail}
use flux_kernel.Paging.Walk.{translate, present}
use flux_kernel.Paging.Tree.{Roles, IsFrame, IsTree}
use flux_kernel.Paging.Link.{entry_ne}
use flux_kernel.Paging.Root.{IsBlank}
use flux_kernel.Paging.Below.{not_free}
use flux_kernel.Proc.Space.{task_cost, task_change}
use flux_kernel.Scheduler.{find_slot, make_ready, make_user, new_task}
use flux_kernel.Scheduler.Create.{IsNew, made_user, IsCreated, new_task-IsCreated}

-- `n` calls of `new_task`, and their results.
unfoldable pub create_tasks : ℕ → Kernel (List ℕ)
create_tasks zero = pure []
create_tasks (suc n) = do i ← new_task; rest ← create_tasks n; pure (i ∷ rest)

abbrev pub indices : ℕ → ℕ → List ℕ
indices i zero = []
indices i (suc n) = i ∷ indices (i + 1) n

-- The frames of a task: the one that it records as its table, the root of its address space and its
-- stack.
pub record TaskFrames : Type 0 where
  pub table : ℕ
  pub root : ℕ
  pub stack : ℕ

module _ (base q₀ total : ℕ) (port : ComPort) where
  -- The task in the entry `i`.
  pub record IsTask (m : Machine) (free : List ℕ) (role : Roles) (i : ℕ) (c : TaskFrames)
      : Type 0 where
    pub entry : (task : Task) × (get_elem? m.tasks i ≡ some task) × IsNew c.table task
    pub pointer : m.memory c.table ≡ c.root
    pub root : role c.root ≡ some (3, q₀ + i)
    pub maps : (w : ℕ) → translate m.memory c.root w ≡ task_change base c.stack 0 0 w none
    pub frame : IsFrame c.table
    pub no_role : role c.table ≡ none
    pub not_free : has c.table free ≡ false

  -- The tasks `cs` are in the first entries of a table of `total` entries, and the other entries are
  -- not present.
  pub record IsScheduling (m : Machine) (free : List ℕ) (role : Roles) (cs : List TaskFrames)
      : Type 0 where
    pub tree : IsTree m free role
    pub console : IsConsole m port
    pub blank : (y : ℕ) → has y free ≡ true → IsBlank m.memory y
    pub whole : length m.tasks ≡ total
    pub idle :
        (j : ℕ) (task : Task) → get_elem? m.tasks j ≡ some task → length cs ≤ j → task.present ≡ 0
    pub made : (i : ℕ) (c : TaskFrames) → get_elem? cs i ≡ some c → IsTask m free role i c
    pub at_base : m.boot.flux_base_virt ≡ base
