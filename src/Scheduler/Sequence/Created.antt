-- ===== src/Scheduler/Sequence/Created.antt =====
-- `n` calls of `new_task`.
use flux_kernel.Prelude.{
  ℕ, zero, suc, ◌+◌, ◌*◌, ◌<◌, ◌≤◌, ◌≡◌, ◌≢◌, refl, none, some, Option, List, [], ◌∷◌, ◌++◌, ap,
  ◌∙◌, sym, subst, length, length-append, append-nil, append_assoc, arith, get_elem?,
  get_elem?-below,
}
use flux_kernel.Machine.{Machine, ComPort, pure, ok, ◌>>=◌, and_then}
use flux_kernel.Task.{Task}
use flux_kernel.Paging.Walk.{translate}
use flux_kernel.Paging.Tree.{Roles}
use flux_kernel.Proc.Space.{task_cost}
use flux_kernel.Scheduler.{new_task}
use flux_kernel.Scheduler.Create.{IsCreated, new_task-IsCreated}
use flux_kernel.Scheduler.Sequence.{create_tasks, indices, TaskFrames, IsScheduling}
use flux_kernel.Scheduler.Sequence.Added.{more-IsScheduling}

module _ (base q₀ total : ℕ) (port : ComPort) where
  slot_present : Option Task → ℕ
  slot_present none = 0
  slot_present (some task) = task.present

  busy :
      (m : Machine) (free : List ℕ) (role : Roles) (cs : List TaskFrames)
      → IsScheduling base q₀ total port m free role cs
      → (j : ℕ) (other : Task) → get_elem? m.tasks j ≡ some other
      → j < length cs
      → other.present ≢ 0
  unfolding slot_present
  busy m free role cs state j other at lt e =
      let (c, found) = get_elem?-below cs j lt in
      let (task, entry, new) = (state.made j c found).entry in
      let same : task.present ≡ other.present = ap slot_present (sym entry ∙ at) in
      omega (arith, same, new.there, e)

  -- A call with room in the table and enough frames.
  create_one :
      (m : Machine) (t x s : ℕ) (free : List ℕ) (role : Roles) (cs : List TaskFrames)
      → IsScheduling base q₀ total port m (t ∷ x ∷ s ∷ free) role cs
      → length cs < total
      → task_cost 0 ≤ length free
      → (task : Task) × (m' : Machine) × (new_task m ≡ ok (length cs) m')
        × IsCreated m (length cs) t x s task free role (q₀ + length cs) port m'
  create_one m t x s free role cs state room enough =
      let (task, at) = get_elem?-below m.tasks (length cs) (omega (arith, state.whole)) in
      let (m', run, created) =
        new_task-IsCreated m (length cs) t x s task free role (q₀ + length cs) port
          (busy m (t ∷ x ∷ s ∷ free) role cs state) at
          (state.idle (length cs) task at (omega arith)) state.tree state.console
          (state.blank x (ground arith)) enough in
      (task, m', run, created)

  -- What `n` calls make of the tasks `cs`.
  pub record AreCreated (m : Machine) (free : List ℕ) (role : Roles) (cs : List TaskFrames) (n : ℕ)
      (m' : Machine) : Type 0 where
    pub new : List TaskFrames
    pub free' : List ℕ
    pub role' : Roles
    pub count : length new ≡ n
    pub state : IsScheduling base q₀ total port m' free' role' (cs ++ new)
    -- The other address spaces.
    pub elsewhere :
        (u q₂ w : ℕ)
        → role u ≡ some (3, q₂)
        → q₂ < q₀
        → translate m'.memory u w ≡ translate m.memory u w

  abbrev pub frames_for : ℕ → ℕ
  frames_for n = n * (3 + task_cost 0)

  -- With a console and well-formed page tables, with the tasks `cs` in the first entries of the
  -- task table, the other entries not present, and no present entries in the free frames, with
  -- room in the table and twelve free frames for each call, `n` calls of `new_task` return the
  -- indices that follow, in order; then the table holds the tasks `cs` and `n` new ones behind
  -- them, each of them present and ready, not run yet, with privilege level 3 and the registers of a
  -- new task with the user's selectors, and with a frame as its table whose first word points to the
  -- root of an address space of its own, which translates the page below the kernel to a stack and
  -- nothing else; the state is well formed again, and the address spaces with a number below `q₀`
  -- translate as before.
  pub create_tasks-AreCreated :
      (n : ℕ) (m : Machine) (free : List ℕ) (role : Roles) (cs : List TaskFrames)
      → IsScheduling base q₀ total port m free role cs
      → length cs + n ≤ total
      → frames_for n ≤ length free
      → (m' : Machine) × (create_tasks n m ≡ ok (indices (length cs) n) m')
        × AreCreated m free role cs n m'
  unfolding create_tasks
  create_tasks-AreCreated zero m free role cs state fits enough = (
    m,
    refl,
    record {
      new = [];
      free' = free;
      role' = role;
      count = refl;
      state = subst (IsScheduling base q₀ total port m free role) (sym (append-nil cs)) state;
      elsewhere = λ u q₂ w h lt. refl;
    },
  )
  create_tasks-AreCreated (suc n) m [] role cs state fits enough = absurd (omega arith)
  create_tasks-AreCreated (suc n) m (t ∷ []) role cs state fits enough = absurd (omega arith)
  create_tasks-AreCreated (suc n) m (t ∷ x ∷ []) role cs state fits enough = absurd (omega arith)
  create_tasks-AreCreated (suc n) m (t ∷ x ∷ s ∷ free) role cs state fits enough =
      let (task, m₁, run, created) =
        create_one m t x s free role cs state (omega arith) (omega arith) in
      let c : TaskFrames = record { table = t; root = x; stack = s } in
      let more = length-append cs (c ∷ []) in
      let (m₂, run', rest) =
        create_tasks-AreCreated n m₁ created.space.free' created.space.role' (cs ++ c ∷ [])
          (more-IsScheduling base q₀ total port m t x s free role cs state task m₁ created)
          (omega (arith, more)) (omega (arith, created.space.used)) in
      (
        m₂,
        ap (λ r. and_then r (λ i. create_tasks n >>= λ is. pure (i ∷ is))) run
            ∙ ap (λ r. and_then r (λ is. pure (length cs ∷ is))) run'
            ∙ ap (λ k. ok (length cs ∷ indices k n) m₂) more,
        record {
          new = c ∷ rest.new;
          free' = rest.free';
          role' = rest.role';
          count = ap suc rest.count;
          state =
              subst (IsScheduling base q₀ total port m₂ rest.free' rest.role')
                (append_assoc cs (c ∷ []) rest.new) rest.state;
          elsewhere = λ u q₂ w h lt.
              rest.elsewhere u q₂ w (created.space.kept u q₂ h) lt
              ∙ created.space.elsewhere u q₂ w h (λ e. omega (arith, e));
        },
      )
