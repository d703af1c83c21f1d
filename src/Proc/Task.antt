-- ===== src/Proc/Task.antt =====
-- What `init_task_space_from_mem` makes.
use flux_kernel.Prelude.{
  ℕ, ◌+◌, ◌*◌, ◌<◌, ◌^◌, ◌≤◌, ◌≡◌, ◌≢◌, refl, true, false, none, some, List, [], ◌∷◌, ◌++◌, ap, ◌∙◌,
  length, codes, ==_false,
}
use flux_kernel.Machine.{Machine, ComPort, ok, write_ne}
use flux_kernel.Serial.Console.{traffic}
use flux_kernel.Printk.Console.{IsConsole, IsConsole-same}
use flux_kernel.Printk.Render.{render, pieces}
use flux_kernel.Debug.{newline}
use flux_kernel.Frames.Chain.{has, not-has-head, not-has-tail}
use flux_kernel.Frames.Pool.{taken}
use flux_kernel.Paging.Walk.{translate}
use flux_kernel.Paging.Tree.{Roles, IsFrame, IsTree}
use flux_kernel.Paging.Link.{with_role}
use flux_kernel.Paging.Root.{IsBlank}
use flux_kernel.Paging.Change.{AgreesApart, AgreesApart-trans}
use flux_kernel.Proc.{init_task_space_from_mem}
use flux_kernel.Proc.Space.{still-IsHeld, task_cost, task_change, map_task-TaskStage}
use flux_kernel.Proc.Blocks.{
  init_task_space_run, first, m₃, m₄, second, m₅, held₅, empty₅, kept₅, elsewhere₅, ready₅,
  address_message, plain_message,
}

-- `m'` has an address space `q` with the root `x` for a task, whose root is in the variable at `p`.
pub record IsTaskSpace (m : Machine) (x s : ℕ) (free : List ℕ) (role : Roles) (p q offset n : ℕ)
    (port : ComPort) (m' : Machine) : Type 0 where
  pub free' : List ℕ
  pub role' : Roles
  pub tree : IsTree m' free' role'
  pub root : role' x ≡ some (3, q)
  pub variable : m'.memory p ≡ x
  pub console : IsConsole m' port
  pub used : length free ≤ length free' + task_cost n
  pub maps : (w : ℕ) → translate m'.memory x w ≡ task_change m.boot.flux_base_virt s offset n w none
  pub elsewhere :
      (u q₂ w : ℕ)
      → role u ≡ some (3, q₂)
      → q₂ ≢ q
      → translate m'.memory u w ≡ translate m.memory u w
  pub kept : (u q₂ : ℕ) → role u ≡ some (3, q₂) → role' u ≡ some (3, q₂)
  pub fewer : (z : ℕ) → has z free' ≡ true → has z free ≡ true
  pub fresh : (z : ℕ) → role z ≡ none → has z (x ∷ s ∷ free) ≡ false → role' z ≡ none
  pub untouched :
      (z i : ℕ)
      → IsFrame z
      → i < 512
      → role' z ≡ none
      → z + 8 * i ≢ p
      → m'.memory (z + 8 * i) ≡ m.memory (z + 8 * i)
  pub agrees : AgreesApart m m'

-- On well-formed page tables, with a console, a variable outside the tables and the free frames, a
-- first free frame without present entries, a second one, and enough free frames behind them, and
-- for at most 2^36 blocks, `init_task_space_from_mem` returns; then the variable holds the first
-- frame, the root of a new address space in which the executable's blocks are translated from 0 on
-- to physical memory from `offset` on, the page below the kernel to the second frame where the
-- executable does not reach it, and no other address; every other address space translates as before,
-- and only memory, the free list and the port traffic changed.
pub init_task_space_from_mem-IsTaskSpace :
    (m : Machine) (x s : ℕ) (free : List ℕ) (role : Roles) (y j q offset n : ℕ) (port : ComPort)
    → IsTree m (x ∷ s ∷ free) role
    → IsConsole m port
    → IsFrame y
    → j < 512
    → role y ≡ none
    → has y (x ∷ s ∷ free) ≡ false
    → IsBlank m.memory x
    → task_cost n ≤ length free
    → n ≤ 2 ^ 36
    → (m' : Machine) × (init_task_space_from_mem (y + 8 * j) offset n m ≡ ok tt m')
      × IsTaskSpace m x s free role (y + 8 * j) q offset n port m'
unfolding pieces render
init_task_space_from_mem-IsTaskSpace m x s free role y j q offset n port tree console fy hj ry out
      blank enough small =
    let p = y + 8 * j in
    let (log₁, run₁) = address_message p (m.memory p) console in
    let console₁ = IsConsole-same m (traffic m log₁) port refl refl refl refl console in
    let (log₂, run₂) = plain_message (codes "Getting block for pml4" ++ newline) _ refl console₁ in
    let one = first m x s free role tree y j q fy hj ry out blank log₂ [] in
    let console₃ =
      IsConsole-same m (m₃ m x s free role tree y j q fy hj ry out blank log₂ []) port refl refl
        refl refl console in
    let (log₄, run₄) = plain_message (codes "Getting block for stack" ++ newline) _ refl console₃ in
    let two = second m x s free role tree y j q fy hj ry out blank log₂ log₄ in
    let held = held₅ m x s free role tree y j q fy hj ry out blank log₂ log₄ in
    let ready = ready₅ m x s free role tree y j q fy hj ry out blank log₂ log₄ port console in
    let st =
      map_task-TaskStage x q port _ free (with_role role x (3, q)) p held s offset n small _ free
        (with_role role x (3, q)) ready enough in
    (
      st.m',
      init_task_space_run p offset n (m.memory p) x s m (traffic m log₁) (traffic m log₂)
          (taken (traffic m log₂)) (m₄ m x s free role tree y j q fy hj ry out blank log₂ log₄)
          (m₅ m x s free role tree y j q fy hj ry out blank log₂ log₄) st.m' refl run₁ run₂ one.run
          one.not_null run₄ two.run two.not_null st.run,
      record {
        free' = st.free';
        role' = st.role';
        tree = st.ready.tree;
        root = st.ready.root;
        variable =
            (still-IsHeld x q port _ free (with_role role x (3, q)) p held st.m' st.free' st.role'
              st.ready).holds;
        console = st.ready.console;
        used = st.used;
        maps = λ w.
            st.maps w
            ∙ ap (task_change m.boot.flux_base_virt s offset n w)
                (empty₅ m x s free role tree y j q fy hj ry out blank log₂ log₄ w);
        elsewhere = λ u q₂ w h ne.
            st.ready.since.elsewhere u q₂ w
              (kept₅ m x s free role tree y j q fy hj ry out blank log₂ log₄ u q₂ h) ne
            ∙ elsewhere₅ m x s free role tree y j q fy hj ry out blank log₂ log₄ u q₂ w h;
        kept = λ u q₂ h.
            st.ready.since.kept u 3 q₂
              (kept₅ m x s free role tree y j q fy hj ry out blank log₂ log₄ u q₂ h);
        fewer = st.ready.since.fewer;
        fresh = λ z h z_out.
            st.ready.since.fresh z (rw (==_false z x (not-has-head z x (s ∷ free) z_out)) h)
              (not-has-tail z s free (not-has-tail z x (s ∷ free) z_out));
        untouched = λ z i fz hi h ne.
            st.ready.since.untouched z i fz hi h ∙ write_ne m.memory p x (z + 8 * i) ne;
        agrees =
            AgreesApart-trans m (m₅ m x s free role tree y j q fy hj ry out blank log₂ log₄) st.m'
              refl st.ready.since.agrees;
      },
    )
