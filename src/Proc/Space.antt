-- ===== src/Proc/Space.antt =====
-- The mapping of a task's stack and executable in its own address space.
use flux_kernel.Prelude.{
  ℕ, suc, ◌+◌, ◌-◌, ◌*◌, ◌^◌, subst, ◌≤◌, ◌≡◌, refl, List, [], ◌++◌, ap, ◌∙◌, arith, bit_or, codes,
}
use flux_kernel.Words.{u64}
use flux_kernel.Machine.{Machine, ComPort, Kernel}
use flux_kernel.Structures.{pse_writeable, pse_user_mode}
use flux_kernel.Printk.{printk}
use flux_kernel.Printk.Render.{render, pieces}
use flux_kernel.Debug.{newline}
use flux_kernel.Paging.{map_page_specific_pml4}
use flux_kernel.Paging.Tree.{Roles}
use flux_kernel.Paging.Held.{IsHeld, Grows-IsHeld}
use flux_kernel.KernelMap.Range.{tables_for, blocks, in_range}
use flux_kernel.KernelMap.Stage.{
  Change, no_change, then_change, IsReady, Stage, Stage->>, Stage-same, Stage-cost, Stage-printk,
  Stage-map_page, Stage-map_blocks,
}
use flux_kernel.KernelMap.{map_blocks}
use flux_kernel.Proc.{map_executable, map_task}
use flux_kernel.Proc.Executable.{map_executable-map_blocks}

-- The page below the kernel, where a task has its stack.
abbrev pub stack_page : ℕ → ℕ
stack_page base = u64 (base + (2 ^ 64 - 4096))

-- The frames that the tables of a task take at most, and what they make of an address.
abbrev pub task_cost : ℕ → ℕ
task_cost n = 0 + (3 + (0 + 3 * (n + 2)))

abbrev pub task_change : ℕ → ℕ → ℕ → ℕ → Change
task_change base stack offset n =
    then_change no_change (
      then_change (in_range stack (stack_page base) 1)
        (then_change no_change (in_range offset 0 n)))

module _ (x q : ℕ) (port : ComPort) (m₀ : Machine) (free₀ : List ℕ) (role₀ : Roles) (p : ℕ)
    (held : IsHeld m₀ free₀ role₀ p x) where
  abbrev pub TaskStage : Kernel (Unit {0}) → ℕ → Change → Type 0
  TaskStage f cost change = Stage x q port m₀ free₀ role₀ f cost change

  pub still-IsHeld :
      (m : Machine) (free : List ℕ) (role : Roles)
      → IsReady x q port m₀ free₀ role₀ m free role
      → IsHeld m free role p x
  still-IsHeld m free role ready = Grows-IsHeld q m₀ free₀ role₀ m free role p x ready.since held

  -- The stack's page.
  map_stack : ℕ → Kernel (Unit {0})
  map_stack stack m =
      map_page_specific_pml4 (m.memory p) stack (stack_page m.boot.flux_base_virt)
        (bit_or pse_writeable pse_user_mode) m

  map_stack-TaskStage :
      (stack : ℕ)
      → TaskStage (map_stack stack) 3 (in_range stack (stack_page m₀.boot.flux_base_virt) 1)
  unfolding map_stack
  map_stack-TaskStage stack =
      let v = stack_page m₀.boot.flux_base_virt in
      let flags = bit_or pse_writeable pse_user_mode in
      Stage-same x q port m₀ free₀ role₀ (map_stack stack) (map_page_specific_pml4 x stack v flags)
        3 (in_range stack v 1)
        (λ m free role ready enough.
          ap (λ t. map_page_specific_pml4 t stack (stack_page m.boot.flux_base_virt) flags m)
            (still-IsHeld m free role ready).holds
          ∙ ap
              (λ (z : Machine).
                map_page_specific_pml4 x stack (stack_page z.boot.flux_base_virt) flags m)
              ready.since.agrees)
        (Stage-map_page x q port m₀ free₀ role₀ stack v flags (omega arith, refl))

  map_executable-TaskStage :
      (offset n : ℕ)
      → n ≤ 2 ^ 36
      → TaskStage (map_executable n p offset 0) (3 * (n + 2)) (in_range offset 0 n)
  map_executable-TaskStage offset n small =
      let total = 4096 * n in
      let count : blocks total ≡ n = omega arith in
      Stage-same x q port m₀ free₀ role₀ (map_executable n p offset 0)
        (map_blocks (suc n) x total offset 0 pse_user_mode 0) (3 * (n + 2)) (in_range offset 0 n)
        (λ m free role ready enough.
          map_executable-map_blocks p x q offset n 0 total m free role ready.tree ready.root
            (still-IsHeld m free role ready) (omega arith) (omega arith) (omega arith))
        (Stage-cost x q port m₀ free₀ role₀ _ (tables_for n) (3 * (n + 2)) (in_range offset 0 n)
          (omega arith)
          (subst
            (λ c.
              TaskStage (map_blocks (suc n) x total offset 0 pse_user_mode 0) (tables_for c)
                (in_range offset 0 c))
            count
            (Stage-map_blocks x q port m₀ free₀ role₀ (suc n) total offset 0 pse_user_mode
              (omega arith, refl) (omega arith) (omega arith))))

  pub map_task-TaskStage :
      (stack offset n : ℕ)
      → n ≤ 2 ^ 36
      → TaskStage
          (map_task p stack offset n)
          (task_cost n)
          (task_change m₀.boot.flux_base_virt stack offset n)
  unfolding map_task map_stack pieces render
  map_task-TaskStage stack offset n small =
      Stage->> x q port m₀ free₀ role₀ (printk (codes "Mapping task stack" ++ newline) []) _ 0
        (3 + (0 + 3 * (n + 2))) no_change _
        (Stage-printk x q port m₀ free₀ role₀ (codes "Mapping task stack" ++ newline) [] _ refl)
        (Stage->> x q port m₀ free₀ role₀ (map_stack stack) _ 3 (0 + 3 * (n + 2)) _ _
          (map_stack-TaskStage stack)
          (Stage->> x q port m₀ free₀ role₀
            (printk (codes "Mapping task's executable" ++ newline) []) (map_executable n p offset 0)
            0 (3 * (n + 2)) no_change (in_range offset 0 n)
            (Stage-printk x q port m₀ free₀ role₀ (codes "Mapping task's executable" ++ newline) []
              _ refl)
            (map_executable-TaskStage offset n small)))
