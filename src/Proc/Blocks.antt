-- ===== src/Proc/Blocks.antt =====
-- The steps of `init_task_space_from_mem`: its messages and the two blocks that it takes.
use flux_kernel.Prelude.{
  ℕ, ◌+◌, ◌*◌, ◌<◌, ◌≡◌, ◌≢◌, refl, false, none, some, List, [], ◌∷◌, ◌++◌, ap, ◌∙◌, sym, codes,
  ==_false, ==_refl,
}
use flux_kernel.Machine.{Machine, PortEvent, ComPort, ok, write, write_self}
use flux_kernel.Serial.Console.{traffic}
use flux_kernel.Printk.{word, printk}
use flux_kernel.Printk.Console.{IsConsole, IsConsole-same}
use flux_kernel.Printk.Render.{render, pieces, conversion_text, printk-says}
use flux_kernel.Debug.{newline}
use flux_kernel.Frames.{null, get_phys_block}
use flux_kernel.Frames.Chain.{has, not-has-head, not-has-tail}
use flux_kernel.Frames.Pool.{taken}
use flux_kernel.Paging.Walk.{translate, present}
use flux_kernel.Paging.Tree.{Roles, IsFrame, IsTree}
use flux_kernel.Paging.Link.{with_role}
use flux_kernel.Paging.Root.{
  IsTree-same, IsBlank, IsTaken, get_phys_block-IsTaken, root-IsTree, root_kept, root_empty,
}
use flux_kernel.Paging.Change.{Grows-traffic}
use flux_kernel.Paging.Held.{IsHeld}
use flux_kernel.Paging.Outside.{written-other, written-IsTree, written-walk}
use flux_kernel.KernelMap.Stage.{IsReady}
use flux_kernel.Proc.{map_task, init_task_space_from_mem}

-- The steps of the program, given what each does.
pub init_task_space_run :
    (p offset n old x s : ℕ) (m m₁ m₂ m₃ m₄ m₅ m' : Machine)
    → m.memory p ≡ old
    → printk (codes "pml4 = %p; *pml4 = %p" ++ newline) (word p ∷ word old ∷ []) m ≡ ok tt m₁
    → printk (codes "Getting block for pml4" ++ newline) [] m₁ ≡ ok tt m₂
    → get_phys_block m₂ ≡ ok x m₃
    → x ≢ null
    → printk
        (codes "Getting block for stack" ++ newline)
        []
        (record m₃ { memory = write m₃.memory p x })
      ≡ ok tt m₄
    → get_phys_block m₄ ≡ ok s m₅
    → s ≢ null
    → map_task p s offset n m₅ ≡ ok tt m'
    → init_task_space_from_mem p offset n m ≡ ok tt m'
unfolding init_task_space_from_mem
init_task_space_run p offset n old x s m m₁ m₂ m₃ m₄ m₅ m' e r₁ r₂ r₃ nx r₄ r₅ ns r₆ =
    rw (init_task_space_from_mem, e, r₁, r₂, r₃, ==_false x null nx, r₄, r₅, ==_false s null ns) r₆

-- The two blocks are taken, and the first is the root of the task's address space.
module _ (m : Machine) (x s : ℕ) (free : List ℕ) (role : Roles)
    (tree : IsTree m (x ∷ s ∷ free) role) (y j q : ℕ) (fy : IsFrame y) (hj : j < 512)
    (ry : role y ≡ none) (out : has y (x ∷ s ∷ free) ≡ false) (blank : IsBlank m.memory x)
    (log₂ log₄ : List PortEvent) where
  abbrev m₂ : Machine
  m₂ = traffic m log₂

  pub first : IsTaken m₂ x (s ∷ free) role
  first = get_phys_block-IsTaken m₂ x (s ∷ free) role (IsTree-same m m₂ _ role refl refl refl tree)

  y≢x : y ≢ x
  y≢x = not-has-head y x (s ∷ free) out

  out₁ : has y (s ∷ free) ≡ false
  out₁ = not-has-tail y x (s ∷ free) out

  -- The machine with the root in the caller's variable.
  abbrev pub m₃ : Machine
  m₃ = record (taken m₂) { memory = write m.memory (y + 8 * j) x }

  abbrev role₃ : Roles
  role₃ = with_role role x (3, q)

  tree₃ : IsTree m₃ (s ∷ free) role
  tree₃ = written-IsTree (taken m₂) (s ∷ free) role first.tree y j x fy hj ry out₁

  blank₃ : IsBlank m₃.memory x
  blank₃ i hi =
      ap present (
        written-other (taken m₂) (s ∷ free) role first.tree y j x fy hj ry out₁ x i first.frame hi
          (λ e. y≢x (sym e)))
      ∙ blank i hi

  abbrev pub m₄ : Machine
  m₄ = traffic m₃ log₄

  tree₄ : IsTree m₄ (s ∷ free) role₃
  tree₄ =
      IsTree-same m₃ m₄ (s ∷ free) role₃ refl refl refl
        (root-IsTree m₃ (s ∷ free) role tree₃ x q first.frame first.no_role first.not_free blank₃)

  pub second : IsTaken m₄ s free role₃
  second = get_phys_block-IsTaken m₄ s free role₃ tree₄

  abbrev pub m₅ : Machine
  m₅ = taken m₄

  pub held₅ : IsHeld m₅ free role₃ (y + 8 * j) x
  held₅ = record {
    frame = y;
    slot = j;
    at = refl;
    aligned = fy;
    inside = hj;
    no_role = rw (==_false y x y≢x) ry;
    not_free = not-has-tail y s free out₁;
    holds = write_self m.memory (y + 8 * j) x;
  }

  pub empty₅ : (w : ℕ) → translate m₅.memory x w ≡ none
  empty₅ w =
      root_empty m₃ (s ∷ free) role tree₃ x q first.frame first.no_role first.not_free blank₃ w

  pub kept₅ : (u q₂ : ℕ) → role u ≡ some (3, q₂) → role₃ u ≡ some (3, q₂)
  kept₅ u q₂ h =
      root_kept m₃ (s ∷ free) role tree₃ x q first.frame first.no_role first.not_free blank₃ u 3 q₂
        h

  pub elsewhere₅ :
      (u q₂ w : ℕ) → role u ≡ some (3, q₂) → translate m₅.memory u w ≡ translate m.memory u w
  elsewhere₅ u q₂ w h =
      written-walk (taken m₂) (s ∷ free) role first.tree y j x fy hj ry out₁ 3 u q₂ w h

  pub ready₅ : (port : ComPort) → IsConsole m port → IsReady x q port m₅ free role₃ m₅ free role₃
  ready₅ port console = record {
    tree = second.tree;
    root = rw (==_refl x) refl;
    console = IsConsole-same m m₅ port refl refl refl refl console;
    since = Grows-traffic q m₅ free role₃ m₅.port_log;
  }

pub address_message :
    {m : Machine} {port : ComPort} (p old : ℕ)
    → IsConsole m port
    → (log : List PortEvent) × (printk
          (codes "pml4 = %p; *pml4 = %p" ++ newline)
          (word p ∷ word old ∷ [])
          m
        ≡ ok tt (traffic m log))
unfolding pieces render conversion_text
address_message p old console =
    let (log, run, said) =
      printk-says console (codes "pml4 = %p; *pml4 = %p" ++ newline) (word p ∷ word old ∷ []) _
        refl in
    (log, run)

-- A message without conversions.
pub plain_message :
    {m : Machine} {port : ComPort} (text s : List ℕ)
    → render (pieces text) [] ≡ some s
    → IsConsole m port
    → (log : List PortEvent) × (printk text [] m ≡ ok tt (traffic m log))
plain_message text s e console =
    let (log, run, said) = printk-says console text [] s e in (log, run)
