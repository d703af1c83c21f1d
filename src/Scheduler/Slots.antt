-- ===== src/Scheduler/Slots.antt =====
-- The search for a free entry of the task table.
use flux_kernel.Prelude.{ℕ, zero, suc, ◌+◌, ◌-◌, ◌<◌, ◌≤◌, ◌≡◌, ◌≢◌, refl, none, some, ◌==◌}
use flux_kernel.Prelude.{Option, List, [], ◌∷◌, get_elem?, All, Bool-cases, inl, inr, arith}
use flux_kernel.Prelude.{true, false, ==_true, ==_false, ap, ◌∙◌}
use flux_kernel.Task.{Task}
use flux_kernel.Scheduler.{find_slot}

-- What the search from index `i` on has found.
abbrev pub Found : List Task → ℕ → Option ℕ → Type 0
Found tasks i none = All (λ task. task.present ≢ 0) tasks
Found tasks i (some k) =
    (i ≤ k)
    × ((task : Task) × (get_elem? tasks (k - i) ≡ some task) × (task.present ≡ 0))
    × ((j : ℕ) (task : Task) → j < k - i → get_elem? tasks j ≡ some task → task.present ≢ 0)

slot_present : Option Task → ℕ
slot_present none = 0
slot_present (some task) = task.present

-- A task in front of a table that has been searched.
Found-cons :
    (task : Task) (tasks : List Task) (i : ℕ) (o : Option ℕ)
    → task.present ≢ 0
    → Found tasks (i + 1) o
    → Found (task ∷ tasks) i o
unfolding slot_present
Found-cons task tasks i none ne h = (ne, h)
Found-cons task tasks i (some k) ne (le, found, before) =
    let e : k - i ≡ suc (k - (i + 1)) = omega arith in rw e (omega arith, found, earlier)
  where
    earlier :
        (j : ℕ) (other : Task)
        → j < suc (k - (i + 1))
        → get_elem? (task ∷ tasks) j ≡ some other
        → other.present ≢ 0
    earlier zero other lt h = λ e. ne (ap slot_present h ∙ e)
    earlier (suc j) other lt h = before j other (omega arith) h

-- From any index on, the search of `new_task` returns the index of the first entry of the table that
-- is not present, and it fails only when all entries are present.
pub find_slot-Found : (tasks : List Task) (i : ℕ) → Found tasks i (find_slot tasks i)
unfolding find_slot
find_slot-Found [] i = tt
find_slot-Found (task ∷ tasks) i = elim (Bool-cases (task.present == 0)) [
  | inl e ↦
      let none_before : i - i ≡ 0 = omega arith in
      rw (e, none_before)
        (omega arith, (task, refl, ==_true task.present 0 e), λ j other lt h. elim lt [ ])
  | inr e ↦ rw e (
      Found-cons task tasks i (find_slot tasks (i + 1)) (ground arith)
        (find_slot-Found tasks (i + 1)))
]

-- The search of a full table fails.
pub find_slot-none :
    (tasks : List Task) (i : ℕ) → All (λ task. task.present ≢ 0) tasks → find_slot tasks i ≡ none
unfolding find_slot
find_slot-none [] i busy = refl
find_slot-none (task ∷ tasks) i (ne, busy) =
    rw (==_false task.present 0 ne) (find_slot-none tasks (i + 1) busy)

-- The search finds an entry that is not present behind those that are.
pub find_slot-at :
    (tasks : List Task) (i k : ℕ) (task : Task)
    → ((j : ℕ) (other : Task) → get_elem? tasks j ≡ some other → j < k → other.present ≢ 0)
    → get_elem? tasks k ≡ some task
    → task.present ≡ 0
    → find_slot tasks i ≡ some (i + k)
unfolding find_slot
find_slot-at [] i k task busy at idle = absurd (cc at)
find_slot-at (t ∷ tasks) i zero task busy at idle =
    let same : t ≡ task = cc in
    let test : (t.present == 0) ≡ true = rw (ap (λ (z : Task). z.present) same ∙ idle) refl in
    let start : i ≡ i + 0 = omega arith in rw test (ap some start)
find_slot-at (t ∷ tasks) i (suc k) task busy at idle =
    let test : (t.present == 0) ≡ false = ==_false t.present 0 (busy 0 t refl (omega arith)) in
    let next : i + 1 + k ≡ i + suc k = omega arith in
    rw test (
      find_slot-at tasks (i + 1) k task (λ j other h lt. busy (suc j) other h (omega arith)) at idle
      ∙ ap some next)
