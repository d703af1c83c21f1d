-- ===== src/Scheduler/Sequence/Added.antt =====
-- The state of the tasks after one more was created.
use flux_kernel.Prelude.{
  ℕ, ◌+◌, ◌*◌, ◌<◌, ◌≡◌, ◌≢◌, true, false, none, some, List, [], ◌∷◌, ◌++◌, ap, ◌∙◌, sym, subst,
  length, length-append, arith, get_elem?, get_elem?-last, inl, inr,
}
use flux_kernel.Machine.{Machine, ComPort}
use flux_kernel.Task.{Task}
use flux_kernel.Frames.Chain.{has, not-has-head, not-has-tail}
use flux_kernel.Paging.Walk.{present}
use flux_kernel.Paging.Tree.{Roles, IsFrame}
use flux_kernel.Paging.Link.{entry_ne}
use flux_kernel.Paging.Below.{not_free}
use flux_kernel.Proc.Space.{task_change}
use flux_kernel.Scheduler.Create.{IsCreated}
use flux_kernel.Scheduler.Sequence.{TaskFrames, IsTask, IsScheduling}

module _ (base q₀ total : ℕ) (port : ComPort) where
  -- A new task behind those that are there.
  module _ (m : Machine) (t x s : ℕ) (free : List ℕ) (role : Roles) (cs : List TaskFrames)
      (state : IsScheduling base q₀ total port m (t ∷ x ∷ s ∷ free) role cs) (task : Task)
      (m' : Machine)
      (created : IsCreated m (length cs) t x s task free role (q₀ + length cs) port m') where
    abbrev new : TaskFrames
    new = record { table = t; root = x; stack = s }

    t-IsFrame : IsFrame t
    t-IsFrame = state.tree.free_frame t (ground arith)

    table_start : (z : ℕ) → z + 8 * 0 ≡ z
    table_start z = omega arith

    -- The words of a frame that is neither a table nor `t`.
    frame_same :
        (z i : ℕ)
        → IsFrame z
        → i < 512
        → created.space.role' z ≡ none
        → z ≢ t
        → m'.memory (z + 8 * i) ≡ m.memory (z + 8 * i)
    frame_same z i fz hi h ne =
        let start : t ≡ t + 8 * 0 = omega arith in
        created.space.untouched z i fz hi h
          (subst (λ p. z + 8 * i ≢ p) (sym start) (entry_ne i 0 fz t-IsFrame hi (omega arith) ne))

    still_none :
        (z : ℕ) → role z ≡ none → has z (t ∷ x ∷ s ∷ free) ≡ false → created.space.role' z ≡ none
    still_none z h out = created.space.fresh z h (not-has-tail z t (x ∷ s ∷ free) out)

    still_used : (z : ℕ) → has z (t ∷ x ∷ s ∷ free) ≡ false → has z created.space.free' ≡ false
    still_used z out = not_free created.space.free' free z (created.space.fewer z) (ground arith)

    old-IsTask :
        (i : ℕ) (c : TaskFrames)
        → i < length cs
        → IsTask base q₀ total port m (t ∷ x ∷ s ∷ free) role i c
        → IsTask base q₀ total port m' created.space.free' created.space.role' i c
    old-IsTask i c lt old = record {
      entry =
          let (task, at, new) = old.entry in
          (task, created.others i (λ e. omega (arith, e)) ∙ at, new);
      pointer =
          subst (λ p. m'.memory p ≡ m.memory p) (table_start c.table)
            (frame_same c.table 0 old.frame (omega arith)
              (still_none c.table old.no_role old.not_free)
              (not-has-head c.table t (x ∷ s ∷ free) old.not_free))
          ∙ old.pointer;
      root = created.space.kept c.root (q₀ + i) old.root;
      maps = λ w.
          created.space.elsewhere c.root (q₀ + i) w old.root (λ e. omega (arith, e)) ∙ old.maps w;
      frame = old.frame;
      no_role = still_none c.table old.no_role old.not_free;
      not_free = still_used c.table old.not_free;
    }

    new-IsTask :
        IsTask base q₀ total port m' created.space.free' created.space.role' (length cs) new
    new-IsTask = record {
      entry = created.entry;
      pointer = created.pointer;
      root = created.space.root;
      maps = λ w. created.space.maps w ∙ ap (λ b. task_change b s 0 0 w none) state.at_base;
      frame = t-IsFrame;
      no_role =
          created.space.fresh t (state.tree.free_role t (ground arith)) state.tree.pool.distinct.0;
      not_free =
          not_free created.space.free' free t (created.space.fewer t)
            (ground (arith, state.tree.pool.distinct.0));
    }

    made_more :
        (i : ℕ) (c : TaskFrames)
        → get_elem? (cs ++ new ∷ []) i ≡ some c
        → IsTask base q₀ total port m' created.space.free' created.space.role' i c
    made_more i c e = elim (get_elem?-last cs new c i e) [
      | inl (at, lt) ↦ old-IsTask i c lt (state.made i c at)
      | inr (last, same) ↦
          subst (λ j. IsTask base q₀ total port m' created.space.free' created.space.role' j c)
            (sym last)
            (subst
              (IsTask base q₀ total port m' created.space.free' created.space.role' (length cs))
              same new-IsTask)
    ]

    pub more-IsScheduling :
        IsScheduling base q₀ total port m' created.space.free' created.space.role' (cs ++ new ∷ [])
    more-IsScheduling = record {
      tree = created.space.tree;
      console = created.space.console;
      blank = λ y h j hj.
          ap present (
            frame_same y j (created.space.tree.free_frame y h) hj (created.space.tree.free_role y h)
              (λ e. cc (subst (λ z. has z created.space.free' ≡ true) e h, new-IsTask.not_free)))
          ∙ state.blank y (ground (arith, created.space.fewer y h)) j hj;
      whole = created.length_kept ∙ state.whole;
      idle = λ j other at le.
          state.idle j other
            (sym (created.others j (λ e. omega (arith, e, le, length-append cs (new ∷ [])))) ∙ at)
            (omega (arith, le, length-append cs (new ∷ [])));
      made = made_more;
      at_base = ap (λ z. z.boot.flux_base_virt) created.space.agrees ∙ state.at_base;
    }
