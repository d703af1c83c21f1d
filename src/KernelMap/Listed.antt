-- ===== src/KernelMap/Listed.antt =====
-- The machine on which `find_free_frames` has listed the frames of the memory map.
use mathlib.Core.List.{reverse}
use flux_kernel.Prelude.{
  ◌+◌, ◌*◌, ◌^◌, ◌%◌, ◌<◌, true, false, none, All, length, arith, sym, subst, Bool-cases, inl, inr,
}
use flux_kernel.Frames.{page_size}
use flux_kernel.Frames.Chain.{has}
use flux_kernel.Frames.Init.{pushed, usable_frames, IsMemmap}
use flux_kernel.Frames.Free.{usable-IsFreeList}
use flux_kernel.Frames.Pushed.{
  pushed-same, pushed-memory, pushed-even, has-reverse, length-reverse, usable_frames-aligned,
}
use flux_kernel.Paging.Walk.{present}
use flux_kernel.Paging.Tree.{Roles, IsFrame, IsTree}
use flux_kernel.Paging.Root.{IsBlank}
use flux_kernel.KernelMap.Setup.{IsSmall, IsAnswered}
use flux_kernel.Prelude.{ℕ, ◌≡◌, refl, some, List, ap, ◌∙◌}
use flux_kernel.Words.{int_to_u64}
use flux_kernel.Machine.{Machine, MemmapEntry}
use flux_kernel.Frames.{null}

-- The machine with an empty free list, and the one with a count of free frames.
abbrev pub emptied : Machine → Machine
emptied m = record m { first_page_frame = null }

abbrev pub counted : ℕ → Machine → Machine
counted count m = record m { n_free_page_frames = int_to_u64 count }

-- The memory map that the boot loader hands over: in order and with usable entries aligned, as its
-- protocol promises, with every usable frame below 2^52, fewer than 2^31 of them, and the kernel and
-- each module at most 2^48 bytes long, and the other two responses that are read are there. It says nothing of what the usable frames hold.
pub record IsHandedOver (m : Machine) (entries : List MemmapEntry) : Type 0 where
  pub response : m.boot.memmap ≡ some entries
  pub in_order : IsMemmap 0 entries
  pub below : (y : ℕ) → has y (usable_frames entries) ≡ true → y < 2 ^ 52
  pub few : length (usable_frames entries) < 2 ^ 31
  pub answered : IsAnswered m.boot
  pub loaded : All (IsSmall m.boot) entries

pub IsHandedOver-same :
    (m m' : Machine) (entries : List MemmapEntry)
    → m'.boot ≡ m.boot
    → IsHandedOver m entries
    → IsHandedOver m' entries
IsHandedOver-same m m' entries boot handed = record {
  response = ap (λ z. z.memmap) boot ∙ handed.response;
  in_order = handed.in_order;
  below = handed.below;
  few = handed.few;
  answered = subst IsAnswered (sym boot) handed.answered;
  loaded = subst (λ b. All (IsSmall b) entries) (sym boot) handed.loaded;
}

-- No table yet.
abbrev pub no_roles : Roles
no_roles y = none

-- The machine after the frames of the memory map were pushed and counted.
abbrev pub listed : Machine → List MemmapEntry → Machine
listed m entries = record m {
  memory = (pushed (usable_frames entries) m).memory;
  first_page_frame = (pushed (usable_frames entries) m).first_page_frame;
  n_free_page_frames = int_to_u64 (length (usable_frames entries));
}

pub listed-pushed :
    (m : Machine) (entries : List MemmapEntry)
    → counted (length (usable_frames entries)) (pushed (usable_frames entries) m) ≡ listed m entries
listed-pushed m entries =
    ap (counted (length (usable_frames entries))) (pushed-same (usable_frames entries) m)

clear_even : (n : ℕ) → present n ≡ false → n % 2 ≡ 0
clear_even n e = ground (arith, e)

module _ (m : Machine) (entries : List MemmapEntry) (handed : IsHandedOver m entries)
    (empty : m.first_page_frame ≡ null) where
  listed-IsFrame : (y : ℕ) → has y (reverse (usable_frames entries)) ≡ true → IsFrame y
  listed-IsFrame y h =
      let h' = sym (has-reverse y (usable_frames entries)) ∙ h in
      record {
        aligned = usable_frames-aligned 0 entries y handed.in_order h';
        small = handed.below y h';
      }

  pub listed-IsTree : IsTree (listed m entries) (reverse (usable_frames entries)) no_roles
  listed-IsTree =
      let free = usable-IsFreeList m entries handed.in_order empty in
      record {
        pool = record {
          chain = free.0;
          distinct = free.1;
          counted = ground (arith, length-reverse (usable_frames entries), handed.few);
          bounded = ground (arith, handed.few);
        };
        free_frame = listed-IsFrame;
        free_role = λ y h. refl;
        table_frame = λ t l q h. cc;
        link = λ t l q i h hi p. cc;
      }

  -- The links of the free list are no present entries either.
  pub listed-IsBlank : (y : ℕ) → IsBlank m.memory y → IsBlank (listed m entries).memory y
  listed-IsBlank y clear j lt = ground (
    arith,
    pushed-even (usable_frames entries) m (y + 8 * j)
        (λ z hz. usable_frames-aligned 0 entries z handed.in_order hz)
        (ap (λ p. p % page_size) empty) (clear_even (m.memory (y + 8 * j)) (clear j lt)),
  )

-- A word of a frame that is not usable is not written.
pub listed-memory :
    (m : Machine) (entries : List MemmapEntry) (y j : ℕ)
    → IsHandedOver m entries
    → IsFrame y
    → j < 512
    → has y (usable_frames entries) ≡ false
    → (listed m entries).memory (y + 8 * j) ≡ m.memory (y + 8 * j)
listed-memory m entries y j handed frame lt out =
    pushed-memory (usable_frames entries) m (y + 8 * j)
      (elim (Bool-cases (has (y + 8 * j) (usable_frames entries))) [
        | inr e ↦ e
        | inl e ↦
            let aligned = usable_frames-aligned 0 entries (y + 8 * j) handed.in_order e in
            let first : y + 8 * j ≡ y = omega (arith, aligned, frame.aligned) in
            absurd (cc (subst (λ z. has z (usable_frames entries) ≡ true) first e, out))
      ])
