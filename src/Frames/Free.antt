-- ===== src/Frames/Free.antt =====
-- After `find_free_frames` the free list holds the frames of the usable entries, each once.
use mathlib.Core.List.{reverse_aux, reverse}
use flux_kernel.Prelude.{ℕ, zero, suc, ◌+◌, ◌*◌, ◌/◌, ◌^◌, ◌<◌, ◌≤◌, ◌≡◌, refl, ◌≢◌, false}
use flux_kernel.Prelude.{List, [], ◌∷◌, ◌++◌, length, arith, sym, ◌∙◌, ap, All, some, subst}
use flux_kernel.Prelude.{Bool-cases, inl, inr}
use flux_kernel.Machine.{MemmapEntry, Machine, ok, pure, and_then, write, write_self}
use flux_kernel.Words.{u32}
use flux_kernel.Frames.{null, page_size, scan_entries, scan_response, find_free_frames}
use flux_kernel.Frames.Chain.{has, IsFreeList, Distinct, IsFreeList-write}
use flux_kernel.Frames.Init.{push, pushed, frames_from, usable_frames, usable}
use flux_kernel.Frames.Init.{IsMemmap, scan_entries-pushed}

-- None of `xs` is NULL, comes twice or is among `ys`.
abbrev Pushable : List ℕ → List ℕ → Type 0
Pushable [] ys = Unit
Pushable (x ∷ xs) ys = (x ≢ null) × (has x ys ≡ false) × Pushable xs (x ∷ ys)

abbrev Below : ℕ → List ℕ → Type 0
Below bound xs = All (λ x. x < bound) xs

Below-mono : (a b : ℕ) (xs : List ℕ) → a ≤ b → Below a xs → Below b xs
Below-mono a b [] le h = tt
Below-mono a b (x ∷ xs) le h = (omega arith, Below-mono a b xs le h.1)

not-has-Below : (a : ℕ) (xs : List ℕ) → Below a xs → has a xs ≡ false
not-has-Below a [] h = refl
not-has-Below a (x ∷ xs) h = ground (arith, not-has-Below a xs)

push-IsFreeList :
    (x : ℕ) (m : Machine) (ys : List ℕ)
    → x ≢ null
    → has x ys ≡ false
    → IsFreeList m.memory m.first_page_frame ys
    → IsFreeList (push x m).memory x (x ∷ ys)
push-IsFreeList x m ys ne out h = (
  refl,
  ne,
  subst (λ p. IsFreeList (write m.memory x m.first_page_frame) p ys)
      (sym (write_self m.memory x m.first_page_frame))
      (IsFreeList-write m.memory x m.first_page_frame m.first_page_frame ys out h),
)

pushed-IsFreeList :
    (xs ys : List ℕ) (m : Machine)
    → Pushable xs ys
    → IsFreeList m.memory m.first_page_frame ys
    → Distinct ys
    → IsFreeList (pushed xs m).memory (pushed xs m).first_page_frame (reverse_aux xs ys)
      × Distinct (reverse_aux xs ys)
unfolding pushed
pushed-IsFreeList [] ys m h free distinct = (free, distinct)
pushed-IsFreeList (x ∷ xs) ys m (ne, out, h) free distinct =
    pushed-IsFreeList xs (x ∷ ys) (push x m) h (push-IsFreeList x m ys ne out free) (out, distinct)

Pushable-frames :
    (n base : ℕ) (ys zs : List ℕ)
    → 0 < base
    → Below base ys
    → ((ys' : List ℕ) → Below (base + n * page_size) ys' → Pushable zs ys')
    → Pushable (frames_from n base ++ zs) ys
unfolding frames_from
Pushable-frames zero base ys zs pos below rest = rest ys (Below-mono base _ ys (omega arith) below)
Pushable-frames (suc n) base ys zs pos below rest = (
  omega arith,
  not-has-Below base ys below,
  Pushable-frames n (base + page_size) (base ∷ ys) zs (omega arith)
      (omega arith, Below-mono base (base + page_size) ys (omega arith) below)
      (λ ys' h. rest ys' (Below-mono _ _ ys' (omega arith) h)),
)

Pushable-usable :
    (bound : ℕ) (entries : List MemmapEntry) (ys : List ℕ)
    → IsMemmap bound entries
    → Below bound ys
    → Pushable (usable_frames entries) ys
unfolding usable_frames
Pushable-usable bound [] ys map below = tt
Pushable-usable bound (entry ∷ entries) ys (aligned, map) below = elim (Bool-cases (usable entry)) [
  | inl e ↦
      let (whole, above) = aligned e in
      let rest = Pushable-usable (entry.base + entry.length) entries in
      rw e (
        Pushable-frames (entry.length / page_size) entry.base ys (usable_frames entries)
          whole.nonzero (Below-mono bound entry.base ys above below)
          (λ ys' h.
            rest ys' (rw e at map) (Below-mono _ (entry.base + entry.length) ys' (omega arith) h)))
  | inr e ↦ rw e (Pushable-usable bound entries ys (rw e at map) below)
]

find_free_frames_run :
    (m : Machine) (entries : List MemmapEntry) (ret : ℕ) (m' : Machine)
    → m.boot.memmap ≡ some entries
    → scan_entries entries 0 m ≡ ok ret m'
    → find_free_frames m ≡ ok (u32 ret) m'
unfolding find_free_frames scan_response
find_free_frames_run m entries ret m' e run =
    ap (λ o. scan_response o m) e ∙ ap (λ r. and_then r (λ n. pure (u32 n))) run

-- The machine that `find_free_frames` leaves, and its free list.
pub find_free_frames-pushed :
    (m : Machine) (entries : List MemmapEntry)
    → m.boot.memmap ≡ some entries
    → IsMemmap 0 entries
    → length (usable_frames entries) < 2 ^ 32
    → find_free_frames m ≡ ok (length (usable_frames entries)) (pushed (usable_frames entries) m)
find_free_frames-pushed m entries e map small =
    let run = scan_entries-pushed 0 entries 0 m map (omega arith) in
    let count = ap (λ n. ok n (pushed (usable_frames entries) m)) (omega arith) in
    find_free_frames_run m entries _ _ e run ∙ count

pub usable-IsFreeList :
    (m : Machine) (entries : List MemmapEntry)
    → IsMemmap 0 entries
    → m.first_page_frame ≡ null
    → (let m' = pushed (usable_frames entries) m in
        IsFreeList m'.memory m'.first_page_frame (reverse (usable_frames entries)))
      × Distinct (reverse (usable_frames entries))
usable-IsFreeList m entries map empty =
    pushed-IsFreeList (usable_frames entries) [] m (Pushable-usable 0 entries [] map tt) empty tt

-- At boot, with an empty list and the memory map that the boot protocol promises, of fewer than 2^32
-- usable frames, `find_free_frames` returns the number of frames in the usable entries, and the free
-- list holds exactly these frames, the last one first, each once.
pub find_free_frames-IsFreeList :
    (m : Machine) (entries : List MemmapEntry)
    → m.boot.memmap ≡ some entries
    → IsMemmap 0 entries
    → m.first_page_frame ≡ null
    → length (usable_frames entries) < 2 ^ 32
    → (m' : Machine) × (find_free_frames m ≡ ok (length (usable_frames entries)) m')
      × IsFreeList m'.memory m'.first_page_frame (reverse (usable_frames entries))
      × Distinct (reverse (usable_frames entries))
find_free_frames-IsFreeList m entries e map empty small =
    let free = usable-IsFreeList m entries map empty in
    (
      pushed (usable_frames entries) m,
      find_free_frames-pushed m entries e map small,
      free.0,
      free.1,
    )
