-- ===== src/Frames/Pushed.antt =====
-- What pushing frames leaves of a machine, and the frames of a memory map.
use mathlib.Core.List.{reverse_aux, reverse}
use flux_kernel.Prelude.{ℕ, zero, suc, ◌+◌, ◌/◌, ◌%◌, ◌≡◌, refl, true, false, subst, ◌||◌, ◌==◌}
use flux_kernel.Prelude.{
  List, [], ◌∷◌, ◌++◌, length, arith, ◌∙◌, Bool-cases, inl, inr, sym, if◌then◌else◌,
}
use flux_kernel.Machine.{MemmapEntry, Machine, write, write_ne}
use flux_kernel.Frames.{page_size}
use flux_kernel.Frames.Chain.{has}
use flux_kernel.Frames.Init.{push, pushed, frames_from, usable_frames, usable, IsMemmap}

-- Only memory and the head of the list change.
pub pushed-same :
    (xs : List ℕ) (m : Machine)
    → pushed xs m ≡ record m {
      memory = (pushed xs m).memory;
      first_page_frame = (pushed xs m).first_page_frame;
    }
unfolding pushed
pushed-same [] m = refl
pushed-same (x ∷ xs) m = pushed-same xs (push x m)

-- Memory changes only at the frames.
pub pushed-memory :
    (xs : List ℕ) (m : Machine) (a : ℕ) → has a xs ≡ false → (pushed xs m).memory a ≡ m.memory a
unfolding pushed
pushed-memory [] m a out = refl
pushed-memory (x ∷ xs) m a out =
    pushed-memory xs (push x m) a (ground arith)
    ∙ write_ne m.memory x m.first_page_frame a (ground arith)

-- The words that are pushed are addresses of frames, or the end of the list.
pub pushed-even :
    (xs : List ℕ) (m : Machine) (a : ℕ)
    → ((y : ℕ) → has y xs ≡ true → y % page_size ≡ 0)
    → m.first_page_frame % page_size ≡ 0
    → m.memory a % 2 ≡ 0
    → (pushed xs m).memory a % 2 ≡ 0
unfolding pushed write
pushed-even [] m a aligned first even = even
pushed-even (x ∷ xs) m a aligned first even =
    pushed-even xs (push x m) a (λ y h. aligned y (ground arith)) (aligned x (ground arith))
      (ground arith)

has-append : (a : ℕ) (xs ys : List ℕ) → has a (xs ++ ys) ≡ (has a xs || has a ys)
has-append a [] ys = refl
has-append a (x ∷ xs) ys = ground (arith, has-append a xs ys)

has-reverse_aux : (a : ℕ) (xs ys : List ℕ) → has a (reverse_aux xs ys) ≡ (has a xs || has a ys)
has-reverse_aux a [] ys = refl
has-reverse_aux a (x ∷ xs) ys = ground (arith, has-reverse_aux a xs (x ∷ ys))

pub has-reverse : (a : ℕ) (xs : List ℕ) → has a (reverse xs) ≡ has a xs
has-reverse a xs = ground (arith, has-reverse_aux a xs [])

length-reverse_aux : (xs ys : List ℕ) → length (reverse_aux xs ys) ≡ length xs + length ys
length-reverse_aux [] ys = omega arith
length-reverse_aux (x ∷ xs) ys = omega (arith, length-reverse_aux xs (x ∷ ys))

pub length-reverse : (xs : List ℕ) → length (reverse xs) ≡ length xs
length-reverse xs = omega (arith, length-reverse_aux xs [])

frames_from-aligned :
    (n base y : ℕ) → base % page_size ≡ 0 → has y (frames_from n base) ≡ true → y % page_size ≡ 0
unfolding frames_from
frames_from-aligned zero base y aligned h = ground arith
frames_from-aligned (suc n) base y aligned h = elim (Bool-cases (y == base)) [
  | inl e ↦ ground arith
  | inr e ↦ frames_from-aligned n (base + page_size) y (omega arith) (rw e at h)
]

-- The frames of the usable entries are page aligned.
pub usable_frames-aligned :
    (bound : ℕ) (entries : List MemmapEntry) (y : ℕ)
    → IsMemmap bound entries
    → has y (usable_frames entries) ≡ true
    → y % page_size ≡ 0
unfolding usable_frames
usable_frames-aligned bound [] y map h = ground arith
usable_frames-aligned bound (entry ∷ entries) y (aligned, map) h =
    elim (Bool-cases (usable entry)) [
      | inr e ↦ usable_frames-aligned bound entries y (rw e at map) (
          subst
            (λ b.
              has y (
                (if b then frames_from (entry.length / page_size) entry.base else [])
                ++ usable_frames entries)
              ≡ true)
            e h)
      | inl e ↦
          let here = frames_from (entry.length / page_size) entry.base in
          let split : (has y here || has y (usable_frames entries)) ≡ true =
            sym (has-append y here (usable_frames entries)) ∙ (rw e at h) in
          elim (Bool-cases (has y here)) [
            | inl at ↦ frames_from-aligned _ entry.base y ((aligned e).0.base_aligned) at
            | inr out ↦
                usable_frames-aligned (entry.base + entry.length) entries y (rw e at map)
                  (rw out at split)
          ]
    ]
