-- ===== src/Frames/Init.antt =====
-- `find_free_frames` threads the frames of the usable entries onto the free list.
use flux_kernel.Prelude.{ℕ, zero, suc, ◌+◌, ◌*◌, ◌/◌, ◌%◌, ◌^◌, ◌<◌, ◌≤◌, ◌≡◌, refl, true, Bool}
use flux_kernel.Prelude.{List, [], ◌∷◌, ◌++◌, length, arith, ◌∙◌, ap, ap₂, Bool-cases, inl, inr}
use flux_kernel.Prelude.{length-append, ◌==◌, if◌then◌else◌, lt→ltb, le→ltb}
use flux_kernel.Words.{u64}
use flux_kernel.Machine.{MemmapEntry, Machine, ok, write}
use flux_kernel.Frames.{page_size, add_frames, scan_entry, scan_entries, limine_memmap_usable}

abbrev pub push : ℕ → Machine → Machine
push x m = record m { memory = write m.memory x m.first_page_frame; first_page_frame = x }

-- The machine after the frames `xs` were pushed, the first first.
unfoldable pub pushed : List ℕ → Machine → Machine
pushed [] m = m
pushed (x ∷ xs) m = pushed xs (push x m)

-- The `n` frames from `base` on.
unfoldable pub frames_from : ℕ → ℕ → List ℕ
frames_from zero base = []
frames_from (suc n) base = base ∷ frames_from n (base + page_size)

-- The frames of a memory map entry, and of the usable entries of a memory map, in ascending order
-- of their addresses in each entry.
abbrev pub entry_frames : MemmapEntry → List ℕ
entry_frames entry =
    if entry.kind == limine_memmap_usable
    then frames_from (entry.length / page_size) entry.base
    else []

unfoldable pub usable_frames : List MemmapEntry → List ℕ
usable_frames [] = []
usable_frames (entry ∷ entries) = entry_frames entry ++ usable_frames entries

-- What the boot protocol promises of a usable entry: it is page aligned, lies below 2^64 and does
-- not start at address 0.
pub record IsAligned (entry : MemmapEntry) : Type 0 where
  pub base_aligned : entry.base % page_size ≡ 0
  pub length_aligned : entry.length % page_size ≡ 0
  pub nonzero : 0 < entry.base
  pub below : entry.base + entry.length < 2 ^ 64

module _ (entry : MemmapEntry) (fits : entry.base + entry.length < 2 ^ 64) where
  add_frames-pushed :
      (n rounds b_offset ret : ℕ) (m : Machine)
      → b_offset + n * page_size ≡ entry.length
      → n < rounds
      → ret + n < 2 ^ 64
      → add_frames rounds entry b_offset ret m
        ≡ ok (ret + n) (pushed (frames_from n (entry.base + b_offset)) m)
  unfolding add_frames pushed frames_from
  add_frames-pushed n zero b_offset ret m e h small = elim h [ ]
  add_frames-pushed zero (suc rounds) b_offset ret m e h small =
      rw (add_frames, le→ltb b_offset entry.length (omega arith)) (ap (λ t. ok t m) (omega arith))
  add_frames-pushed (suc n) (suc rounds) b_offset ret m e h small =
      let address : u64 (entry.base + b_offset) ≡ entry.base + b_offset = omega arith in
      let next : u64 (b_offset + page_size) ≡ b_offset + page_size = omega arith in
      let counted : u64 (ret + 1) ≡ ret + 1 = omega arith in
      let count : ret + 1 + n ≡ ret + suc n = omega arith in
      let base : entry.base + (b_offset + page_size) ≡ entry.base + b_offset + page_size =
        omega arith in
      rw (add_frames, lt→ltb b_offset entry.length (omega arith), address, next, counted)
        (add_frames-pushed n rounds (b_offset + page_size) (ret + 1) _ (omega arith) (omega arith)
            (omega arith)
          ∙ ap₂ (λ c b. ok c (pushed (frames_from n b) (push (entry.base + b_offset) m))) count
              base)

pushed-append : (xs ys : List ℕ) (m : Machine) → pushed (xs ++ ys) m ≡ pushed ys (pushed xs m)
unfolding pushed
pushed-append [] ys m = refl
pushed-append (x ∷ xs) ys m = pushed-append xs ys _

pub length-frames_from : (n base : ℕ) → length (frames_from n base) ≡ n
unfolding frames_from
length-frames_from zero base = refl
length-frames_from (suc n) base = ap suc (length-frames_from n (base + page_size))

-- The entries come in ascending order; the usable ones start at `bound` or later, are aligned and
-- do not overlap.
abbrev pub usable : MemmapEntry → Bool
usable entry = entry.kind == limine_memmap_usable

abbrev pub IsMemmap : ℕ → List MemmapEntry → Type 0
IsMemmap bound [] = Unit
IsMemmap bound (entry ∷ entries) =
    (usable entry ≡ true → IsAligned entry × (bound ≤ entry.base))
    × IsMemmap (if usable entry then entry.base + entry.length else bound) entries

scan_entry-pushed :
    (entry : MemmapEntry) (ret : ℕ) (m : Machine)
    → (usable entry ≡ true → IsAligned entry)
    → ret + length (entry_frames entry) < 2 ^ 64
    → scan_entry entry ret m
      ≡ ok (ret + length (entry_frames entry)) (pushed (entry_frames entry) m)
unfolding scan_entry frames_from pushed
scan_entry-pushed entry ret m aligned small = elim (Bool-cases (usable entry)) [
  | inl e ↦
      let ok_entry = aligned e in
      let n = entry.length / page_size in
      let count : length (frames_from n entry.base) ≡ n = length-frames_from n entry.base in
      let fits : ret + length (frames_from n entry.base) < 2 ^ 64 = rw e at small in
      let base : entry.base + 0 ≡ entry.base = omega arith in
      rw (e, count)
        (add_frames-pushed entry ok_entry.below n (n + 2) 0 ret m
            (omega (arith, ok_entry.length_aligned)) (omega arith) (omega (arith, fits, count))
          ∙ ap (λ b. ok (ret + n) (pushed (frames_from n b) m)) base)
  | inr e ↦ rw e (ap (λ t. ok t m) (omega arith))
]

pub scan_entries-pushed :
    (bound : ℕ) (entries : List MemmapEntry) (ret : ℕ) (m : Machine)
    → IsMemmap bound entries
    → ret + length (usable_frames entries) < 2 ^ 64
    → scan_entries entries ret m
      ≡ ok (ret + length (usable_frames entries)) (pushed (usable_frames entries) m)
unfolding scan_entries usable_frames
scan_entries-pushed bound [] ret m map small = unfold pushed in ap (λ t. ok t m) (omega arith)
scan_entries-pushed bound (entry ∷ entries) ret m (aligned, map) small =
    let here = entry_frames entry in
    let more = usable_frames entries in
    let total : length (here ++ more) ≡ length here + length more = length-append here more in
    let sum : ret + length here + length more ≡ ret + (length here + length more) = omega arith in
    rw
      (
        scan_entry-pushed entry ret m (λ e. (aligned e).0) (omega (arith, total, small)),
        total,
        pushed-append here more m,
        ← sum,
      )
      (scan_entries-pushed (if usable entry then entry.base + entry.length else bound) entries
        (ret + length here) (pushed here m) map (omega (arith, total, small)))
