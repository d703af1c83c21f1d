-- ===== src/Frames/Chain.antt =====
-- The free list as a chain of `next_frame` pointers that ends in NULL.
use flux_kernel.Prelude.{ℕ, ◌≡◌, ◌≢◌, Bool, false, List, [], ◌∷◌, ◌||◌, ◌==◌, arith}
use flux_kernel.Prelude.{sym}
use flux_kernel.Machine.{write, write_ne}
use flux_kernel.Frames.{null}

abbrev pub has : ℕ → List ℕ → Bool
has a [] = false
has a (x ∷ xs) = (a == x) || has a xs

-- From `p` the pointers lead through the frames `xs`, in order, to NULL.
abbrev pub IsFreeList : (ℕ → ℕ) → ℕ → List ℕ → Type 0
IsFreeList mem p [] = p ≡ null
IsFreeList mem p (x ∷ xs) = (p ≡ x) × (x ≢ null) × IsFreeList mem (mem x) xs

abbrev pub Distinct : List ℕ → Type 0
Distinct [] = Unit
Distinct (x ∷ xs) = (has x xs ≡ false) × Distinct xs

pub not-has-head : (a x : ℕ) (xs : List ℕ) → has a (x ∷ xs) ≡ false → a ≢ x
not-has-head a x xs h = ground arith

pub not-has-tail : (a x : ℕ) (xs : List ℕ) → has a (x ∷ xs) ≡ false → has a xs ≡ false
not-has-tail a x xs h = ground arith

-- A write elsewhere leaves the chain alone.
pub IsFreeList-write :
    (mem : ℕ → ℕ) (a v p : ℕ) (xs : List ℕ)
    → has a xs ≡ false
    → IsFreeList mem p xs
    → IsFreeList (write mem a v) p xs
IsFreeList-write mem a v p [] out h = h
IsFreeList-write mem a v p (x ∷ xs) out (e, ne, rest) =
    let same = write_ne mem a v x (λ e'. not-has-head a x xs out (sym e')) in
    (e, ne, rw same (IsFreeList-write mem a v (mem x) xs (not-has-tail a x xs out) rest))
