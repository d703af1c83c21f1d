-- ===== src/Frames/Requests.antt =====
-- The frame allocator against its abstract specification: a stack of frames.
use flux_kernel.Prelude.{ℕ, ◌+◌, ◌^◌, ◌<◌, ◌≡◌, refl, ◌≢◌, Bool, true, false, Option, none, some}
use flux_kernel.Prelude.{List, [], ◌∷◌, length, arith, ◌==◌, ◌||◌, ap, ◌∙◌}
use flux_kernel.Machine.{Machine, ok, Kernel, pure, ◌>>=◌, ◌>>◌, store, write, and_then}
use flux_kernel.Frames.{null, get_phys_block, put_phys_block}
use flux_kernel.Frames.Chain.{has, IsFreeList-write}
use flux_kernel.Frames.Pool.{IsPool, taken, given, get_phys_block-IsPool, put_phys_block-IsPool}

-- What the rest of the kernel does with frames: it takes one, gives one back, or writes a word.
pub data Request : Type 0 where
  take : Request
  give : ℕ → Request
  fill : (address val : ℕ) → Request

-- The requests in turn, and the frames that were handed out.
pub exec : List Request → Kernel (List ℕ)
exec [] = pure []
exec (take ∷ rs) = do b ← get_phys_block; bs ← exec rs; pure (b ∷ bs)
exec (give b ∷ rs) = do put_phys_block b; exec rs
exec (fill a v ∷ rs) = do store a v; exec rs

abbrev pub handed : ℕ → Option (List ℕ × List ℕ) → Option (List ℕ × List ℕ)
handed x none = none
handed x (some (bs, ys)) = some (x ∷ bs, ys)

-- The specification, on the stack of the free frames. `none` is a request that the clients must
-- not make: one for a frame when there is none, one that gives back NULL or a frame that is free,
-- or a write to the first word of a free frame.
unfoldable pub spec : List Request → List ℕ → Option (List ℕ × List ℕ)
spec [] xs = some ([], xs)
spec (take ∷ rs) [] = none
spec (take ∷ rs) (x ∷ xs) = handed x (spec rs xs)
spec (give b ∷ rs) xs =
    let rest = spec rs (b ∷ xs) in elim (b == null || has b xs) [ true ↦ none | false ↦ rest ]
spec (fill a v ∷ rs) xs = let rest = spec rs xs in elim (has a xs) [ true ↦ none | false ↦ rest ]

-- The run of `rs` on `m` hands out what the specification says, and leaves its stack.
abbrev pub Refines : List Request → Machine → Option (List ℕ × List ℕ) → Type 0
Refines rs m none = Unit
Refines rs m (some (bs, ys)) = (m' : Machine) × (exec rs m ≡ ok bs m') × IsPool m' ys

Refines-handed :
    (rs : List Request) (m m' : Machine) (x : ℕ) (o : Option (List ℕ × List ℕ))
    → get_phys_block m ≡ ok x m'
    → Refines rs m' o
    → Refines (take ∷ rs) m (handed x o)
unfolding exec
Refines-handed rs m m' x none e h = tt
Refines-handed rs m m' x (some (bs, ys)) e (m'', run, pool) = (m'', rw (e, run) refl, pool)

-- A request that hands out nothing.
Refines-silent :
    (r : Request) (rs : List Request) (m m' : Machine) (o : Option (List ℕ × List ℕ))
    → exec (r ∷ rs) m ≡ exec rs m'
    → Refines rs m' o
    → Refines (r ∷ rs) m o
Refines-silent r rs m m' none e h = tt
Refines-silent r rs m m' (some (bs, ys)) e (m'', run, pool) = (m'', e ∙ run, pool)

Refines-guard :
    (bad : Bool) (rs : List Request) (m : Machine) (o : Option (List ℕ × List ℕ))
    → (bad ≡ false → Refines rs m o)
    → Refines rs m (elim bad [ true ↦ none | false ↦ o ])
Refines-guard true rs m o h = tt
Refines-guard false rs m o h = h refl

exec-give :
    (b : ℕ) (rs : List Request) (m m' : Machine)
    → put_phys_block b m ≡ ok tt m'
    → exec (give b ∷ rs) m ≡ exec rs m'
unfolding exec
exec-give b rs m m' e = ap (λ r. and_then r (λ _. exec rs)) e

fill-IsPool :
    (a v : ℕ) (m : Machine) (xs : List ℕ)
    → has a xs ≡ false
    → IsPool m xs
    → IsPool (record m { memory = write m.memory a v }) xs
fill-IsPool a v m xs out pool = record {
  chain = IsFreeList-write m.memory a v m.first_page_frame xs out pool.chain;
  distinct = pool.distinct;
  counted = pool.counted;
  bounded = pool.bounded;
}

legal : (b : ℕ) (xs : List ℕ) → (b == null || has b xs) ≡ false → (b ≢ null) × (has b xs ≡ false)
legal b xs h = ground arith

-- On a well-formed pool, every sequence of requests that the specification allows, with fewer than
-- 2^64 requests and free frames in all, returns with the frames that the specification hands out,
-- and leaves a well-formed pool of the frames on the specification's stack.
pub exec-Refines :
    (rs : List Request) (m : Machine) (xs : List ℕ)
    → IsPool m xs
    → length xs + length rs < 2 ^ 64
    → Refines rs m (spec rs xs)
unfolding spec
exec-Refines [] m xs pool small = unfold exec in (m, refl, pool)
exec-Refines (take ∷ rs) m [] pool small = tt
exec-Refines (take ∷ rs) m (x ∷ xs) pool small =
    let (run, ne, out, rest) = get_phys_block-IsPool m x xs pool in
    Refines-handed rs m (taken m) x (spec rs xs) run
      (exec-Refines rs (taken m) xs rest (omega arith))
exec-Refines (give b ∷ rs) m xs pool small =
    Refines-guard (b == null || has b xs) (give b ∷ rs) m (spec rs (b ∷ xs)) λ fine.
      let (ne, out) = legal b xs fine in
      let (run, rest) = put_phys_block-IsPool b m xs pool ne out (omega arith) in
      Refines-silent (give b) rs m (given b m) (spec rs (b ∷ xs)) (exec-give b rs m _ run)
        (exec-Refines rs (given b m) (b ∷ xs) rest (omega arith))
exec-Refines (fill a v ∷ rs) m xs pool small =
    Refines-guard (has a xs) (fill a v ∷ rs) m (spec rs xs) λ out.
      let m' = record m { memory = write m.memory a v } in
      Refines-silent (fill a v) rs m m' (spec rs xs) (unfold exec in refl)
        (exec-Refines rs m' xs (fill-IsPool a v m xs out pool) (omega arith))
