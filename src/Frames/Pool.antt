-- ===== src/Frames/Pool.antt =====
-- `get_phys_block` and `put_phys_block` on a well-formed free list.
use flux_kernel.Prelude.{ℕ, ◌+◌, ◌-◌, ◌^◌, ◌<◌, ◌≡◌, refl, ◌≢◌, false, List, ◌∷◌, length, arith}
use flux_kernel.Prelude.{sym, ◌∙◌, ap, subst}
use flux_kernel.Words.{u64}
use flux_kernel.Machine.{Machine, ok, write, write_self}
use flux_kernel.Frames.{null, get_phys_block, put_phys_block}
use flux_kernel.Frames.Chain.{has, IsFreeList, Distinct, IsFreeList-write}
use flux_kernel.Debug.{assert}

-- The free frames are `xs`, each once, and the counter counts them.
pub record IsPool (m : Machine) (xs : List ℕ) : Type 0 where
  pub chain : IsFreeList m.memory m.first_page_frame xs
  pub distinct : Distinct xs
  pub counted : m.n_free_page_frames ≡ length xs
  pub bounded : m.n_free_page_frames < 2 ^ 64

-- The machine after a frame was taken and the one after a frame was given back.
abbrev pub taken : Machine → Machine
taken m = record m {
  first_page_frame = m.memory m.first_page_frame;
  n_free_page_frames = u64 (m.n_free_page_frames + (2 ^ 64 - 1));
}

abbrev pub given : ℕ → Machine → Machine
given b m = record m {
  memory = write m.memory b m.first_page_frame;
  first_page_frame = b;
  n_free_page_frames = u64 (m.n_free_page_frames + 1);
}

pub get_phys_block_run :
    (m : Machine) → m.first_page_frame ≢ null → get_phys_block m ≡ ok m.first_page_frame (taken m)
unfolding get_phys_block assert
get_phys_block_run m h = ground arith

pub put_phys_block_run : (b : ℕ) (m : Machine) → put_phys_block b m ≡ ok tt (given b m)
unfolding put_phys_block
put_phys_block_run b m = refl

-- On a well-formed pool with a frame free, `get_phys_block` hands out the first one, which is not
-- NULL and no longer among the free frames, and the others are the pool that is left.
pub get_phys_block-IsPool :
    (m : Machine) (x : ℕ) (xs : List ℕ)
    → IsPool m (x ∷ xs)
    → (get_phys_block m ≡ ok x (taken m)) × (x ≢ null) × (has x xs ≡ false) × IsPool (taken m) xs
get_phys_block-IsPool m x xs pool =
    let (e, ne, rest) = pool.chain in
    (
      get_phys_block_run m (λ z. ne (sym e ∙ z)) ∙ ap (λ t. ok t (taken m)) e,
      ne,
      pool.distinct.0,
      record {
        chain = subst (λ t. IsFreeList m.memory (m.memory t) xs) (sym e) rest;
        distinct = pool.distinct.1;
        counted = omega (arith, pool.counted, pool.bounded);
        bounded = omega arith;
      },
    )

-- On a well-formed pool of fewer than 2^64 - 1 frames, giving back a frame that is neither NULL nor
-- free makes it the first of the free ones, before the others, which are as they were.
pub put_phys_block-IsPool :
    (b : ℕ) (m : Machine) (xs : List ℕ)
    → IsPool m xs
    → b ≢ null
    → has b xs ≡ false
    → length xs + 1 < 2 ^ 64
    → (put_phys_block b m ≡ ok tt (given b m)) × IsPool (given b m) (b ∷ xs)
put_phys_block-IsPool b m xs pool ne out small = (
  put_phys_block_run b m,
  record {
    chain = (
      refl,
      ne,
      subst (λ p. IsFreeList (write m.memory b m.first_page_frame) p xs)
          (sym (write_self m.memory b m.first_page_frame))
          (IsFreeList-write m.memory b m.first_page_frame m.first_page_frame xs out pool.chain),
    );
    distinct = (out, pool.distinct);
    counted = omega (arith, pool.counted);
    bounded = omega arith;
  },
)
