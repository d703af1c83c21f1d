-- ===== src/Tests/Frames.antt =====
-- The page frames of the small machine.
use flux_kernel.Prelude.{ℕ, ◌≡◌, ◌≢◌, refl, false, some, [], ◌∷◌, length, arith}
use mathlib.Core.List.{reverse}
use flux_kernel.Machine.{Machine, ok}
use flux_kernel.Frames.{null, get_phys_block, put_phys_block, find_free_frames}
use flux_kernel.Frames.Chain.{has, IsFreeList, Distinct}
use flux_kernel.Frames.Pool.{IsPool, taken, given, get_phys_block-IsPool, put_phys_block-IsPool}
use flux_kernel.Frames.Requests.{take, give, fill, spec, Refines, exec-Refines}
use flux_kernel.Frames.Init.{usable_frames, frames_from, IsMemmap}
use flux_kernel.Frames.Free.{find_free_frames-IsFreeList}
use flux_kernel.Tests.Machines.{base, empty, memmap}

pub pool : IsPool base (0x2000 ∷ 0x3000 ∷ 0x4000 ∷ [])
pool = record {
  chain = (
    refl,
    (λ e. omega (arith, e)),
    (refl, (λ e. omega (arith, e)), (refl, (λ e. omega (arith, e)), refl)),
  );
  distinct = (refl, (refl, (refl, tt)));
  counted = refl;
  bounded = omega arith;
}

get_phys_block-IsPool_example :
    (get_phys_block base ≡ ok 0x2000 (taken base))
    × (◌≢◌ {A = ℕ} 0x2000 null)
    × (has 0x2000 (0x3000 ∷ 0x4000 ∷ []) ≡ false)
    × IsPool (taken base) (0x3000 ∷ 0x4000 ∷ [])
get_phys_block-IsPool_example = get_phys_block-IsPool base 0x2000 (0x3000 ∷ 0x4000 ∷ []) pool

put_phys_block-IsPool_example :
    (put_phys_block 0x7000 base ≡ ok tt (given 0x7000 base))
    × IsPool (given 0x7000 base) (0x7000 ∷ 0x2000 ∷ 0x3000 ∷ 0x4000 ∷ [])
put_phys_block-IsPool_example =
    put_phys_block-IsPool 0x7000 base (0x2000 ∷ 0x3000 ∷ 0x4000 ∷ []) pool (λ e. omega (arith, e))
      refl (omega arith)

exec-Refines_example :
    Refines
      (take ∷ fill 0x2008 7 ∷ take ∷ give 0x2000 ∷ [])
      base
      (spec (take ∷ fill 0x2008 7 ∷ take ∷ give 0x2000 ∷ []) (0x2000 ∷ 0x3000 ∷ 0x4000 ∷ []))
exec-Refines_example =
    exec-Refines (take ∷ fill 0x2008 7 ∷ take ∷ give 0x2000 ∷ []) base
      (0x2000 ∷ 0x3000 ∷ 0x4000 ∷ []) pool (omega arith)

spec_example :
    spec (take ∷ fill 0x2008 7 ∷ take ∷ give 0x2000 ∷ []) (0x2000 ∷ 0x3000 ∷ 0x4000 ∷ [])
    ≡ some (0x2000 ∷ 0x3000 ∷ [], 0x2000 ∷ 0x4000 ∷ [])
unfolding spec
spec_example = refl

memmap-IsMemmap : IsMemmap 0 memmap
memmap-IsMemmap = (
  (λ e. cc),
  (
    (λ e. (
      record {
        base_aligned = refl;
        length_aligned = refl;
        nonzero = omega arith;
        below = omega arith;
      },
      omega arith,
    )),
    (
      (λ e. (
        record {
          base_aligned = refl;
          length_aligned = refl;
          nonzero = omega arith;
          below = omega arith;
        },
        omega arith,
      )),
      tt,
    ),
  ),
)

three_frames : length (usable_frames memmap) ≡ 3
unfolding usable_frames frames_from
three_frames = refl

find_free_frames-IsFreeList_example :
    (m' : Machine) × (find_free_frames empty ≡ ok (length (usable_frames memmap)) m')
    × IsFreeList m'.memory m'.first_page_frame (reverse (usable_frames memmap))
    × Distinct (reverse (usable_frames memmap))
find_free_frames-IsFreeList_example =
    find_free_frames-IsFreeList empty memmap refl memmap-IsMemmap refl (omega (arith, three_frames))
