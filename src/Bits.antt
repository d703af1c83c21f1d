-- ===== src/Bits.antt =====
-- C's `<<`, `>>`, `&` and `|` on unsigned words, and what `&` with a mask and `|` of separate
-- fields mean as arithmetic, at every width.
mod Step
use Step.{bit_or_step, bit_and_step}
use Prim.Native.Nat.{bit_or-bitwise}
use mathlib.Core.WellFounded
use native.Mathlib.Nat.{pow-suc, one-le-pow}
use flux_kernel.Prelude.{ℕ, zero, suc, ◌+◌, ◌-◌, ◌*◌, ◌/◌, ◌%◌, ◌^◌, ◌<◌, min, max}
use flux_kernel.Prelude.{bit_and, bit_or, ◌≡◌, refl, arith, lt_wf, ap}

infixl 75 ◌<<<◌ ◌>>>◌
abbrev pub ◌<<<◌ : ℕ → ℕ → ℕ
x <<< k = x * 2 ^ k

abbrev pub ◌>>>◌ : ℕ → ℕ → ℕ
x >>> k = x / 2 ^ k

abbrev pub low_mask : ℕ → ℕ
low_mask k = 2 ^ k - 1

-- Joined with 0, and masked by 0: both by descent to the lower digits.
with_zero : (x : ℕ) → (bit_or x 0 ≡ x) × (bit_and x 0 ≡ 0)
with_zero x = WellFounded.induction lt_wf x lower
  where
    lower :
        (n : ℕ)
        → ((k : ℕ) → k < n → (bit_or k 0 ≡ k) × (bit_and k 0 ≡ 0))
        → (bit_or n 0 ≡ n) × (bit_and n 0 ≡ 0)
    lower zero below = (refl, refl)
    lower (suc n) below =
        let (or, and) = below (suc n / 2) (omega arith) in
        (omega (arith, bit_or_step (suc n) 0, or), omega (arith, bit_and_step (suc n) 0, and))

pub bit_or-zero : (x : ℕ) → bit_or x 0 ≡ x
bit_or-zero x = (with_zero x).0

bit_and-zero : (x : ℕ) → bit_and x 0 ≡ 0
bit_and-zero x = (with_zero x).1

shifted-suc : (q k : ℕ) → q * 2 ^ suc k ≡ 2 * (q * 2 ^ k)
shifted-suc q k = omega (arith, ap (λ (t : ℕ). q * t) (pow-suc 2 k))

-- Two words that are split at bit `k` are joined, and masked, half by half.
pub bit_or_split :
    (k q r q' r' : ℕ)
    → r < 2 ^ k
    → r' < 2 ^ k
    → bit_or (q * 2 ^ k + r) (q' * 2 ^ k + r') ≡ bit_or q q' * 2 ^ k + bit_or r r'
bit_or_split zero q r q' r' h h' =
    let e : r ≡ 0 = omega arith in
    let e' : r' ≡ 0 = omega arith in rw (e, e') (ground (arith, bit_or-zero 0))
bit_or_split (suc k) q r q' r' h h' = ground (
  arith,
  bit_or_step (q * 2 ^ suc k + r) (q' * 2 ^ suc k + r'),
  bit_or_step r r',
  shifted-suc q k,
  shifted-suc q' k,
  shifted-suc (bit_or q q') k,
  pow-suc 2 k,
  bit_or_split k q (r / 2) q' (r' / 2),
)

pub bit_and_split :
    (k q r q' r' : ℕ)
    → r < 2 ^ k
    → r' < 2 ^ k
    → bit_and (q * 2 ^ k + r) (q' * 2 ^ k + r') ≡ bit_and q q' * 2 ^ k + bit_and r r'
bit_and_split zero q r q' r' h h' =
    let e : r ≡ 0 = omega arith in
    let e' : r' ≡ 0 = omega arith in rw (e, e') (ground (arith, bit_and-zero 0))
bit_and_split (suc k) q r q' r' h h' = ground (
  arith,
  bit_and_step (q * 2 ^ suc k + r) (q' * 2 ^ suc k + r'),
  bit_and_step r r',
  shifted-suc q k,
  shifted-suc q' k,
  shifted-suc (bit_and q q') k,
  pow-suc 2 k,
  bit_and_split k q (r / 2) q' (r' / 2),
)

pub zero-bit_or : (b : ℕ) → bit_or 0 b ≡ b
zero-bit_or b = bit_or-bitwise 0 b

-- `(q <<< k) | r` is a sum when `r` fits below bit `k`.
pub bit_or_fields : (k q r : ℕ) → r < 2 ^ k → bit_or (q <<< k) r ≡ q * 2 ^ k + r
bit_or_fields k q r h =
    ground
      (arith, bit_or_split k q 0 0 r (one-le-pow k 2 (omega arith)) h, bit_or-zero q, zero-bit_or r)

bit_and_low : (k r : ℕ) → r < 2 ^ k → bit_and r (low_mask k) ≡ r
bit_and_low zero r h = let e : r ≡ 0 = omega arith in rw e refl
bit_and_low (suc k) r h =
    ground
      (arith, bit_and_step r (low_mask (suc k)), one-le-pow k 2, pow-suc 2 k, bit_and_low k (r / 2))

-- A mask of the `k` low bits is the remainder by `2 ^ k`.
pub bit_and_mask : (k a : ℕ) → bit_and a (low_mask k) ≡ a % 2 ^ k
bit_and_mask k a = ground (
  arith,
  one-le-pow k 2,
  bit_and_split k (a / 2 ^ k) (a % 2 ^ k) 0 (low_mask k),
  bit_and-zero (a / 2 ^ k),
  bit_and_low k (a % 2 ^ k),
)

-- A mask of `n` bits above bit `k`.
pub bit_and_field : (n k a : ℕ) → bit_and a (low_mask n <<< k) ≡ (a / 2 ^ k % 2 ^ n) <<< k
bit_and_field n k a = ground (
  arith,
  one-le-pow k 2,
  bit_and_split k (a / 2 ^ k) (a % 2 ^ k) (low_mask n) 0,
  bit_and_mask n (a / 2 ^ k),
  bit_and-zero (a % 2 ^ k),
)

pub bit_or-lt : (k a b : ℕ) → a < 2 ^ k → b < 2 ^ k → bit_or a b < 2 ^ k
bit_or-lt zero a b h h' =
    let e : a ≡ 0 = omega arith in
    let e' : b ≡ 0 = omega arith in rw (e, e') (omega (arith, bit_or-zero 0))
bit_or-lt (suc k) a b h h' = omega (
  arith,
  bit_or_step a b,
  pow-suc 2 k,
  bit_or-lt k (a / 2) (b / 2) (omega (arith, pow-suc 2 k)) (omega (arith, pow-suc 2 k)),
)

pub bit_or-odd : (b : ℕ) → bit_or 1 b % 2 ≡ 1
bit_or-odd b = omega (arith, bit_or_step 1 b)
