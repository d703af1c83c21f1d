-- ===== src/Bits/Step.antt =====
-- `|` and `&` from the lowest digit on. The native operations stand for `digits`, which is given
-- fuel; more fuel than the digits need makes no difference.
use Prim.Native.Nat.{digits, bitwise, bit_or-bitwise, bit_and-bitwise, max, min}
use flux_kernel.Prelude.{ℕ, ◌+◌, ◌-◌, ◌*◌, ◌/◌, ◌%◌, ◌≤◌, zero, suc, bit_or, bit_and}
use flux_kernel.Prelude.{◌≡◌, refl, ap, ◌∙◌, arith}

module _ (above : ℕ → ℕ) (join : ℕ → ℕ → ℕ) where
  one_more :
      (fuel x y : ℕ) → x ≤ fuel → digits above join (suc fuel) x y ≡ digits above join fuel x y
  one_more zero zero y fits = refl
  one_more zero (suc x) y fits = elim fits [ ]
  one_more (suc fuel) zero y fits = refl
  one_more (suc fuel) (suc x) y fits =
      ap (λ rest. rest * 2 + join (suc x % 2) (y % 2))
        (one_more fuel (suc x / 2) (y / 2) (omega arith))

  some_more :
      (spare fuel x y : ℕ)
      → x ≤ fuel
      → digits above join (spare + fuel) x y ≡ digits above join fuel x y
  some_more zero fuel x y fits =
      let none : 0 + fuel ≡ fuel = omega arith in ap (λ n. digits above join n x y) none
  some_more (suc spare) fuel x y fits =
      let next : suc spare + fuel ≡ suc (spare + fuel) = omega arith in
      ap (λ n. digits above join n x y) next
      ∙ one_more (spare + fuel) x y (omega arith)
      ∙ some_more spare fuel x y fits

  lowest_digit :
      (x y : ℕ)
      → join (suc x % 2) (y % 2) + 2 * bitwise above join (suc x / 2) (y / 2)
        ≡ bitwise above join (suc x) y
  lowest_digit x y =
      let half = suc x / 2 in
      let enough : digits above join x half (y / 2) ≡ digits above join half half (y / 2) =
        let all : x ≡ x - half + half = omega arith in
        ap (λ n. digits above join n half (y / 2)) all
        ∙ some_more (x - half) half half (y / 2) (omega arith) in
      omega (arith, enough)

pub bit_or_step : (x y : ℕ) → max (x % 2) (y % 2) + 2 * bit_or (x / 2) (y / 2) ≡ bit_or x y
bit_or_step zero y = omega (arith, bit_or-bitwise 0 y, bit_or-bitwise 0 (y / 2))
bit_or_step (suc x) y = omega (
  arith,
  lowest_digit (λ rest. rest) max x y,
  bit_or-bitwise (suc x) y,
  bit_or-bitwise (suc x / 2) (y / 2),
)

pub bit_and_step : (x y : ℕ) → min (x % 2) (y % 2) + 2 * bit_and (x / 2) (y / 2) ≡ bit_and x y
bit_and_step zero y = omega (arith, bit_and-bitwise 0 y, bit_and-bitwise 0 (y / 2))
bit_and_step (suc x) y = omega (
  arith,
  lowest_digit (λ rest. 0) min x y,
  bit_and-bitwise (suc x) y,
  bit_and-bitwise (suc x / 2) (y / 2),
)
