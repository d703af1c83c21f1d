-- ===== src/Printk/Decimal.antt =====
-- `kputdec` prints the decimal numeral of its argument.
use native.Mathlib.Nat.{pow-suc}
use flux_kernel.Prelude.{ℕ, zero, suc, ◌+◌, ◌-◌, ◌*◌, ◌/◌, ◌%◌, ◌^◌, ◌<◌, ◌≤◌, ◌≡◌, refl, ◌≢◌}
use flux_kernel.Prelude.{true, false, some, List, [], ◌∷◌, ◌++◌, map, All, set, replicate}
use flux_kernel.Prelude.{
  arith, ◌==◌, if◌then◌else◌, Bool-cases, inl, inr, ap, ◌∙◌, ==_true, ==_false,
}
use flux_kernel.Words.{u8}
use flux_kernel.Machine.{ComPort, Machine}
use flux_kernel.Serial.Console.{traffic, Prints, Prints-pure, Prints->>}
use flux_kernel.Printk.{kputc, fill_buf, kputdec_digits, kputdec}
use flux_kernel.Printk.Console.{IsConsole, kputc-Prints}

-- The number that a text of decimal digits stands for.
unfoldable pub read_decimal : ℕ → List ℕ → ℕ
read_decimal acc [] = acc
read_decimal acc (c ∷ s) = read_decimal (acc * 10 + (c - b'0')) s

abbrev pub IsDigit : ℕ → Type 0
IsDigit c = (b'0' ≤ c) × (c ≤ b'9')

-- No leading zero: the first of several characters is not `0`.
abbrev pub IsCanonical : List ℕ → Type 0
IsCanonical [] = ⊥
IsCanonical (c ∷ []) = Unit
IsCanonical (c ∷ d ∷ s) = c ≢ b'0'

-- The decimal numeral of `x`.
pub record IsDecimal (x : ℕ) (s : List ℕ) : Type 0 where
  pub value : read_decimal 0 s ≡ x
  pub digits : All IsDigit s
  pub canonical : IsCanonical s

-- The digits of `x` in front of `ds`.
unfoldable pub decimal_digits : ℕ → ℕ → List ℕ → List ℕ
decimal_digits zero x ds = ds
decimal_digits (suc k) x ds =
    let rest = decimal_digits k (x / 10) (x % 10 ∷ ds) in if x == 0 then ds else rest

horner : ℕ → List ℕ → ℕ
horner acc [] = acc
horner acc (d ∷ ds) = horner (acc * 10 + d) ds

set-replicate :
    (k v : ℕ) (ds : List ℕ) → set (replicate (suc k) 0 ++ ds) k v ≡ replicate k 0 ++ v ∷ ds
set-replicate zero v ds = refl
set-replicate (suc k) v ds = ap (λ t. 0 ∷ t) (set-replicate k v ds)

below-pow : (k x : ℕ) → x < 10 ^ suc k → x / 10 < 10 ^ k
below-pow k x h = omega (arith, pow-suc 10 k)

-- The first loop leaves the digits at the end of the buffer, behind zeros, and stays inside it.
fill_buf-decimal :
    (k x : ℕ) (ds : List ℕ)
    → x < 10 ^ k
    → (j : ℕ) × (fill_buf k x (replicate k 0 ++ ds) ≡ some (replicate j 0 ++ decimal_digits k x ds))
unfolding fill_buf decimal_digits
fill_buf-decimal zero x ds h = (0, ground arith)
fill_buf-decimal (suc k) x ds h = elim (Bool-cases (x == 0)) [
  | inl e ↦ (suc k, rw e refl)
  | inr e ↦
      let (j, eq) = fill_buf-decimal k (x / 10) (x % 10 ∷ ds) (below-pow k x h) in
      let small : u8 (x % 10) ≡ x % 10 = omega arith in
      (j, rw (e, small, set-replicate k (x % 10) ds) eq)
]

horner-decimal :
    (k x : ℕ) (ds : List ℕ) → x < 10 ^ k → horner 0 (decimal_digits k x ds) ≡ horner x ds
unfolding decimal_digits horner
horner-decimal zero x ds h = let e : x ≡ 0 = omega arith in rw e refl
horner-decimal (suc k) x ds h = elim (Bool-cases (x == 0)) [
  | inl e ↦ rw e (rw (==_true x 0 e) refl)
  | inr e ↦ rw e (
      horner-decimal k (x / 10) (x % 10 ∷ ds) (below-pow k x h)
      ∙ ap (λ t. horner t ds) (omega arith))
]

decimal_digits-small :
    (k x : ℕ) (ds : List ℕ) → All (λ d. d < 10) ds → All (λ d. d < 10) (decimal_digits k x ds)
unfolding decimal_digits
decimal_digits-small zero x ds h = h
decimal_digits-small (suc k) x ds h = elim (Bool-cases (x == 0)) [
  | inl e ↦ rw e h
  | inr e ↦ rw e (decimal_digits-small k (x / 10) (x % 10 ∷ ds) (omega arith, h))
]

decimal_digits-zero : (k : ℕ) (ds : List ℕ) → decimal_digits k 0 ds ≡ ds
unfolding decimal_digits
decimal_digits-zero zero ds = refl
decimal_digits-zero (suc k) ds = refl

==_pos : (x : ℕ) → (x == 0) ≡ false → 0 < x
==_pos x e = ground arith

-- The digits start with one that is not zero.
decimal_digits-pos :
    (k x : ℕ) (ds : List ℕ)
    → x < 10 ^ k
    → 0 < x
    → (d : ℕ) × (ds' : List ℕ) × (decimal_digits k x ds ≡ d ∷ ds') × (0 < d)
unfolding decimal_digits
decimal_digits-pos zero x ds h p = absurd (omega arith)
decimal_digits-pos (suc k) x ds h p =
    rw (==_false x 0 (omega arith)) (elim (Bool-cases (x / 10 == 0)) [
      | inl e ↦ (
        x % 10,
        ds,
        rw (==_true (x / 10) 0 e) (decimal_digits-zero k (x % 10 ∷ ds)),
        omega (arith, ==_true (x / 10) 0 e),
      )
      | inr e ↦ decimal_digits-pos k (x / 10) (x % 10 ∷ ds) (below-pow k x h) (==_pos (x / 10) e)
    ])

abbrev pub digit_char : ℕ → ℕ
digit_char d = u8 (b'0' + d)

read_decimal-digits :
    (acc : ℕ) (ds : List ℕ)
    → All (λ d. d < 10) ds
    → read_decimal acc (map digit_char ds) ≡ horner acc ds
unfolding read_decimal horner
read_decimal-digits acc [] h = refl
read_decimal-digits acc (d ∷ ds) h =
    let e : acc * 10 + (digit_char d - b'0') ≡ acc * 10 + d = omega arith in
    rw (read_decimal, e) (read_decimal-digits (acc * 10 + d) ds h.1)

IsDigit-digits : (ds : List ℕ) → All (λ d. d < 10) ds → All IsDigit (map digit_char ds)
IsDigit-digits [] h = tt
IsDigit-digits (d ∷ ds) h = ((omega arith, omega arith), IsDigit-digits ds h.1)

IsCanonical-digits : (d : ℕ) (ds : List ℕ) → 0 < d → d < 10 → IsCanonical (map digit_char (d ∷ ds))
IsCanonical-digits d [] p h = tt
IsCanonical-digits d (e ∷ ds) p h = omega arith

-- The text that `kputdec` prints.
unfoldable pub decimal_text : ℕ → List ℕ
decimal_text x = if x == 0 then b'0' ∷ [] else map digit_char (decimal_digits 20 x [])

decimal_text-pos :
    (x : ℕ) (d : ℕ) (ds : List ℕ)
    → 0 < x
    → decimal_digits 20 x [] ≡ d ∷ ds
    → decimal_text x ≡ map digit_char (d ∷ ds)
unfolding decimal_text
decimal_text-pos x d ds p e = rw (==_false x 0 (omega arith)) (ap (map digit_char) e)

pub decimal_text-IsDecimal : (x : ℕ) → x < 10 ^ 20 → IsDecimal x (decimal_text x)
unfolding read_decimal decimal_text horner
decimal_text-IsDecimal zero h = record { value = refl; digits = omega arith; canonical = tt }
decimal_text-IsDecimal (suc n) h =
    let x = suc n in
    let (d, ds, e, p) = decimal_digits-pos 20 x [] h (omega arith) in
    let small : All (λ d. d < 10) (d ∷ ds) = rw e at (decimal_digits-small 20 x [] tt) in
    let value : horner 0 (d ∷ ds) ≡ x = rw e at (horner-decimal 20 x [] h) in
    rw (decimal_text-pos x d ds (omega arith) e) (record {
      value = read_decimal-digits 0 (d ∷ ds) small ∙ value;
      digits = IsDigit-digits (d ∷ ds) small;
      canonical = IsCanonical-digits d ds p small.0;
    })

kputdec-filled :
    (x : ℕ) (buf : List ℕ)
    → fill_buf 20 x (replicate 20 0) ≡ some buf
    → (m : Machine) → kputdec x m ≡ kputdec_digits buf false m
unfolding kputdec
kputdec-filled x buf e m = rw (kputdec, e) refl

module _ {m : Machine} {port : ComPort} (console : IsConsole m port) where
  -- From the first digit on, everything is printed.
  kputdec_digits-leading :
      (ds : List ℕ) → Prints m port (kputdec_digits ds true) (map digit_char ds)
  unfolding kputdec_digits
  kputdec_digits-leading [] = Prints-pure m port
  kputdec_digits-leading (d ∷ []) = kputc-Prints console (b'0' + d)
  kputdec_digits-leading (d ∷ e ∷ ds) =
      Prints->> m port (kputc (b'0' + d)) (kputdec_digits (e ∷ ds) true) _ _
        (kputc-Prints console (b'0' + d)) (kputdec_digits-leading (e ∷ ds))

  kputdec_digits-pos :
      (d : ℕ) (ds : List ℕ)
      → 0 < d
      → Prints m port (kputdec_digits (d ∷ ds) false) (map digit_char (d ∷ ds))
  unfolding kputdec_digits
  kputdec_digits-pos d [] p = kputc-Prints console (b'0' + d)
  kputdec_digits-pos d (e ∷ ds) p = rw (==_false d 0 (omega arith)) (
      Prints->> m port (kputc (b'0' + d)) (kputdec_digits (e ∷ ds) true) _ _
        (kputc-Prints console (b'0' + d)) (kputdec_digits-leading (e ∷ ds)))

  -- Leading zeros are passed over.
  kputdec_digits-zeros :
      (j d : ℕ) (ds : List ℕ)
      → 0 < d
      → Prints m port (kputdec_digits (replicate j 0 ++ d ∷ ds) false) (map digit_char (d ∷ ds))
  unfolding kputdec_digits
  kputdec_digits-zeros zero d ds p = kputdec_digits-pos d ds p
  kputdec_digits-zeros (suc zero) d ds p = kputdec_digits-pos d ds p
  kputdec_digits-zeros (suc (suc j)) d ds p = kputdec_digits-zeros (suc j) d ds p

  kputdec_zero : Prints m port (kputdec 0) (b'0' ∷ [])
  unfolding kputdec fill_buf kputdec_digits
  kputdec_zero = kputc-Prints console b'0'

  pub kputdec-Prints : (x : ℕ) → x < 10 ^ 20 → Prints m port (kputdec x) (decimal_text x)
  unfolding decimal_text
  kputdec-Prints zero h = kputdec_zero
  kputdec-Prints (suc n) h =
      let (j, filled) = fill_buf-decimal 20 (suc n) [] h in
      let (d, ds, e, p) = decimal_digits-pos 20 (suc n) [] h (omega arith) in
      let printed = kputdec_digits-zeros j d ds p in
      let kept = kputdec-filled (suc n) _ (rw e at filled) in
      rw (decimal_text-pos (suc n) d ds (omega arith) e)
        (λ log. let (log', run, s) = printed log in (log', kept (traffic m log) ∙ run, s))

  -- On a prompt console `kputdec` returns for every 64-bit number, writes inside its buffer,
  -- prints the number's decimal numeral with no leading zero, and changes nothing else.
  pub kputdec-IsDecimal :
      (x : ℕ) → x < 2 ^ 64 → (s : List ℕ) × Prints m port (kputdec x) s × IsDecimal x s
  kputdec-IsDecimal x h =
      (decimal_text x, kputdec-Prints x (omega arith), decimal_text-IsDecimal x (omega arith))
