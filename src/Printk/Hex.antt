-- ===== src/Printk/Hex.antt =====
-- `kputhex` prints the hexadecimal numeral of its argument.
use native.Mathlib.Nat.{pow-suc, mod-eq_of_lt, zero-div, div-add-mod', div-div-eq-div-mul}
use flux_kernel.Prelude.{ℕ, zero, suc, ◌+◌, ◌-◌, ◌*◌, ◌/◌, ◌%◌, ◌^◌, ◌<◌, ◌≡◌, refl, ◌≢◌}
use flux_kernel.Prelude.{Bool, true, false, List, [], ◌∷◌, ◌++◌, ◌&&◌, ◌||◌, not, ltb, bit_and}
use flux_kernel.Prelude.{
  arith, ◌==◌, if◌then◌else◌, Bool-cases, inl, inr, ap, sym, ◌∙◌, ◌↔◌, ==_true,
}
use flux_kernel.Prelude.{length, get_elem?, some}
use flux_kernel.Bits.{bit_and_mask}
use flux_kernel.Words.{u8}
use flux_kernel.Machine.{ComPort, Machine}
use flux_kernel.Serial.Console.{Prints, Prints-pure, Prints->>}
use flux_kernel.Printk.{kputc, kputc_at, kputhex_digit, hexdigits, kputhex, kputhex_from}
use flux_kernel.Printk.Console.{IsConsole, kputc-Prints}

-- The value of a hexadecimal digit.
abbrev pub hex_value : ℕ → ℕ
hex_value c = if ltb b'9' c then c - b'a' + 10 else c - b'0'

-- The number that a text of hexadecimal digits stands for; commas only space it.
unfoldable pub read_hex : ℕ → List ℕ → ℕ
read_hex acc [] = acc
read_hex acc (c ∷ s) = read_hex (if c == b',' then acc else acc * 16 + hex_value c) s

-- The digit for a value below 16.
abbrev hex_char : ℕ → ℕ
hex_char d = if ltb d 10 then b'0' + d else b'a' + d - 10

abbrev digit_text : Bool → Bool → ℕ → List ℕ
digit_text leading comma d =
    if leading then (if comma then b',' ∷ [] else []) ++ hex_char d ∷ [] else []

-- The text of the `n` lowest digits of `x`.
hex_text_from : ℕ → ℕ → Bool → Bool → List ℕ
hex_text_from zero x leading spacers = []
hex_text_from (suc i) x leading spacers =
    let d = x / 16 ^ i % 16 in
    let leading' = leading || not (d == 0) in
    digit_text leading' (spacers && not (i == 15) && (i + 1) % 4 == 0) d
    ++ hex_text_from i x leading' spacers

pub hex_text : ℕ → Bool → Bool → List ℕ
hex_text x leading spacers = hex_text_from 16 x leading spacers

hexdigits-hex_char : (d : ℕ) → d < 16 → get_elem? hexdigits d ≡ some (hex_char d)
hexdigits-hex_char d h = ground arith

two-pow-four : (i : ℕ) → 2 ^ (4 * i) ≡ 16 ^ i
two-pow-four zero = refl
two-pow-four (suc i) =
    let e : 4 * suc i ≡ suc (suc (suc (suc (4 * i)))) = omega arith in
    rw e (
      omega (
        arith,
        two-pow-four i,
        pow-suc 16 i,
        pow-suc 2 (4 * i),
        pow-suc 2 (suc (4 * i)),
        pow-suc 2 (suc (suc (4 * i))),
        pow-suc 2 (suc (suc (suc (4 * i)))),
      ))

nibble : (x i : ℕ) → bit_and (x / 2 ^ (4 * i)) 0xf ≡ x / 16 ^ i % 16
nibble x i = bit_and_mask 4 (x / 2 ^ (4 * i)) ∙ ap (λ t. x / t % 16) (two-pow-four i)

module _ {m : Machine} {port : ComPort} (console : IsConsole m port) where
  kputc_at-Prints : (d : ℕ) → d < 16 → Prints m port (kputc_at hexdigits d) (hex_char d ∷ [])
  kputc_at-Prints d h =
      let small : u8 (hex_char d) ≡ hex_char d = ground arith in
      let printed : Prints m port (kputc (hex_char d)) (hex_char d ∷ []) =
        rw small at (kputc-Prints console (hex_char d)) in
      rw (hexdigits-hex_char d h) printed

  put_digit :
      (leading comma : Bool) (d : ℕ)
      → d < 16
      → Prints m port (kputhex_digit leading comma d) (digit_text leading comma d)
  put_digit false comma d h = Prints-pure m port
  put_digit true false d h = kputc_at-Prints d h
  put_digit true true d h =
      Prints->> m port (kputc b',') (kputc_at hexdigits d) (b',' ∷ []) (hex_char d ∷ [])
        (kputc-Prints console b',') (kputc_at-Prints d h)

  kputhex_from-Prints :
      (n x : ℕ) (leading spacers : Bool)
      → Prints m port (kputhex_from n x leading spacers) (hex_text_from n x leading spacers)
  unfolding kputhex_from hex_text_from
  kputhex_from-Prints zero x leading spacers = Prints-pure m port
  kputhex_from-Prints (suc i) x leading spacers =
      let d = x / 16 ^ i % 16 in
      let leading' = leading || not (d == 0) in
      let comma = spacers && not (i == 15) && (i + 1) % 4 == 0 in
      rw (nibble x i) (
        Prints->> m port (kputhex_digit leading' comma d) (kputhex_from i x leading' spacers) _ _
          (put_digit leading' comma d (omega arith)) (kputhex_from-Prints i x leading' spacers))

  pub kputhex-Prints :
      (x : ℕ) (leading spacers : Bool)
      → Prints m port (kputhex x leading spacers) (hex_text x leading spacers)
  unfolding kputhex hex_text
  kputhex-Prints x leading spacers = kputhex_from-Prints 16 x leading spacers

hex_value-hex_char : (d : ℕ) → d < 16 → hex_value (hex_char d) ≡ d
hex_value-hex_char d h = ground arith

read_hex-append :
    (leading comma : Bool) (acc d : ℕ) (s : List ℕ)
    → d < 16
    → read_hex acc (digit_text leading comma d ++ s)
      ≡ read_hex (if leading then acc * 16 + d else acc) s
unfolding read_hex
read_hex-append leading comma acc d s h = ground arith

mod-lowest : (x p : ℕ) → x % (p * 16) ≡ x / p % 16 * p + x % p
mod-lowest x p = omega (
  arith,
  div-add-mod' x (p * 16),
  ap (λ (t : ℕ). t * (p * 16)) (div-div-eq-div-mul x p 16),
  div-add-mod' x p,
  ap (λ (t : ℕ). t * p) (div-add-mod' (x / p) 16),
)

mod-pow-suc : (x i : ℕ) → x % 16 ^ suc i ≡ x / 16 ^ i % 16 * 16 ^ i + x % 16 ^ i
mod-pow-suc x i = ap (λ t. x % t) (pow-suc 16 i) ∙ mod-lowest x (16 ^ i)

-- Once a digit was printed, the text continues the number that was read.
read_hex-leading :
    (i acc x : ℕ) (spacers : Bool)
    → read_hex acc (hex_text_from i x true spacers) ≡ acc * 16 ^ i + x % 16 ^ i
unfolding hex_text_from
read_hex-leading zero acc x spacers = unfold read_hex in omega arith
read_hex-leading (suc i) acc x spacers =
    let d = x / 16 ^ i % 16 in
    read_hex-append true (spacers && not (i == 15) && (i + 1) % 4 == 0) acc d
      (hex_text_from i x true spacers) (omega arith)
    ∙ read_hex-leading i (acc * 16 + d) x spacers
    ∙ omega (arith, mod-pow-suc x i, ap (λ (t : ℕ). acc * t) (pow-suc 16 i))

read_hex-text :
    (i x : ℕ) (leading spacers : Bool) → read_hex 0 (hex_text_from i x leading spacers) ≡ x % 16 ^ i
unfolding hex_text_from
read_hex-text i x true spacers = read_hex-leading i 0 x spacers ∙ omega arith
read_hex-text zero x false spacers = unfold read_hex in omega arith
read_hex-text (suc i) x false spacers =
    let d = x / 16 ^ i % 16 in
    let comma = spacers && not (i == 15) && (i + 1) % 4 == 0 in
    elim (Bool-cases (d == 0)) [
      | inl e ↦ rw e (
          read_hex-text i x false spacers
          ∙ omega (arith, mod-pow-suc x i, ap (λ (t : ℕ). t * 16 ^ i) (==_true d 0 e)))
      | inr e ↦ rw e (
          read_hex-append true comma 0 d (hex_text_from i x true spacers) (omega arith)
          ∙ read_hex-leading i (0 * 16 + d) x spacers
          ∙ omega (arith, mod-pow-suc x i))
    ]

abbrev pub HasNoLeadingZero : List ℕ → Type 0
HasNoLeadingZero [] = Unit
HasNoLeadingZero (c ∷ s) = c ≢ b'0'

HasNoLeadingZero-text : (i x : ℕ) → HasNoLeadingZero (hex_text_from i x false false)
unfolding hex_text_from
HasNoLeadingZero-text zero x = tt
HasNoLeadingZero-text (suc i) x = elim (Bool-cases (x / 16 ^ i % 16 == 0)) [
  | inl e ↦ rw e (HasNoLeadingZero-text i x)
  | inr e ↦ rw e (ground arith)
]

hex_text_from-zero : (i : ℕ) (spacers : Bool) → hex_text_from i 0 false spacers ≡ []
unfolding hex_text_from
hex_text_from-zero zero spacers = refl
hex_text_from-zero (suc i) spacers =
    let e : 0 / 16 ^ i % 16 ≡ 0 = omega (arith, zero-div (16 ^ i)) in
    rw e (hex_text_from-zero i spacers)

module _ {m : Machine} {port : ComPort} (console : IsConsole m port) where
  -- On a prompt console `kputhex` returns, and prints a text that reads back as the number, for
  -- every 64-bit number and both flags.
  pub kputhex-read_hex :
      (x : ℕ) (leading spacers : Bool)
      → x < 2 ^ 64
      → (s : List ℕ) × Prints m port (kputhex x leading spacers) s × (read_hex 0 s ≡ x)
  unfolding hex_text
  kputhex-read_hex x leading spacers h = (
    hex_text x leading spacers,
    kputhex-Prints console x leading spacers,
    read_hex-text 16 x leading spacers ∙ mod-eq_of_lt h,
  )

  -- On a prompt console and with neither flag, the form that `%x` uses, `kputhex` returns; the text
  -- of a 64-bit number has no leading zero, and nothing at all is printed exactly when the number is
  -- 0.
  pub kputhex_shortest :
      (x : ℕ)
      → x < 2 ^ 64
      → (s : List ℕ) × Prints m port (kputhex x false false) s
        × HasNoLeadingZero s
        × ((s ≡ []) ↔ (x ≡ 0))
  unfolding hex_text
  kputhex_shortest x h = (
    hex_text x false false,
    kputhex-Prints console x false false,
    HasNoLeadingZero-text 16 x,
    (
      (λ e.
          sym (mod-eq_of_lt h)
          ∙ sym (read_hex-text 16 x false false)
          ∙ unfold read_hex in ap (read_hex 0) e),
      (λ e. rw e (hex_text_from-zero 16 false)),
    ),
  )

  -- On a prompt console and with both flags, the form that `%p` uses, `kputhex` returns and prints
  -- 19 characters for every number.
  pub kputhex_padded :
      (x : ℕ) → (s : List ℕ) × Prints m port (kputhex x true true) s × (length s ≡ 19)
  unfolding hex_text hex_text_from
  kputhex_padded x = (hex_text x true true, kputhex-Prints console x true true, refl)
