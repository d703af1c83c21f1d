-- ===== src/Printk/Render.antt =====
-- `printk` against a description of its output: the format is first cut into pieces, and each
-- piece has its text.
use native.Mathlib.Nat.{mod-mod}
use flux_kernel.Prelude.{ℕ, ◌^◌, ◌<◌, ◌≡◌, refl, subst, Bool, true, false, Option, none, some}
use flux_kernel.Prelude.{List, [], ◌∷◌, ◌++◌, map, ◌==◌, if◌then◌else◌, Bool-cases, inl, inr, arith}
use flux_kernel.Words.{u8, u64}
use flux_kernel.Serial.Offset
use flux_kernel.Serial.Console.{sent, wire}
use flux_kernel.Machine.{ok, PortEvent, ComPort, Machine, fault, Kernel, ◌>>◌}
use flux_kernel.Serial.Console.{traffic, Prints, Prints-pure, Prints->>}
use flux_kernel.Printk.{Arg, word, text, Conversion, take_word, take_text, convert, printk}
use flux_kernel.Printk.{kputc, kputs, kputdec}
use flux_kernel.Printk.Console.{IsConsole, kputc-Prints, kputs-Prints}
use flux_kernel.Printk.Decimal.{decimal_text, kputdec-Prints}
use flux_kernel.Printk.Hex.{hex_text, kputhex-Prints}

-- A format: characters that stand for themselves, and conversions `%k`.
pub data Piece : Type 0 where
  plain : ℕ → Piece
  conversion : ℕ → Piece

-- A `%` at the end of the format stands for nothing.
unfoldable pub pieces : List ℕ → List Piece
pieces [] = []
pieces (c ∷ []) = if c == b'%' then [] else plain c ∷ []
pieces (c ∷ k ∷ fmt) = elim (c == b'%') [
  | true ↦ conversion k ∷ pieces fmt
  | false ↦ plain c ∷ pieces (k ∷ fmt)
]

abbrev pub Converted : Type 0
Converted = Option (List ℕ × List Arg)

abbrev pub word_text : List Arg → (ℕ → List ℕ) → Converted
word_text [] f = none
word_text (word v ∷ rest) f = some (f (u64 v), rest)
word_text (text s ∷ rest) f = none

abbrev pub string_text : List Arg → Converted
string_text [] = none
string_text (word v ∷ rest) = none
string_text (text s ∷ rest) = some (map u8 s, rest)

-- The text of a conversion and the arguments that are left. Signed numbers are printed by the
-- bits of their two's complement, and an unknown conversion as nothing, taking no argument.
unfoldable pub conversion_text : ℕ → List Arg → Converted
conversion_text k args =
    if k == b'x'
    then word_text args (λ v. hex_text v false false)
    else if k == b'd'
    then word_text args decimal_text
    else if k == b'u'
    then word_text args decimal_text
    else if k == b'p'
    then word_text args (λ v. hex_text v true true)
    else if k == b'c'
    then word_text args (λ v. u8 v ∷ [])
    else if k == b's'
    then string_text args
    else some ([], args)

-- The text in front of what is rendered later.
abbrev pub before : List ℕ → Option (List ℕ) → Option (List ℕ)
before s none = none
before s (some t) = some (s ++ t)

unfoldable pub render : List Piece → List Arg → Option (List ℕ)
render [] args = some []
render (plain c ∷ ps) args = before (u8 c ∷ []) (render ps args)
render (conversion k ∷ ps) args = elim (conversion_text k args) [
  | none ↦ none
  | some (s, rest) ↦ before s (render ps rest)
]

module _ (m : Machine) (port : ComPort) where
  -- Prints the text, or is undefined where there is none.
  abbrev pub Renders : Kernel (Unit {0}) → Option (List ℕ) → Type 0
  Renders p (some s) = Prints m port p s
  Renders p none = (log : List PortEvent) → p (traffic m log) ≡ fault

  Renders->> :
      (p q : Kernel (Unit {0})) (s : List ℕ) (t : Option (List ℕ))
      → Prints m port p s
      → Renders q t
      → Renders (p >> q) (before s t)
  Renders->> p q s (some t) h k = Prints->> m port p q s t h k
  Renders->> p q s none h k = λ log. let (log', e, sent) = h log in rw e (k log')

  abbrev Matches : Conversion → Converted → Type 0
  Matches none none = Unit
  Matches none (some t) = ⊥
  Matches (some p) none = ⊥
  Matches (some (put, rest)) (some (s, rest')) = Prints m port put s × (rest ≡ rest')

  Matches-if :
      (b : Bool) (x x' : Conversion) (y y' : Converted)
      → Matches x y
      → Matches x' y'
      → Matches (if b then x else x') (if b then y else y')
  Matches-if true x x' y y' h k = h
  Matches-if false x x' y y' h k = k

  take_word-Matches :
      (args : List Arg) (put : ℕ → Kernel (Unit {0})) (f : ℕ → List ℕ)
      → ((v : ℕ) → v < 2 ^ 64 → Prints m port (put v) (f v))
      → Matches (take_word args put) (word_text args f)
  take_word-Matches [] put f h = tt
  take_word-Matches (word v ∷ rest) put f h = (h (u64 v) (omega arith), refl)
  take_word-Matches (text s ∷ rest) put f h = tt

  take_text-Matches :
      (args : List Arg)
      → ((s : List ℕ) → Prints m port (kputs s) (map u8 s))
      → Matches (take_text args kputs) (string_text args)
  take_text-Matches [] h = tt
  take_text-Matches (word v ∷ rest) h = tt
  take_text-Matches (text s ∷ rest) h = (h s, refl)

  -- A conversion, and what follows it.
  Renders-convert :
      (x : Conversion) (y : Converted) (p : List Arg → Kernel (Unit {0}))
      (t : List Arg → Option (List ℕ))
      → Matches x y
      → ((rest : List Arg) → Renders (p rest) (t rest))
      → Renders
          (elim x [ none ↦ λ _. fault | some (put, rest) ↦ put >> p rest ])
          (elim y [ none ↦ none | some (s, rest) ↦ before s (t rest) ])
  Renders-convert none none p t h k = λ log. refl
  Renders-convert none (some y) p t h k = absurd h
  Renders-convert (some x) none p t h k = absurd h
  Renders-convert (some (put, rest)) (some (s, rest')) p t h k =
      Renders->> (put) (p rest) s (t rest') h.0 (subst (λ r. Renders (p rest) (t r)) h.1 (k rest))

  Renders-test :
      (b : Bool) (p q : Kernel (Unit {0})) (ps qs : List Piece) (args : List Arg)
      → Renders p (render ps args)
      → Renders q (render qs args)
      → Renders (elim b [ false ↦ p | true ↦ q ]) (render (elim b [ true ↦ qs | false ↦ ps ]) args)
  Renders-test true p q ps qs args h k = k
  Renders-test false p q ps qs args h k = h

module _ {m : Machine} {port : ComPort} (console : IsConsole m port) where
  convert-Matches :
      (k : ℕ) (args : List Arg) → Matches m port (convert k args) (conversion_text k args)
  unfolding convert conversion_text
  convert-Matches k args =
      let words = take_word-Matches m port args in
      let decimal = λ (v : ℕ) (h : v < 2 ^ 64). kputdec-Prints console v (omega arith) in
      let char = λ (v : ℕ).
        subst (λ t. Prints m port (kputc (u8 v)) (t ∷ [])) (mod-mod v (2 ^ 8))
          (kputc-Prints console (u8 v)) in
      let either = Matches-if m port in
      either (k == b'x') _ _ _ _ (words _ _ (λ v h. kputhex-Prints console v false false)) (
        either (k == b'd') _ _ _ _ (words kputdec decimal_text decimal) (
          either (k == b'u') _ _ _ _ (words kputdec decimal_text decimal) (
            either (k == b'p') _ _ _ _ (words _ _ (λ v h. kputhex-Prints console v true true)) (
              either (k == b'c') _ _ _ _ (words _ _ (λ v h. char v)) (
                either (k == b's') _ _ _ _ (take_text-Matches m port args (kputs-Prints console))
                  (Prints-pure m port, refl))))))

  -- On a prompt console, where the format and the arguments have a text, `printk` returns, having
  -- sent that text; where an argument is missing or of the wrong kind, it is undefined.
  pub printk-render :
      (fmt : List ℕ) (args : List Arg) → Renders m port (printk fmt args) (render (pieces fmt) args)
  unfolding printk pieces render
  printk-render [] args = Prints-pure m port
  printk-render (c ∷ []) args = elim (Bool-cases (c == b'%')) [
    | inl e ↦ rw e (Prints-pure m port)
    | inr e ↦ rw e (kputc-Prints console c)
  ]
  printk-render (c ∷ k ∷ fmt) args =
      Renders-test m port (c == b'%') _ _ (plain c ∷ pieces (k ∷ fmt)) (conversion k ∷ pieces fmt)
        args
        (Renders->> m port (kputc c) (printk (k ∷ fmt) args) (u8 c ∷ [])
          (render (pieces (k ∷ fmt)) args) (kputc-Prints console c) (printk-render (k ∷ fmt) args))
        (Renders-convert m port (convert k args) (conversion_text k args) (printk fmt)
          (render (pieces fmt)) (convert-Matches k args) (printk-render fmt))

  -- From the machine as it is.
  pub printk-says :
      (fmt : List ℕ) (args : List Arg) (s : List ℕ)
      → render (pieces fmt) args ≡ some s
      → (log : List PortEvent) × (printk fmt args m ≡ ok tt (traffic m log))
        × (sent (wire port Offset.io_data) log ≡ sent (wire port Offset.io_data) m.port_log ++ s)
  printk-says fmt args s e =
      subst (Renders m port (printk fmt args)) e (printk-render fmt args) m.port_log
