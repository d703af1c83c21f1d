-- ===== src/Printk.antt =====
-- kernel/generic/printk.c and printk.h.
--   A C string is the list of its characters before the NUL.
--   An `int` that is only tested is a `Bool`.
pub mod Console
pub mod Decimal
pub mod Hex
pub mod Render
use flux_kernel.Prelude.{
  ℕ, zero, suc, ◌+◌, ◌-◌, ◌*◌, ◌/◌, ◌%◌, ◌^◌, Bool, true, false, Option, none, some,
}
use flux_kernel.Prelude.{List, [], ◌∷◌, ◌++◌, ◌&&◌, ◌||◌, not, ◌==◌, if◌then◌else◌, get_elem?, set}
use flux_kernel.Prelude.{replicate, codes, bit_and}
use flux_kernel.Bits.{◌>>>◌}
use flux_kernel.Words.{u8, u64}
use flux_kernel.Machine.{Machine, Run, ok, fault, Kernel, pure, ◌>>=◌, ◌>>◌, and_then, loop_forever}
use flux_kernel.Serial.{com_send}

-- `KPUTC(ch)`. `*primary_com_port` is undefined while that is NULL.
unfoldable pub kputc : ℕ → Kernel (Unit {0})
kputc ch m = elim m.primary_com_port [
  | none ↦ fault
  | some i ↦ elim (get_elem? m.com_ports i) [ none ↦ fault | some port ↦ com_send port ch m ]
]

unfoldable pub kputs : List ℕ → Kernel (Unit {0})
kputs [] = pure tt
kputs (c ∷ str) = kputc c >> kputs str

abbrev pub hexdigits : List ℕ
hexdigits = codes "0123456789abcdef"

-- A character of an array, undefined out of range.
abbrev pub kputc_at : List ℕ → ℕ → Kernel (Unit {0})
kputc_at array i = elim (get_elem? array i) [ none ↦ λ _. fault | some c ↦ kputc c ]

-- What a round of the loop of `kputhex` prints.
abbrev pub kputhex_digit : Bool → Bool → ℕ → Kernel (Unit {0})
kputhex_digit leading comma ind =
    if leading then ((if comma then kputc b',' else pure tt) >> kputc_at hexdigits ind) else pure tt

-- The rounds `i - 1`, …, `0` of the loop of `kputhex`.
unfoldable pub kputhex_from : ℕ → ℕ → Bool → Bool → Kernel (Unit {0})
kputhex_from zero x leading spacers = pure tt
kputhex_from (suc i) x leading spacers =
    let ind = bit_and (x >>> (4 * i)) 0xf in
    let leading' = leading || not (ind == 0) in
    kputhex_digit leading' (spacers && not (i == 15) && (i + 1) % 4 == 0) ind
    >> kputhex_from i x leading' spacers

unfoldable pub kputhex : ℕ → Bool → Bool → Kernel (Unit {0})
kputhex x leading spacers = kputhex_from 16 x leading spacers

-- `for (int i = 19; x; x /= 10, i--) buf[i] = x % 10;` where `i` is one less than the first
-- argument. `none` is a write in front of the buffer.
unfoldable pub fill_buf : ℕ → ℕ → List ℕ → Option (List ℕ)
fill_buf zero x buf = if x == 0 then some buf else none
fill_buf (suc i) x buf =
    let rest = fill_buf i (x / 10) (set buf i (u8 (x % 10))) in if x == 0 then some buf else rest

-- The second loop of `kputdec`, over what is left of the buffer; the last round has `i == 19`.
unfoldable pub kputdec_digits : List ℕ → Bool → Kernel (Unit {0})
kputdec_digits [] leading = pure tt
kputdec_digits (d ∷ []) leading = kputc (b'0' + d)
kputdec_digits (d ∷ e ∷ buf) leading =
    let leading' = leading || not (d == 0) in
    (if leading' then kputc (b'0' + d) else pure tt) >> kputdec_digits (e ∷ buf) leading'

unfoldable pub kputdec : ℕ → Kernel (Unit {0})
kputdec x = elim (fill_buf 20 x (replicate 20 0)) [
  | none ↦ λ _. fault
  | some buf ↦ kputdec_digits buf false
]

-- A variable argument: a value in a 64-bit register, or a pointer to a string.
pub data Arg : Type 0 where
  word : ℕ → Arg
  text : List ℕ → Arg

abbrev pub Conversion : Type 0
Conversion = Option (Kernel (Unit {0}) × List Arg)

-- `va_arg` of a 64-bit value, and of a pointer: what is printed and the arguments that are left.
-- `none` is an argument that is missing or of the other kind.
abbrev pub take_word : List Arg → (ℕ → Kernel (Unit {0})) → Conversion
take_word [] put = none
take_word (word v ∷ rest) put = some (put (u64 v), rest)
take_word (text s ∷ rest) put = none

abbrev pub take_text : List Arg → (List ℕ → Kernel (Unit {0})) → Conversion
take_text [] put = none
take_text (word v ∷ rest) put = none
take_text (text s ∷ rest) put = some (put s, rest)

-- The `switch` of `printk`.
unfoldable pub convert : ℕ → List Arg → Conversion
convert k args =
    if k == b'x'
    then take_word args (λ v. kputhex v false false)
    else if k == b'd'
    then take_word args kputdec
    else if k == b'u'
    then take_word args kputdec
    else if k == b'p'
    then take_word args (λ v. kputhex v true true)
    else if k == b'c'
    then take_word args (λ v. kputc (u8 v))
    else if k == b's'
    then take_text args kputs
    else some (pure tt, args)

unfoldable pub printk : List ℕ → List Arg → Kernel (Unit {0})
printk [] args = pure tt
printk (c ∷ []) args = if c == b'%' then pure tt else kputc c
printk (c ∷ k ∷ fmt) args = elim (c == b'%') [
  | false ↦ kputc c >> printk (k ∷ fmt) args
  | true ↦ elim (convert k args) [ none ↦ λ _. fault | some (put, rest) ↦ put >> printk fmt rest ]
]
