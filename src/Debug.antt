-- ===== src/Debug.antt =====
-- kernel/generic/debug.h, and the colours and prefixes of kernel/generic/printk.h (the kernel is
-- built with PRINTK_COLOUR, kernel/config.h).
pub mod Stops
use flux_kernel.Prelude.{ℕ, Bool, String, List, [], ◌∷◌, ◌++◌, codes, if◌then◌else◌}
use flux_kernel.Machine.{Kernel, pure, ◌>>◌, loop_forever}
use flux_kernel.Printk.{word, text, printk}

abbrev pub newline : List ℕ
newline = 0x0a ∷ []

-- `\033[0m`
abbrev pub prst_colour : List ℕ
prst_colour = 0x1b ∷ codes "[0m"

abbrev pub pgood : List ℕ → List ℕ
pgood s = 0x1b ∷ codes "[32m" ++ s ++ prst_colour

abbrev pub pwarn : List ℕ → List ℕ
pwarn s = 0x1b ∷ codes "[33m" ++ s ++ prst_colour

abbrev pub pbad : List ℕ → List ℕ
pbad s = 0x1b ∷ codes "[31m" ++ s ++ prst_colour

abbrev pub paccent : List ℕ → List ℕ
paccent s = 0x1b ∷ codes "[36m" ++ s ++ prst_colour

-- `SYSTEM_PMEM` and its kin, for the name of a subsystem.
abbrev pub system : String → List ℕ
system name = paccent (codes name) ++ codes " "

-- `__FILE__`, `__LINE__` and `__PRETTY_FUNCTION__`.
pub record Site : Type 0 where
  pub file : List ℕ
  pub line : ℕ
  pub function : List ℕ

abbrev pub site : String → ℕ → String → Site
site file line function = record { file = codes file; line = line; function = codes function }

-- `TRACE(msg)`
unfoldable pub trace : List ℕ → Site → Kernel (Unit {0})
trace msg at =
    printk (codes "*** " ++ msg ++ codes " at %s:%d [%s]" ++ newline)
      (text at.file ∷ word at.line ∷ text at.function ∷ [])

-- `ERROR(msg)`
unfoldable pub error {ℓ} : {A : Type ℓ} → List ℕ → Site → Kernel A
error msg at = trace (pbad msg) at >> loop_forever

-- `ASSERT(x)` of a condition and its text.
unfoldable pub assert : Bool → List ℕ → Site → Kernel (Unit {0})
assert x condition at =
    if x
    then pure tt
    else (trace (pbad (codes "Assertion (" ++ condition ++ codes ") failed")) at >> loop_forever)

-- `WARN(msg)`
unfoldable pub warn : List ℕ → Kernel (Unit {0})
warn msg = printk (pwarn (codes "??? " ++ msg)) []
