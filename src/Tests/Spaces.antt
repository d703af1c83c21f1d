-- ===== src/Tests/Spaces.antt =====
-- Two address spaces on the machine at boot.
use flux_kernel.Prelude.{ℕ, ◌≡◌, refl, true, some, List, [], ◌∷◌, arith}
use flux_kernel.Frames.Chain.{has}
use flux_kernel.Paging.Root.{IsBlank}
use flux_kernel.KernelMap.Listed.{no_roles, listed-IsBlank}
use flux_kernel.Spaces.{Request, create, map_in, empty, mapped, spec}
use flux_kernel.Spaces.Represents.{IsState}
use flux_kernel.Spaces.Refines.{Refines, carry_out-Refines}
use flux_kernel.Tests.Booted.{
  booted, entries, m₀, first, others, length-others, free-IsTree, booted-IsHandedOver,
}

abbrev requests : List Request
requests =
    create
    ∷ map_in 0 0x9000 0x40_0123 6
    ∷ create
    ∷ map_in 1 0xa000 0x40_0123 6
    ∷ map_in 0 0xb000 0x40_1000 0
    ∷ []

free-IsBlank : (y : ℕ) → has y (first ∷ others) ≡ true → IsBlank m₀.memory y
free-IsBlank y h = listed-IsBlank booted entries booted-IsHandedOver refl y (λ j lt. refl)

no_spaces : IsState m₀ (first ∷ others) no_roles [] []
no_spaces = record { tree = free-IsTree; blank = free-IsBlank; represents = tt }

carry_out-Refines_example : Refines requests [] m₀ (
    some (
      mapped 0xb000 0x40_1000 (mapped 0x9000 0x40_0123 empty) ∷ mapped 0xa000 0x40_0123 empty ∷ []))
unfolding spec
carry_out-Refines_example =
    carry_out-Refines requests m₀ (first ∷ others) no_roles [] [] no_spaces
      (omega (arith, length-others))
