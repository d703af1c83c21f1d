-- ===== src/Tests/Booted.antt =====
-- A machine at boot with 8192 usable frames, the kernel and a module.
use mathlib.Core.List.{reverse_aux, reverse}
use flux_kernel.Prelude.{
  ℕ, zero, suc, ◌+◌, ◌*◌, ◌<◌, ◌≡◌, refl, true, some, List, [], ◌∷◌, ◌++◌, length, ap, ap₂,
  append-nil, ◌∙◌, subst, arith,
}
use flux_kernel.Prelude.{Bool-cases, inl, inr, ◌==◌, ==_true}
use flux_kernel.Machine.{Machine, MemmapEntry, ok}
use flux_kernel.Printk.Console.{IsConsole, IsConsole-same}
use flux_kernel.Serial.Console.{IsPrompt, polled}
use flux_kernel.Frames.{page_size}
use flux_kernel.Frames.Chain.{has}
use flux_kernel.Frames.Init.{length-frames_from, frames_from, usable_frames}
use flux_kernel.Paging.Tree.{Roles, IsTree}
use flux_kernel.Paging.Root.{IsBlank}
use flux_kernel.KernelMap.{map_blocks, setup_kernel_map, mem_init}
use flux_kernel.Paging.Link.{with_role}
use flux_kernel.KernelMap.Range.{IsMappedRange}
use flux_kernel.KernelMap.Blocks.{map_blocks-IsMappedRange}
use flux_kernel.KernelMap.Listed.{IsHandedOver, no_roles, listed, listed-IsTree, listed-IsBlank}
use flux_kernel.KernelMap.Made.{at_root, at_root-IsTree, IsMade, setup_kernel_map-IsMade}
use flux_kernel.KernelMap.Start.{IsStarted, mem_init-IsStarted}
use flux_kernel.Tests.Machines.{empty, boot, port}

abbrev pub entries : List MemmapEntry
entries =
    record { base = 0x1000; length = 0x200_0000; kind = 0 }
    ∷ record { base = 0x1000_0000; length = 0x2_0000; kind = 6 }
    ∷ record { base = 0x1010_0000; length = 0x1001; kind = 6 }
    ∷ []

abbrev pub booted : Machine
booted = record empty {
  memory = λ a. 0;
  boot = record boot { memmap = some entries; kernel_physical_base = 0x1000_0000 };
}

-- The `n` frames from `base` on, the last one first.
unfoldable pub frames_down : ℕ → ℕ → List ℕ
frames_down zero base = []
frames_down (suc n) base = (base + n * page_size) ∷ frames_down n base

pub frames_down-next :
    (n base : ℕ) (ys : List ℕ)
    → frames_down n (base + page_size) ++ (base ∷ ys) ≡ frames_down (suc n) base ++ ys
unfolding frames_down
frames_down-next zero base ys = ap (λ z. z ∷ ys) (omega arith)
frames_down-next (suc n) base ys = ap₂ (λ z zs. z ∷ zs) (omega arith) (frames_down-next n base ys)

reverse-frames_from :
    (n base : ℕ) (ys : List ℕ) → reverse_aux (frames_from n base) ys ≡ frames_down n base ++ ys
unfolding frames_from frames_down
reverse-frames_from zero base ys = refl
reverse-frames_from (suc n) base ys =
    reverse-frames_from n (base + page_size) (base ∷ ys) ∙ frames_down-next n base ys

pub length-frames_down : (n base : ℕ) → length (frames_down n base) ≡ n
unfolding frames_down
length-frames_down zero base = refl
length-frames_down (suc n) base = ap suc (length-frames_down n base)

pub has-frames_from : (n base y : ℕ) → has y (frames_from n base) ≡ true → y < base + n * page_size
unfolding frames_from
has-frames_from zero base y h = cc
has-frames_from (suc n) base y h = elim (Bool-cases (y == base)) [
  | inl e ↦ omega (arith, ==_true y base e)
  | inr e ↦ omega (arith, has-frames_from n (base + page_size) y (rw e at h))
]

abbrev pub first : ℕ
first = 0x200_0000

pub others : List ℕ
others = frames_down 8191 0x1000

pub length-others : length others ≡ 8191
unfolding others
length-others = length-frames_down 8191 0x1000

-- The frames behind the first three.
pub rest : List ℕ
rest = frames_down 8189 0x1000

pub others-rest : others ≡ 0x1ff_f000 ∷ 0x1ff_e000 ∷ rest
unfolding others rest frames_down
others-rest = refl

pub length-rest : length rest ≡ 8189
unfolding rest
length-rest = length-frames_down 8189 0x1000

pub usable-entries : usable_frames entries ≡ frames_from 8192 0x1000
unfolding usable_frames
usable-entries = append-nil (frames_from 8192 0x1000)

pub entries-first : reverse (usable_frames entries) ≡ first ∷ others
unfolding frames_down others
entries-first =
    ap reverse usable-entries
    ∙ reverse-frames_from 8192 0x1000 []
    ∙ append-nil (frames_down 8192 0x1000)

pub booted-IsHandedOver : IsHandedOver booted entries
booted-IsHandedOver = record {
  response = refl;
  in_order = (
    λ e. (
      record {
        base_aligned = refl;
        length_aligned = refl;
        nonzero = omega arith;
        below = omega arith;
      },
      omega arith,
    ),
    (λ e. cc, (λ e. cc, tt)),
  );
  below = λ y h.
      omega (arith, has-frames_from 8192 0x1000 y (subst (λ xs. has y xs ≡ true) usable-entries h));
  few = omega (arith, ap length usable-entries, length-frames_from 8192 0x1000);
  answered = record { address = refl; hhdm = refl };
  loaded = (λ e. cc, (λ e. omega arith, (λ e. omega arith, tt)));
}

booted-IsPrompt : IsPrompt booted port
unfolding polled
booted-IsPrompt = record { ready = refl; prompt = λ log. (0, omega arith, refl) }

pub console : IsConsole booted port
console = record { index = 0; primary = refl; found = refl; prompt = booted-IsPrompt }

mem_init-IsStarted_example :
    (m' : Machine) × (mem_init booted ≡ ok m'.n_free_page_frames m')
    × IsStarted booted first others port entries m'
mem_init-IsStarted_example =
    mem_init-IsStarted booted entries first others port booted-IsHandedOver console entries-first
      (λ j lt. refl) (omega (arith, length-others))

-- The same machine with its frames listed.
abbrev pub m₀ : Machine
m₀ = listed booted entries

pub free-IsTree : IsTree m₀ (first ∷ others) no_roles
free-IsTree =
    subst (λ xs. IsTree m₀ xs no_roles) entries-first
      (listed-IsTree booted entries booted-IsHandedOver refl)

pub first-IsBlank : IsBlank m₀.memory first
first-IsBlank = listed-IsBlank booted entries booted-IsHandedOver refl first (λ j lt. refl)

pub m₀-IsConsole : IsConsole m₀ port
m₀-IsConsole = IsConsole-same booted m₀ port refl refl refl refl console

setup_kernel_map-IsMade_example :
    (m' : Machine) × (setup_kernel_map m₀ ≡ ok tt m')
    × IsMade m₀ first others no_roles 0 port entries m'
setup_kernel_map-IsMade_example =
    setup_kernel_map-IsMade m₀ first others no_roles 0 port entries free-IsTree m₀-IsConsole refl
      booted-IsHandedOver.answered booted-IsHandedOver.loaded first-IsBlank
      (omega (arith, length-others))

-- The same machine with an empty address space.
abbrev pub rooted : Machine
rooted = at_root m₀ first

abbrev pub rooted_role : Roles
rooted_role = with_role no_roles first (3, 0)

pub rooted-IsTree : IsTree rooted others rooted_role
rooted-IsTree = at_root-IsTree m₀ first others no_roles 0 free-IsTree first-IsBlank

map_blocks-IsMappedRange_example :
    (m' : Machine) × (map_blocks 4 first 0x2001 0x9000 0xffff_8000_001f_f000 6 0 rooted ≡ ok tt m')
    × IsMappedRange first 0 0x9000 0xffff_8000_001f_f000 6 rooted others rooted_role 0x2001 m'
map_blocks-IsMappedRange_example =
    map_blocks-IsMappedRange first 0 0x9000 0xffff_8000_001f_f000 6 0x2001 4 rooted others
      rooted_role rooted-IsTree refl (omega arith, refl) (omega (arith, length-others))
      (omega arith) (omega arith)
