-- ===== src/KernelMap/Steps.antt =====
-- The steps of `mem_init` and its messages.
use flux_kernel.Machine.{ComPort, PortEvent}
use flux_kernel.Serial.Console.{traffic}
use flux_kernel.Printk.Console.{IsConsole}
use flux_kernel.Printk.Render.{render, pieces, conversion_text, printk-says}
use flux_kernel.Prelude.{ℕ, ◌≡◌, refl, some, List, [], ◌∷◌, ◌++◌, codes, ap}
use flux_kernel.Words.{int_to_u64}
use flux_kernel.Machine.{Machine, MemmapEntry, Kernel, ok, and_then, pure, get, modify, ◌>>=◌, ◌>>◌}
use flux_kernel.Printk.{word, printk}
use flux_kernel.Debug.{newline, system, pgood, assert, site}
use flux_kernel.Frames.{find_free_frames}
use flux_kernel.KernelMap.{is_some, setup_kernel_map, mem_init}
use flux_kernel.KernelMap.Listed.{emptied, counted}

pub announce_memory : Kernel (Unit {0})
announce_memory =
    printk (system "( PMEM)" ++ codes "Initialising physical memory manager" ++ newline) []

pub announce_added : ℕ → Kernel (Unit {0})
announce_added count =
    printk
      (system "( PMEM)"
        ++ pgood (codes "Added %d 4K blocks to the physical page frame list." ++ newline))
      (word (int_to_u64 count) ∷ [])

pub announce_left : ℕ → Kernel (Unit {0})
announce_left left =
    printk
      (system "( PAGE)"
        ++ pgood (codes "Successfully set up kernel page mapping. %d blocks left." ++ newline))
      (word left ∷ [])

-- `mem_init` behind its assertion.
pub mem_init_rest : Kernel ℕ
mem_init_rest = do
  announce_memory
  count ← find_free_frames
  modify (λ m. record m { n_free_page_frames = int_to_u64 count })
  announce_added count
  setup_kernel_map
  m ← get
  announce_left m.n_free_page_frames
  pure m.n_free_page_frames

pub mem_init_past_assert :
    (m : Machine) (entries : List MemmapEntry)
    → m.boot.memmap ≡ some entries
    → mem_init m ≡ mem_init_rest (emptied m)
unfolding mem_init mem_init_rest assert announce_memory announce_added announce_left
mem_init_past_assert m entries e =
    ap
      (λ o.
        and_then
          (assert (is_some o) (codes "resp != NULL") (site "arch/x64/mem.c" 109 "mem_init")
            (emptied m))
          (λ _. mem_init_rest))
      e

pub mem_init_run :
    (m m₂ m₃ m₅ m₆ m₇ : Machine) (count : ℕ)
    → announce_memory (emptied m) ≡ ok tt m₂
    → find_free_frames m₂ ≡ ok count m₃
    → announce_added count (counted count m₃) ≡ ok tt m₅
    → setup_kernel_map m₅ ≡ ok tt m₆
    → announce_left m₆.n_free_page_frames m₆ ≡ ok tt m₇
    → mem_init_rest (emptied m) ≡ ok m₆.n_free_page_frames m₇
unfolding mem_init_rest
mem_init_run m m₂ m₃ m₅ m₆ m₇ count r₂ r₃ r₅ r₆ r₇ = rw (mem_init_rest, r₂, r₃, r₅, r₆, r₇) refl

-- A message is printed, whatever it is.
abbrev Says : Kernel (Unit {0}) → Machine → Type 0
Says p m = (log : List PortEvent) × (p m ≡ ok tt (traffic m log))

module _ {m : Machine} {port : ComPort} (console : IsConsole m port) where
  pub announce_memory-Says : Says announce_memory m
  unfolding announce_memory pieces render conversion_text
  announce_memory-Says =
      let (log, run, out) =
        printk-says console
          (system "( PMEM)" ++ codes "Initialising physical memory manager" ++ newline) [] _ refl in
      (log, run)

  pub announce_added-Says : (count : ℕ) → Says (announce_added count) m
  unfolding announce_added pieces render conversion_text
  announce_added-Says count =
      let (log, run, out) =
        printk-says console
          (system "( PMEM)"
            ++ pgood (codes "Added %d 4K blocks to the physical page frame list." ++ newline))
          (word (int_to_u64 count) ∷ []) _ refl in
      (log, run)

  pub announce_left-Says : (left : ℕ) → Says (announce_left left) m
  unfolding announce_left pieces render conversion_text
  announce_left-Says left =
      let (log, run, out) =
        printk-says console
          (system "( PAGE)"
            ++ pgood (codes "Successfully set up kernel page mapping. %d blocks left." ++ newline))
          (word left ∷ []) _ refl in
      (log, run)
