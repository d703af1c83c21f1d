-- ===== src/Frames.antt =====
-- The physical page frames of kernel/arch/x64/mem.c: the free list that is threaded through the
-- free frames, and its construction from the boot loader's memory map.
pub mod Chain
pub mod Pool
pub mod Exhausted
pub mod Requests
pub mod Init
pub mod Free
pub mod Pushed
use flux_kernel.Prelude.{ℕ, zero, suc, ◌+◌, ◌-◌, ◌/◌, ◌^◌, Bool, Option, none, some, List, [], ◌∷◌}
use flux_kernel.Prelude.{not, ◌==◌, ltb, if◌then◌else◌, codes}
use flux_kernel.Words.{u32, u64}
use flux_kernel.Machine.{MemmapEntry, Machine, Run, ok, fault, waiting, Kernel, pure, ◌>>=◌, ◌>>◌}
use flux_kernel.Machine.{get, modify, load, store, and_then}
use flux_kernel.Debug.{assert, error, site}

abbrev pub null : ℕ
null = 0

abbrev pub page_size : ℕ
page_size = 4096

abbrev pub set_first_page_frame : ℕ → Kernel (Unit {0})
set_first_page_frame p = modify (λ m. record m { first_page_frame = p })

-- `get_phys_block` behind its assertion. `next_frame` is the first word of a
-- `struct frame_marker`.
abbrev pub take_frame : ℕ → Kernel ℕ
take_frame ret = do
  next_frame ← load ret
  set_first_page_frame next_frame
  modify (λ m. record m { n_free_page_frames = u64 (m.n_free_page_frames + (2 ^ 64 - 1)) })
  pure ret

unfoldable pub get_phys_block : Kernel ℕ
get_phys_block = do
  m ← get
  let ret = m.first_page_frame
  assert (not (ret == null)) (codes "ret != NULL") (site "arch/x64/mem.c" 136 "get_phys_block")
  take_frame ret

-- `new_block->next_frame = first_page_frame; first_page_frame = new_block;`
abbrev pub push_frame : ℕ → Kernel (Unit {0})
push_frame new_block = do
  m ← get
  store new_block m.first_page_frame
  set_first_page_frame new_block

unfoldable pub put_phys_block : ℕ → Kernel (Unit {0})
put_phys_block b_addr = do
  push_frame b_addr
  modify (λ m. record m { n_free_page_frames = u64 (m.n_free_page_frames + 1) })

-- LIMINE_MEMMAP_USABLE
abbrev pub limine_memmap_usable : ℕ
limine_memmap_usable = 0

-- The inner loop of `find_free_frames` at `b_offset`, for at most `rounds` rounds.
unfoldable pub add_frames : ℕ → MemmapEntry → ℕ → ℕ → Kernel ℕ
add_frames zero entry b_offset ret = λ _. waiting
add_frames (suc rounds) entry b_offset ret = elim (ltb b_offset entry.length) [
  | Bool.false ↦ pure ret
  | Bool.true ↦ do
    push_frame (u64 (entry.base + b_offset))
    add_frames rounds entry (u64 (b_offset + page_size)) (u64 (ret + 1))
]

-- A round of the outer loop, and the loop.
unfoldable pub scan_entry : MemmapEntry → ℕ → Kernel ℕ
scan_entry entry ret =
    if entry.kind == limine_memmap_usable
    then add_frames (entry.length / page_size + 2) entry 0 ret
    else pure ret

unfoldable pub scan_entries : List MemmapEntry → ℕ → Kernel ℕ
scan_entries [] ret = pure ret
scan_entries (entry ∷ entries) ret = do ret ← scan_entry entry ret; scan_entries entries ret

-- `find_free_frames`. Its `unsigned long` count is returned as an `int`, by its bit pattern; a
-- NULL response is dereferenced.
unfoldable pub scan_response : Option (List MemmapEntry) → Kernel ℕ
scan_response none = λ _. fault
scan_response (some entries) = do ret ← scan_entries entries 0; pure (u32 ret)

unfoldable pub find_free_frames : Kernel ℕ
find_free_frames = do m ← get; scan_response m.boot.memmap

-- Not implemented: it prints an error and loops.
unfoldable pub get_consecutive_phys_blocks : ℕ → Kernel ℕ
get_consecutive_phys_blocks n =
    error (codes "Function not implemented!")
      (site "arch/x64/mem.c" 158 "get_consecutive_phys_blocks")
