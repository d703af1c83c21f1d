-- ===== src/KernelMap/Setup.antt =====
-- `setup_kernel_map` makes the kernel's address space.
use flux_kernel.Prelude.{ℕ, ◌+◌, ◌/◌, ◌^◌, ◌≤◌, ◌≡◌, refl, Bool, true, false, List, [], ◌∷◌, ◌++◌}
use flux_kernel.Prelude.{◌==◌, if◌then◌else◌, All, arith, ap, ◌∙◌, Bool-cases, inl, inr, codes}
use flux_kernel.Words.{u64}
use flux_kernel.Machine.{Machine, ComPort, Boot, MemmapEntry, Kernel, ◌>>◌, pure}
use flux_kernel.Printk.{word, printk}
use flux_kernel.Printk.Render.{render, pieces, conversion_text}
use flux_kernel.Debug.{newline}
use flux_kernel.Frames.{page_size}
use flux_kernel.Paging.Tree.{Roles}
use flux_kernel.Paging.Change.{AgreesApart}
use flux_kernel.KernelMap.{
  kernel_flags, limine_memmap_kernel_and_modules, map_blocks, map_entry, map_entries, map_direct,
  read_response,
}
use flux_kernel.KernelMap.Range.{tables_for, blocks, in_range}
use flux_kernel.KernelMap.Stage.{
  Change, no_change, then_change, Stage, Stage->>, Stage-same, Stage-cost, Stage-pure, Stage-printk,
  Stage-map_blocks,
}

module _ (boot : Boot) where
  -- Whether an entry is the kernel or a module, and where its first block goes.
  abbrev pub is_loaded : MemmapEntry → Bool
  is_loaded entry = entry.kind == limine_memmap_kernel_and_modules

  abbrev pub load_address : MemmapEntry → ℕ
  load_address entry =
      boot.flux_base_virt + (if entry.base == boot.kernel_physical_base then 0 else entry.base)

  abbrev pub entry_change : MemmapEntry → Change
  entry_change entry w old =
      if is_loaded entry
      then in_range entry.base (load_address entry) (blocks entry.length) w old
      else old

  abbrev pub entry_cost : MemmapEntry → ℕ
  entry_cost entry = if is_loaded entry then tables_for (blocks entry.length) else 0

  abbrev pub entries_change : List MemmapEntry → Change
  entries_change [] = no_change
  entries_change (entry ∷ entries) = then_change (entry_change entry) (entries_change entries)

  abbrev pub entries_cost : List MemmapEntry → ℕ
  entries_cost [] = 0
  entries_cost (entry ∷ entries) = entry_cost entry + entries_cost entries

  -- A module or the kernel is at most 2^48 bytes long.
  abbrev pub IsSmall : MemmapEntry → Type 0
  IsSmall entry = is_loaded entry ≡ true → entry.length ≤ 2 ^ 48

  -- The direct map: 2^20 blocks.
  abbrev pub direct_change : Change
  direct_change = in_range 0 boot.hhdm_offset 1048576

-- The responses that are read are there.
pub record IsAnswered (boot : Boot) : Type 0 where
  pub address : boot.address_given ≡ true
  pub hhdm : boot.hhdm_given ≡ true

-- The message for an entry.
announce_entry : Boot → MemmapEntry → Kernel (Unit {0})
announce_entry boot entry =
    if entry.base == boot.kernel_physical_base
    then printk (codes "[Kernel map] Mapping phys %p (%d blocks) to virt %p" ++ newline)
        (word entry.base ∷ word (entry.length / 4096) ∷ word boot.flux_base_virt ∷ [])
    else printk (codes "[Module map] Mapping phys %p (%d blocks) to virt %p" ++ newline) (
        word entry.base
        ∷ word (entry.length / 4096)
        ∷ word (u64 (boot.flux_base_virt + entry.base))
        ∷ [])

loaded_entry : Boot → ℕ → MemmapEntry → Kernel (Unit {0})
loaded_entry boot pml4 entry =
    read_response boot.address_given
    >> (announce_entry boot entry
        >> map_blocks (entry.length / page_size + 2) pml4 entry.length entry.base
            (load_address boot entry) kernel_flags 0)

map_entry_run :
    (entry : MemmapEntry) (m : Machine)
    → map_entry entry m
      ≡ (if is_loaded m.boot entry then loaded_entry m.boot m.kernel_pml4_table entry else pure tt)
          m
unfolding map_entry loaded_entry announce_entry
map_entry_run entry m = refl

module _ (q : ℕ) (port : ComPort) (m₀ : Machine) (free₀ : List ℕ) (role₀ : Roles) where
  abbrev pml4 : ℕ
  pml4 = m₀.kernel_pml4_table

  abbrev boot : Boot
  boot = m₀.boot

  abbrev KernelStage : Kernel (Unit {0}) → ℕ → Change → Type 0
  KernelStage p cost f = Stage pml4 q port m₀ free₀ role₀ p cost f

  pub read_response-KernelStage : (b : Bool) → b ≡ true → KernelStage (read_response b) 0 no_change
  unfolding read_response
  read_response-KernelStage true e = Stage-pure pml4 q port m₀ free₀ role₀
  read_response-KernelStage false e = absurd (cc e)

  announce_entry-KernelStage :
      (entry : MemmapEntry) → KernelStage (announce_entry boot entry) 0 no_change
  unfolding announce_entry pieces render conversion_text
  announce_entry-KernelStage entry = elim (Bool-cases (entry.base == boot.kernel_physical_base)) [
    | inl e ↦ rw e (Stage-printk pml4 q port m₀ free₀ role₀ _ _ _ refl)
    | inr e ↦ rw e (Stage-printk pml4 q port m₀ free₀ role₀ _ _ _ refl)
  ]

  loaded_entry-KernelStage :
      (entry : MemmapEntry)
      → IsAnswered boot
      → entry.length ≤ 2 ^ 48
      → KernelStage
          (loaded_entry boot pml4 entry)
          (tables_for (blocks entry.length))
          (in_range entry.base (load_address boot entry) (blocks entry.length))
  unfolding loaded_entry
  loaded_entry-KernelStage entry given small =
      let n = blocks entry.length in
      Stage-cost pml4 q port m₀ free₀ role₀ (loaded_entry boot pml4 entry) (0 + (0 + tables_for n))
        (tables_for n) (in_range entry.base (load_address boot entry) n) (omega arith)
        (Stage->> pml4 q port m₀ free₀ role₀ (read_response boot.address_given) _ 0
          (0 + tables_for n) no_change (in_range entry.base (load_address boot entry) n)
          (read_response-KernelStage boot.address_given given.address)
          (Stage->> pml4 q port m₀ free₀ role₀ (announce_entry boot entry) _ 0 (tables_for n)
            no_change (in_range entry.base (load_address boot entry) n)
            (announce_entry-KernelStage entry)
            (Stage-map_blocks pml4 q port m₀ free₀ role₀ (entry.length / page_size + 2) entry.length
              entry.base (load_address boot entry) kernel_flags (omega arith, refl) (omega arith)
              (omega arith))))

  map_entry_same :
      (entry : MemmapEntry) (m : Machine)
      → AgreesApart m₀ m
      → map_entry entry m
        ≡ (if is_loaded boot entry then loaded_entry boot pml4 entry else pure tt) m
  map_entry_same entry m since =
      map_entry_run entry m
      ∙ ap
          (λ (z : Machine).
            (if is_loaded z.boot entry
                then loaded_entry z.boot z.kernel_pml4_table entry
                else pure tt)
              m)
          since

  loaded-KernelStage :
      (entry : MemmapEntry) (b : Bool)
      → IsAnswered boot
      → (b ≡ true → entry.length ≤ 2 ^ 48)
      → KernelStage
          (λ m. (if b then loaded_entry boot pml4 entry else pure tt) m)
          (if b then tables_for (blocks entry.length) else 0)
          (λ w old.
            if b
            then in_range entry.base (load_address boot entry) (blocks entry.length) w old
            else old)
  loaded-KernelStage entry true given small = loaded_entry-KernelStage entry given (small refl)
  loaded-KernelStage entry false given small = Stage-pure pml4 q port m₀ free₀ role₀

  map_entry-KernelStage :
      (entry : MemmapEntry)
      → IsAnswered boot
      → IsSmall boot entry
      → KernelStage (map_entry entry) (entry_cost boot entry) (entry_change boot entry)
  map_entry-KernelStage entry given small =
      Stage-same pml4 q port m₀ free₀ role₀ (map_entry entry) _ (entry_cost boot entry)
        (entry_change boot entry)
        (λ m free role ready enough. map_entry_same entry m ready.since.agrees)
        (loaded-KernelStage entry (is_loaded boot entry) given small)

  pub map_entries-KernelStage :
      (entries : List MemmapEntry)
      → IsAnswered boot
      → All (IsSmall boot) entries
      → KernelStage (map_entries entries) (entries_cost boot entries) (entries_change boot entries)
  unfolding map_entries
  map_entries-KernelStage [] given small = Stage-pure pml4 q port m₀ free₀ role₀
  map_entries-KernelStage (entry ∷ entries) given (one, rest) =
      Stage->> pml4 q port m₀ free₀ role₀ (map_entry entry) (map_entries entries)
        (entry_cost boot entry) (entries_cost boot entries) (entry_change boot entry)
        (entries_change boot entries) (map_entry-KernelStage entry given one)
        (map_entries-KernelStage entries given rest)

  pub map_direct-KernelStage : KernelStage map_direct (tables_for 1048576) (direct_change boot)
  unfolding map_direct
  map_direct-KernelStage =
      Stage-same pml4 q port m₀ free₀ role₀ map_direct _ (tables_for 1048576) (direct_change boot)
        (λ m free role ready enough.
          ap
            (λ (z : Machine).
              map_blocks 1048577 z.kernel_pml4_table 0x1_0000_0000 0 z.boot.hhdm_offset kernel_flags
                0 m)
            ready.since.agrees)
        (Stage-map_blocks pml4 q port m₀ free₀ role₀ 1048577 0x1_0000_0000 0 boot.hhdm_offset
          kernel_flags (omega arith, refl) (omega arith) (omega arith))
