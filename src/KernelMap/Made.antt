-- ===== src/KernelMap/Made.antt =====
-- What `setup_kernel_map` makes.
use flux_kernel.Prelude.{
  arith, ℕ, ◌+◌, ◌≤◌, ◌≡◌, refl, none, some, List, ◌∷◌, [], ◌++◌, All, length, ap, ◌∙◌, codes,
}
use flux_kernel.Machine.{Machine, ComPort, Boot, MemmapEntry, Kernel, ok, ◌>>◌}
use flux_kernel.Printk.{word, printk}
use flux_kernel.Printk.Render.{render, pieces, conversion_text}
use flux_kernel.Debug.{newline}
use flux_kernel.Frames.Pool.{taken}
use flux_kernel.Paging.Walk.{translate}
use flux_kernel.Paging.Tree.{Roles, IsTree}
use flux_kernel.Paging.Root.{
  IsTree-same, IsBlank, IsTaken, get_phys_block-IsTaken, root_self, root-IsTree, root_empty,
}
use flux_kernel.Paging.Link.{with_role}
use flux_kernel.Paging.Change.{Grows-traffic}
use flux_kernel.Printk.Console.{IsConsole, IsConsole-same}
use flux_kernel.KernelMap.{map_entries, map_direct, setup_response, setup_kernel_map, read_response}
use flux_kernel.KernelMap.Range.{tables_for}
use flux_kernel.KernelMap.Stage.{
  no_change, then_change, IsReady, Stage, Stage->>, Stage-cost, Stage-printk,
}
use flux_kernel.KernelMap.Setup.{
  read_response-KernelStage, IsAnswered, entries_change, entries_cost, IsSmall, direct_change,
  map_entries-KernelStage, map_direct-KernelStage,
}

-- The machine on which the mapping starts, when the frame `x` was taken.
abbrev pub at_root : Machine → ℕ → Machine
at_root m x = record (taken m) { kernel_pml4_table = x }

-- The program from there on.
announce_direct : Machine → Kernel (Unit {0})
announce_direct m =
    printk (codes "[HHDM map] Mapping first 4GB to virt %p" ++ newline)
      (word m.boot.hhdm_offset ∷ [])

kernel_ranges : Machine → List MemmapEntry → Kernel (Unit {0})
kernel_ranges m entries =
    map_entries entries >> (read_response m.boot.hhdm_given >> (announce_direct m >> map_direct))

setup_kernel_map-ranges :
    (m : Machine) (x : ℕ) (entries : List MemmapEntry) (free : List ℕ) (role : Roles)
    → m.boot.memmap ≡ some entries
    → IsTaken m x free role
    → setup_kernel_map m ≡ kernel_ranges (at_root m x) entries (at_root m x)
unfolding setup_kernel_map setup_response kernel_ranges announce_direct
setup_kernel_map-ranges m x entries free role e t = rw (setup_kernel_map, t.run, e) refl

-- The frames that the kernel's tables take at most, the root apart.
abbrev pub kernel_cost : Boot → List MemmapEntry → ℕ
kernel_cost boot entries = entries_cost boot entries + (0 + tables_for 1048576)

module _ (q : ℕ) (port : ComPort) (m₀ : Machine) (free₀ : List ℕ) (role₀ : Roles) where
  announce_direct-KernelStage :
      Stage m₀.kernel_pml4_table q port m₀ free₀ role₀ (announce_direct m₀) 0 no_change
  unfolding announce_direct pieces render conversion_text
  announce_direct-KernelStage = Stage-printk m₀.kernel_pml4_table q port m₀ free₀ role₀ _ _ _ refl

  kernel_ranges-KernelStage :
      (entries : List MemmapEntry)
      → IsAnswered m₀.boot
      → All (IsSmall m₀.boot) entries
      → Stage m₀.kernel_pml4_table q port m₀ free₀ role₀
          (kernel_ranges m₀ entries)
          (kernel_cost m₀.boot entries)
          (then_change (entries_change m₀.boot entries) (direct_change m₀.boot))
  unfolding kernel_ranges
  kernel_ranges-KernelStage entries given small =
      let pml4 = m₀.kernel_pml4_table in
      Stage->> pml4 q port m₀ free₀ role₀ (map_entries entries)
        (read_response m₀.boot.hhdm_given >> (announce_direct m₀ >> map_direct))
        (entries_cost m₀.boot entries) (0 + tables_for 1048576) (entries_change m₀.boot entries)
        (direct_change m₀.boot) (map_entries-KernelStage q port m₀ free₀ role₀ entries given small)
        (Stage-cost pml4 q port m₀ free₀ role₀
          (read_response m₀.boot.hhdm_given >> (announce_direct m₀ >> map_direct))
          (0 + (0 + tables_for 1048576)) (0 + tables_for 1048576) (direct_change m₀.boot)
          (omega arith)
          (Stage->> pml4 q port m₀ free₀ role₀ (read_response m₀.boot.hhdm_given) _ 0
            (0 + tables_for 1048576) no_change (direct_change m₀.boot)
            (read_response-KernelStage q port m₀ free₀ role₀ m₀.boot.hhdm_given given.hhdm)
            (Stage->> pml4 q port m₀ free₀ role₀ (announce_direct m₀) map_direct 0
              (tables_for 1048576) no_change (direct_change m₀.boot) announce_direct-KernelStage
              (map_direct-KernelStage q port m₀ free₀ role₀))))

-- The kernel's address space, with the number `q`, is made in the frame `x`.
pub record IsMade (m : Machine) (x : ℕ) (free : List ℕ) (role : Roles) (q : ℕ) (port : ComPort)
    (entries : List MemmapEntry) (m' : Machine) : Type 0 where
  pub free' : List ℕ
  pub role' : Roles
  pub global : m'.kernel_pml4_table ≡ x
  pub ready : IsReady x q port (at_root m x) free (with_role role x (3, q)) m' free' role'
  pub used : length free ≤ length free' + kernel_cost m.boot entries
  pub maps :
      (w : ℕ)
      → translate m'.memory x w ≡ direct_change m.boot w (entries_change m.boot entries w none)

-- The frame is the root of an empty address space.
pub at_root-IsTree :
    (m : Machine) (x : ℕ) (free : List ℕ) (role : Roles) (q : ℕ)
    → IsTree m (x ∷ free) role
    → IsBlank m.memory x
    → IsTree (at_root m x) free (with_role role x (3, q))
at_root-IsTree m x free role q tree blank =
    let t = get_phys_block-IsTaken m x free role tree in
    IsTree-same (taken m) (at_root m x) free (with_role role x (3, q)) refl refl refl
      (root-IsTree (taken m) free role t.tree x q t.frame t.no_role t.not_free blank)

-- On well-formed page tables, with a console, the boot loader's responses there, a memory map whose kernel and modules are at most
-- 2^48 bytes long each, a first free frame without present entries and enough free frames behind it,
-- `setup_kernel_map` returns; then the frame is the root of the kernel's address space, in which an
-- address is translated by the direct map of the first 4 GiB where that holds it, otherwise by the
-- last loaded entry of the memory map whose range holds it, and otherwise not at all; tables and
-- free list are well formed, at most the given number of frames was used, every other address space
-- translates as before, and beside `kernel_pml4_table` only memory, the free list and the port
-- traffic changed.
pub setup_kernel_map-IsMade :
    (m : Machine) (x : ℕ) (free : List ℕ) (role : Roles) (q : ℕ) (port : ComPort)
    (entries : List MemmapEntry)
    → IsTree m (x ∷ free) role
    → IsConsole m port
    → m.boot.memmap ≡ some entries
    → IsAnswered m.boot
    → All (IsSmall m.boot) entries
    → IsBlank m.memory x
    → kernel_cost m.boot entries ≤ length free
    → (m' : Machine) × (setup_kernel_map m ≡ ok tt m') × IsMade m x free role q port entries m'
setup_kernel_map-IsMade m x free role q port entries tree console e given small blank enough =
    let t = get_phys_block-IsTaken m x free role tree in
    let m₀ = at_root m x in
    let st =
      kernel_ranges-KernelStage q port m₀ free (with_role role x (3, q)) entries given small m₀ free
        (with_role role x (3, q))
        (record {
          tree = at_root-IsTree m x free role q tree blank;
          root = root_self (taken m) free role t.tree x q t.frame t.no_role t.not_free blank;
          console = IsConsole-same m m₀ port refl refl refl refl console;
          since = Grows-traffic q m₀ free (with_role role x (3, q)) m₀.port_log;
        })
        enough in
    (
      st.m',
      setup_kernel_map-ranges m x entries free role e t ∙ st.run,
      record {
        free' = st.free';
        role' = st.role';
        global = ap (λ z. z.kernel_pml4_table) st.ready.since.agrees;
        ready = st.ready;
        used = st.used;
        maps = λ w.
            st.maps w
            ∙ ap (λ old. direct_change m.boot w (entries_change m.boot entries w old))
                (root_empty (taken m) free role t.tree x q t.frame t.no_role t.not_free blank w);
      },
    )
