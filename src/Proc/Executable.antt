-- ===== src/Proc/Executable.antt =====
-- The loop of `init_task_space_from_mem` that maps the executable is the loop of the kernel's map.
use flux_kernel.Prelude.{
  ℕ, zero, suc, ◌+◌, ◌*◌, ◌^◌, ◌≤◌, ◌≡◌, refl, some, List, length, arith, ap, ◌∙◌, sym,
}
use flux_kernel.Words.{u64}
use flux_kernel.Machine.{Machine, ok, and_then}
use flux_kernel.Structures.{pse_user_mode}
use flux_kernel.Paging.{map_page_specific_pml4}
use flux_kernel.Paging.Walk.{missing-le}
use flux_kernel.Paging.Tree.{Roles, IsTree}
use flux_kernel.Paging.Map.{map_page_specific_pml4-IsMapped}
use flux_kernel.Paging.Change.{IsMapped-Grows}
use flux_kernel.KernelMap.{map_blocks}
use flux_kernel.KernelMap.Blocks.{map_blocks-done, map_blocks-next}
use flux_kernel.Frames.{page_size}
use flux_kernel.Paging.Held.{IsHeld, Grows-IsHeld}
use flux_kernel.Proc.{map_executable}

module _ (p x q offset : ℕ) where
  map_executable-next :
      (n bn : ℕ) (m m₁ : Machine)
      → m.memory p ≡ x
      → map_page_specific_pml4 x (u64 (offset + 4096 * bn)) (u64 (4096 * bn)) pse_user_mode m
        ≡ ok tt m₁
      → map_executable (suc n) p offset bn m ≡ map_executable n p offset (bn + 1) m₁
  unfolding map_executable
  map_executable-next n bn m m₁ holds run =
      ap
        (λ t.
          and_then
            (map_page_specific_pml4 t (u64 (offset + 4096 * bn)) (u64 (4096 * bn)) pse_user_mode m)
            (λ _. map_executable n p offset (bn + 1)))
        holds
      ∙ ap (λ r. and_then r (λ _. map_executable n p offset (bn + 1))) run

  -- On well-formed page tables, when the word at `p` holds the root and is neither in a table nor in
  -- a free frame, and three frames are free for each of the `n` blocks, at most 2^36 with those
  -- before, the loop that maps the executable of a task runs as the loop of the kernel's map does on
  -- the same range of virtual addresses from 0 on, with user access and read only.
  pub map_executable-map_blocks :
      (n bn total : ℕ) (m : Machine) (free : List ℕ) (role : Roles)
      → IsTree m free role
      → role x ≡ some (3, q)
      → IsHeld m free role p x
      → 3 * n ≤ length free
      → total ≡ 4096 * (bn + n)
      → bn + n ≤ 2 ^ 36
      → map_executable n p offset bn m
        ≡ map_blocks (suc n) x total offset 0 pse_user_mode (4096 * bn) m
  unfolding map_executable
  map_executable-map_blocks zero bn total m free role tree root held enough e small =
      sym (map_blocks-done x q offset 0 pse_user_mode 0 total (4096 * bn) m (omega arith))
  map_executable-map_blocks (suc n) bn total m free role tree root held enough e small =
      let paddr = u64 (offset + 4096 * bn) in
      let v = u64 (4096 * bn) in
      let (m₁, run, mapped) =
        map_page_specific_pml4-IsMapped m free role x q paddr v pse_user_mode tree root
          (omega arith, refl) (omega (arith, missing-le m.memory 3 x v)) in
      let rest =
        map_executable-map_blocks n (bn + 1) total m₁ mapped.free' mapped.role' mapped.tree
          (mapped.kept x 3 q root)
          (Grows-IsHeld q m free role m₁ mapped.free' mapped.role' p x
            (IsMapped-Grows m free role x q paddr v m₁ mapped) held)
          (omega (arith, mapped.used, missing-le m.memory 3 x v)) (omega arith) (omega arith) in
      let same : v ≡ u64 (0 + 4096 * bn) = omega arith in
      let next : 4096 * (bn + 1) ≡ u64 (4096 * bn + page_size) = omega arith in
      map_executable-next n bn m m₁ held.holds run
      ∙ rest
      ∙ ap (λ z. map_blocks (suc n) x total offset 0 pse_user_mode z m₁) next
      ∙ sym (
          map_blocks-next x q offset 0 pse_user_mode (suc n) total (4096 * bn) m m₁ (omega arith)
            (ap (λ z. map_page_specific_pml4 x paddr z pse_user_mode m) (sym same) ∙ run))
