-- ===== src/Paging/Link.antt =====
-- Memory after a free frame was cleared and linked into a page table.
use flux_kernel.Prelude.{
  ℕ, ◌+◌, ◌*◌, ◌/◌, ◌%◌, ◌<◌, ◌≡◌, ◌≢◌, some, arith, sym, ◌∙◌, ◌==◌, if◌then◌else◌,
}
use flux_kernel.Machine.{write, write_self, write_ne}
use flux_kernel.Structures.Entry.{entry}
use flux_kernel.Paging.Tree.{Roles, IsFrame}
use flux_kernel.Paging.Zero.{cleared, cleared-zero, cleared-outside}

-- Entries of distinct frames, or at distinct indices, lie at distinct addresses.
pub entry_ne :
    {t x : ℕ} (i j : ℕ) → IsFrame t → IsFrame x → i < 512 → j < 512 → t ≢ x → t + 8 * i ≢ x + 8 * j
entry_ne i j ft fx hi hj ne = λ e. ne (omega (arith, ft.aligned, fx.aligned))

-- The frame `x` as the table `(l, q)`.
abbrev pub with_role : Roles → ℕ → ℕ × ℕ → Roles
with_role role x r y = if y == x then some r else role y

-- Memory after a frame was made an empty table and linked at the entry `e`.
abbrev pub linked_memory : (ℕ → ℕ) → ℕ → ℕ → ℕ → ℕ → ℕ
linked_memory mem e x flags = write (cleared x mem) e (entry x flags)

abbrev pub IsFlags : ℕ → Type 0
IsFlags flags = (flags < 4096) × (flags / 128 % 2 ≡ 0)

module _ (mem : ℕ → ℕ) (t x i flags : ℕ) (ft : IsFrame t) (fx : IsFrame x) (hi : i < 512)
    (ne : t ≢ x) where
  abbrev pub mem' : ℕ → ℕ
  mem' = linked_memory mem (t + 8 * i) x flags

  pub linked_memory_self : mem' (t + 8 * i) ≡ entry x flags
  linked_memory_self = write_self _ (t + 8 * i) (entry x flags)

  pub linked_memory_new : (j : ℕ) → j < 512 → mem' (x + 8 * j) ≡ 0
  linked_memory_new j hj =
      write_ne _ _ _ _ (λ e. entry_ne i j ft fx hi hj ne (sym e)) ∙ cleared-zero x mem j hj

  pub linked_memory_other :
      (u j : ℕ)
      → IsFrame u
      → j < 512
      → u ≢ x
      → u + 8 * j ≢ t + 8 * i
      → mem' (u + 8 * j) ≡ mem (u + 8 * j)
  linked_memory_other u j fu hj u≢x away =
      write_ne _ _ _ _ away
      ∙ cleared-outside x mem (u + 8 * j) (λ k hk. entry_ne j k fu fx hj hk u≢x)
