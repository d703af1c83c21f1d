-- ===== src/KernelMap/Blocks.antt =====
-- `map_blocks` maps every block of a range and nothing else.
use flux_kernel.Prelude.{
  ℕ, zero, suc, ◌+◌, ◌*◌, ◌%◌, ◌^◌, ◌<◌, ◌≤◌, ◌≡◌, refl, ◌≢◌, some, inl, inr, ◌⊎◌,
}
use flux_kernel.Prelude.{List, length, arith, ◌∙◌, ap, sym, subst, lt→ltb, le→ltb}
use flux_kernel.Words.{u64}
use flux_kernel.Machine.{Machine, ok, and_then}
use flux_kernel.Structures.{pse_ptr}
use flux_kernel.Structures.Entry.{pse_ptr-field}
use flux_kernel.Frames.{page_size}
use flux_kernel.Paging.{map_page_specific_pml4}
use flux_kernel.Paging.Walk.{translate, missing, missing-le}
use flux_kernel.Prelude.{◌/◌, ◌-◌, Bool-cases, ◌==◌, ==_true}
use flux_kernel.Paging.Tree.{Roles, IsTree}
use flux_kernel.Paging.Link.{IsFlags}
use flux_kernel.Paging.Map.{page, IsMapped, map_page_specific_pml4-IsMapped}
use flux_kernel.Paging.Below.{AgreesOutside-trans, not_free, no_role_before}
use flux_kernel.KernelMap.{map_blocks}
use flux_kernel.KernelMap.Range.{tables_for, blocks, IsMappedFrom, IsMappedRange}

-- The arithmetic of a block's addresses.
page-u64 : (v : ℕ) → page (u64 v) ≡ page v
page-u64 v = omega arith

pse_ptr-u64 : (p : ℕ) → pse_ptr (u64 p) ≡ pse_ptr p
pse_ptr-u64 p = omega (arith, pse_ptr-field (u64 p), pse_ptr-field p)

page_ne : (virt i k : ℕ) → i < k → k < i + 2 ^ 36 → page (virt + i * 4096) ≢ page (virt + k * 4096)
page_ne virt i k lt near e = omega arith

module _ (pml4 q phys virt flags : ℕ) where
  -- The address of a block, and the frames that the blocks from number `i` on cost after the first.
  abbrev at : ℕ → ℕ
  at i = u64 (virt + i * 4096)

  abbrev later : ℕ → ℕ → ℕ
  later i n = 3 * ((virt / 4096 + i + n) / 512 - (virt / 4096 + i) / 512)

  -- Beside a block that is mapped no table is missing; elsewhere at most three are.
  next_cost :
      (i : ℕ) (mem : ℕ → ℕ)
      → ((w : ℕ) → page w / 512 ≡ page (at i) / 512 → missing mem 3 pml4 w ≡ 0)
      → missing mem 3 pml4 (at (i + 1)) ≤ later i 1
  next_cost i mem complete =
      elim (Bool-cases ((virt / 4096 + i + 1) / 512 == (virt / 4096 + i) / 512)) [
        | inl e ↦
            let same = ==_true ((virt / 4096 + i + 1) / 512) ((virt / 4096 + i) / 512) e in
            let near : page (at (i + 1)) / 512 ≡ page (at i) / 512 = omega (arith, same) in
            omega (arith, complete (at (i + 1)) near)
        | inr e ↦
            let differ : (virt / 4096 + i + 1) / 512 ≢ (virt / 4096 + i) / 512 = ground arith in
            omega (arith, missing-le mem 3 pml4 (at (i + 1)), differ)
      ]

  pub map_blocks-done :
      (rounds total offset : ℕ) (m : Machine)
      → total ≤ offset
      → map_blocks (suc rounds) pml4 total phys virt flags offset m ≡ ok tt m
  unfolding map_blocks
  map_blocks-done rounds total offset m h = rw (map_blocks, le→ltb offset total h) refl

  pub map_blocks-next :
      (rounds total offset : ℕ) (m m₁ : Machine)
      → offset < total
      → map_page_specific_pml4 pml4 (u64 (phys + offset)) (u64 (virt + offset)) flags m ≡ ok tt m₁
      → map_blocks (suc rounds) pml4 total phys virt flags offset m
        ≡ map_blocks rounds pml4 total phys virt flags (u64 (offset + page_size)) m₁
  unfolding map_blocks
  map_blocks-next rounds total offset m m₁ h run =
      rw (map_blocks, lt→ltb offset total h)
        (ap
          (λ r.
            and_then r
              (λ _. map_blocks rounds pml4 total phys virt flags (u64 (offset + page_size))))
          run)

  extend :
      (m m₁ m₂ : Machine) (free : List ℕ) (role : Roles) (i n c c' : ℕ)
      → i + suc n ≤ 2 ^ 36
      → (first : IsMapped m free role pml4 q (u64 (phys + i * 4096)) (at i) m₁)
      → IsMappedFrom pml4 q phys virt flags m₁ first.free' first.role' (i + 1) n c m₂
      → c + missing m.memory 3 pml4 (at i) ≤ c'
      → IsMappedFrom pml4 q phys virt flags m free role i (suc n) c' m₂
  extend m m₁ m₂ free role i n c c' small first rest price = record {
    free' = rest.free';
    role' = rest.role';
    tree = rest.tree;
    kept = λ y l₂ q₂ h. rest.kept y l₂ q₂ (first.kept y l₂ q₂ h);
    here = here;
    others = λ w ne.
        rest.others w (λ k le lt. ne k (omega arith) (omega arith))
        ∙ first.others w (λ e. ne i (omega arith) (omega arith) (e ∙ page-u64 _));
    elsewhere =
        λ u q₂ w h ne. rest.elsewhere u q₂ w (first.kept u 3 q₂ h) ne ∙ first.elsewhere u q₂ w h ne;
    used = omega (arith, first.used, rest.used);
    fewer = λ y h. first.fewer y (rest.fewer y h);
    fresh = λ y h out.
        rest.fresh y (first.fresh y h out) (not_free first.free' free y (first.fewer y) out);
    untouched = λ y j fy hj h.
        rest.untouched y j fy hj h
        ∙ first.untouched y j fy hj (no_role_before first.role' rest.role' y rest.kept h);
    agrees = AgreesOutside-trans m m₁ m₂ first.agrees rest.agrees;
  }
    where
      split : (k : ℕ) → i ≤ k → (k ≡ i) ⊎ (i + 1 ≤ k)
      split k le = grind arith

      here :
          (k w : ℕ)
          → i ≤ k
          → k < i + suc n
          → page w ≡ page (virt + k * 4096)
          → translate m₂.memory pml4 w ≡ some (pse_ptr (phys + k * 4096) + w % 4096)
      here k w le lt e = elim (split k le) [
        | inr above ↦ rest.here k w above (omega arith) e
        | inl at ↦
            let e' : page w ≡ page (virt + i * 4096) =
              subst (λ z. page w ≡ page (virt + z * 4096)) at e in
            rest.others w
              (λ k' le' lt' e₂. page_ne virt i k' (omega arith) (omega arith) (sym e' ∙ e₂))
            ∙ first.here w (e' ∙ sym (page-u64 _))
            ∙ ap (λ z. some (z + w % 4096)) (pse_ptr-u64 (phys + i * 4096))
            ∙ ap (λ z. some (pse_ptr (phys + z * 4096) + w % 4096)) (sym at)
      ]

  map_from_block :
      (n rounds i total : ℕ) (m : Machine) (free : List ℕ) (role : Roles)
      → IsTree m free role
      → role pml4 ≡ some (3, q)
      → IsFlags flags
      → missing m.memory 3 pml4 (at i) + later i n ≤ length free
      → i + n ≤ 2 ^ 36
      → n < rounds
      → total ≤ (i + n) * 4096
      → (i + n) * 4096 < total + 4096
      → (m' : Machine) × (map_blocks rounds pml4 total phys virt flags (i * 4096) m ≡ ok tt m')
        × IsMappedFrom pml4 q phys virt flags m free role i n
            (missing m.memory 3 pml4 (at i) + later i n)
            m'
  map_from_block n zero i total m free role tree root fl enough small lt le gt = elim lt [ ]
  map_from_block zero (suc rounds) i total m free role tree root fl enough small lt le gt = (
    m,
    map_blocks-done rounds total (i * 4096) m (omega arith),
    record {
      free' = free;
      role' = role;
      tree = tree;
      kept = λ y l₂ q₂ h. h;
      here = λ k w le lt' e. absurd (omega arith);
      others = λ w ne. refl;
      elsewhere = λ u q₂ w h ne. refl;
      used = omega arith;
      fewer = λ y h. h;
      fresh = λ y h out. h;
      untouched = λ y j fy hj h. refl;
      agrees = refl;
    },
  )
  map_from_block (suc n) (suc rounds) i total m free role tree root fl enough small lt le gt =
      let (m₁, run₁, first) =
        map_page_specific_pml4-IsMapped m free role pml4 q (u64 (phys + i * 4096)) (at i) flags tree
          root fl (omega arith) in
      let cost = next_cost i m₁.memory first.complete in
      let (m₂, run₂, rest) =
        map_from_block n rounds (i + 1) total m₁ first.free' first.role' first.tree
          (first.kept pml4 3 q root) fl (omega (arith, first.used, cost)) (omega arith)
          (omega arith) (omega arith) (omega arith) in
      let next : (i + 1) * 4096 ≡ u64 (i * 4096 + page_size) = omega arith in
      (
        m₂,
        map_blocks-next rounds total (i * 4096) m m₁ (omega arith) run₁
            ∙ ap (λ z. map_blocks rounds pml4 total phys virt flags z m₁) (sym next)
            ∙ run₂,
        extend m m₁ m₂ free role i n _ _ small first rest (omega (arith, cost)),
      )

  -- On well-formed page tables with three free frames for each 512 blocks of a range of `total`
  -- bytes and six more, at most 2^36 blocks, more rounds than blocks, and flags in the low 12 bits
  -- that do not ask for a large page, the loop that maps the range returns; then every address of
  -- block `k` of the virtual range is translated to the frame of block `k` of the physical one, every
  -- other address of the address space as before, and so is every address of every other address
  -- space; the tables are well formed again, no frame that is not a table was written, and only
  -- memory and the free list changed.
  pub map_blocks-IsMappedRange :
      (total rounds : ℕ) (m : Machine) (free : List ℕ) (role : Roles)
      → IsTree m free role
      → role pml4 ≡ some (3, q)
      → IsFlags flags
      → tables_for (blocks total) ≤ length free
      → blocks total ≤ 2 ^ 36
      → blocks total < rounds
      → (m' : Machine) × (map_blocks rounds pml4 total phys virt flags 0 m ≡ ok tt m')
        × IsMappedRange pml4 q phys virt flags m free role total m'
  map_blocks-IsMappedRange total rounds m free role tree root fl enough small lt =
      let n = blocks total in
      let (m', run, mapped) =
        map_from_block n rounds 0 total m free role tree root fl
          (omega (arith, missing-le m.memory 3 pml4 (at 0))) (omega arith) lt (omega arith)
          (omega arith) in
      (
        m',
        run,
        record {
          free' = mapped.free';
          role' = mapped.role';
          tree = mapped.tree;
          kept = mapped.kept;
          here = mapped.here;
          others = mapped.others;
          elsewhere = mapped.elsewhere;
          used = omega (arith, mapped.used, missing-le m.memory 3 pml4 (at 0));
          fewer = mapped.fewer;
          fresh = mapped.fresh;
          untouched = mapped.untouched;
          agrees = mapped.agrees;
        },
      )
