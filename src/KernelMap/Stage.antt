-- ===== src/KernelMap/Stage.antt =====
-- A stage of the kernel's map-making: it returns, having changed the translations of one address
-- space by a known function, at a known price in frames.
use flux_kernel.Prelude.{
  ℕ, ◌+◌, ◌^◌, ◌≤◌, ◌<◌, ◌≡◌, refl, Option, some, List, length, arith, ap, ◌∙◌,
}
use flux_kernel.Machine.{Machine, ComPort, Kernel, ok, ◌>>◌, and_then}
use flux_kernel.Serial.Console.{traffic}
use flux_kernel.Printk.{Arg, printk}
use flux_kernel.Printk.Console.{IsConsole}
use flux_kernel.Printk.Render.{render, pieces, printk-says}
use flux_kernel.Paging.Walk.{translate}
use flux_kernel.Paging.Tree.{Roles, IsTree}
use flux_kernel.Paging.Root.{IsTree-same}
use flux_kernel.Paging.{map_page_specific_pml4}
use flux_kernel.Paging.Walk.{missing-le}
use flux_kernel.Paging.Map.{map_page_specific_pml4-IsMapped}
use flux_kernel.Paging.Link.{IsFlags}
use flux_kernel.Paging.Change.{
  Grows, Grows-traffic, IsMapped-Grows, Grows-trans, AgreesApart-outside, AgreesApart-IsConsole,
}
use flux_kernel.KernelMap.{map_blocks}
use flux_kernel.KernelMap.Range.{
  tables_for, blocks, in_range, translate-IsMappedRange, translate-IsMapped,
}
use flux_kernel.KernelMap.Blocks.{map_blocks-IsMappedRange}

-- What the entries of a memory map, or a page, make of the translation of an address.
abbrev pub Change : Type 0
Change = ℕ → Option ℕ → Option ℕ

abbrev pub no_change : Change
no_change w old = old

abbrev pub then_change : Change → Change → Change
then_change f g w old = g w (f w old)

-- A machine with a console, well-formed tables, and the root `pml4` of the address space `q`, that
-- has come from the machine `m₀` by stages.
pub record IsReady (pml4 q : ℕ) (port : ComPort) (m₀ : Machine) (free₀ : List ℕ) (role₀ : Roles)
    (m : Machine) (free : List ℕ) (role : Roles) : Type 0 where
  pub tree : IsTree m free role
  pub root : role pml4 ≡ some (3, q)
  pub console : IsConsole m port
  pub since : Grows q m₀ free₀ role₀ m free role

module _ (pml4 q : ℕ) (port : ComPort) (m₀ : Machine) (free₀ : List ℕ) (role₀ : Roles) where
  pub record Staged (p : Kernel (Unit {0})) (cost : ℕ) (f : Change) (m : Machine) (free : List ℕ)
      (role : Roles) : Type 0 where
    pub m' : Machine
    pub free' : List ℕ
    pub role' : Roles
    pub run : p m ≡ ok tt m'
    pub ready : IsReady pml4 q port m₀ free₀ role₀ m' free' role'
    pub used : length free ≤ length free' + cost
    pub maps : (w : ℕ) → translate m'.memory pml4 w ≡ f w (translate m.memory pml4 w)

  -- A program that is a stage wherever enough frames are free.
  abbrev pub Stage : Kernel (Unit {0}) → ℕ → Change → Type 0
  Stage p cost f =
      (m : Machine) (free : List ℕ) (role : Roles)
      → IsReady pml4 q port m₀ free₀ role₀ m free role
      → cost ≤ length free
      → Staged p cost f m free role

  pub Stage->> :
      (p p' : Kernel (Unit {0})) (c c' : ℕ) (f g : Change)
      → Stage p c f
      → Stage p' c' g
      → Stage (p >> p') (c + c') (then_change f g)
  Stage->> p p' c c' f g s s' m free role ready enough =
      let one = s m free role ready (omega arith) in
      let two = s' one.m' one.free' one.role' one.ready (omega (arith, one.used)) in
      record {
        m' = two.m';
        free' = two.free';
        role' = two.role';
        run = ap (λ r. and_then r (λ _. p')) one.run ∙ two.run;
        ready = two.ready;
        used = omega (arith, one.used, two.used);
        maps = λ w. two.maps w ∙ ap (g w) (one.maps w);
      }

  -- A program that is known on the machines that come from `m₀`.
  pub Stage-same :
      (p p' : Kernel (Unit {0})) (c : ℕ) (f : Change)
      → ((m : Machine) (free : List ℕ) (role : Roles)
          → IsReady pml4 q port m₀ free₀ role₀ m free role
          → c ≤ length free
          → p m ≡ p' m)
      → Stage p' c f
      → Stage p c f
  Stage-same p p' c f same s m free role ready enough =
      let st = s m free role ready enough in
      record {
        m' = st.m';
        free' = st.free';
        role' = st.role';
        run = same m free role ready enough ∙ st.run;
        ready = st.ready;
        used = st.used;
        maps = st.maps;
      }

  -- A price that is too high is one as well.
  pub Stage-cost :
      (p : Kernel (Unit {0})) (c c' : ℕ) (f : Change) → c ≤ c' → Stage p c f → Stage p c' f
  Stage-cost p c c' f le s m free role ready enough =
      let st = s m free role ready (omega arith) in
      record {
        m' = st.m';
        free' = st.free';
        role' = st.role';
        run = st.run;
        ready = st.ready;
        used = omega (arith, st.used);
        maps = st.maps;
      }

  pub Stage-pure : Stage (λ m. ok tt m) 0 no_change
  Stage-pure m free role ready enough = record {
    m' = m;
    free' = free;
    role' = role;
    run = refl;
    ready = ready;
    used = omega arith;
    maps = λ w. refl;
  }

  -- What keeps the tables well formed keeps the machine ready.
  pub IsReady-grows :
      (m : Machine) (free : List ℕ) (role : Roles) (m' : Machine) (free' : List ℕ) (role' : Roles)
      → IsReady pml4 q port m₀ free₀ role₀ m free role
      → Grows q m free role m' free' role'
      → IsTree m' free' role'
      → IsReady pml4 q port m₀ free₀ role₀ m' free' role'
  IsReady-grows m free role m' free' role' ready grows tree = record {
    tree = tree;
    root = grows.kept pml4 3 q ready.root;
    console = AgreesApart-IsConsole m m' port grows.agrees ready.console;
    since = Grows-trans q m₀ free₀ role₀ m free role m' free' role' ready.since grows;
  }

  pub Stage-printk :
      (fmt : List ℕ) (args : List Arg) (s : List ℕ)
      → render (pieces fmt) args ≡ some s
      → Stage (printk fmt args) 0 no_change
  Stage-printk fmt args s e m free role ready enough =
      let (log, run, out) = printk-says ready.console fmt args s e in
      let grows = Grows-traffic q m free role log in
      record {
        m' = traffic m log;
        free' = free;
        role' = role;
        run = run;
        ready =
            IsReady-grows m free role (traffic m log) free role ready grows
              (IsTree-same m (traffic m log) free role refl refl refl ready.tree);
        used = omega arith;
        maps = λ w. refl;
      }

  pub Stage-map_page :
      (paddr v flags : ℕ)
      → IsFlags flags
      → Stage (map_page_specific_pml4 pml4 paddr v flags) 3 (in_range paddr v 1)
  Stage-map_page paddr v flags fl m free role ready enough =
      let (m', run, mapped) =
        map_page_specific_pml4-IsMapped m free role pml4 q paddr v flags ready.tree ready.root fl
          (omega (arith, missing-le m.memory 3 pml4 v)) in
      record {
        m' = m';
        free' = mapped.free';
        role' = mapped.role';
        run = run;
        ready =
            IsReady-grows m free role m' mapped.free' mapped.role' ready
              (IsMapped-Grows m free role pml4 q paddr v m' mapped) mapped.tree;
        used = omega (arith, mapped.used, missing-le m.memory 3 pml4 v);
        maps = λ w. translate-IsMapped m m' free role pml4 q paddr v w mapped;
      }

  pub Stage-map_blocks :
      (rounds total phys virt flags : ℕ)
      → IsFlags flags
      → blocks total ≤ 2 ^ 36
      → blocks total < rounds
      → Stage
          (map_blocks rounds pml4 total phys virt flags 0)
          (tables_for (blocks total))
          (in_range phys virt (blocks total))
  Stage-map_blocks rounds total phys virt flags fl small lt m free role ready enough =
      let (m', run, mapped) =
        map_blocks-IsMappedRange pml4 q phys virt flags total rounds m free role ready.tree
          ready.root fl enough small lt in
      let grows : Grows q m free role m' mapped.free' mapped.role' = record {
        kept = mapped.kept;
        elsewhere = mapped.elsewhere;
        fewer = mapped.fewer;
        fresh = mapped.fresh;
        untouched = mapped.untouched;
        agrees = AgreesApart-outside m m' mapped.agrees;
      } in
      record {
        m' = m';
        free' = mapped.free';
        role' = mapped.role';
        run = run;
        ready = IsReady-grows m free role m' mapped.free' mapped.role' ready grows mapped.tree;
        used = mapped.used;
        maps =
            λ w. translate-IsMappedRange pml4 q phys virt flags total m m' free role w small mapped;
      }
