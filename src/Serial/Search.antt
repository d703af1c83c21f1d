-- ===== src/Serial/Search.antt =====
-- The search of `serial_init` for a port that works.
use flux_kernel.Prelude.{
  ℕ, zero, suc, ◌+◌, ◌≡◌, refl, Bool, true, false, Option, none, some, List, [], ◌∷◌, ◌++◌, ap, ◌∙◌,
  sym, subst, length, arith, codes, map, get_elem?, set, append_assoc, if◌then◌else◌, All,
  Bool-cases, inl, inr,
}
use flux_kernel.Machine.{Machine, PortEvent, ComPort, ok, and_then, Kernel, modify, pure, ◌>>◌}
use flux_kernel.Serial.{com_port_setup}
use flux_kernel.Serial.Console.{IsPrompt}
use flux_kernel.Serial.Setup.{echoed, status_of, settings, events, com_port_setup_run, finished}
use flux_kernel.Serial.Init.{choose, announce, setup_ports}
use flux_kernel.Printk.{word}
use flux_kernel.Printk.Console.{IsConsole, IsPrompt-same}
use flux_kernel.Printk.Render.{render, pieces, conversion_text, printk-says}
use flux_kernel.Debug.{newline, system, pgood}

-- The element in the middle of a list.
module _ {ℓ} {A : Type ℓ} where
  get_elem?-middle :
      (xs : List A) (a : A) (ys : List A) → get_elem? (xs ++ (a ∷ ys)) (length xs) ≡ some a
  get_elem?-middle [] a ys = refl
  get_elem?-middle (x ∷ xs) a ys = get_elem?-middle xs a ys

  set-middle :
      (xs : List A) (a v : A) (ys : List A) → set (xs ++ (a ∷ ys)) (length xs) v ≡ xs ++ (v ∷ ys)
  set-middle [] a v ys = refl
  set-middle (x ∷ xs) a v ys = ap (λ zs. x ∷ zs) (set-middle xs a v ys)

  get_elem?-front :
      (xs : List A) (i : ℕ) (a : A) (ys : List A)
      → get_elem? xs i ≡ some a
      → get_elem? (xs ++ ys) i ≡ some a
  get_elem?-front [] i a ys h = absurd (cc h)
  get_elem?-front (x ∷ xs) zero a ys h = h
  get_elem?-front (x ∷ xs) (suc i) a ys h = get_elem?-front xs i a ys h

  length-snoc : (xs : List A) (a : A) → length (xs ++ (a ∷ [])) ≡ length xs + 1
  length-snoc [] a = refl
  length-snoc (x ∷ xs) a = omega (arith, length-snoc xs a)

-- The first port from index `i` on that works, by its I/O base.
unfoldable pub first_working : (ℕ → Bool) → ℕ → List ComPort → Option ℕ
first_working works i [] = none
first_working works i (port ∷ ports) =
    if works port.io_port_base then some i else first_working works (i + 1) ports

-- A machine whose devices are fixed: the port with the I/O base `b` works when `works b`.
module _ (m₀ : Machine) (works : ℕ → Bool) where
  abbrev pub at : List ComPort → Option ℕ → List PortEvent → Machine
  at ports primary log = record m₀ { com_ports = ports; primary_com_port = primary; port_log = log }

  -- A port after its test.
  abbrev pub tested : ComPort → ComPort
  tested port = record port { status = status_of (works port.io_port_base) }

  -- The port that the rounds from index `i` on leave, when `o` was chosen before.
  unfoldable pub chosen_from : Option ℕ → ℕ → List ComPort → Option ℕ
  chosen_from o i [] = o
  chosen_from o i (port ∷ ports) =
      chosen_from (if works port.io_port_base then choose o i else o) (i + 1) ports

  -- A port that was chosen stays chosen.
  chosen_from-some : (k i : ℕ) (ports : List ComPort) → chosen_from (some k) i ports ≡ some k
  unfolding chosen_from
  chosen_from-some k i [] = refl
  chosen_from-some k i (port ∷ ports) = elim (Bool-cases (works port.io_port_base)) [
    | inl e ↦ rw e (chosen_from-some k (i + 1) ports)
    | inr e ↦ rw e (chosen_from-some k (i + 1) ports)
  ]

  pub chosen_from-none :
      (i : ℕ) (ports : List ComPort) → chosen_from none i ports ≡ first_working works i ports
  unfolding chosen_from first_working
  chosen_from-none i [] = refl
  chosen_from-none i (port ∷ ports) = elim (Bool-cases (works port.io_port_base)) [
    | inl e ↦ rw e (chosen_from-some i (i + 1) ports)
    | inr e ↦ rw e (chosen_from-none (i + 1) ports)
  ]

  -- The test byte comes back exactly from the ports that work, and these accept characters in time.
  abbrev pub IsAnswering : ComPort → Type 0
  IsAnswering port =
      ((log : List PortEvent) → echoed m₀ port log ≡ works port.io_port_base)
      × (works port.io_port_base ≡ true → IsPrompt m₀ (tested port))

  -- The console that was found among the ports that were tested.
  abbrev pub Console : Option ℕ → List ComPort → Type 0
  Console none ports = Unit
  Console (some j) ports = (port : ComPort) × (get_elem? ports j ≡ some port) × IsPrompt m₀ port

  pub Console-IsConsole :
      (ports : List ComPort) (j : ℕ) (log : List PortEvent)
      → Console (some j) ports
      → (port : ComPort) × IsConsole (at ports (some j) log) port
  Console-IsConsole ports j log (port, found, prompt) = (
    port,
    record {
      index = j;
      primary = refl;
      found = found;
      prompt = IsPrompt-same m₀ (at ports (some j) log) port refl refl prompt;
    },
  )

  announce-runs :
      (ports : List ComPort) (i j : ℕ) (port : ComPort) (log : List PortEvent)
      → get_elem? ports i ≡ some port
      → Console (some j) ports
      → (log' : List PortEvent) × (announce i (at ports (some j) log)
          ≡ ok tt (at ports (some j) log'))
  unfolding announce pieces render conversion_text
  announce-runs ports i j port log here console =
      let (primary, ready) = Console-IsConsole ports j log console in
      let (log', run, said) =
        printk-says ready
          (system "( SERI)"
            ++ pgood (codes "Detected as working UART com port (IO base %x)" ++ newline))
          (word port.io_port_base ∷ []) _ refl in
      (log', rw (announce, here) run)

  -- What a round does after the test of a port.
  after_test : ℕ → Bool → Kernel (Unit {0})
  after_test i b =
      if b
      then (do
        modify (λ m. record m { primary_com_port = choose m.primary_com_port i })
        announce i)
      else pure tt

  Console-choose :
      (o : Option ℕ) (tried : List ComPort) (port : ComPort)
      → Console o tried
      → IsPrompt m₀ port
      → Console (choose o (length tried)) (tried ++ (port ∷ []))
  Console-choose none tried port found prompt = (port, get_elem?-middle tried port [], prompt)
  Console-choose (some j) tried port (p, found, prompt') prompt =
      (p, get_elem?-front tried j p (port ∷ []) found, prompt')

  Console-more :
      (o : Option ℕ) (tried more : List ComPort) → Console o tried → Console o (tried ++ more)
  Console-more none tried more found = tt
  Console-more (some j) tried more (p, found, prompt) =
      (p, get_elem?-front tried j p more found, prompt)

  chosen : (o : Option ℕ) (i : ℕ) → (j : ℕ) × (choose o i ≡ some j)
  chosen none i = (i, refl)
  chosen (some j) i = (j, refl)

  after_test-runs :
      (b : Bool) (tried rest : List ComPort) (port : ComPort) (o : Option ℕ) (log : List PortEvent)
      → Console o tried
      → (b ≡ true → IsPrompt m₀ port)
      → (let o' = if b then choose o (length tried) else o in
          (log' : List PortEvent) × (after_test (length tried) b (at (tried ++ (port ∷ rest)) o log)
            ≡ ok tt (at (tried ++ (port ∷ rest)) o' log'))
          × Console o' (tried ++ (port ∷ [])))
  unfolding after_test
  after_test-runs false tried rest port o log found prompt =
      (log, refl, Console-more o tried (port ∷ []) found)
  after_test-runs true tried rest port o log found prompt =
      let (j, e) = chosen o (length tried) in
      let console = Console-choose o tried port found (prompt refl) in
      let whole : Console (some j) (tried ++ (port ∷ rest)) =
        subst (λ ports. Console (some j) ports) (append_assoc tried (port ∷ []) rest)
          (Console-more (some j) (tried ++ (port ∷ [])) rest
            (subst (λ o'. Console o' (tried ++ (port ∷ []))) e console)) in
      let (log', run) =
        announce-runs (tried ++ (port ∷ rest)) (length tried) j port log
          (get_elem?-middle tried port rest) whole in
      (
        log',
        subst
            (λ o'.
              announce (length tried) (at (tried ++ (port ∷ rest)) o' log)
              ≡ ok tt (at (tried ++ (port ∷ rest)) o' log'))
            (sym e) run,
        console,
      )

  test-runs :
      (tried rest : List ComPort) (port : ComPort) (o : Option ℕ) (log : List PortEvent)
      → ((l : List PortEvent) → echoed m₀ port l ≡ works port.io_port_base)
      → (log' : List PortEvent) × (com_port_setup
            (length tried)
            3
            (at (tried ++ (port ∷ rest)) o log)
          ≡ ok (works port.io_port_base) (at (tried ++ (tested port ∷ rest)) o log'))
  test-runs tried rest port o log answer =
      let m = at (tried ++ (port ∷ rest)) o log in
      let log₁ = events port (settings 3) log in
      let done = finished m (length tried) port log₁ (works port.io_port_base) in
      (
        done.port_log,
        com_port_setup_run m (length tried) 3 port (works port.io_port_base)
              (get_elem?-middle tried port rest) (answer log₁)
            ∙ ap (λ ports. ok (works port.io_port_base) (at ports o done.port_log))
                (set-middle tried port (tested port) rest),
      )

  abbrev pub Finds :
      List ComPort → Option ℕ → ℕ → List ComPort → List ComPort → List PortEvent → Type 0
  Finds rest o i before after log =
      (log' : List PortEvent) × (setup_ports (length rest) i (at before o log)
        ≡ ok tt (at after (chosen_from o i rest) log'))
      × Console (chosen_from o i rest) after

  pub setup_ports-found :
      (rest tried : List ComPort) (o : Option ℕ) (log : List PortEvent)
      → All IsAnswering rest
      → Console o tried
      → Finds rest o (length tried) (tried ++ rest) (tried ++ map tested rest) log
  unfolding setup_ports chosen_from after_test
  setup_ports-found [] tried o log answering found = (log, refl, Console-more o tried [] found)
  setup_ports-found (port ∷ rest) tried o log (answer, answering) found =
      let i = length tried in
      let b = works port.io_port_base in
      let o' = if b then choose o i else o in
      let now = tried ++ (tested port ∷ []) in
      let (log₁, run₁) = test-runs tried rest port o log answer.0 in
      let (log₂, run₂, console) =
        after_test-runs b tried rest (tested port) o log₁ found answer.1 in
      let (log₃, run₃, last) =
        subst (λ ys. Finds rest o' (i + 1) (tried ++ (tested port ∷ rest)) ys log₂)
          (append_assoc tried (tested port ∷ []) (map tested rest))
          (subst (λ xs. Finds rest o' (i + 1) xs (now ++ map tested rest) log₂)
            (append_assoc tried (tested port ∷ []) rest)
            (subst (λ n. Finds rest o' n (now ++ rest) (now ++ map tested rest) log₂)
              (length-snoc tried (tested port))
              (setup_ports-found rest now o' log₂ answering console))) in
      (
        log₃,
        ap (λ r. and_then r (λ w. after_test i w >> setup_ports (length rest) (i + 1))) run₁
            ∙ ap (λ r. and_then r (λ _. setup_ports (length rest) (i + 1))) run₂
            ∙ run₃,
        last,
      )
