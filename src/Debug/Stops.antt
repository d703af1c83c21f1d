-- ===== src/Debug/Stops.antt =====
-- What a failed assertion does: it prints its message and stops.
use flux_kernel.Prelude.{
  ℕ, ◌≡◌, false, some, List, [], ◌∷◌, ◌++◌, codes, ap, subst, ◌∙◌, append_assoc,
}
use flux_kernel.Machine.{PortEvent, ComPort, Machine, stopped, Kernel}
use flux_kernel.Machine.{◌>>◌, and_then, loop_forever}
use flux_kernel.Serial.Console.{traffic, wire, sent, Prints}
use flux_kernel.Serial.Offset
use flux_kernel.Printk.{Arg, word, text, printk}
use flux_kernel.Printk.Console.{IsConsole}
use flux_kernel.Printk.Render.{pieces, render, Renders, printk-render}
use flux_kernel.Debug.{Site, newline, pbad, trace, error, assert}

-- The format of a trace, and that of a failed assertion.
abbrev pub trace_format : List ℕ → List ℕ
trace_format msg = codes "*** " ++ msg ++ codes " at %s:%d [%s]" ++ newline

abbrev pub assertion_format : List ℕ → List ℕ
assertion_format condition =
    trace_format (pbad (codes "Assertion (" ++ condition ++ codes ") failed"))

abbrev pub site_args : Site → List Arg
site_args at = text at.file ∷ word at.line ∷ text at.function ∷ []

module _ {m : Machine} {port : ComPort} (console : IsConsole m port) where
  -- What follows a trace stops after its text.
  abbrev pub StopsWith {ℓ} : {A : Type ℓ} → Kernel A → List ℕ → Type ℓ
  StopsWith p s =
      (log : List PortEvent)
      → (log' : List PortEvent) × (p (traffic m log) ≡ stopped (traffic m log'))
        × (sent (wire port Offset.io_data) log' ≡ sent (wire port Offset.io_data) log ++ s)

  trace-StopsWith {ℓ} :
      {A : Type ℓ} (msg : List ℕ) (at : Site) (s : List ℕ)
      → render (pieces (trace_format msg)) (site_args at) ≡ some s
      → StopsWith (trace msg at >> loop_forever {A = A}) s
  unfolding trace
  trace-StopsWith msg at s e log =
      let printed : Prints m port (printk (trace_format msg) (site_args at)) s =
        subst (Renders m port (printk (trace_format msg) (site_args at))) e
          (printk-render console (trace_format msg) (site_args at)) in
      let (log', run, out) = printed log in
      (log', ap (λ r. and_then r (λ _. loop_forever)) run, out)

  pub error-StopsWith {ℓ} :
      {A : Type ℓ} (msg : List ℕ) (at : Site) (s : List ℕ)
      → render (pieces (trace_format (pbad msg))) (site_args at) ≡ some s
      → StopsWith (error {A = A} msg at) s
  unfolding error
  error-StopsWith msg at s e = trace-StopsWith (pbad msg) at s e

  pub assert-StopsWith :
      (condition : List ℕ) (at : Site) (s : List ℕ)
      → render (pieces (assertion_format condition)) (site_args at) ≡ some s
      → StopsWith (assert false condition at) s
  unfolding assert
  assert-StopsWith condition at s e =
      trace-StopsWith (pbad (codes "Assertion (" ++ condition ++ codes ") failed")) at s e

  -- A text in front.
  pub Prints-StopsWith {ℓ} :
      {A : Type ℓ} (p : Kernel (Unit {0})) (q : Kernel A) (s t : List ℕ)
      → Prints m port p s
      → StopsWith q t
      → StopsWith (p >> q) (s ++ t)
  Prints-StopsWith p q s t printed stops log =
      let (log', run, out) = printed log in
      let (log'', run', out') = stops log' in
      (
        log'',
        ap (λ r. and_then r (λ _. q)) run ∙ run',
        out' ∙ ap (λ z. z ++ t) out ∙ append_assoc (sent (wire port Offset.io_data) log) s t,
      )
