-- ===== src/Frames/Exhausted.antt =====
-- `get_phys_block` when no frame is left.
use flux_kernel.Prelude.{ℕ, ◌≡◌, refl, some, List, [], ◌∷◌, ◌++◌, codes, ap, ◌∙◌}
use flux_kernel.Prelude.{not, ◌==◌}
use flux_kernel.Machine.{PortEvent, ComPort, Machine, stopped, and_then}
use flux_kernel.Serial.Console.{traffic, wire, sent}
use flux_kernel.Serial.Offset
use flux_kernel.Printk.{word, text}
use flux_kernel.Printk.Console.{IsConsole}
use flux_kernel.Printk.Decimal.{decimal_text, decimal_digits}
use flux_kernel.Printk.Render.{pieces, render, conversion_text}
use flux_kernel.Debug.{Site, assert, site, newline, pbad}
use flux_kernel.Debug.Stops.{assert-StopsWith, assertion_format}
use flux_kernel.Frames.{null, get_phys_block, take_frame}

abbrev get_phys_block_site : Site
get_phys_block_site = site "arch/x64/mem.c" 136 "get_phys_block"

abbrev pub exhausted_message : List ℕ
exhausted_message =
    codes "*** "
    ++ pbad (codes "Assertion (ret != NULL) failed")
    ++ codes " at arch/x64/mem.c:136 [get_phys_block]"
    ++ newline

render-exhausted :
    render
      (pieces (assertion_format (codes "ret != NULL")))
      (text (codes "arch/x64/mem.c") ∷ word 136 ∷ text (codes "get_phys_block") ∷ [])
    ≡ some exhausted_message
unfolding pieces render conversion_text decimal_text decimal_digits
render-exhausted = refl

-- On a prompt console, `get_phys_block` with an empty free list sends the text of its failed
-- assertion and stops in an endless loop, with no other change.
pub get_phys_block-stopped :
    (m : Machine) (port : ComPort)
    → IsConsole m port
    → m.first_page_frame ≡ null
    → (log : List PortEvent)
    → (log' : List PortEvent) × (get_phys_block (traffic m log) ≡ stopped (traffic m log'))
      × (sent (wire port Offset.io_data) log'
          ≡ sent (wire port Offset.io_data) log ++ exhausted_message)
unfolding get_phys_block
get_phys_block-stopped m port console e log =
    let (log', run, out) =
      assert-StopsWith console (codes "ret != NULL") get_phys_block_site exhausted_message
        render-exhausted log in
    (
      log',
      ap
            (λ p.
              and_then
                (assert (not (p == null)) (codes "ret != NULL") get_phys_block_site (traffic m log))
                (λ _. take_frame p))
            e
          ∙ ap (λ r. and_then r (λ _. take_frame null)) run,
      out,
    )
