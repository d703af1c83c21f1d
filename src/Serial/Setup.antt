-- ===== src/Serial/Setup.antt =====
-- `com_port_setup` against the registers of a 16550 UART: what the set-up leaves in them, its
-- result, and the status of the port.
use flux_kernel.Prelude.{
  ℕ, ◌+◌, ◌-◌, ◌*◌, ◌/◌, ◌%◌, ◌^◌, ◌<◌, ◌≡◌, refl, Bool, true, false, some, List, [], ◌∷◌,
}
use flux_kernel.Prelude.{
  get_elem?, set, All, ◌==◌, if◌then◌else◌, Bool-cases, inl, inr, arith, ap, sym, subst, ◌∙◌,
  bit_and,
}
use flux_kernel.Bits.{◌>>>◌, bit_and_mask}
use flux_kernel.Words.{u8, u16}
use flux_kernel.Machine.{ComPort, PortEvent, wrote, read, Machine, ok}
use flux_kernel.Serial.{com_port_setup, com_port_program, inb, outb, set_status, set_line_ctrl}
use flux_kernel.Serial.{com_port_status_ready, com_port_status_broken}
use flux_kernel.Serial.Offset
use flux_kernel.Serial.Console.{wire, traffic}

-- The registers that can be written. While bit 7 of the line control register is set, the first
-- two addresses are the divisor latch.
pub record Uart : Type 0 where
  pub divisor_low : ℕ
  pub divisor_high : ℕ
  pub interrupts : ℕ
  pub line : ℕ
  pub modem : ℕ
  pub transmitted : ℕ

abbrev pub latch_open : Uart → Bool
latch_open u = u.line / 128 % 2 == 1

-- A write of `val` at an offset from the base address.
abbrev pub set_register : ℕ → ℕ → Uart → Uart
set_register offset val u =
    if offset == 0
    then (if latch_open u then record u { divisor_low = val } else record u { transmitted = val })
    else if offset == 1
    then (if latch_open u then record u { divisor_high = val } else record u { interrupts = val })
    else if offset == 3
    then record u { line = val }
    else if offset == 4
    then record u { modem = val }
    else u

-- The registers of the UART at `base` after the traffic, from their contents `u` before it.
unfoldable pub uart : ℕ → Uart → List PortEvent → Uart
uart base u [] = u
uart base u (wrote address val ∷ log) =
    set_register ((address + (2 ^ 16 - base)) % 2 ^ 16) val (uart base u log)
uart base u (read address val ∷ log) = uart base u log

module _ (port : ComPort) (small : port.io_port_base < 2 ^ 16) where
  abbrev at_base : Uart → List PortEvent → Uart
  at_base u log = uart port.io_port_base u log

  uart-wrote :
      (offset val : ℕ) (u : Uart) (log : List PortEvent)
      → offset < 8
      → at_base u (wrote (wire port offset) val ∷ log) ≡ set_register offset val (at_base u log)
  unfolding uart
  uart-wrote offset val u log h =
      let at : (u16 (port.io_port_base + offset) + (2 ^ 16 - port.io_port_base)) % 2 ^ 16 ≡ offset =
        omega arith in
      ap (λ o. set_register o val (at_base u log)) at

-- Values written to registers, the newest first: as traffic, and to a UART.
abbrev pub Settings : Type 0
Settings = List (ℕ × ℕ)

abbrev pub events : ComPort → Settings → List PortEvent → List PortEvent
events port [] log = log
events port ((offset, val) ∷ ws) log = wrote (wire port offset) val ∷ events port ws log

abbrev apply : Settings → Uart → Uart
apply [] u = u
apply ((offset, val) ∷ ws) u = set_register offset val (apply ws u)

uart-events :
    (port : ComPort) (ws : Settings) (u : Uart) (log : List PortEvent)
    → port.io_port_base < 2 ^ 16
    → All (λ w. w.0 < 8) ws
    → uart port.io_port_base u (events port ws log) ≡ apply ws (uart port.io_port_base u log)
uart-events port [] u log small h = refl
uart-events port ((offset, val) ∷ ws) u log small (lt, h) =
    uart-wrote port small offset val u (events port ws log) lt
    ∙ ap (set_register offset val) (uart-events port ws u log small h)

abbrev pub settings : ℕ → Settings
settings divisor =
    (Offset.io_data, 0xc4)
    ∷ (Offset.modem_ctrl, 0x1e)
    ∷ (Offset.modem_ctrl, 0x0b)
    ∷ (Offset.int_id, 0xc7)
    ∷ (Offset.line_ctrl, 0x03)
    ∷ (Offset.baud_divisor_high, u8 (bit_and (divisor >>> 8) 0xff))
    ∷ (Offset.baud_divisor_low, u8 (bit_and divisor 0xff))
    ∷ (Offset.line_ctrl, 0x80)
    ∷ (Offset.int_enable, 0x00)
    ∷ []

com_port_program_run :
    (port : ComPort) (divisor : ℕ) (m : Machine)
    → com_port_program port divisor m
      ≡ ok tt (traffic m (events port (settings divisor) m.port_log))
unfolding com_port_program outb set_line_ctrl
com_port_program_run port divisor m = refl

-- The registers are those of a set-up with this divisor: 8 bits, no parity, one stop bit.
pub record IsProgrammed (u : Uart) (divisor modem : ℕ) : Type 0 where
  pub latch : u.divisor_high * 256 + u.divisor_low ≡ divisor
  pub line_control : u.line ≡ 0x03
  pub modem_control : u.modem ≡ modem
  pub test_byte : u.transmitted ≡ 0xc4

apply-settings :
    (divisor : ℕ) (u : Uart)
    → divisor < 2 ^ 16
    → IsProgrammed (apply (settings divisor) u) divisor 0x1e
apply-settings divisor u h = elim (Bool-cases (latch_open u)) [
  | inl e ↦ rw e (record {
    latch = omega (arith, bit_and_mask 8 divisor, bit_and_mask 8 (divisor / 2 ^ 8));
    line_control = refl;
    modem_control = refl;
    test_byte = refl;
  })
  | inr e ↦ rw e (record {
    latch = omega (arith, bit_and_mask 8 divisor, bit_and_mask 8 (divisor / 2 ^ 8));
    line_control = refl;
    modem_control = refl;
    test_byte = refl;
  })
]

settings-small : (divisor : ℕ) → All (λ w. w.0 < 8) (settings divisor)
settings-small divisor = ground arith

-- The byte that the port answers the test byte with, after the traffic `log`.
abbrev pub echoed : Machine → ComPort → List PortEvent → Bool
echoed m port log = u8 (m.device log (wire port Offset.io_data)) == 0xc4

-- The status and the contents of the modem control register after the test.
abbrev pub status_of : Bool → ℕ
status_of works = if works then com_port_status_ready else com_port_status_broken

abbrev pub modem_of : Bool → ℕ
modem_of works = if works then 0x0f else 0x1e

pub record IsSetUp (m : Machine) (i divisor : ℕ) (port : ComPort) (u : Uart) (works : Bool)
    (m' : Machine) : Type 0 where
  pub runs : com_port_setup i divisor m ≡ ok works m'
  pub status : m'.com_ports ≡ set m.com_ports i (record port { status = status_of works })
  pub registers : IsProgrammed (uart port.io_port_base u m'.port_log) divisor (modem_of works)

-- The machine after the set-up.
abbrev pub answered : Machine → ComPort → List PortEvent → List PortEvent
answered m port log =
    read (wire port Offset.io_data) (u8 (m.device log (wire port Offset.io_data))) ∷ log

abbrev pub finished : Machine → ℕ → ComPort → List PortEvent → Bool → Machine
finished m i port log works = record m {
  port_log =
      if works
      then wrote (wire port Offset.modem_ctrl) 0x0f ∷ answered m port log
      else answered m port log;
  com_ports = set m.com_ports i (record port { status = status_of works });
}

pub com_port_setup_run :
    (m : Machine) (i divisor : ℕ) (port : ComPort) (works : Bool)
    → get_elem? m.com_ports i ≡ some port
    → echoed m port (events port (settings divisor) m.port_log) ≡ works
    → com_port_setup i divisor m
      ≡ ok works (finished m i port (events port (settings divisor) m.port_log) works)
unfolding com_port_setup com_port_program inb outb set_status set_line_ctrl
com_port_setup_run m i divisor port true found e = ground arith
com_port_setup_run m i divisor port false found e = ground arith

finished-registers :
    (m : Machine) (i divisor : ℕ) (port : ComPort) (u : Uart) (log : List PortEvent) (works : Bool)
    → port.io_port_base < 2 ^ 16
    → IsProgrammed (uart port.io_port_base u log) divisor 0x1e
    → IsProgrammed
        (uart port.io_port_base u (finished m i port log works).port_log)
        divisor
        (modem_of works)
finished-registers m i divisor port u log false small p = unfold uart in p
finished-registers m i divisor port u log true small p =
    subst (λ z. IsProgrammed z divisor 0x0f)
      (sym (uart-wrote port small Offset.modem_ctrl 0x0f u (answered m port log) (omega arith)))
      (unfold uart in
        record {
          latch = p.latch;
          line_control = p.line_control;
          modem_control = refl;
          test_byte = p.test_byte;
        })

-- `com_port_setup` of an existing port, with a 16-bit base address and divisor, returns; then a
-- 16550 has the divisor in its latch, 8 data bits, no parity and one stop bit, and was sent the test
-- byte; the result says whether the device echoed the test byte, the port's status is ready if it
-- did and broken if not, and the modem control register leaves the loopback mode exactly if it did.
pub com_port_setup-IsSetUp :
    (m : Machine) (i divisor : ℕ) (port : ComPort) (u : Uart)
    → get_elem? m.com_ports i ≡ some port
    → port.io_port_base < 2 ^ 16
    → divisor < 2 ^ 16
    → (m' : Machine) × IsSetUp m i divisor port u
        (echoed m port (events port (settings divisor) m.port_log))
        m'
com_port_setup-IsSetUp m i divisor port u found small h =
    let log = events port (settings divisor) m.port_log in
    let works = echoed m port log in
    let programmed =
      subst (λ z. IsProgrammed z divisor 0x1e)
        (sym (uart-events port (settings divisor) u m.port_log small (settings-small divisor)))
        (apply-settings divisor (uart port.io_port_base u m.port_log) h) in
    (
      finished m i port log works,
      record {
        runs = com_port_setup_run m i divisor port works found refl;
        status = refl;
        registers = finished-registers m i divisor port u log works small programmed;
      },
    )
