-- ===== src/Serial.antt =====
-- kernel/arch/x64/io.h and the port driver of kernel/arch/x64/serial.c, serial.h.
-- `serial_init` prints, and stands in Serial/Init.
pub mod Offset
pub mod Console
pub mod Line
pub mod Setup
pub mod Init
pub mod Search
pub mod Chosen
use Offset
use flux_kernel.Prelude.{ℕ, zero, suc, ◌+◌, ◌-◌, ◌^◌, Bool, Option, none, some, List, [], ◌∷◌, not}
use flux_kernel.Prelude.{◌==◌, if◌then◌else◌, get_elem?, set, bit_and, bit_or}
use flux_kernel.Bits.{◌<<<◌, ◌>>>◌}
use flux_kernel.Words.{u8, u16}
use flux_kernel.Machine.{ComPort, PortEvent, wrote, read, Machine, Run, ok, fault, waiting, Kernel}
use flux_kernel.Machine.{pure, ◌>>=◌, ◌>>◌, get, and_then}

-- `inb` and `outb`: one transfer on the bus.
unfoldable pub inb : ℕ → Kernel ℕ
inb port m =
    let val = u8 (m.device m.port_log (u16 port)) in
    ok val (record m { port_log = read (u16 port) val ∷ m.port_log })

unfoldable pub outb : ℕ → ℕ → Kernel (Unit {0})
outb port val m = ok tt (record m { port_log = wrote (u16 port) (u8 val) ∷ m.port_log })

-- The status of a port.
abbrev pub com_port_status_ready : ℕ
com_port_status_ready = 0

abbrev pub com_port_status_broken : ℕ
com_port_status_broken = 1

abbrev pub com_port_status_busy : ℕ
com_port_status_busy = 2

abbrev pub line_stat_dr : ℕ
line_stat_dr = 0x01

abbrev pub line_stat_thre : ℕ
line_stat_thre = 0x20

abbrev pub stop_bits_1 : ℕ
stop_bits_1 = 0

abbrev pub parity_none : ℕ
parity_none = 0

-- `char_len - 5` is taken at lengths from 5 on.
unfoldable pub set_line_ctrl : ℕ → ℕ → ℕ → ℕ
set_line_ctrl char_len stop parity =
    bit_or (bit_or (bit_and (char_len - 5) 0x3) (stop <<< 2)) (parity <<< 3)

abbrev pub init_com_port : ℕ → ComPort
init_com_port base = record { io_port_base = base; status = com_port_status_busy }

-- The initial value of the global `com_ports`.
abbrev pub initial_com_ports : List ComPort
initial_com_ports =
    init_com_port 0x3f8
    ∷ init_com_port 0x2f8
    ∷ init_com_port 0x3e8
    ∷ init_com_port 0x2e8
    ∷ init_com_port 0x5f8
    ∷ init_com_port 0x4f8
    ∷ init_com_port 0x5e8
    ∷ init_com_port 0x4e8
    ∷ []

-- A register of a port. `inb` and `outb` take the sum as a 16-bit number.
abbrev pub register : ComPort → ℕ → ℕ
register port offset = port.io_port_base + offset

-- `port->status = status` for the port at index `i` of `com_ports`.
unfoldable pub set_status : ℕ → ℕ → Kernel (Unit {0})
set_status i status m = elim (get_elem? m.com_ports i) [
  | none ↦ fault
  | some port ↦ ok tt (record m { com_ports = set m.com_ports i (record port { status = status }) })
]

-- The writes of `com_port_setup` before it reads the test byte back.
unfoldable pub com_port_program : ComPort → ℕ → Kernel (Unit {0})
unfolding outb set_line_ctrl
com_port_program port divisor = do
  outb (register port Offset.int_enable) 0x00
  outb (register port Offset.line_ctrl) 0x80
  outb (register port Offset.baud_divisor_low) (bit_and divisor 0xff)
  outb (register port Offset.baud_divisor_high) (bit_and (divisor >>> 8) 0xff)
  outb (register port Offset.line_ctrl) (set_line_ctrl 8 stop_bits_1 parity_none)
  outb (register port Offset.int_id) 0xc7
  outb (register port Offset.modem_ctrl) 0x0b
  outb (register port Offset.modem_ctrl) 0x1e
  outb (register port Offset.io_data) 0xc4

-- `com_port_setup` of `&com_ports[i]`. The result is `true` for 0 and `false` for -1.
unfoldable pub com_port_setup : ℕ → ℕ → Kernel Bool
unfolding inb outb set_status com_port_program
com_port_setup i divisor = do
  m ← get
  elim (get_elem? m.com_ports i) [
    | none ↦ λ _. fault
    | some port ↦ do
      com_port_program port divisor
      answer ← inb (register port Offset.io_data)
      if not (answer == 0xc4)
          then (do set_status i com_port_status_broken; pure Bool.false)
          else (do
            set_status i com_port_status_ready
            outb (register port Offset.modem_ctrl) 0x0f
            pure Bool.true)
  ]

unfoldable pub can_send : ComPort → Kernel ℕ
unfolding inb
can_send port = do stat ← inb (register port Offset.line_stat); pure (bit_and stat line_stat_thre)

unfoldable pub can_read : ComPort → Kernel ℕ
unfolding inb
can_read port = do stat ← inb (register port Offset.line_stat); pure (bit_and stat line_stat_dr)

-- `while (!ready);`
unfoldable pub wait_until : ℕ → Kernel ℕ → Kernel (Unit {0})
wait_until zero ready m = waiting
wait_until (suc polls) ready m =
    and_then (ready m)
      λ r m'. elim (r == 0) [ Bool.true ↦ wait_until polls ready m' | Bool.false ↦ ok tt m' ]

unfoldable pub com_send : ComPort → ℕ → Kernel (Unit {0})
unfolding outb can_send wait_until
com_send port c =
    if port.status == com_port_status_ready
    then (do m ← get; wait_until m.patience (can_send port); outb (register port Offset.io_data) c)
    else pure tt

unfoldable pub com_sends : ComPort → List ℕ → Kernel (Unit {0})
unfolding com_send
com_sends port [] = pure tt
com_sends port (c ∷ s) = com_send port c >> com_sends port s

unfoldable pub com_read : ComPort → Kernel ℕ
unfolding inb can_read wait_until
com_read port =
    if port.status == com_port_status_ready
    then (do m ← get; wait_until m.patience (can_read port); inb (register port Offset.io_data))
    else pure 0

-- The characters that `com_reads` puts in its buffer, for at most `rounds` characters. The
-- delimiter is read and not stored; the caller's buffer holds what is read.
unfoldable pub com_reads : ℕ → ComPort → ℕ → Kernel (List ℕ)
unfolding com_read
com_reads zero port delim = λ _. waiting
com_reads (suc rounds) port delim = do
  c ← com_read port
  elim (c == delim) [
    | Bool.true ↦ pure []
    | Bool.false ↦ do rest ← com_reads rounds port delim; pure (c ∷ rest)
  ]
