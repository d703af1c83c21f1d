-- ===== src/Tests/Lines.antt =====
-- A line that comes in through a port.
use flux_kernel.Prelude.{ℕ, ◌≡◌, length, arith, ◌==◌, if◌then◌else◌}
use flux_kernel.Machine.{Machine, waiting}
use flux_kernel.Serial.{com_port_status_broken, com_reads}
use flux_kernel.Serial.Line.{received, com_reads_unready}
use flux_kernel.Serial.Offset
use flux_kernel.Tests.Machines.{base, port}

-- "ok", and newlines.
abbrev typed : ℕ → ℕ
typed n = if n == 0 then b'o' else if n == 1 then b'k' else 10

abbrev terminal : Machine
terminal = record base {
  device = λ log p. if p == 0x3f8 then typed (length (received 0x3f8 log)) else 0x21;
}

com_reads_unready_example :
    com_reads 100 (record port { status = com_port_status_broken }) 10 base ≡ waiting
com_reads_unready_example =
    com_reads_unready (record port { status = com_port_status_broken }) 10 100 base
      (λ e. omega (arith, e)) (λ e. omega (arith, e))
