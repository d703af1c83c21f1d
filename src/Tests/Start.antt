-- ===== src/Tests/Start.antt =====
-- The start of the kernel on the machine at boot.
use flux_kernel.Prelude.{none}
use flux_kernel.Machine.{Machine}
use flux_kernel.Idt.{initial_idt_table}
use flux_kernel.Scheduler.{initial_tasks}
use flux_kernel.Tests.Booted.{booted}
use flux_kernel.Serial.{initial_com_ports}
use flux_kernel.Tests.Ports.{unset}

abbrev loaded : Machine
loaded = record booted { idt_table = initial_idt_table; tasks = initial_tasks }

-- The same machine with eight ports.
abbrev ported : Machine
ported = record loaded {
  com_ports = initial_com_ports;
  primary_com_port = none;
  device = unset.device;
}
