-- ===== src/Serial/Offset.antt =====
-- The registers of a port (COM_PORT_OFFSET_ in kernel/arch/x64/serial.h), as offsets from its base.
use flux_kernel.Prelude.{ℕ}

abbrev pub int_id : ℕ
int_id = 2

abbrev pub line_ctrl : ℕ
line_ctrl = 3

abbrev pub modem_ctrl : ℕ
modem_ctrl = 4

abbrev pub line_stat : ℕ
line_stat = 5

abbrev pub io_data : ℕ
io_data = 0

abbrev pub int_enable : ℕ
int_enable = 1

abbrev pub baud_divisor_low : ℕ
baud_divisor_low = 0

abbrev pub baud_divisor_high : ℕ
baud_divisor_high = 1
