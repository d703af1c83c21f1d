-- ===== src/Tests/Ports.antt =====
-- Eight ports, the second of which works.
use flux_kernel.Prelude.{ℕ, ◌≡◌, refl, Bool, none, some, ◌==◌, if◌then◌else◌, arith, ap, List, All}
use flux_kernel.Machine.{Machine, ComPort, PortEvent}
use flux_kernel.Words.{u8}
use flux_kernel.Printk.Console.{IsPrompt-same}
use flux_kernel.Serial.{initial_com_ports}
use flux_kernel.Serial.Console.{IsPrompt, polled}
use flux_kernel.Serial.Search.{tested, first_working, IsAnswering}
use flux_kernel.Tests.Machines.{base}

abbrev pub works : ℕ → Bool
works b = b == 0x2f8

abbrev pub unset : Machine
unset = record base {
  com_ports = initial_com_ports;
  primary_com_port = none;
  device = λ log p. if p == 0x2fd then 0x20 else if p == 0x2f8 then 0xc4 else 0;
}

-- Any machine with this device and the patience of one poll.
module _ (m : Machine) (device : m.device ≡ unset.device)
    (patience : m.patience ≡ unset.patience) where
  second : ComPort
  second = record { io_port_base = 0x2f8; status = 0 }

  unset-IsPrompt : IsPrompt unset second
  unfolding polled second
  unset-IsPrompt = record { ready = refl; prompt = λ log. (0, omega arith, refl) }

  second-IsPrompt : IsPrompt m (tested m works (record { io_port_base = 0x2f8; status = 2 }))
  unfolding second
  second-IsPrompt = IsPrompt-same unset m second device patience unset-IsPrompt

  echo :
      (p : ℕ) (log : List PortEvent)
      → (u8 (m.device log p) == 0xc4) ≡ (u8 (unset.device log p) == 0xc4)
  echo p log = ap (λ d. u8 (d log p) == 0xc4) device

  pub ports-IsAnswering : All (IsAnswering m works) initial_com_ports
  ports-IsAnswering = (
    (λ log. echo 0x3f8 log, λ e. cc),
    (
      (λ log. echo 0x2f8 log, λ e. second-IsPrompt),
      (
        (λ log. echo 0x3e8 log, λ e. cc),
        (
          (λ log. echo 0x2e8 log, λ e. cc),
          (
            (λ log. echo 0x5f8 log, λ e. cc),
            (
              (λ log. echo 0x4f8 log, λ e. cc),
              ((λ log. echo 0x5e8 log, λ e. cc), ((λ log. echo 0x4e8 log, λ e. cc), tt)),
            ),
          ),
        ),
      ),
    ),
  )

second_chosen : first_working works 0 unset.com_ports ≡ some 1
unfolding first_working
second_chosen = refl
