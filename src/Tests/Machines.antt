-- ===== src/Tests/Machines.antt =====
-- A small machine: a console, a page table root, and three free frames.
use flux_kernel.Prelude.{true, ℕ, ◌==◌, if◌then◌else◌, some, codes, List, [], ◌∷◌}
use flux_kernel.Machine.{ComPort, Boot, Machine, MemmapEntry}
use flux_kernel.Serial.{com_port_status_ready}
use flux_kernel.Task.{default_regs_kernel}

abbrev pub port : ComPort
port = record { io_port_base = 0x3f8; status = com_port_status_ready }

-- An area of firmware, and two usable ones.
abbrev pub memmap : List MemmapEntry
memmap =
    record { base = 0; length = 0x1000; kind = 1 }
    ∷ record { base = 0x1000; length = 0x2000; kind = 0 }
    ∷ record { base = 0x8000; length = 0x1000; kind = 0 }
    ∷ []

abbrev pub boot : Boot
boot = record {
  memmap = some memmap;
  hhdm_given = true;
  address_given = true;
  hhdm_offset = 0xffff_8000_0000_0000;
  kernel_physical_base = 0x10_0000;
  flux_base_virt = 0xffff_ffff_8000_0000;
  modules = some (record { address = 0xffff_ffff_8010_0000; path = codes "/testprog.bin" } ∷ []);
}

-- The frames 0x2000, 0x3000 and 0x4000 are free.
abbrev pub memory : ℕ → ℕ
memory a = if a == 0x2000 then 0x3000 else if a == 0x3000 then 0x4000 else 0

abbrev pub base : Machine
base = record {
  memory = memory;
  first_page_frame = 0x2000;
  n_free_page_frames = 3;
  kernel_pml4_table = 0x1000;
  cr3 = 0;
  com_ports = port ∷ [];
  primary_com_port = some 0;
  port_log = [];
  device = λ log p. 0x20;
  patience = 1;
  idt_table = [];
  idtr = record { idt_size = 0; offset = 0 };
  gdtr = record { limit = 0; base = 0 };
  gdtr_register = record { limit = 0; base = 0 };
  segment_registers = record { cs = 0; ds = 0; es = 0; fs = 0; gs = 0; ss = 0 };
  tasks = [];
  current_task = 0;
  default_regs_kernel = default_regs_kernel;
  boot = boot;
}

abbrev pub empty : Machine
empty = record base { first_page_frame = 0; n_free_page_frames = 0 }
