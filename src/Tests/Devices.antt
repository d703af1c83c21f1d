-- ===== src/Tests/Devices.antt =====
-- Ports, segments, gates, handlers and the task table at concrete values.
use flux_kernel.Prelude.{
  Bool, false, ℕ, ◌≡◌, refl, List, [], ◌∷◌, arith, get_elem?, replicate, some,
}
use flux_kernel.Machine.{Machine, ok}
use flux_kernel.Task.{Task, SchedState, default_regs_userspace}
use flux_kernel.Scheduler.{find_slot}
use flux_kernel.Scheduler.Slots.{Found, find_slot-Found}
use flux_kernel.Interrupts.{Isr, handle}
use flux_kernel.Structures.Segments.{init_segment_selector, segment_selector_rpl}
use flux_kernel.Structures.Segments.{segment_selector_table_index, segment_selector_index}
use flux_kernel.Structures.Gates.{init_idt_attributes, idt_attributes_ist, idt_attributes_type}
use flux_kernel.Structures.Gates.{
  idt_attributes_dpl, idt_attributes_present, IdtEntry, init_idt_entry,
}
use flux_kernel.Structures.Fields.{init_segment_selector-fields, init_idt_attributes-fields}
use flux_kernel.Structures.Fields.{gate_offset, gate_offset-init_idt_entry}
use flux_kernel.Prelude.{true, ◌++◌}
use flux_kernel.Machine.{PortEvent, stopped, ◌>>◌}
use flux_kernel.Serial.Console.{traffic, wire, sent}
use flux_kernel.Serial.Offset
use flux_kernel.Printk.Console.{IsConsole-same}
use flux_kernel.Interrupts.Reports.{report, handle-stopped}
use flux_kernel.Gdt.{gdt_init}
use flux_kernel.Idt.Delivery.{refused}
use flux_kernel.Idt.KernelGates.{expected}
use flux_kernel.Idt.Delivered.{Delivers, idt_init-Delivers}
use flux_kernel.Proc.{print_regs}
use flux_kernel.Proc.Registers.{rows, dump, print_regs-dump}
use flux_kernel.Tests.Console.{console}
use flux_kernel.Idt.{Layout, idt_init, initial_idt_table, no_entry}
use flux_kernel.Idt.Vectors.{isr_of, installed, idt_init-installed}
use flux_kernel.Serial.Setup.{Uart, IsSetUp, echoed, events, settings, com_port_setup-IsSetUp}
use flux_kernel.Tests.Machines.{base, port}

abbrev task : ℕ → Task
task present = record {
  present = present;
  state = SchedState.ready;
  elapsed_total = 0;
  elapsed_since_run = 0;
  regs = default_regs_userspace;
  pml4_table = 0;
  privilege_level = 3;
}

abbrev table : List Task
table = task 1 ∷ task 0 ∷ task 0 ∷ []

find_slot-Found_example : Found table 0 (find_slot table 0)
find_slot-Found_example = find_slot-Found table 0

second_slot : find_slot table 0 ≡ some 1
unfolding find_slot
second_slot = refl

handle-stopped_example :
    (log' : List PortEvent) × (handle Isr.gp 0x1a base ≡ stopped (traffic base log'))
    × (sent (wire port Offset.io_data) log' ≡ [] ++ report Isr.gp 0x1a)
unfolding sent
handle-stopped_example = handle-stopped console Isr.gp 0x1a []

print_regs-dump_example :
    (log : List PortEvent) × (print_regs default_regs_userspace base ≡ ok tt (traffic base log))
    × (sent (wire port Offset.io_data) log ≡ [] ++ dump (rows default_regs_userspace))
unfolding sent
print_regs-dump_example = print_regs-dump default_regs_userspace base port console

-- The selector of the user code segment.
init_segment_selector-fields_example :
    (segment_selector_rpl (init_segment_selector 3 0 3) ≡ 3)
    × (segment_selector_table_index (init_segment_selector 3 0 3) ≡ 0)
    × (segment_selector_index (init_segment_selector 3 0 3) ≡ 3)
init_segment_selector-fields_example =
    init_segment_selector-fields 3 0 3 (omega arith) (omega arith) (omega arith)

init_idt_attributes-fields_example :
    (idt_attributes_dpl (init_idt_attributes 3 0xe 1) ≡ 3)
    × (idt_attributes_type (init_idt_attributes 3 0xe 1) ≡ 0xe)
    × (idt_attributes_ist (init_idt_attributes 3 0xe 1) ≡ 1)
    × (idt_attributes_present (init_idt_attributes 3 0xe 1) ≡ 1)
init_idt_attributes-fields_example =
    init_idt_attributes-fields 3 0xe 1 (omega arith) (omega arith) (omega arith)

gate_offset-init_idt_entry_example :
    gate_offset (init_idt_entry 8 0x8e00 0xffff_ffff_8000_1234) ≡ 0xffff_ffff_8000_1234
gate_offset-init_idt_entry_example =
    gate_offset-init_idt_entry 8 0x8e00 0xffff_ffff_8000_1234 (omega arith)

abbrev layout : Layout
layout = record { idt_table_address = 0x5000; handler = λ isr. 0x6000 }

abbrev with_table : Machine
with_table = record base { idt_table = replicate 256 no_entry }

idt_init-installed_example :
    (entries : List IdtEntry) × (idt_init layout with_table
      ≡ ok tt (record with_table {
        idt_table = entries;
        idtr = record { idt_size = 4095; offset = 0x5000 };
      }))
    × ((vector : ℕ)
        → get_elem? entries vector
          ≡ installed layout (isr_of vector) (get_elem? with_table.idt_table vector))
idt_init-installed_example = idt_init-installed layout with_table refl

idt_init-Delivers_example :
    (m' : Machine) × ((gdt_init 0x7000 >> idt_init layout)
        (record base { idt_table = initial_idt_table })
      ≡ ok tt m')
    × Delivers layout 0x7000 m'
idt_init-Delivers_example =
    idt_init-Delivers layout 0x7000 (record base { idt_table = initial_idt_table }) port
      (IsConsole-same base _ port refl refl refl refl console) refl (λ isr. omega arith)

-- A user's system call does not get to its handler.
user_syscall : (stack : Bool) → expected layout stack true 3 (isr_of 0x32) ≡ refused
unfolding isr_of
user_syscall stack = refl

-- An exception of a module does not get to its handler without a task state segment.
user_exception : expected layout false false 3 (isr_of 0x0e) ≡ refused
unfolding isr_of
user_exception = refl

abbrev uart_at_reset : Uart
uart_at_reset = record {
  divisor_low = 0;
  divisor_high = 0;
  interrupts = 0;
  line = 0;
  modem = 0;
  transmitted = 0;
}

com_port_setup-IsSetUp_example :
    (m' : Machine) × IsSetUp base 0 3 port uart_at_reset
      (echoed base port (events port (settings 3) base.port_log))
      m'
com_port_setup-IsSetUp_example =
    com_port_setup-IsSetUp base 0 3 port uart_at_reset refl (omega arith) (omega arith)
