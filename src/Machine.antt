-- ===== src/Machine.antt =====
-- What the kernel reads and writes: memory, its global variables, the I/O ports and the
-- answers of the boot loader; and programs over them.
--   memory       a 64-bit word at the address of its first byte. All modelled accesses are to
--                words at multiples of 8, and physical memory is mapped to itself, as it is until
--                `paging_init`.
--   device       what an `inb` of a port answers, after the port traffic so far (newest first)
--   gdtr         the global variable; `lgdt` copies it to gdtr_register
--   patience     how often a loop that waits for a device polls it before the model gives up
use flux_kernel.Prelude.{Bool, ℕ, Option, List, ◌==◌, if◌then◌else◌}
use flux_kernel.Prelude.{◌≡◌, ◌≢◌, arith}
use flux_kernel.Structures.Segments.{GdtrImage}
use flux_kernel.Structures.Gates.{IdtEntry, IdtDescriptor}
use flux_kernel.Task.{ProcessorRegs, Task}

-- `struct com_port`
pub record ComPort : Type 0 where
  pub io_port_base : ℕ
  pub status : ℕ

pub data PortEvent : Type 0 where
  wrote : (port val : ℕ) → PortEvent
  read : (port val : ℕ) → PortEvent

-- `struct limine_memmap_entry`
pub record MemmapEntry : Type 0 where
  pub base : ℕ
  pub length : ℕ
  pub kind : ℕ

-- `struct limine_file`: where a module was loaded, and its path.
pub record LimineFile : Type 0 where
  pub address : ℕ
  pub path : List ℕ

-- The boot loader's responses, and the linker's `__FLUX_BASE_VIRT`. `none` is a NULL response; of those
-- with the direct map's offset and the kernel's address, a Boolean says whether they are there.
pub record Boot : Type 0 where
  pub memmap : Option (List MemmapEntry)
  pub hhdm_given : Bool
  pub hhdm_offset : ℕ
  pub address_given : Bool
  pub kernel_physical_base : ℕ
  pub flux_base_virt : ℕ
  pub modules : Option (List LimineFile)

-- The segment registers that `reload_seg_registers` writes.
pub record SegmentRegisters : Type 0 where
  pub cs : ℕ
  pub ds : ℕ
  pub es : ℕ
  pub fs : ℕ
  pub gs : ℕ
  pub ss : ℕ

pub record Machine : Type 0 where
  pub memory : ℕ → ℕ
  pub first_page_frame : ℕ
  pub n_free_page_frames : ℕ
  pub kernel_pml4_table : ℕ
  pub cr3 : ℕ
  pub com_ports : List ComPort
  pub primary_com_port : Option ℕ
  pub port_log : List PortEvent
  pub device : List PortEvent → ℕ → ℕ
  pub patience : ℕ
  pub idt_table : List IdtEntry
  pub idtr : IdtDescriptor
  pub gdtr : GdtrImage
  pub gdtr_register : GdtrImage
  pub segment_registers : SegmentRegisters
  pub tasks : List Task
  pub current_task : ℕ
  pub default_regs_kernel : ProcessorRegs
  pub boot : Boot

-- `struct isr_frame`: what the processor pushes for an interrupt, and what `iretq` takes back.
pub record IsrFrame : Type 0 where
  pub ip : ℕ
  pub cs : ℕ
  pub flags : ℕ
  pub sp : ℕ
  pub ss : ℕ

-- How a piece of the kernel ends: it returns; it enters a deliberate endless loop; it does what
-- C leaves undefined; a device was not ready within the patience; or it left the kernel by `iretq`.
pub data Run {ℓ} (A : Type ℓ) : Type ℓ where
  ok : A → Machine → Run A
  stopped : Machine → Run A
  fault : Run A
  waiting : Run A
  entered : IsrFrame → Machine → Run A

abbrev pub Kernel {ℓ} : Type ℓ → Type ℓ
Kernel A = Machine → Run A

abbrev pub pure {ℓ} : {A : Type ℓ} → A → Kernel A
pure a m = ok a m

abbrev pub and_then {ℓ κ} : {A : Type ℓ} {B : Type κ} → Run A → (A → Kernel B) → Run B
and_then (ok a m) k = k a m
and_then (stopped m) k = stopped m
and_then fault k = fault
and_then waiting k = waiting
and_then (entered frame m) k = entered frame m

infixl 5 ◌>>=◌ ◌>>◌
abbrev pub ◌>>=◌ {ℓ κ} : {A : Type ℓ} {B : Type κ} → Kernel A → (A → Kernel B) → Kernel B
(p >>= k) m = and_then (p m) k

abbrev pub ◌>>◌ {ℓ κ} : {A : Type ℓ} {B : Type κ} → Kernel A → Kernel B → Kernel B
(p >> q) m = and_then (p m) (λ _. q)

-- `for (;;);`
abbrev pub loop_forever {ℓ} : {A : Type ℓ} → Kernel A
loop_forever m = stopped m

abbrev pub get : Kernel Machine
get m = ok m m

abbrev pub modify : (Machine → Machine) → Kernel (Unit {0})
modify f m = ok tt (f m)

-- Memory with one word changed.
unfoldable pub write : (ℕ → ℕ) → ℕ → ℕ → ℕ → ℕ
write mem a v b = if b == a then v else mem b

abbrev pub load : ℕ → Kernel ℕ
load a m = ok (m.memory a) m

abbrev pub store : ℕ → ℕ → Kernel (Unit {0})
store a v m = ok tt (record m { memory = write m.memory a v })

pub write_self : (mem : ℕ → ℕ) (a v : ℕ) → write mem a v a ≡ v
unfolding write
write_self mem a v = ground arith

pub write_ne : (mem : ℕ → ℕ) (a v b : ℕ) → b ≢ a → write mem a v b ≡ mem b
unfolding write
write_ne mem a v b h = ground arith
