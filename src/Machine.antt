-- ===== src/Machine.antt =====
-- What the run-time handlers of kvm-vmm-x86/src/main.c read and write: the context of one vCPU
-- (the fields of `vcpu_context_t` that they use), the device state that all vCPUs share, and the
-- effects that leave the program, in order. The `int` counters are counted without wrap-around;
-- they are compared with 0 only.
pub mod Trace
use mini_kvm.Base.{ℕ, Bool, true, false, List, [], ◌∷◌, ◌++◌, if◌then◌else◌}
use mini_kvm.Base.Int.{ℤ}
use mini_kvm.Keyboard.{KeyboardBuffer}

-- The registers that the handlers read.
pub record Regs : Type 0 where
  pub rip : ℕ
  pub rax : ℕ
  pub rbx : ℕ
  pub rcx : ℕ
  pub rsi : ℕ
  pub rdi : ℕ
  pub rsp : ℕ
  pub rflags : ℕ

-- The fields `last_*` of the context.
pub record LastStep : Type 0 where
  pub regs : Regs
  pub cr0 : ℕ
  pub cs : ℕ
  pub es : ℕ
  pub es_base : ℕ
  pub es_limit : ℕ
  pub idt_base : ℕ
  pub idt_limit : ℕ
  pub bytes : List ℕ

pub record Vcpu : Type 0 where
  pub vcpu_id : ℕ
  pub mem_size : ℕ
  pub exit_count : ℕ
  pub running : Bool
  pub use_paging : Bool
  pub linux_guest : Bool
  pub pending_getchar : Bool
  pub getchar_result : ℤ
  pub singlestep_remaining : ℕ
  pub singlestep_paused : Bool
  pub singlestep_exits : ℕ
  pub last : LastStep

-- `uart16550_t`
pub record Uart16550 : Type 0 where
  pub ier : ℕ
  pub lcr : ℕ
  pub mcr : ℕ
  pub dll : ℕ
  pub dlh : ℕ

-- A byte of guest output from the UART or from a vCPU's hypercall, a KVM_IRQ_LINE request, and a
-- KVM_SET_GUEST_DEBUG request that enables or disables single-stepping.
pub data Event : Type 0 where
  uart_char : ℕ → Event
  vcpu_char : ℕ → ℕ → Event
  irq_line : ℕ → ℕ → Event
  guest_debug : Bool → Event

-- `accepts_debug` is not state of the program: it is what KVM answers to KVM_SET_GUEST_DEBUG, by the
-- events before it.
pub record Devices : Type 0 where
  pub keyboard : KeyboardBuffer
  pub uart0 : Uart16550
  pub cmos_index : ℕ
  pub port92 : ℕ
  pub linux_serial_input_enabled : Bool
  pub events : List Event
  pub accepts_debug : List Event → Bool

pub record Machine : Type 0 where
  pub ctx : Vcpu
  pub devices : Devices

abbrev pub emit : Devices → List Event → Devices
emit d new = record d { events = d.events ++ new }

-- `pulse_irq_line`, with the VM's descriptor open.
abbrev pub pulse_irq_line : Devices → ℕ → Devices
pulse_irq_line d irq = emit d (irq_line irq 1 ∷ irq_line irq 0 ∷ [])

-- Whether the request succeeds, and the state; what it asks for is an event also if KVM refuses it.
abbrev pub set_guest_singlestep : Machine → Bool → Bool × Machine
set_guest_singlestep m enable = (
  m.devices.accepts_debug m.devices.events,
  record m { devices = emit m.devices (guest_debug enable ∷ []) },
)

-- `vcpu_putchar`; the colour codes around the byte depend on the vCPU only.
abbrev pub vcpu_putchar : Machine → ℕ → Machine
vcpu_putchar m ch = record m { devices = emit m.devices (vcpu_char m.ctx.vcpu_id ch ∷ []) }
