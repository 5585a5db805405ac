-- ===== src/Io/Laws.antt =====
-- What port I/O may change: it keeps the keyboard buffer valid and the A20 gate open, and touches
-- neither the exit counter nor single-stepping.
use mini_kvm.Base.{ℕ, zero, suc, ◌+◌, ◌%◌, ◌≡◌, refl, ◌∙◌, arith, Bool, true, false, List}
use mini_kvm.Base.{
  Option, none, some, if◌then◌else◌, u8, u16, get_or, set, ◌==◌, ◌++◌, [], ◌∷◌, bit_and, not, ◌&&◌,
  leb,
}
use mini_kvm.Base.Bits.{bit, bit-or, and-low}
use mini_kvm.Keyboard.Refine.{IsValid, pop_refines}
use mini_kvm.Machine.{Machine, Devices, Regs, uart_char}
use mini_kvm.Machine.Trace.{stepping, stepping-uart_char, stepping-vcpu_char, stepping-irq_pulse}
use mini_kvm.Uart.{uart_write, uart_read}
use mini_kvm.Ports.{misc_port_out}
use mini_kvm.Hypercall.{ok, failed, handle_hypercall_out, handle_hypercall_in}
use mini_kvm.Io.{IoExit, out, inp, uart_write_bytes, uart_read_bytes, with_regs}
use mini_kvm.Io.{handle_io_out, handle_io_in, handle_io}

-- Bit 1 of port 0x92 is the A20 gate.
pub record IsSound (d : Devices) : Type 0 where
  pub keyboard_valid : IsValid d.keyboard
  pub a20_open : bit d.port92 1 ≡ 1

uart_write-IsSound :
    (d : Devices) (port byte : ℕ) (on : Bool)
    → IsSound d
    → IsSound (uart_write d port byte)
      × (stepping on (uart_write d port byte).events ≡ stepping on d.events)
unfolding uart_write
uart_write-IsSound d port byte on s = ground (
  arith,
  stepping-uart_char on byte d.events,
  stepping-irq_pulse on 4 d.events,
  stepping-irq_pulse on 4 (d.events ++ uart_char byte ∷ []),
)

uart_read-IsSound :
    (d : Devices) (port : ℕ)
    → IsSound d
    → IsSound (uart_read d port).1 × ((uart_read d port).1.events ≡ d.events)
unfolding uart_read
uart_read-IsSound d port s = ground (arith, pop_refines d.keyboard s.keyboard_valid)

misc_port_out-IsSound :
    (d : Devices) (port : ℕ) (bytes : List ℕ)
    → IsSound d
    → IsSound (misc_port_out d port bytes) × ((misc_port_out d port bytes).events ≡ d.events)
unfolding misc_port_out
misc_port_out-IsSound d port bytes s = ground (arith, bit-or 1 (u8 (get_or bytes 0 0)) 0x02)

write_bytes-IsSound :
    (n i : ℕ) (d : Devices) (port : ℕ) (bytes : List ℕ) (on : Bool)
    → IsSound d
    → IsSound (uart_write_bytes n i d port bytes)
      × (stepping on (uart_write_bytes n i d port bytes).events ≡ stepping on d.events)
unfolding uart_write_bytes
write_bytes-IsSound zero i d port bytes on s = (s, refl)
write_bytes-IsSound (suc n) i d port bytes on s =
    let (t, e) = uart_write-IsSound d (u16 (port + i)) (get_or bytes i 0) on s in
    let (u, f) = write_bytes-IsSound n (i + 1) _ port bytes on t in (u, f ∙ e)

read_bytes-IsSound :
    (n i : ℕ) (d : Devices) (port : ℕ) (bytes : List ℕ)
    → IsSound d
    → IsSound (uart_read_bytes n i d port bytes).1
      × ((uart_read_bytes n i d port bytes).1.events ≡ d.events)
unfolding uart_read_bytes
read_bytes-IsSound zero i d port bytes s = (s, refl)
read_bytes-IsSound (suc n) i d port bytes s =
    let (t, e) = uart_read-IsSound d (u16 (port + i)) s in
    let (u, f) = read_bytes-IsSound n (i + 1) _ port (set bytes i _) t in (u, f ∙ e)

-- What every I/O exit leaves alone.
pub record Keeps (on : Bool) (m m' : Machine) : Type 0 where
  pub sound : IsSound m'.devices
  pub exit_count : m'.ctx.exit_count ≡ m.ctx.exit_count
  pub remaining : m'.ctx.singlestep_remaining ≡ m.ctx.singlestep_remaining
  pub paused : m'.ctx.singlestep_paused ≡ m.ctx.singlestep_paused
  pub steps : stepping on m'.devices.events ≡ stepping on m.devices.events

hypercall_out-Keeps :
    (on : Bool) (m : Machine) (regs : Option Regs)
    → IsSound m.devices
    → Keeps on m (with_regs m regs).1
unfolding handle_hypercall_out
hypercall_out-Keeps on m none s = ground arith
hypercall_out-Keeps on m (some regs) s = ground (
  arith,
  pop_refines m.devices.keyboard s.keyboard_valid,
  stepping-vcpu_char on m.ctx.vcpu_id (bit_and regs.rbx 0xFF) m.devices.events,
)

handle_io_out-Keeps :
    (on : Bool) (m : Machine) (io : IoExit) (regs : Option Regs)
    → IsSound m.devices
    → Keeps on m (handle_io_out m io regs).1
unfolding handle_io_out
handle_io_out-Keeps on m io regs s = ground (
  arith,
  hypercall_out-Keeps on m regs s,
  write_bytes-IsSound io.size 0 m.devices io.port io.bytes on s,
  misc_port_out-IsSound m.devices io.port io.bytes s,
)

handle_io_in-Keeps :
    (on : Bool) (m : Machine) (io : IoExit) → IsSound m.devices → Keeps on m (handle_io_in m io).1
unfolding handle_io_in handle_hypercall_in
handle_io_in-Keeps on m io s =
    ground (arith, read_bytes-IsSound io.size 0 m.devices io.port io.bytes s)

-- An I/O exit, whatever the guest asks for, keeps the devices sound (the keyboard buffer valid and
-- the A20 gate open), and changes neither the exit counter nor the budget, the pause or KVM's
-- setting of single-stepping.
pub handle_io-Keeps :
    (on : Bool) (m : Machine) (io : IoExit) (regs : Option Regs)
    → IsSound m.devices
    → Keeps on m (handle_io m io regs).2
unfolding handle_io
handle_io-Keeps on m io regs s =
    ground (arith, handle_io_out-Keeps on m io regs s, handle_io_in-Keeps on m io s)

-- The request by which a hypercall guest asks to stop, and one that the VMM does not know.
abbrev pub al : Option Regs → Option ℕ
al none = none
al (some regs) = some (regs.rax % 256)

abbrev pub is_hypercall : Machine → IoExit → Bool
is_hypercall m io = elim io.direction [
  | out ↦ io.port == 0x500 && not m.ctx.linux_guest
  | inp ↦ false
]

abbrev pub asks_exit : Option ℕ → Bool
asks_exit none = false
asks_exit (some n) = n == 0

abbrev pub is_unknown : Option ℕ → Bool
is_unknown none = true
is_unknown (some n) = leb 3 n

-- An I/O exit fails exactly for a hypercall whose registers cannot be read or whose number is none
-- of 0, 1 and 2, and stops the vCPU exactly for hypercall 0. A Linux guest can do neither.
pub handle_io-stops :
    (m : Machine) (io : IoExit) (regs : Option Regs)
    → let (s, bytes, m') = handle_io m io regs in
      (s ≡ (if is_hypercall m io && is_unknown (al regs) then failed else ok))
      × (m'.ctx.running
          ≡ (if is_hypercall m io && asks_exit (al regs) then false else m.ctx.running))
unfolding handle_io handle_io_out handle_io_in handle_hypercall_out handle_hypercall_in
handle_io-stops m io none = ground arith
handle_io-stops m io (some regs) = ground (arith, and-low 8 regs.rax)
