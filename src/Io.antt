-- ===== src/Io.antt =====
-- The dispatch of a KVM_EXIT_IO (`is_uart_port`, `handle_io` of kvm-vmm-x86/src/main.c). KVM
-- supplies the request and, for a hypercall, the answer to KVM_GET_REGS; the bytes are those at
-- `data_offset` of the run structure.
pub mod Laws
use mini_kvm.Base.{ℕ, zero, suc, ◌+◌, Bool, List, ◌==◌, if◌then◌else◌, Option, none, some}
use mini_kvm.Base.{get_or, set, u16, replicate, take, drop, ◌++◌}
use mini_kvm.Machine.{Machine, Regs, Devices}
use mini_kvm.Uart.{is_uart_port, uart_write, uart_read}
use mini_kvm.Ports.{misc_port_out, misc_port_in}
use mini_kvm.Hypercall.{Status, ok, failed, handle_hypercall_out, handle_hypercall_in}

pub data Direction : Type 0 where
  out inp : Direction

pub record IoExit : Type 0 where
  pub direction : Direction
  pub port : ℕ
  pub size : ℕ
  pub bytes : List ℕ

-- HYPERCALL_PORT
abbrev pub hypercall_port : ℕ
hypercall_port = 0x500

-- `for (i = 0; i < size; i++) uart_write(port + i, &data[i])`, from index `i` on.
unfoldable pub uart_write_bytes : ℕ → ℕ → Devices → ℕ → List ℕ → Devices
uart_write_bytes zero i d port bytes = d
uart_write_bytes (suc n) i d port bytes =
    uart_write_bytes n (i + 1) (uart_write d (u16 (port + i)) (get_or bytes i 0)) port bytes

unfoldable pub uart_read_bytes : ℕ → ℕ → Devices → ℕ → List ℕ → List ℕ × Devices
uart_read_bytes zero i d port bytes = (bytes, d)
uart_read_bytes (suc n) i d port bytes =
    let (byte, d') = uart_read d (u16 (port + i)) in
    uart_read_bytes n (i + 1) d' port (set bytes i byte)

-- `none` is a KVM_GET_REGS that fails.
abbrev pub with_regs : Machine → Option Regs → Status × Machine
with_regs m none = (failed, m)
with_regs m (some regs) = handle_hypercall_out m regs

unfoldable pub handle_io_out : Machine → IoExit → Option Regs → Status × Machine
handle_io_out m io regs =
    if io.port == hypercall_port
    then if m.ctx.linux_guest then (ok, m) else with_regs m regs
    else if is_uart_port io.port
    then (ok, record m { devices = uart_write_bytes io.size 0 m.devices io.port io.bytes })
    else (ok, record m { devices = misc_port_out m.devices io.port io.bytes })

abbrev pub into_first : List ℕ → ℕ × Machine → List ℕ × Machine
into_first bytes (byte, m) = (set bytes 0 byte, m)

abbrev pub with_devices : Machine → List ℕ × Devices → List ℕ × Machine
with_devices m (bytes, d) = (bytes, record m { devices = d })

-- `memset` and `misc_port_in` write the first `size` bytes.
unfoldable pub handle_io_in : Machine → IoExit → List ℕ × Machine
handle_io_in m io =
    if io.port == hypercall_port
    then if m.ctx.linux_guest
      then (replicate io.size 0 ++ drop io.size io.bytes, m)
      else into_first io.bytes (handle_hypercall_in m)
    else if is_uart_port io.port
    then with_devices m (uart_read_bytes io.size 0 m.devices io.port io.bytes)
    else (misc_port_in m.devices io.port io.size ++ drop io.size io.bytes, m)

-- The status, the bytes that the guest's IN gets, and the new state.
unfoldable pub handle_io : Machine → IoExit → Option Regs → Status × List ℕ × Machine
handle_io m io regs = elim io.direction [
  | out ↦ let (s, m') = handle_io_out m io regs in (s, io.bytes, m')
  | inp ↦ let (bytes, m') = handle_io_in m io in (ok, bytes, m')
]
