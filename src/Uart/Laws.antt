-- ===== src/Uart/Laws.antt =====
-- The UART as a file of five registers, a transmitter and a receiver.
use mini_kvm.Base.{ℕ, ◌≤◌, ◌<◌, ◌≡◌, arith}
use mini_kvm.Base.{Bool, true, false, Option, none, some, ◌==◌}
use mini_kvm.Base.{if◌then◌else◌}
use mini_kvm.Machine.{Uart16550, Devices}
use mini_kvm.Uart.{uart_write, uart_read, dlab}

-- The registers of the data sheet that keep what is written.
pub data Register : Type 0 where
  ier lcr mcr dll dlh : Register

abbrev pub value : Uart16550 → Register → ℕ
value u ier = u.ier
value u lcr = u.lcr
value u mcr = u.mcr
value u dll = u.dll
value u dlh = u.dlh

-- The register that a port selects under a divisor latch bit.
unfoldable pub selected : Bool → ℕ → Option Register
selected latch port =
    if port == 0x3f8
    then if latch then some dll else none
    else if port == 0x3f9
    then if latch then some dlh else some ier
    else if port == 0x3fb
    then some lcr
    else if port == 0x3fc
    then some mcr
    else none

abbrev pub is_register : Register → Register → Bool
is_register ier ier = true
is_register lcr lcr = true
is_register mcr mcr = true
is_register dll dll = true
is_register dlh dlh = true
is_register _ _ = false

abbrev pub hits : Option Register → Register → Bool
hits none r = false
hits (some s) r = is_register s r

-- A write to a port of COM1 sets the register that the port selects, and no other.
pub uart_write-value :
    (d : Devices) (port byte : ℕ) (r : Register)
    → 0x3f8 ≤ port
    → port ≤ 0x3ff
    → byte < 256
    → value (uart_write d port byte).uart0 r
      ≡ (if hits (selected (dlab d) port) r then byte else value d.uart0 r)
unfolding uart_write selected
uart_write-value d port byte ier lo hi small = ground arith
uart_write-value d port byte lcr lo hi small = ground arith
uart_write-value d port byte mcr lo hi small = ground arith
uart_write-value d port byte dll lo hi small = ground arith
uart_write-value d port byte dlh lo hi small = ground arith

-- A read of a port that selects a register gives its value and changes nothing.
pub uart_read-value :
    (d : Devices) (port : ℕ) (r : Register)
    → selected (dlab d) port ≡ some r
    → uart_read d port ≡ (value d.uart0 r, d)
unfolding uart_read selected
uart_read-value d port r h = ground arith
