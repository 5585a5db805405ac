-- ===== src/Uart.antt =====
-- The 16550 UART at COM1 (`uart_write`, `uart_read` of kvm-vmm-x86/src/main.c). The argument is
-- the port of one byte; `offset` is its distance from 0x3f8, in `uint16_t`.
pub mod Laws
pub mod Transfer
use mini_kvm.Base.{ℕ, ◌+◌, ◌-◌, Bool, not, ◌&&◌, ◌==◌, leb, if◌then◌else◌, u8, u16, bit_and, bit_or}
use mini_kvm.Base.{[], ◌∷◌}
use mini_kvm.Base.Int.{ℤ, pos, negsuc}
use mini_kvm.Keyboard.{keyboard_buffer_pop, keyboard_buffer_has_data}
use mini_kvm.Machine.{Uart16550, Devices, uart_char, emit, pulse_irq_line}

pub is_uart_port : ℕ → Bool
is_uart_port port = leb 0x3f8 port && leb port 0x3ff

abbrev pub uart_offset : ℕ → ℕ
uart_offset port = u16 (port + 0x10000 - 0x3f8)

-- The divisor latch is selected by bit 7 of LCR.
abbrev pub dlab : Devices → Bool
dlab d = not (bit_and d.uart0.lcr 0x80 == 0)

-- THR empty is signalled at once where its interrupt is enabled.
abbrev pub signal_thr_empty : Devices → Devices
signal_thr_empty d =
    if d.linux_serial_input_enabled && not (bit_and d.uart0.ier 0x02 == 0)
    then pulse_irq_line d 4
    else d

unfoldable pub uart_write : Devices → ℕ → ℕ → Devices
uart_write d port byte =
    let offset = uart_offset port in
    let uart = d.uart0 in
    if offset == 0
    then if dlab d
      then record d { uart0 = record uart { dll = u8 byte } }
      else signal_thr_empty (emit d (uart_char byte ∷ []))
    else if offset == 1
    then if dlab d
      then record d { uart0 = record uart { dlh = u8 byte } }
      else signal_thr_empty (record d { uart0 = record uart { ier = u8 byte } })
    else if offset == 3
    then record d { uart0 = record uart { lcr = u8 byte } }
    else if offset == 4
    then record d { uart0 = record uart { mcr = u8 byte } }
    else d

-- The byte of RBR for the result of `keyboard_buffer_pop`.
abbrev pub received : ℤ → ℕ
received (pos ch) = u8 ch
received (negsuc n) = 0x00

abbrev pub read_rbr : Devices → ℕ × Devices
read_rbr d =
    let (ch, keyboard) = keyboard_buffer_pop d.keyboard in
    (received ch, record d { keyboard = keyboard })

-- The byte put into `data[0]`, beside the new state.
unfoldable pub uart_read : Devices → ℕ → ℕ × Devices
uart_read d port =
    let offset = uart_offset port in
    let uart = d.uart0 in
    let has_data = keyboard_buffer_has_data d.keyboard in
    if offset == 0
    then if dlab d then (uart.dll, d) else read_rbr d
    else if offset == 1
    then (if dlab d then uart.dlh else uart.ier, d)
    else if offset == 2
    then (
      if has_data && not (bit_and uart.ier 0x01 == 0)
          then 0x04
          else if not (bit_and uart.ier 0x02 == 0)
          then 0x02
          else 0x01,
      d,
    )
    else if offset == 3
    then (uart.lcr, d)
    else if offset == 4
    then (uart.mcr, d)
    else if offset == 5
    then (if has_data then bit_or 0x60 0x01 else 0x60, d)
    else (0x00, d)
