-- ===== src/Uart/Transfer.antt =====
-- The UART as a transmitter and a receiver.
use mini_kvm.Base.{ℕ, zero, suc, ◌≤◌, ◌<◌, ◌≡◌, refl, arith, u8, not, ◌&&◌}
use mini_kvm.Base.{false, List, [], ◌∷◌, ◌++◌, take, ◌==◌}
use mini_kvm.Base.{if◌then◌else◌, bit_and, append_assoc, append-nil, inl, inr, ◌⊎◌}
use mini_kvm.Base.Int.{pos}
use mini_kvm.Keyboard.Queue.{take-nil}
use mini_kvm.Keyboard.{KeyboardBuffer, keyboard_buffer_pop, keyboard_buffer_has_data}
use mini_kvm.Keyboard.Refine.{IsValid, contents, pop_refines, has_data_refines}
use mini_kvm.Machine.{Devices, Event, uart_char, irq_line}
use mini_kvm.Uart.{uart_write, uart_read, dlab}

abbrev pub com1_irq : List Event
com1_irq = irq_line 4 1 ∷ irq_line 4 0 ∷ []

-- What a write to the port sends out of the program.
unfoldable pub sent : Devices → ℕ → ℕ → List Event
sent d port byte =
    if port == 0x3f8 && not (dlab d)
    then uart_char byte
      ∷ (if d.linux_serial_input_enabled && not (bit_and d.uart0.ier 0x02 == 0)
          then com1_irq
          else [])
    else if port == 0x3f9 && not (dlab d)
    then if d.linux_serial_input_enabled && not (bit_and byte 0x02 == 0) then com1_irq else []
    else []

-- A write to a port of COM1 transmits exactly what it must: the byte for THR, and a pulse of IRQ 4
-- where the serial console is on and the transmitter's interrupt is, or becomes, enabled. It takes
-- no key.
pub uart_write-sent :
    (d : Devices) (port byte : ℕ)
    → 0x3f8 ≤ port
    → port ≤ 0x3ff
    → byte < 256
    → ((uart_write d port byte).events ≡ d.events ++ sent d port byte)
      × ((uart_write d port byte).keyboard ≡ d.keyboard)
unfolding uart_write sent
uart_write-sent d port byte lo hi small =
    ground (arith, append-nil d.events, append_assoc d.events (uart_char byte ∷ []) com1_irq)

-- A driver that polls LSR and takes a byte from RBR whenever Data Ready is set, `n` times.
pub poll : ℕ → Devices → List ℕ
poll zero d = []
poll (suc n) d =
    let later = poll n d in
    let (byte, d') = uart_read d 0x3f8 in
    let next = byte ∷ poll n d' in if bit_and (uart_read d 0x3fd).0 0x01 == 1 then next else later

data_ready :
    (d : Devices) → (bit_and (uart_read d 0x3fd).0 0x01 == 1) ≡ keyboard_buffer_has_data d.keyboard
unfolding uart_read
data_ready d = ground arith

pub list-cases : (q : List ℕ) → (q ≡ []) ⊎ ((ch : ℕ) × (rest : List ℕ) × (q ≡ ch ∷ rest))
list-cases [] = inl refl
list-cases (ch ∷ rest) = inr (ch, rest, refl)

pub pop-byte : (kb : KeyboardBuffer) (ch : ℕ) → (keyboard_buffer_pop kb).0 ≡ pos ch → u8 ch ≡ ch
unfolding keyboard_buffer_pop
pop-byte kb ch h = ground arith

-- With the divisor latch off and a valid ring in which bytes wait, one read of RBR gives the
-- oldest and takes it, and leaves the ring valid and the latch off.
pub read_rbr-oldest :
    (d : Devices) (ch : ℕ) (rest : List ℕ)
    → dlab d ≡ false
    → IsValid d.keyboard
    → contents d.keyboard ≡ ch ∷ rest
    → let (byte, d') = uart_read d 0x3f8 in
      (byte ≡ ch) × (contents d'.keyboard ≡ rest) × IsValid d'.keyboard × (dlab d' ≡ false)
unfolding uart_read
read_rbr-oldest d ch rest latch v e =
    ground (arith, pop_refines d.keyboard v, pop-byte d.keyboard ch)

-- With the divisor latch off and a valid ring, polling `n` times yields the first `n` bytes that wait, in order
-- and none of them twice, and nothing more once they are taken.
pub poll-contents :
    (n : ℕ) (d : Devices)
    → dlab d ≡ false
    → IsValid d.keyboard
    → poll n d ≡ take n (contents d.keyboard)
unfolding poll
poll-contents zero d latch v = refl
poll-contents (suc n) d latch v = elim (list-cases (contents d.keyboard)) [
  | inl e ↦
      ground
        (arith, data_ready d, has_data_refines d.keyboard v, poll-contents n d latch v, take-nil n)
  | inr (ch, rest, e) ↦ ground (
    arith,
    data_ready d,
    has_data_refines d.keyboard v,
    read_rbr-oldest d ch rest latch v e,
    poll-contents n (uart_read d 0x3f8).1,
  )
]
