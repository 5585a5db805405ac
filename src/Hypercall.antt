-- ===== src/Hypercall.antt =====
-- Hypercalls through port 0x500 (`handle_hypercall_out`, `handle_hypercall_in` of
-- kvm-vmm-x86/src/main.c).
pub mod Getchar
use mini_kvm.Base.{ℕ, ◌-◌, ◌%◌, ◌==◌, Bool, true, false, if◌then◌else◌, bit_and, u8}
use mini_kvm.Base.Int.{ℤ, pos, negsuc, is_minus_one}
use mini_kvm.Keyboard.{keyboard_buffer_pop}
use mini_kvm.Machine.{Machine, Regs, vcpu_putchar}

-- The `int` result of a handler: 0 and -1.
pub data Status : Type 0 where
  ok failed : Status

-- HC_EXIT, HC_PUTCHAR, HC_GETCHAR
abbrev pub hc_exit : ℕ
hc_exit = 0x00

abbrev pub hc_putchar : ℕ
hc_putchar = 0x01

abbrev pub hc_getchar : ℕ
hc_getchar = 0x02

abbrev pub request_char : Machine → Machine
request_char m =
    let (ch, keyboard) = keyboard_buffer_pop m.devices.keyboard in
    record m {
      ctx = record m.ctx { getchar_result = ch; pending_getchar = true };
      devices = record m.devices { keyboard = keyboard };
    }

unfoldable pub handle_hypercall_out : Machine → Regs → Status × Machine
handle_hypercall_out m regs =
    let hc_num = bit_and regs.rax 0xFF in
    if hc_num == hc_exit
    then (ok, record m { ctx = record m.ctx { running = false } })
    else if hc_num == hc_putchar
    then (ok, vcpu_putchar m (bit_and regs.rbx 0xFF))
    else if hc_num == hc_getchar
    then (ok, request_char m)
    else (failed, m)

-- `(unsigned char)` of an `int`.
abbrev pub low_byte : ℤ → ℕ
low_byte (pos n) = u8 n
low_byte (negsuc n) = 255 - n % 256

-- The byte put into `data[0]`, beside the new state.
unfoldable pub handle_hypercall_in : Machine → ℕ × Machine
handle_hypercall_in m =
    if m.ctx.pending_getchar
    then (
      if is_minus_one m.ctx.getchar_result then 0xFF else low_byte m.ctx.getchar_result,
      record m { ctx = record m.ctx { pending_getchar = false } },
    )
    else (0, m)
