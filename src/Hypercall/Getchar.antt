-- ===== src/Hypercall/Getchar.antt =====
-- The two-step protocol by which a guest reads a key: OUT with HC_GETCHAR, then IN.
use mini_kvm.Base.{ℕ, ◌%◌, ◌≡◌, arith, false, List, [], ◌∷◌}
use mini_kvm.Base.{inl, inr, refl, ◌∙◌}
use mini_kvm.Base.Int.{ℤ}
use mini_kvm.Keyboard.{KeyboardBuffer, keyboard_buffer_pop}
use mini_kvm.Base.Bits.{and-low}
use mini_kvm.Keyboard.Refine.{IsValid, contents, pop_refines}
use mini_kvm.Machine.{Machine, Regs}
use mini_kvm.Hypercall.{ok, request_char, handle_hypercall_out, handle_hypercall_in}
use mini_kvm.Uart.Transfer.{pop-byte, list-cases}

-- What a guest that reads a key sees of the queue of keys.
abbrev pub first_or_0xff : List ℕ → ℕ
first_or_0xff [] = 0xFF
first_or_0xff (ch ∷ rest) = ch

abbrev pub tail : List ℕ → List ℕ
tail [] = []
tail (ch ∷ rest) = rest

asks :
    (m : Machine) (regs : Regs)
    → regs.rax % 256 ≡ 2
    → handle_hypercall_out m regs ≡ (ok, request_char m)
unfolding handle_hypercall_out
asks m regs h = rw (and-low 8 regs.rax ∙ h) refl

gives :
    (m : Machine)
    → IsValid m.devices.keyboard
    → let (byte, answered) = handle_hypercall_in (request_char m) in
      (byte ≡ first_or_0xff (contents m.devices.keyboard))
      × (contents answered.devices.keyboard ≡ tail (contents m.devices.keyboard))
unfolding handle_hypercall_in
gives m v = elim (list-cases (contents m.devices.keyboard)) [
  | inl e ↦ ground (arith, pop_refines m.devices.keyboard v)
  | inr (ch, rest, e) ↦
      ground (arith, pop_refines m.devices.keyboard v, pop-byte m.devices.keyboard ch)
]

-- What the machine is after a request with result `ch` that left `keyboard`, and its answer.
abbrev pub after_request : Machine → ℤ → KeyboardBuffer → Machine
after_request m ch keyboard = record m {
  ctx = record m.ctx { getchar_result = ch; pending_getchar = false };
  devices = record m.devices { keyboard = keyboard };
}

-- Whatever is left from before, an OUT with AL = 2 followed by an IN gives the oldest key and takes
-- it, or gives 0xFF when none waits; nothing but the keyboard, the request's result and its pending
-- flag is changed in the machine, and the request is no longer pending.
pub getchar_protocol :
    (m : Machine) (regs : Regs)
    → IsValid m.devices.keyboard
    → regs.rax % 256 ≡ 2
    → let (s, asked) = handle_hypercall_out m regs in
      let (byte, answered) = handle_hypercall_in asked in
      (s ≡ ok)
      × (byte ≡ first_or_0xff (contents m.devices.keyboard))
      × (contents answered.devices.keyboard ≡ tail (contents m.devices.keyboard))
      × (ch : ℤ) × (keyboard : KeyboardBuffer) × (answered ≡ after_request m ch keyboard)
getchar_protocol m regs v h = rw (asks m regs h) (
  refl,
  (gives m v).0,
  (gives m v).1,
  (keyboard_buffer_pop m.devices.keyboard).0,
  (keyboard_buffer_pop m.devices.keyboard).1,
  unfold handle_hypercall_in in refl,
)
