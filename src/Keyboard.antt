-- ===== src/Keyboard.antt =====
-- The keyboard buffer of kvm-vmm-x86/src/main.c: a ring of 256 `char`, filled by the stdin
-- thread and emptied by the vCPU threads. Each function holds the buffer's mutex from its first
-- access to its last, so a call is one step. A `char` is its byte, 0 to 255.
pub mod Queue
pub mod Refine
use mini_kvm.Base.{ℕ, ◌+◌, ◌%◌, Bool, not, List, [], ◌∷◌, ◌==◌, if◌then◌else◌, get_or, set, u8}
use mini_kvm.Base.Int.{ℤ, pos, negsuc}

pub record KeyboardBuffer : Type 0 where
  pub buffer : List ℕ
  pub head : ℕ
  pub tail : ℕ

-- KEYBOARD_BUFFER_SIZE
abbrev pub buffer_size : ℕ
buffer_size = 256

unfoldable pub keyboard_buffer_push : KeyboardBuffer → ℕ → KeyboardBuffer
keyboard_buffer_push kb ch =
    let next_head = (kb.head + 1) % buffer_size in
    if next_head == kb.tail
    then kb
    else record kb { buffer = set kb.buffer kb.head ch; head = next_head }

-- -1 for an empty buffer, else the byte as an `unsigned char`.
unfoldable pub keyboard_buffer_pop : KeyboardBuffer → ℤ × KeyboardBuffer
keyboard_buffer_pop kb =
    if kb.head == kb.tail
    then (negsuc 0, kb)
    else (pos (u8 (get_or kb.buffer kb.tail 0)), record kb { tail = (kb.tail + 1) % buffer_size })

unfoldable pub keyboard_buffer_has_data : KeyboardBuffer → Bool
keyboard_buffer_has_data kb = not (kb.head == kb.tail)

-- The loop of `stdin_monitor_thread_func` over the bytes that one `read` gave.
unfoldable pub push_all : KeyboardBuffer → List ℕ → KeyboardBuffer
push_all kb [] = kb
push_all kb (ch ∷ rest) = push_all (keyboard_buffer_push kb ch) rest
