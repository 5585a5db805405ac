-- ===== src/Keyboard/Refine.antt =====
-- The ring holds a queue: its bytes from `tail` on, round to `head`.
use mini_kvm.Base.{ℕ, zero, suc, ◌+◌, ◌-◌, ◌%◌, ◌<◌, ◌≡◌, ◌≢◌, refl, ap, ap₂, ◌∙◌, arith}
use mini_kvm.Base.{List, [], ◌∷◌, ◌++◌, length, get_or, set, length-set}
use mini_kvm.Base.{map, Bool}
use mini_kvm.Base.Int.{ℤ}
use mini_kvm.Base.{get_or-set_self, get_or-set_ne, take, u8}
use mini_kvm.Keyboard.{KeyboardBuffer, buffer_size, keyboard_buffer_push, keyboard_buffer_pop}
use mini_kvm.Keyboard.{keyboard_buffer_has_data, push_all}
use mini_kvm.Keyboard.Queue
use mini_kvm.Keyboard.Queue.{Queue}

abbrev pub AllBytes : List ℕ → Type 0
AllBytes xs = (i : ℕ) → get_or xs i 0 < 256

pub record IsValid (kb : KeyboardBuffer) : Type 0 where
  pub storage : length kb.buffer ≡ buffer_size
  pub head_in : kb.head < buffer_size
  pub tail_in : kb.tail < buffer_size

-- The `n` bytes from index `p` on, going round.
abbrev pub window : List ℕ → ℕ → ℕ → Queue
window buf zero p = []
window buf (suc n) p = u8 (get_or buf p 0) ∷ window buf n ((p + 1) % buffer_size)

abbrev pub count : KeyboardBuffer → ℕ
count kb = (kb.head + buffer_size - kb.tail) % buffer_size

abbrev pub contents : KeyboardBuffer → Queue
contents kb = window kb.buffer (count kb) kb.tail

length-window : (buf : List ℕ) (n p : ℕ) → length (window buf n p) ≡ n
length-window buf zero p = refl
length-window buf (suc n) p = ap suc (length-window buf n ((p + 1) % buffer_size))

-- A write just past the window extends it by that byte.
window-set_end :
    (buf : List ℕ) (x n p i : ℕ)
    → length buf ≡ buffer_size
    → p < buffer_size
    → n < buffer_size
    → i ≡ (p + n) % buffer_size
    → window (set buf i x) (suc n) p ≡ window buf n p ++ (u8 x ∷ [])
window-set_end buf x zero p i hl hp hn e =
    ap (λ b. u8 b ∷ []) (rw at_start (get_or-set_self buf p x 0 (omega arith)))
  where
    at_start : i ≡ p
    at_start = omega arith
window-set_end buf x (suc n) p i hl hp hn e =
    ap₂ ◌∷◌ (ap u8 (get_or-set_ne buf x 0 (omega arith))) (
      window-set_end buf x n ((p + 1) % buffer_size) i hl (omega arith) (omega arith) (omega arith))

-- `window` matches on `suc`, the code compares `head` with `tail`.
window_of_pos :
    (buf : List ℕ) (n p : ℕ)
    → 0 < n
    → window buf n p ≡ u8 (get_or buf p 0) ∷ window buf (n - 1) ((p + 1) % buffer_size)
window_of_pos buf zero p h = elim h [ ]
window_of_pos buf (suc n) p h =
    ap (λ k. u8 (get_or buf p 0) ∷ window buf k ((p + 1) % buffer_size)) (omega arith)

-- Pushing keeps the ring valid, and adds the byte at the end of the queue, or drops it when 255
-- bytes wait.
pub push_refines :
    (kb : KeyboardBuffer) (ch : ℕ)
    → IsValid kb
    → IsValid (keyboard_buffer_push kb ch)
      × (contents (keyboard_buffer_push kb ch) ≡ Queue.push (contents kb) (u8 ch))
unfolding keyboard_buffer_push
push_refines kb ch v = ground (
  arith,
  length-set kb.buffer kb.head ch,
  length-window kb.buffer (count kb) kb.tail,
  window-set_end kb.buffer ch (count kb) kb.tail kb.head v.storage v.tail_in,
  count_step,
)
  where
    count_step :
        (kb.head + 1) % buffer_size ≢ kb.tail
        → ((kb.head + 1) % buffer_size + buffer_size - kb.tail) % buffer_size ≡ suc (count kb)
    count_step ne = omega arith

-- Popping keeps the ring valid, and takes the oldest byte, or answers -1 when none waits.
pub pop_refines :
    (kb : KeyboardBuffer)
    → IsValid kb
    → let (ch, kb') = keyboard_buffer_pop kb in
      IsValid kb' × ((ch, contents kb') ≡ Queue.pop (contents kb))
unfolding keyboard_buffer_pop
pop_refines kb v = ground (arith, window_of_pos kb.buffer (count kb) kb.tail)

pub has_data_refines :
    (kb : KeyboardBuffer) → IsValid kb → keyboard_buffer_has_data kb ≡ Queue.has_data (contents kb)
unfolding keyboard_buffer_has_data
has_data_refines kb v = ground (arith, window_of_pos kb.buffer (count kb) kb.tail)

push_all-push_list :
    (kb : KeyboardBuffer) (bytes : List ℕ)
    → IsValid kb
    → IsValid (push_all kb bytes)
      × (contents (push_all kb bytes) ≡ Queue.push_list (contents kb) (map u8 bytes))
unfolding push_all
push_all-push_list kb [] v = (v, refl)
push_all-push_list kb (ch ∷ rest) v =
    let (v', e) = push_refines kb ch v in
    let (w, d) = push_all-push_list (keyboard_buffer_push kb ch) rest v' in
    (w, d ∙ ap (λ q. Queue.push_list q (map u8 rest)) e)

-- What the stdin thread reads in one go is queued in order behind what waits, up to 255 bytes in
-- all; the rest is lost.
pub push_all_refines :
    (kb : KeyboardBuffer) (bytes : List ℕ)
    → IsValid kb
    → IsValid (push_all kb bytes)
      × (contents (push_all kb bytes)
          ≡ contents kb ++ take (Queue.capacity - length (contents kb)) (map u8 bytes))
push_all_refines kb bytes v =
    let (w, e) = push_all-push_list kb bytes v in
    (
      w,
      e
          ∙ Queue.push_list-take (contents kb) (map u8 bytes)
              (omega (arith, length-window kb.buffer (count kb) kb.tail)),
    )

-- A call of the buffer's interface, and what the caller sees of it.
pub data Call : Type 0 where
  push : ℕ → Call
  pop has_data : Call

pub data Reply : Type 0 where
  done : Reply
  char : ℤ → Reply
  waiting : Bool → Reply

pub run : KeyboardBuffer → List Call → List Reply
run kb [] = []
run kb (push ch ∷ calls) = done ∷ run (keyboard_buffer_push kb ch) calls
run kb (pop ∷ calls) = let (ch, kb') = keyboard_buffer_pop kb in char ch ∷ run kb' calls
run kb (has_data ∷ calls) = waiting (keyboard_buffer_has_data kb) ∷ run kb calls

pub run_queue : Queue → List Call → List Reply
run_queue q [] = []
run_queue q (push ch ∷ calls) = done ∷ run_queue (Queue.push q (u8 ch)) calls
run_queue q (pop ∷ calls) = let (ch, q') = Queue.pop q in char ch ∷ run_queue q' calls
run_queue q (has_data ∷ calls) = waiting (Queue.has_data q) ∷ run_queue q calls

-- Whatever the order in which the stdin thread and the vCPU threads call the buffer, a valid ring
-- answers every call as the queue of its contents does.
pub run_refines :
    (calls : List Call) (kb : KeyboardBuffer)
    → IsValid kb
    → run kb calls ≡ run_queue (contents kb) calls
unfolding run run_queue
run_refines [] kb v = refl
run_refines (push ch ∷ calls) kb v =
    let (v', e) = push_refines kb ch v in
    ap (λ r. done ∷ r)
      (run_refines calls (keyboard_buffer_push kb ch) v' ∙ ap (λ q. run_queue q calls) e)
run_refines (pop ∷ calls) kb v =
    let (v', e) = pop_refines kb v in
    ap₂ (λ c r. char c ∷ r) (ap (λ p. p.0) e)
      (run_refines calls (keyboard_buffer_pop kb).1 v' ∙ ap (λ p. run_queue p.1 calls) e)
run_refines (has_data ∷ calls) kb v =
    ap₂ (λ b r. waiting b ∷ r) (has_data_refines kb v) (run_refines calls kb v)
