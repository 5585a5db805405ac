-- ===== src/Tests/Devices.antt =====
-- A machine in the middle of a run: its keyboard, its UART, and the exits that it takes.
use mini_kvm.Base.{◌+◌, ◌≡◌, refl, arith, true, false}
use mini_kvm.Base.{some, List, [], ◌∷◌, ◌++◌, replicate}
use mini_kvm.Base.Int.{ℤ, pos}
use mini_kvm.GuestMem.{Mem}
use mini_kvm.Keyboard.{KeyboardBuffer}
use mini_kvm.Keyboard.Refine.{IsValid, contents}
use mini_kvm.Keyboard.Refine.{run, run_queue, run_refines, push, pop, has_data, Call}
use mini_kvm.Machine.{Machine, Vcpu, Devices, Uart16550, Regs, LastStep, irq_line}
use mini_kvm.Machine.{guest_debug}
use mini_kvm.Machine.Trace.{stepping}
use mini_kvm.Uart.{uart_write}
use mini_kvm.Uart.Transfer.{sent, uart_write-sent}
use mini_kvm.Hypercall.{ok, failed, handle_hypercall_out, handle_hypercall_in}
use mini_kvm.Hypercall.Getchar.{after_request, getchar_protocol}
use mini_kvm.Io.{IoExit, out, handle_io}
use mini_kvm.Io.Laws.{IsSound, handle_io-stops}
use mini_kvm.Exit.{hlt, io, debug, intr, handle_vm_exit, StepSregs}
use mini_kvm.Exit.Laws.{IsConsistent, handle_vm_exit-IsConsistent, handle_vm_exit-stops}
use mini_kvm.Thread.{vcpu_thread, Turn}
use mini_kvm.Thread.Laws.{Runs, EndsRight, unhandled, vcpu_thread_lem}

-- 'h', 'i' wait, round the end of the ring.
abbrev wrapped : KeyboardBuffer
wrapped = record { buffer = 105 ∷ replicate 254 0 ++ 104 ∷ []; head = 1; tail = 255 }

wrapped-IsValid : IsValid wrapped
wrapped-IsValid = record { storage = refl; head_in = omega arith; tail_in = omega arith }

contents-wrapped : contents wrapped ≡ 104 ∷ 105 ∷ []
contents-wrapped = refl

abbrev calls : List Call
calls = has_data ∷ pop ∷ push 33 ∷ pop ∷ pop ∷ pop ∷ has_data ∷ []

run_refines_example : run wrapped calls ≡ run_queue (104 ∷ 105 ∷ []) calls
run_refines_example = run_refines calls wrapped wrapped-IsValid

abbrev uart : Uart16550
uart = record { ier = 1; lcr = 3; mcr = 0; dll = 0; dlh = 0 }

abbrev console : Devices
console = record {
  keyboard = wrapped;
  uart0 = uart;
  cmos_index = 0;
  port92 = 2;
  linux_serial_input_enabled = true;
  events = guest_debug true ∷ [];
  accepts_debug = λ events. true;
}

uart_write-sent_example :
    ((uart_write console 0x3f9 2).events ≡ guest_debug true ∷ irq_line 4 1 ∷ irq_line 4 0 ∷ [])
    × ((uart_write console 0x3f9 2).keyboard ≡ wrapped)
unfolding sent
uart_write-sent_example = uart_write-sent console 0x3f9 2 (omega arith) (omega arith) (omega arith)

-- HC_GETCHAR in AL, the rest of RAX is ignored.
abbrev regs : Regs
regs = record {
  rip = 0x1000;
  rax = 0xab02;
  rbx = 0;
  rcx = 0;
  rsi = 0;
  rdi = 0;
  rsp = 0x7000;
  rflags = 2;
}

abbrev step : LastStep
step = record {
  regs = regs;
  cr0 = 0;
  cs = 0;
  es = 0;
  es_base = 0;
  es_limit = 0;
  idt_base = 0;
  idt_limit = 0;
  bytes = [];
}

abbrev vcpu : Vcpu
vcpu = record {
  vcpu_id = 0;
  mem_size = 0x400000;
  exit_count = 2000;
  running = true;
  use_paging = false;
  linux_guest = false;
  pending_getchar = false;
  getchar_result = pos 0;
  singlestep_remaining = 3;
  singlestep_paused = false;
  singlestep_exits = 7;
  last = step;
}

abbrev machine : Machine
machine = record { ctx = vcpu; devices = console }

machine-IsSound : IsSound console
machine-IsSound = record { keyboard_valid = wrapped-IsValid; a20_open = refl }

machine-IsConsistent : IsConsistent machine
unfolding stepping
machine-IsConsistent = record { sound = machine-IsSound; steps = refl }

getchar_protocol_example :
    let (s, asked) = handle_hypercall_out machine regs in
    let (byte, answered) = handle_hypercall_in asked in
    (s ≡ ok)
    × (byte ≡ 104)
    × (contents answered.devices.keyboard ≡ 105 ∷ [])
    × (ch : ℤ) × (keyboard : KeyboardBuffer) × (answered ≡ after_request machine ch keyboard)
getchar_protocol_example = getchar_protocol machine regs wrapped-IsValid refl

abbrev request : IoExit
request = record { direction = out; port = 0x500; size = 1; bytes = 0 ∷ [] }

-- AL = 3 is no hypercall.
handle_io-stops_example :
    let (s, bytes, m') = handle_io machine request (some (record regs { rax = 3 })) in
    (s ≡ failed) × (m'.ctx.running ≡ true)
handle_io-stops_example = handle_io-stops machine request (some (record regs { rax = 3 }))

abbrev zeros : Mem
zeros = λ x. 0

abbrev sregs : StepSregs
sregs = record {
  cr0 = 1;
  cs_base = 0;
  cs_selector = 8;
  es_base = 0;
  es_selector = 16;
  es_limit = 0xffff;
  idt_base = 0;
  idt_limit = 0;
}

handle_vm_exit-IsConsistent_example :
    IsConsistent (handle_vm_exit zeros machine (debug (some (regs, sregs)))).2
handle_vm_exit-IsConsistent_example =
    handle_vm_exit-IsConsistent zeros machine (debug (some (regs, sregs))) machine-IsConsistent

handle_vm_exit-stops_example :
    let (s, bytes, m') = handle_vm_exit zeros machine hlt in
    (s ≡ ok) × (m'.ctx.running ≡ false) × (m'.ctx.exit_count ≡ 2001)
handle_vm_exit-stops_example = handle_vm_exit-stops zeros machine hlt machine-IsConsistent

abbrev turns : List Turn
turns = some (zeros, intr) ∷ some (zeros, io request (some regs)) ∷ some (zeros, hlt) ∷ []

vcpu_thread_lem_example :
    let end = vcpu_thread machine turns in
    IsConsistent end.1
    × Runs machine turns end
    × EndsRight end
    × (end.1.ctx.exit_count + unhandled end ≡ 2003)
vcpu_thread_lem_example = vcpu_thread_lem turns machine machine-IsConsistent
