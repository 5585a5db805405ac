-- ===== src/Tests/Kernel.antt =====
-- The kernel of the 1K OS at concrete inputs: its start, a system call of each kind, the end of a
-- process, and switches between two stacks.
use mini_kvm.Base.{◌≤◌}
use mini_kvm.Os1k.Files.{disk_size}
use mini_kvm.Base.{ℕ, zero, suc, ◌+◌, ◌*◌, ◌<◌, ◌≡◌, ◌≢◌, refl, arith, true}
use mini_kvm.Base.{some, List, [], ◌∷◌, replicate, inl, ◌∙◌}
use mini_kvm.GuestMem.{Mem, load, copy_in}
use mini_kvm.GuestMem.Laws.{IsOutside, store-IsOutside}
use mini_kvm.Os1k.Boot.{Linked, Booted, kernel_main}
use mini_kvm.Os1k.Boot.Start.{IsLinked, IsBooted, kernel_main-IsBooted}
use mini_kvm.Os1k.Files.{bytes_at, string_at, fs_flush, fs_lookup, lookup_from}
use mini_kvm.Os1k.Files.Archive.{IsFile, space_of, fs_init-fs_flush}
use mini_kvm.Os1k.Memory.{Ram}
use mini_kvm.Os1k.Process.{Created, create_process}
use mini_kvm.Os1k.Process.Create.{IsCreated, create_process-IsCreated}
use mini_kvm.Os1k.Sched.{Process, empty_slot, runnable, exited, proc_at, may_run, procs_max}
use mini_kvm.Os1k.Sched.Fair.{IsTable, after}
use mini_kvm.Os1k.Switch.{Regs, save, switch_context}
use mini_kvm.Os1k.Switch.Resume.{IsRegs, switch_context-resumes, switch_context-first}
use mini_kvm.Os1k.Syscall.{Slot, Os, TrapFrame, file_of, returns, leaves, handle_syscall}
use mini_kvm.Os1k.Syscall.{exit_process, lookup_slot}
use mini_kvm.Os1k.Syscall.Stored.{IsStored, KeepsStored, handle_syscall-IsStored}
use mini_kvm.Os1k.Syscall.ReadBack.{handle_syscall-read_back}
use mini_kvm.Os1k.Syscall.Exit.{exit_process-leaves}
use mini_kvm.Os1k.Text.{strcmp}

-- The BSS from 64KB to 192KB holds the stacks; free memory begins
-- 8KB behind it.
abbrev linked : Linked
linked = record {
  bss = 0x80010000;
  bss_end = 0x80030000;
  free_ram = 0x80032000;
  free_ram_end = 0x803FF000;
  user_entry = 0x80001200;
  timer_interrupt_handler = 0x80001400;
  stack_end = λ i. 0x80010000 + (i + 1) * 8192;
}

linked-IsLinked : IsLinked linked
linked-IsLinked = record {
  code = omega arith;
  free = omega arith;
  aligned = refl;
  memory = omega arith;
  entry = omega arith;
  handler = omega arith;
  stack = λ i h. omega arith;
  stack_inside = λ i h. omega (arith, h);
}

abbrev shell_image : List ℕ
shell_image = 0xB8 ∷ 0x2A ∷ 0xC3 ∷ []

kernel_main-IsBooted_example :
    (b : Booted) × (kernel_main linked shell_image (λ a. 0xCC) ≡ some b)
    × IsBooted linked shell_image b
kernel_main-IsBooted_example =
    kernel_main-IsBooted linked shell_image (λ a. 0xCC) linked-IsLinked (omega arith) (omega arith)
      (inl (omega arith))

-- The idle process, one that has ended, and two that may run, the first of them now.
abbrev procs : List Process
procs =
    record { pid = 0; state = runnable; sp = 0; page_table = 0x00200000 }
    ∷ record { pid = 2; state = exited; sp = 0; page_table = 0x00210000 }
    ∷ record { pid = 3; state = runnable; sp = 0; page_table = 0x00220000 }
    ∷ record { pid = 4; state = runnable; sp = 0; page_table = 0x00230000 }
    ∷ []

procs-IsTable : IsTable procs
procs-IsTable zero h run = cc
procs-IsTable (suc zero) h run = cc
procs-IsTable (suc (suc zero)) h run = refl
procs-IsTable (suc (suc (suc zero))) h run = refl
procs-IsTable (suc (suc (suc (suc i)))) h run = cc

-- A file "a" with "hi" in it.
abbrev slot : Slot
slot = record {
  in_use = true;
  name = 97 ∷ [];
  data_bytes = copy_in (λ x. 0) 0 (104 ∷ 105 ∷ []);
  size = 2;
}

abbrev slots : List Slot
slots = slot ∷ []

-- The process has the file's name at 16, and 7, 8, 9 at 32.
abbrev user : Mem
user = copy_in (copy_in (λ x. 0) 16 (97 ∷ [])) 32 (7 ∷ 8 ∷ 9 ∷ [])

abbrev os : Os
os = record {
  kernel = record { procs = procs; current_proc = 2; idle_proc = 0; cr3 = 0x00220000 };
  files = slots;
  disk = fs_flush (λ x. 0xEE) (file_of slot ∷ []);
  user = user;
  out = [];
}

slot-IsFile : IsFile (file_of slot)
unfolding bytes_at
slot-IsFile = record {
  name = omega arith;
  named = omega arith;
  short = omega arith;
  small = omega arith;
}

slot-fits : space_of (file_of slot ∷ []) ≤ disk_size
unfolding bytes_at
slot-fits = omega arith

os-IsStored : IsStored os
os-IsStored = record {
  slots = (record { file = λ e. slot-IsFile; small = omega arith }, tt);
  few = omega arith;
  fits = slot-fits;
  disk = fs_init-fs_flush (λ x. 0xEE) (file_of slot ∷ []) (slot-IsFile, tt) (omega arith) slot-fits;
}

abbrev writes : TrapFrame
writes = record { eax = 4; ebx = 16; ecx = 32; edx = 3 }

abbrev reads : TrapFrame
reads = record { eax = 3; ebx = 16; ecx = 48; edx = 2 }

found : lookup_slot slots user 16 ≡ some 0
unfolding lookup_slot string_at fs_lookup lookup_from strcmp copy_in
found = refl

handle_syscall-IsStored_example : KeepsStored (handle_syscall (λ s. s) [] os writes)
handle_syscall-IsStored_example =
    handle_syscall-IsStored (λ s. s) [] os writes (λ s h. h) os-IsStored

handle_syscall-read_back_example :
    (s' s'' : Os) × (handle_syscall (λ s. s) [] os writes ≡ returns s' (record writes { eax = 3 }))
    × (handle_syscall (λ s. s) [] s' reads ≡ returns s'' (record reads { eax = 2 }))
    × ((x : ℕ) → x < 2 → s''.user (48 + x) ≡ user (32 + x))
    × ((x : ℕ) → IsOutside 48 2 x → s''.user x ≡ user x)
handle_syscall-read_back_example =
    handle_syscall-read_back (λ s. s) [] [] os writes reads 0 refl refl refl found (omega arith)
      (omega arith)

exit_process-leaves_example :
    (s' : Os) × (exit_process os ≡ leaves s')
    × (s'.kernel.current_proc ≢ 2)
    × ((n : ℕ) → (after (suc n) s'.kernel).current_proc ≢ 2)
    × ((t : ℕ)
        → t < procs_max
        → t ≢ 2
        → may_run (proc_at procs t) ≡ true
        → (n : ℕ) × (n < procs_max) × ((after (suc n) s'.kernel).current_proc ≡ t))
exit_process-leaves_example = exit_process-leaves os (omega arith) procs-IsTable (λ e. omega arith)

abbrev caller : Regs
caller = record { eip = 0x80001000; esp = 0x80012000; ebx = 1; esi = 2; edi = 3; ebp = 0x80012040 }

caller-IsRegs : IsRegs caller
caller-IsRegs = record {
  ebx = omega arith;
  esi = omega arith;
  edi = omega arith;
  ebp = omega arith;
  esp = omega arith;
}

-- Another process, with its stack elsewhere.
abbrev other : Regs
other = record caller { esp = 0x80014000; ebx = 7; esi = 8; edi = 9; ebp = 0x80014040 }

other-elsewhere : (m : Mem) (x : ℕ) → IsOutside 0x13FF0 16 x → save m other x ≡ m x
unfolding save
other-elsewhere m x h =
    store-IsOutside 4 _ 0x13FF0 0x80014040 x (omega (arith, h))
    ∙ store-IsOutside 4 _ 0x13FF4 9 x (omega (arith, h))
    ∙ store-IsOutside 4 _ 0x13FF8 8 x (omega (arith, h))
    ∙ store-IsOutside 4 m 0x13FFC 7 x (omega (arith, h))

-- The caller is left for the stack at 0x80016000, and a later switch of the other process chooses
-- it.
switch_context-resumes_example :
    (switch_context (save (λ x. 5) caller) other 0x80011FF0).2
    ≡ record caller { eip = load 4 (λ x. 5) 0x12000; esp = 0x80012004 }
unfolding switch_context
switch_context-resumes_example =
    switch_context-resumes (λ x. 5) (save (λ x. 5) caller) caller other 0x80016000 caller-IsRegs
      (λ x p q. other-elsewhere (save (λ x. 5) caller) x (inl (omega (arith, q))))

abbrev free_ram : Ram
free_ram = record { mem = λ a. 0xCC; next_paddr = 0x80200000 }

abbrev procs_free : List Process
procs_free = replicate 8 empty_slot

abbrev new_process :
    (c : Created) × (create_process 0x80400000 0x80001200
        (λ i. 0x80012000)
        procs_free
        shell_image
        free_ram
      ≡ some c)
    × IsCreated 0x80001200 0x80011FEC shell_image procs_free free_ram c
new_process =
    create_process-IsCreated 0x80400000 0x80001200 (λ i. 0x80012000) procs_free shell_image free_ram
      0 (omega arith) refl (omega arith) refl (omega arith) (omega arith) (omega arith)
      (omega arith)

switch_context-first_example :
    let (_, _, running) = switch_context new_process.0.ram.mem other 0x80011FEC in
    (running.eip ≡ 0) × (running.ebp ≡ 0x80001200)
switch_context-first_example =
    switch_context-first 0x80001200 0x80011FEC shell_image procs_free free_ram new_process.0
      new_process.0.ram.mem other new_process.2 (omega arith) (omega arith)
      (λ x p q. other-elsewhere new_process.0.ram.mem x (inl (omega (arith, q))))
