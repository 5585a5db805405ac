-- ===== src/Os1k/Syscall.antt =====
-- The system calls of the 1K OS (`handle_syscall` of kvm-vmm-x86/os-1k/kernel.c) on the process
-- table, the files, the disk and the memory of the process that calls. A slot of `files` is here
-- the whole of `struct file`: its array `data` with what stands behind the file's end. The lines
-- that are printed are left out, except for what the process itself puts out.
pub mod Stored
pub mod ReadBack
pub mod Exit
use mini_kvm.Base.{
  ℕ, ◌+◌, ◌-◌, ◌^◌, ltb, leb, ◌==◌, if◌then◌else◌, Bool, true, false, Option, none, some,
}
use mini_kvm.Base.{List, [], ◌∷◌, ◌++◌, map, get_or, set, u8, u32}
use mini_kvm.Base.Int.{ℤ, pos, negsuc}
use mini_kvm.GuestMem.{Mem, copy_in}
use mini_kvm.Os1k.Files.{File, bytes_at, string_at, fs_flush, fs_lookup}
use mini_kvm.Os1k.Sched.{Process, ProcState, exited, Kernel, proc_at, yield_cpu}

-- `struct file`
pub record Slot : Type 0 where
  pub in_use : Bool
  pub name : List ℕ
  pub data_bytes : Mem
  pub size : ℕ

-- A slot of the zeroed `files`.
abbrev pub free_slot : Slot
free_slot = record { in_use = false; name = []; data_bytes = λ x. 0; size = 0 }

abbrev pub file_of : Slot → File
file_of s = record { in_use = s.in_use; name = s.name; contents = bytes_at s.size s.data_bytes 0 }

-- `sizeof(file->data)`
abbrev pub data_size : ℕ
data_size = 1024

-- `user` is the memory of the calling process, apart from the kernel's own arrays; `out` is what
-- was put out by it. The source's array `disk` is the first `disk_size` bytes of this `disk`; what
-- lies behind them is only written when the files do not fit.
pub record Os : Type 0 where
  pub kernel : Kernel
  pub files : List Slot
  pub disk : Mem
  pub user : Mem
  pub out : List ℕ

-- `struct trap_frame`
pub record TrapFrame : Type 0 where
  pub eax : ℕ
  pub ebx : ℕ
  pub ecx : ℕ
  pub edx : ℕ

-- The call returns; or it waits for a key that does not come, gives the processor away for good,
-- ends in a PANIC, or copies 2GB or more, which no file or buffer has.
pub data Outcome : Type 0 where
  returns : Os → TrapFrame → Outcome
  waits panics faults : Outcome
  leaves : Os → Outcome

abbrev pub put_char : Os → ℕ → Os
put_char s ch = record s { out = s.out ++ u8 ch ∷ [] }

-- `while (1)`: what `getchar` gives each time it is called, and `others`, what the other processes
-- do between the `yield` and the time this process goes on.
unfoldable pub wait_char : (others : Os → Os) → List ℤ → Os → TrapFrame → Outcome
wait_char others [] s f = waits
wait_char others (pos ch ∷ polls) s f = returns s (record f { eax = u32 ch })
wait_char others (negsuc n ∷ polls) s f =
    wait_char others polls (others (record s { kernel = (yield_cpu s.kernel).0 })) f

-- `current_proc->state = PROC_EXITED`
abbrev pub exit_current : Kernel → Kernel
exit_current k = record k {
  procs = set k.procs k.current_proc (record (proc_at k.procs k.current_proc) { state = exited });
}

abbrev pub unless_returned : Os → Kernel × Option (ℕ × ℕ) → Outcome
unless_returned s (k, none) = panics
unless_returned s (k, some switch) = leaves (record s { kernel = k })

-- `switch_context` does not come back to a process that has ended.
unfoldable pub exit_process : Os → Outcome
exit_process s = unless_returned s (yield_cpu (exit_current s.kernel))

abbrev pub slot_at : List Slot → ℕ → Slot
slot_at files i = get_or files i free_slot

-- A file's name has at most 99 bytes, so that of a longer string is none; else `fs_lookup`.
abbrev pub lookup_name : List Slot → Option (List ℕ) → Option ℕ
lookup_name files none = none
lookup_name files (some filename) = fs_lookup (map file_of files) filename

unfoldable pub lookup_slot : List Slot → Mem → (filename : ℕ) → Option ℕ
lookup_slot files user filename = lookup_name files (string_at 100 user filename)

-- `len`, not negative, after the test against `sizeof(file->data)`.
abbrev pub transfer_size : (len size : ℕ) → ℕ
transfer_size len size = if ltb data_size len then size else len

-- SYS_WRITEFILE
unfoldable pub write_slot : Slot → Mem → (buf len : ℕ) → Slot
write_slot file user buf len = record file {
  data_bytes = copy_in file.data_bytes 0 (bytes_at len user buf);
  size = len;
}

abbrev pub write_transfer : Os → TrapFrame → (i len : ℕ) → Outcome
write_transfer s f i len =
    let files = set s.files i (write_slot (slot_at s.files i) s.user f.ecx len) in
    returns (record s { files = files; disk = fs_flush s.disk (map file_of files) })
      (record f { eax = len })

-- SYS_READFILE
abbrev pub read_transfer : Os → TrapFrame → (i len : ℕ) → Outcome
read_transfer s f i len =
    returns
      (record s { user = copy_in s.user f.ecx (bytes_at len (slot_at s.files i).data_bytes 0) })
      (record f { eax = len })

-- `file` is NULL, or the file that was found.
abbrev pub transfer : (writes : Bool) → Os → TrapFrame → Option ℕ → Outcome
transfer writes s f none = returns s (record f { eax = 2 ^ 32 - 1 })
transfer writes s f (some i) =
    let len = transfer_size f.edx (slot_at s.files i).size in
    if leb (2 ^ 31) f.edx
    then faults
    else if writes
    then write_transfer s f i len
    else read_transfer s f i len

unfoldable pub handle_syscall : (others : Os → Os) → (polls : List ℤ) → Os → TrapFrame → Outcome
unfolding wait_char exit_process lookup_slot write_slot
handle_syscall others polls s f =
    if f.eax == 1
    then returns (put_char s f.ebx) f
    else if f.eax == 2
    then wait_char others polls s f
    else if f.eax == 0
    then exit_process s
    else if f.eax == 3
    then transfer false s f (lookup_slot s.files s.user f.ebx)
    else if f.eax == 4
    then transfer true s f (lookup_slot s.files s.user f.ebx)
    else panics
