-- ===== src/Os1k/Sched.antt =====
-- The processes of the 1K OS and the scheduler (`struct process` of kvm-vmm-x86/os-1k/kernel.h and
-- `yield` of kernel.c). A pointer into `procs` is its index.
pub mod Fair
use mini_kvm.Base.{ℕ, zero, suc, ◌+◌, ◌%◌, ltb, ◌==◌, if◌then◌else◌, Bool, true, false, ◌&&◌}
use mini_kvm.Base.{Option, none, some, List, get_or}

pub data ProcState : Type 0 where
  unused runnable exited : ProcState

pub record Process : Type 0 where
  pub pid : ℕ
  pub state : ProcState
  pub sp : ℕ
  pub page_table : ℕ

-- PROCS_MAX
abbrev pub procs_max : ℕ
procs_max = 8

-- A slot of the zeroed `procs`.
abbrev pub empty_slot : Process
empty_slot = record { pid = 0; state = unused; sp = 0; page_table = 0 }

-- The process table, the pointers into it, and the page directory that the processor uses.
pub record Kernel : Type 0 where
  pub procs : List Process
  pub current_proc : ℕ
  pub idle_proc : ℕ
  pub cr3 : ℕ

abbrev pub proc_at : List Process → ℕ → Process
proc_at procs i = get_or procs i empty_slot

abbrev pub is_runnable : ProcState → Bool
is_runnable runnable = true
is_runnable unused = false
is_runnable exited = false

abbrev pub may_run : Process → Bool
may_run proc = is_runnable proc.state && ltb 0 proc.pid

-- The loop over `i`, with the rounds that are left.
unfoldable pub find_next : (procs : List Process) (pid rounds i : ℕ) → Option ℕ
find_next procs pid zero i = none
find_next procs pid (suc rounds) i =
    let slot = (pid + i) % procs_max in
    if may_run (proc_at procs slot) then some slot else find_next procs pid rounds (i + 1)

abbrev pub or_idle : ℕ → Option ℕ → ℕ
or_idle idle none = idle
or_idle idle (some slot) = slot

-- The state afterwards, and the two processes between which `switch_context` then switches.
unfoldable pub yield_cpu : Kernel → Kernel × Option (ℕ × ℕ)
unfolding find_next
yield_cpu k =
    let next =
      or_idle k.idle_proc (find_next k.procs (proc_at k.procs k.current_proc).pid procs_max 0) in
    if next == k.current_proc then (k, none) else (
      record k { current_proc = next; cr3 = (proc_at k.procs next).page_table },
      some (k.current_proc, next),
    )
