-- ===== src/Exit.antt =====
-- `handle_vm_exit` of kvm-vmm-x86/src/main.c: one exit of one vCPU. KVM supplies the exit and the
-- answers to KVM_GET_REGS and KVM_GET_SREGS. A refused KVM_SET_GUEST_DEBUG is passed over, as in
-- the source, which ignores the -1 here. Log lines are left out, and so is the safety limit
-- behind the `switch`: every case above it returns.
pub mod Laws
use mini_kvm.Base.{ℕ, ◌+◌, ◌-◌, ◌<◌, Bool, true, false, not, ◌&&◌, ◌||◌, List, [], ◌∷◌, ◌==◌, ltb}
use mini_kvm.Base.{if◌then◌else◌, Option, none, some, u64, replicate, drop, ◌++◌}
use mini_kvm.GuestMem.{Mem}
use mini_kvm.Machine.{Machine, Regs, LastStep, set_guest_singlestep}
use mini_kvm.Hypercall.{Status, ok, failed}
use mini_kvm.Io.{IoExit, handle_io}

-- The part of KVM_GET_SREGS that a debug exit records.
pub record StepSregs : Type 0 where
  pub cr0 : ℕ
  pub cs_base : ℕ
  pub cs_selector : ℕ
  pub es_base : ℕ
  pub es_selector : ℕ
  pub es_limit : ℕ
  pub idt_base : ℕ
  pub idt_limit : ℕ

pub record MmioExit : Type 0 where
  pub is_write : Bool
  pub len : ℕ
  pub bytes : List ℕ

-- KVM_EXIT_*, each with what the handler reads of it.
pub data Exit : Type 0 where
  hlt fail_entry irq_window_open intr internal_error shutdown : Exit
  io : IoExit → Option Regs → Exit
  debug : Option (Regs × StepSregs) → Exit
  mmio : MmioExit → Exit
  unknown : ℕ → Exit

abbrev pub is_debug : Exit → Bool
is_debug (debug answers) = true
is_debug _ = false

-- The status, the bytes handed back to the guest (of an IN or an MMIO read), and the new state.
abbrev pub Outcome : Type 0
Outcome = Status × List ℕ × Machine

abbrev pub enable_within_budget : Machine → Machine
enable_within_budget m =
    if ltb 0 m.ctx.singlestep_remaining then (set_guest_singlestep m true).1 else m

-- Single-stepping that was paused for a REP instruction resumes at the next other exit.
abbrev pub resume_stepping : Machine → Bool → Machine
resume_stepping m debug_exit =
    if m.ctx.singlestep_paused && not debug_exit
    then enable_within_budget (record m { ctx = record m.ctx { singlestep_paused = false } })
    else m

-- The four bytes at the instruction, or zeros where they do not all lie in the memory.
abbrev pub code_bytes : Mem → ℕ → ℕ → List ℕ
code_bytes mem mem_size linear =
    if ltb (u64 (linear + 3)) mem_size
    then mem linear ∷ mem (linear + 1) ∷ mem (linear + 2) ∷ mem (linear + 3) ∷ []
    else 0 ∷ 0 ∷ 0 ∷ 0 ∷ []

abbrev pub is_rep : List ℕ → Bool
is_rep [] = false
is_rep (b0 ∷ rest) = b0 == 0xF3 || b0 == 0xF2

abbrev pub record_step : Machine → Regs → StepSregs → List ℕ → Machine
record_step m regs sregs bytes = record m {
  ctx = record m.ctx {
    last = record {
      regs = regs;
      cr0 = sregs.cr0;
      cs = sregs.cs_selector;
      es = sregs.es_selector;
      es_base = sregs.es_base;
      es_limit = sregs.es_limit;
      idt_base = sregs.idt_base;
      idt_limit = sregs.idt_limit;
      bytes = bytes;
    };
  };
}

-- One unit of the budget is spent, and stepping ends with the last.
abbrev pub spend_step : Machine → Machine
spend_step m =
    let m' = record m {
      ctx = record m.ctx { singlestep_remaining = m.ctx.singlestep_remaining - 1 };
    } in
    if m'.ctx.singlestep_remaining == 0 then (set_guest_singlestep m' false).1 else m'

abbrev pub pause_stepping : Machine → Machine
pause_stepping m =
    (set_guest_singlestep (record m { ctx = record m.ctx { singlestep_paused = true } }) false).1

unfoldable pub handle_step : Mem → Machine → Option (Regs × StepSregs) → Machine
handle_step mem m none = spend_step m
handle_step mem m (some (regs, sregs)) =
    let bytes = code_bytes mem m.ctx.mem_size (u64 (sregs.cs_base + regs.rip)) in
    let m' = record_step m regs sregs bytes in
    if not m.ctx.singlestep_paused && is_rep bytes then pause_stepping m' else spend_step m'

-- KVM_EXIT_DEBUG
unfoldable pub handle_debug : Mem → Machine → Option (Regs × StepSregs) → Machine
handle_debug mem m answers =
    if ltb 0 m.ctx.singlestep_remaining
    then handle_step mem
        (record m { ctx = record m.ctx { singlestep_exits = m.ctx.singlestep_exits + 1 } }) answers
    else m

abbrev pub stop : Machine → Machine
stop m = record m { ctx = record m.ctx { running = false } }

unfoldable pub dispatch : Mem → Machine → Exit → Outcome
dispatch mem m hlt = (ok, [], stop m)
dispatch mem m (io request regs) = handle_io m request regs
dispatch mem m (debug answers) = (ok, [], handle_debug mem m answers)
dispatch mem m fail_entry = (failed, [], m)
dispatch mem m (mmio access) = (
  ok,
  if access.is_write then access.bytes else replicate access.len 0 ++ drop access.len access.bytes,
  m,
)
dispatch mem m irq_window_open = (ok, [], m)
dispatch mem m intr = (ok, [], m)
dispatch mem m internal_error = (failed, [], m)
dispatch mem m shutdown = (ok, [], stop m)
dispatch mem m (unknown reason) = (failed, [], m)

unfoldable pub handle_vm_exit : Mem → Machine → Exit → Outcome
handle_vm_exit mem m exit =
    let counted = record m { ctx = record m.ctx { exit_count = m.ctx.exit_count + 1 } } in
    dispatch mem (resume_stepping counted (is_debug exit)) exit
