-- ===== src/Os1k/Switch.antt =====
-- `switch_context` of kvm-vmm-x86/os-1k/kernel.c: the registers that it saves on the stack of one
-- process and takes from that of another. The stacks lie in kernel memory.
pub mod Resume
use mini_kvm.Base.{ℕ, ◌+◌, ◌-◌}
use mini_kvm.GuestMem.{Mem, store, load}
use mini_kvm.Os1k.Memory.{phys}

-- Where the processor goes on, its stack, and the registers that a callee saves.
pub record Regs : Type 0 where
  pub eip : ℕ
  pub esp : ℕ
  pub ebx : ℕ
  pub esi : ℕ
  pub edi : ℕ
  pub ebp : ℕ

-- The four pushes, on a stack whose top is the return address of the call.
unfoldable pub save : Mem → Regs → Mem
save m r =
    let m = store 4 m (phys (r.esp - 4)) r.ebx in
    let m = store 4 m (phys (r.esp - 8)) r.esi in
    let m = store 4 m (phys (r.esp - 12)) r.edi in store 4 m (phys (r.esp - 16)) r.ebp

-- The four pops and the `ret`.
unfoldable pub restore : Mem → (sp : ℕ) → Regs
restore m sp = record {
  ebp = load 4 m (phys sp);
  edi = load 4 m (phys (sp + 4));
  esi = load 4 m (phys (sp + 8));
  ebx = load 4 m (phys (sp + 12));
  eip = load 4 m (phys (sp + 16));
  esp = sp + 20;
}

-- The value for `*prev_sp`, memory, and the registers on the stack of `next_sp`.
unfoldable pub switch_context : Mem → Regs → (next_sp : ℕ) → ℕ × Mem × Regs
unfolding save restore
switch_context m r next_sp = (r.esp - 16, save m r, restore (save m r) next_sp)
