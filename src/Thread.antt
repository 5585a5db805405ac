-- ===== src/Thread.antt =====
-- `vcpu_thread` of kvm-vmm-x86/src/main.c: KVM_RUN and `handle_vm_exit`, while the vCPU is
-- running. What KVM_RUN returns is a list of exits, `none` for a KVM_RUN that fails; the memory
-- that a debug exit reads is the guest's, taken as it is at that exit.
pub mod Laws
use mini_kvm.Base.{List, [], ◌∷◌, Option, none, some, Bool, true, false}
use mini_kvm.GuestMem.{Mem}
use mini_kvm.Machine.{Machine}
use mini_kvm.Hypercall.{Status, ok, failed}
use mini_kvm.Exit.{Exit, handle_vm_exit}

-- Why the loop ended, or that it waits for the next exit.
pub data Ended : Type 0 where
  stopped run_failed handler_failed waiting : Ended

abbrev pub Turn : Type 0
Turn = Option (Mem × Exit)

-- The reason, the state, and the exits that were not consumed.
pub vcpu_thread : Machine → List Turn → Ended × Machine × List Turn
vcpu_thread m [] = (elim m.ctx.running [ true ↦ waiting | false ↦ stopped ], m, [])
vcpu_thread m (none ∷ rest) = elim m.ctx.running [
  | true ↦ (run_failed, m, rest)
  | false ↦ (stopped, m, none ∷ rest)
]
vcpu_thread m (some (mem, exit) ∷ rest) =
    let outcome = handle_vm_exit mem m exit in
    let next = vcpu_thread outcome.2 rest in
    elim m.ctx.running [
      | true ↦ elim outcome.0 [ ok ↦ next | failed ↦ (handler_failed, outcome.2, rest) ]
      | false ↦ (stopped, m, some (mem, exit) ∷ rest)
    ]
