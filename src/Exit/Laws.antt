-- ===== src/Exit/Laws.antt =====
-- The invariant of a running vCPU, and when an exit ends it.
use mini_kvm.Base.{◌+◌, ◌<◌, ◌≡◌, refl, arith, Bool, true, false, not, ◌&&◌}
use mini_kvm.Base.{Option, none, some, if◌then◌else◌, ltb}
use mini_kvm.GuestMem.{Mem}
use mini_kvm.Machine.{Machine, Regs}
use mini_kvm.Machine.Trace.{stepping, stepping-debug}
use mini_kvm.Hypercall.{ok, failed}
use mini_kvm.Io.Laws.{IsSound, handle_io-Keeps, handle_io-stops, is_hypercall, is_unknown}
use mini_kvm.Io.Laws.{asks_exit, al}
use mini_kvm.Exit.{Exit, hlt, fail_entry, internal_error, shutdown, io, debug}
use mini_kvm.Exit.{unknown, StepSregs, handle_step, handle_debug, handle_vm_exit, dispatch}
use mini_kvm.Exit.{resume_stepping, is_debug}

-- KVM is to single-step the guest exactly while budget is left and no REP instruction is let through.
abbrev pub wants_stepping : Machine → Bool
wants_stepping m = ltb 0 m.ctx.singlestep_remaining && not m.ctx.singlestep_paused

pub record IsConsistent (m : Machine) : Type 0 where
  pub sound : IsSound m.devices
  pub steps : stepping false m.devices.events ≡ wants_stepping m

handle_step-IsConsistent :
    (mem : Mem) (m : Machine) (answers : Option (Regs × StepSregs))
    → 0 < m.ctx.singlestep_remaining
    → IsConsistent m
    → IsConsistent (handle_step mem m answers)
unfolding handle_step
handle_step-IsConsistent mem m none pos c =
    ground (arith, stepping-debug false false m.devices.events)
handle_step-IsConsistent mem m (some (regs, sregs)) pos c =
    ground (arith, stepping-debug false false m.devices.events)

handle_debug-IsConsistent :
    (mem : Mem) (m : Machine) (answers : Option (Regs × StepSregs))
    → IsConsistent m
    → IsConsistent (handle_debug mem m answers)
unfolding handle_debug
handle_debug-IsConsistent mem m answers c = ground (
  arith,
  handle_step-IsConsistent mem
      (record m { ctx = record m.ctx { singlestep_exits = m.ctx.singlestep_exits + 1 } }) answers,
)

resume-IsConsistent :
    (m : Machine) (debug_exit : Bool) → IsConsistent m → IsConsistent (resume_stepping m debug_exit)
resume-IsConsistent m debug_exit c = ground (arith, stepping-debug false true m.devices.events)

dispatch-IsConsistent :
    (mem : Mem) (m : Machine) (exit : Exit) → IsConsistent m → IsConsistent (dispatch mem m exit).2
unfolding dispatch
dispatch-IsConsistent mem m (io request regs) c =
    ground (arith, handle_io-Keeps false m request regs c.sound)
dispatch-IsConsistent mem m (debug answers) c = handle_debug-IsConsistent mem m answers c
dispatch-IsConsistent mem m _ c = ground arith

-- Every exit, whatever it is and whatever KVM answers, keeps the keyboard buffer valid, the A20
-- gate open, and the last single-step setting that KVM was asked for in step with the budget and
-- the pause; whether KVM took it is not looked at.
pub handle_vm_exit-IsConsistent :
    (mem : Mem) (m : Machine) (exit : Exit)
    → IsConsistent m
    → IsConsistent (handle_vm_exit mem m exit).2
unfolding handle_vm_exit
handle_vm_exit-IsConsistent mem m exit c =
    dispatch-IsConsistent mem _ exit (resume-IsConsistent _ (is_debug exit) counted)
  where
    counted : IsConsistent (record m { ctx = record m.ctx { exit_count = m.ctx.exit_count + 1 } })
    counted = record { sound = c.sound; steps = c.steps }

-- The exits that end the thread with an error, and those that stop the vCPU.
abbrev pub fails : Machine → Exit → Bool
fails m fail_entry = true
fails m internal_error = true
fails m (unknown reason) = true
fails m (io request regs) = is_hypercall m request && is_unknown (al regs)
fails m _ = false

abbrev pub stops : Machine → Exit → Bool
stops m hlt = true
stops m shutdown = true
stops m (io request regs) = is_hypercall m request && asks_exit (al regs)
stops m _ = false

debug-keeps :
    (mem : Mem) (m : Machine) (answers : Option (Regs × StepSregs))
    → ((handle_debug mem m answers).ctx.running ≡ m.ctx.running)
      × ((handle_debug mem m answers).ctx.exit_count ≡ m.ctx.exit_count)
unfolding handle_debug handle_step
debug-keeps mem m none = ground arith
debug-keeps mem m (some (regs, sregs)) = ground arith

resume-keeps :
    (m : Machine) (debug_exit : Bool)
    → ((resume_stepping m debug_exit).ctx.running ≡ m.ctx.running)
      × ((resume_stepping m debug_exit).ctx.exit_count ≡ m.ctx.exit_count)
      × ((resume_stepping m debug_exit).ctx.linux_guest ≡ m.ctx.linux_guest)
resume-keeps m debug_exit = ground arith

dispatch-stops :
    (mem : Mem) (m : Machine) (exit : Exit)
    → IsSound m.devices
    → let (s, bytes, m') = dispatch mem m exit in
      (s ≡ (if fails m exit then failed else ok))
      × (m'.ctx.running ≡ (if stops m exit then false else m.ctx.running))
      × (m'.ctx.exit_count ≡ m.ctx.exit_count)
unfolding dispatch
dispatch-stops mem m (io request regs) s =
    ground (arith, handle_io-stops m request regs, handle_io-Keeps false m request regs s)
dispatch-stops mem m (debug answers) s = ground (arith, debug-keeps mem m answers)
dispatch-stops mem m _ s = ground arith

-- An exit is counted once. It ends the thread with an error exactly for a failed entry, an
-- internal error, an exit reason that is not handled, or a hypercall that fails; it stops the vCPU
-- exactly for HLT, a shutdown or the exit hypercall. The number of exits so far plays no part.
pub handle_vm_exit-stops :
    (mem : Mem) (m : Machine) (exit : Exit)
    → IsConsistent m
    → let (s, bytes, m') = handle_vm_exit mem m exit in
      (s ≡ (if fails m exit then failed else ok))
      × (m'.ctx.running ≡ (if stops m exit then false else m.ctx.running))
      × (m'.ctx.exit_count ≡ m.ctx.exit_count + 1)
unfolding handle_vm_exit
handle_vm_exit-stops mem m exit c = ground (
  arith,
  dispatch-stops mem (resume_stepping counted (is_debug exit)) exit resumed.sound,
  resume-keeps counted (is_debug exit),
  same_tests exit,
)
  where
    counted : Machine
    counted = record m { ctx = record m.ctx { exit_count = m.ctx.exit_count + 1 } }

    resumed : IsConsistent (resume_stepping counted (is_debug exit))
    resumed =
        resume-IsConsistent counted (is_debug exit) (record { sound = c.sound; steps = c.steps })

    same_tests :
        (e : Exit)
        → (fails (resume_stepping counted (is_debug exit)) e ≡ fails m e)
          × (stops (resume_stepping counted (is_debug exit)) e ≡ stops m e)
    same_tests (io request regs) = ground (arith, resume-keeps counted (is_debug exit))
    same_tests hlt = (refl, refl)
    same_tests _ = (refl, refl)
