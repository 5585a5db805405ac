-- ===== src/Thread/Laws.antt =====
-- The loop of a vCPU thread over any sequence of exits.
use mini_kvm.Base.{ℕ, ◌+◌, ◌≡◌, refl, ◌∙◌, arith, true, false, List, [], ◌∷◌, none, some}
use mini_kvm.Base.{suc, length, Bool-cases, inl, inr}
use mini_kvm.GuestMem.{Mem}
use mini_kvm.Machine.{Machine}
use mini_kvm.Hypercall.{ok, failed}
use mini_kvm.Exit.{Exit, hlt, io, handle_vm_exit}
use mini_kvm.Exit.Laws.{
  IsConsistent, handle_vm_exit-IsConsistent, handle_vm_exit-stops, fails, stops,
}
use mini_kvm.Thread.{Ended, stopped, run_failed, handler_failed, waiting, Turn, vcpu_thread}

-- How the thread is to run: it stops once the vCPU is not running, waits when no exit has come, and
-- is broken off by a KVM_RUN that fails and by an exit that fails; every other exit goes on.
pub data Runs : Machine → List Turn → Ended × Machine × List Turn → Type 0 where
  stop :
      (m : Machine) (turns : List Turn) → m.ctx.running ≡ false → Runs m turns (stopped, m, turns)
  wait : (m : Machine) → m.ctx.running ≡ true → Runs m [] (waiting, m, [])
  broken :
      (m : Machine) (rest : List Turn)
      → m.ctx.running ≡ true
      → Runs m (none ∷ rest) (run_failed, m, rest)
  refused :
      (m : Machine) (mem : Mem) (exit : Exit) (rest : List Turn)
      → m.ctx.running ≡ true
      → fails m exit ≡ true
      → Runs m (some (mem, exit) ∷ rest) (handler_failed, (handle_vm_exit mem m exit).2, rest)
  goes_on :
      (m : Machine) (mem : Mem) (exit : Exit) (rest : List Turn) (end : Ended × Machine × List Turn)
      → m.ctx.running ≡ true
      → fails m exit ≡ false
      → Runs (handle_vm_exit mem m exit).2 rest end
      → Runs m (some (mem, exit) ∷ rest) end

-- Each reason for the end, with what it says of the state and of the turns that are left.
abbrev pub EndsRight : Ended × Machine × List Turn → Type 0
EndsRight (stopped, m, rest) = m.ctx.running ≡ false
EndsRight (waiting, m, rest) = (m.ctx.running ≡ true) × (rest ≡ [])
EndsRight (run_failed, m, rest) = m.ctx.running ≡ true
EndsRight (handler_failed, m, rest) = m.ctx.running ≡ true

-- The turns that the loop did not handle as an exit: those left, and a KVM_RUN that failed.
abbrev pub unhandled : Ended × Machine × List Turn → ℕ
unhandled (run_failed, m, rest) = suc (length rest)
unhandled (_, m, rest) = length rest

fails-not-stops : (m : Machine) (exit : Exit) → fails m exit ≡ true → stops m exit ≡ false
fails-not-stops m (io request none) h = ground arith
fails-not-stops m (io request (some regs)) h = ground arith
fails-not-stops m hlt h = cc
fails-not-stops m _ h = ground arith

when_off :
    (m : Machine) (turns : List Turn)
    → m.ctx.running ≡ false
    → vcpu_thread m turns ≡ (stopped, m, turns)
unfolding vcpu_thread
when_off m [] off = ground arith
when_off m (none ∷ rest) off = ground arith
when_off m (some (mem, exit) ∷ rest) off = ground arith

when_empty : (m : Machine) → m.ctx.running ≡ true → vcpu_thread m [] ≡ (waiting, m, [])
unfolding vcpu_thread
when_empty m on = ground arith

when_run_fails :
    (m : Machine) (rest : List Turn)
    → m.ctx.running ≡ true
    → vcpu_thread m (none ∷ rest) ≡ (run_failed, m, rest)
unfolding vcpu_thread
when_run_fails m rest on = ground arith

module _ (m : Machine) (mem : Mem) (exit : Exit) (rest : List Turn)
    (on : m.ctx.running ≡ true) where
  when_handler_fails :
      (handle_vm_exit mem m exit).0 ≡ failed
      → vcpu_thread m (some (mem, exit) ∷ rest)
        ≡ (handler_failed, (handle_vm_exit mem m exit).2, rest)
  unfolding vcpu_thread
  when_handler_fails bad = ground arith

  when_handled :
      (handle_vm_exit mem m exit).0 ≡ ok
      → vcpu_thread m (some (mem, exit) ∷ rest) ≡ vcpu_thread (handle_vm_exit mem m exit).2 rest
  unfolding vcpu_thread
  when_handled good = ground arith

-- What holds of the loop's end.
abbrev pub Holds : Machine → List Turn → Ended × Machine × List Turn → Type 0
Holds m turns end =
    IsConsistent end.1
    × Runs m turns end
    × EndsRight end
    × (end.1.ctx.exit_count + unhandled end ≡ m.ctx.exit_count + length turns)

after_exit :
    (m : Machine) (mem : Mem) (exit : Exit) (rest : List Turn)
    → IsConsistent m
    → m.ctx.running ≡ true
    → Holds (handle_vm_exit mem m exit).2 rest (vcpu_thread (handle_vm_exit mem m exit).2 rest)
    → Holds m (some (mem, exit) ∷ rest) (vcpu_thread m (some (mem, exit) ∷ rest))
after_exit m mem exit rest c on (later, runs, ends, counts) =
    let (status, running, counted) = handle_vm_exit-stops mem m exit c in
    let next = handle_vm_exit-IsConsistent mem m exit c in
    elim (Bool-cases (fails m exit)) [
      | inl bad ↦ rw (when_handler_fails m mem exit rest on (status ∙ rw bad)) (
        next,
        refused m mem exit rest on bad,
        running ∙ rw (fails-not-stops m exit bad) on,
        omega arith,
      )
      | inr good ↦
          rw (when_handled m mem exit rest on (status ∙ rw good))
            (later, goes_on m mem exit rest _ on good runs, ends, omega arith)
    ]

-- However the exits follow one another, the loop keeps the machine consistent and runs as `Runs`
-- says: an exit that fails, and only such a one or a failed KVM_RUN, breaks it off. When it ends, or
-- waits, the state is as the reason says: not running after a stop, running and out of turns while
-- it waits, still marked running after an error. And every exit that was taken is counted.
pub vcpu_thread_lem :
    (turns : List Turn) (m : Machine)
    → IsConsistent m
    → let end = vcpu_thread m turns in
      IsConsistent end.1
      × Runs m turns end
      × EndsRight end
      × (end.1.ctx.exit_count + unhandled end ≡ m.ctx.exit_count + length turns)
vcpu_thread_lem [] m c = elim (Bool-cases m.ctx.running) [
  | inr off ↦ rw (when_off m [] off) (c, stop m [] off, off, refl)
  | inl on ↦ rw (when_empty m on) (c, wait m on, (on, refl), refl)
]
vcpu_thread_lem (none ∷ rest) m c = elim (Bool-cases m.ctx.running) [
  | inr off ↦ rw (when_off m (none ∷ rest) off) (c, stop m (none ∷ rest) off, off, refl)
  | inl on ↦ rw (when_run_fails m rest on) (c, broken m rest on, on, refl)
]
vcpu_thread_lem (some (mem, exit) ∷ rest) m c = elim (Bool-cases m.ctx.running) [
  | inr off ↦
      rw (when_off m (some (mem, exit) ∷ rest) off)
        (c, stop m (some (mem, exit) ∷ rest) off, off, refl)
  | inl on ↦ after_exit m mem exit rest c on (
      vcpu_thread_lem rest (handle_vm_exit mem m exit).2 (handle_vm_exit-IsConsistent mem m exit c))
]
