-- ===== src/Os1k/Syscall/Exit.antt =====
-- A process that has ended does not get the processor again.
use mini_kvm.Base.{ℕ, zero, suc, ◌<◌, ◌≡◌, ◌≢◌, inl, inr, sym, ap, ◌∙◌}
use mini_kvm.Base.{subst, true, false, length, ℕ_discrete}
use mini_kvm.Base.{get_or-set_self, get_or-set_ne}
use mini_kvm.Os1k.Sched.{Kernel, exited, proc_at, may_run, empty_slot, procs_max, yield_cpu}
use mini_kvm.Os1k.Sched.Fair.{IsTable, after, yield_cpu-chosen, yield_cpu-next, yield_fair}
use mini_kvm.Os1k.Sched.Fair.{yield_cpu-idle, yield_cpu-switches}
use mini_kvm.Os1k.Syscall.{Os, leaves, exit_current, exit_process, unless_returned}

module _ (k : Kernel) (inside : k.current_proc < length k.procs) where
  ended : may_run (proc_at (exit_current k).procs k.current_proc) ≡ false
  ended = ap may_run (
      get_or-set_self k.procs k.current_proc
        (record (proc_at k.procs k.current_proc) { state = exited }) empty_slot inside)

  still : (i : ℕ) → k.current_proc ≢ i → proc_at (exit_current k).procs i ≡ proc_at k.procs i
  still i ne = get_or-set_ne k.procs _ empty_slot ne

  -- The scheduler finds the others as before.
  exit-IsTable : IsTable k.procs → IsTable (exit_current k).procs
  exit-IsTable table i h run = elim (ℕ_discrete k.current_proc i) [
    | yes e ↦
        absurd (clash (subst (λ j. may_run (proc_at (exit_current k).procs j) ≡ false) e ended))
    | no ne ↦
        ap (λ p. p.pid) (still i ne) ∙ table i h (subst (λ p. may_run p ≡ true) (still i ne) run)
  ]
    where
      clash : may_run (proc_at (exit_current k).procs i) ≡ false → ⊥
      clash f = cc

-- No call of `yield` chooses a process that may not run and is not the idle process.
after-ne :
    (n : ℕ) (k : Kernel) (t : ℕ)
    → may_run (proc_at k.procs t) ≡ false
    → t ≢ k.idle_proc
    → (after (suc n) k).current_proc ≢ t
after-ne zero k t no_run busy = λ e. elim (yield_cpu-next k) [
  | inl run ↦ clash (subst (λ c. may_run (proc_at k.procs c) ≡ true) e run)
  | inr idle ↦ busy (sym e ∙ idle)
]
  where
    clash : may_run (proc_at k.procs t) ≡ true → ⊥
    clash f = cc
after-ne (suc n) k t no_run busy =
    after-ne n (yield_cpu k).0 t (ap (λ ps. may_run (proc_at ps t)) (yield_cpu-chosen k).1 ∙ no_run)
      (λ e. busy (e ∙ yield_cpu-idle k))

-- A process of the table that is not the idle one ends, where those that may run have process
-- numbers that fit their slots: the processor goes to another process, and none of the later
-- calls of `yield` gives it back, however many there are. Every other process that may run gets
-- it at one of the next eight, while no process starts or ends.
pub exit_process-leaves :
    (s : Os)
    → s.kernel.current_proc < length s.kernel.procs
    → IsTable s.kernel.procs
    → s.kernel.current_proc ≢ s.kernel.idle_proc
    → (s' : Os) × (exit_process s ≡ leaves s')
      × (s'.kernel.current_proc ≢ s.kernel.current_proc)
      × ((n : ℕ) → (after (suc n) s'.kernel).current_proc ≢ s.kernel.current_proc)
      × ((t : ℕ)
          → t < procs_max
          → t ≢ s.kernel.current_proc
          → may_run (proc_at s.kernel.procs t) ≡ true
          → (n : ℕ) × (n < procs_max) × ((after (suc n) s'.kernel).current_proc ≡ t))
unfolding exit_process
exit_process-leaves s inside table busy = (
  record s { kernel = next },
  ap (λ o. unless_returned s (next, o)) (yield_cpu-switches k' away),
  away,
  λ n. after-ne n next s.kernel.current_proc none_more (λ e. busy (e ∙ yield_cpu-idle k')),
  λ t ht ne run.
      yield_fair next t
        (subst IsTable (sym (yield_cpu-chosen k').1) (exit-IsTable s.kernel inside table)) ht
        (ap (λ ps. may_run (proc_at ps t)) (yield_cpu-chosen k').1
          ∙ ap may_run (still s.kernel inside t (λ e. ne (sym e)))
          ∙ run),
)
  where
    k' : Kernel
    k' = exit_current s.kernel

    next : Kernel
    next = (yield_cpu k').0

    away : next.current_proc ≢ s.kernel.current_proc
    away = after-ne 0 k' s.kernel.current_proc (ended s.kernel inside) busy

    none_more : may_run (proc_at next.procs s.kernel.current_proc) ≡ false
    none_more =
        ap (λ ps. may_run (proc_at ps s.kernel.current_proc)) (yield_cpu-chosen k').1
        ∙ ended s.kernel inside
