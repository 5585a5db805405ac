-- ===== src/Os1k/Sched/Fair.antt =====
-- The scheduler goes round.
use mini_kvm.Base.{ℕ, zero, suc, ◌+◌, ◌-◌, ◌%◌, ◌≤◌, ◌<◌, ◌==◌, ◌≡◌, refl, sym, ap, ap₂, ◌∙◌}
use mini_kvm.Base.{arith, subst, true, false, Bool-cases, inl, inr, none, some, ==_iff, ◌⊎◌}
use mini_kvm.Base.{List, ℕ_discrete, ◌≢◌}
use mini_kvm.Os1k.Sched.{Process, Kernel, procs_max, proc_at, may_run}
use mini_kvm.Os1k.Sched.{find_next, or_idle, yield_cpu}

-- A process with a positive `pid` stands in slot `pid` - 1, where `create_process` puts it.
abbrev pub IsTable : List Process → Type 0
IsTable procs =
    (i : ℕ) → i < procs_max → may_run (proc_at procs i) ≡ true → (proc_at procs i).pid ≡ i + 1

-- The loop stops at the first process that may run, no later than at offset `d` if one waits there.
find_next-first :
    (procs : List Process) (pid rounds i d : ℕ)
    → i ≤ d
    → d < i + rounds
    → may_run (proc_at procs ((pid + d) % procs_max)) ≡ true
    → (j : ℕ) × (find_next procs pid rounds i ≡ some ((pid + j) % procs_max))
      × (may_run (proc_at procs ((pid + j) % procs_max)) ≡ true)
      × (j ≤ d)
unfolding find_next
find_next-first procs pid zero i d le lt h = absurd (omega arith)
find_next-first procs pid (suc rounds) i d le lt h =
    elim (Bool-cases (may_run (proc_at procs ((pid + i) % procs_max)))) [
      | inl found ↦ (i, rw found refl, found, le)
      | inr busy ↦
          let (j, e, run, first) =
            find_next-first procs pid rounds (i + 1) d (further busy) (omega arith) h in
          (j, rw busy e, run, first)
    ]
  where
    further : may_run (proc_at procs ((pid + i) % procs_max)) ≡ false → i + 1 ≤ d
    further busy = elim (ℕ_discrete i d) [
      | yes e ↦
          absurd
            (clash (subst (λ k. may_run (proc_at procs ((pid + k) % procs_max)) ≡ false) e busy))
      | no ne ↦ omega (arith, ne)
    ]
      where
        clash : may_run (proc_at procs ((pid + d) % procs_max)) ≡ false → ⊥
        clash f = cc

-- The page directory in use is that of the current process.
abbrev pub IsLoaded : Kernel → Type 0
IsLoaded k = k.cr3 ≡ (proc_at k.procs k.current_proc).page_table

abbrev pub current_pid : Kernel → ℕ
current_pid k = (proc_at k.procs k.current_proc).pid

-- What `yield` chooses.
abbrev chosen : Kernel → ℕ
chosen k = or_idle k.idle_proc (find_next k.procs (current_pid k) procs_max 0)

pub yield_cpu-chosen :
    (k : Kernel) → ((yield_cpu k).0.current_proc ≡ chosen k) × ((yield_cpu k).0.procs ≡ k.procs)
unfolding yield_cpu
yield_cpu-chosen k = elim (Bool-cases (chosen k == k.current_proc)) [
  | inl same ↦ (rw same (sym ((==_iff (chosen k) k.current_proc).0 same)), rw same refl)
  | inr other ↦ (rw other refl, rw other refl)
]

yield_cpu-IsLoaded : (k : Kernel) → IsLoaded k → IsLoaded (yield_cpu k).0
unfolding yield_cpu
yield_cpu-IsLoaded k h = elim (Bool-cases (chosen k == k.current_proc)) [
  | inl same ↦ rw same h
  | inr other ↦ rw other refl
]

-- How far round slot `t` is from the current process.
abbrev distance : Kernel → ℕ → ℕ
distance k t = (t + procs_max - current_pid k % procs_max) % procs_max

nearer :
    (k : Kernel) (t : ℕ)
    → IsTable k.procs
    → t < procs_max
    → may_run (proc_at k.procs t) ≡ true
    → ((yield_cpu k).0.current_proc ≡ t) ⊎ (distance (yield_cpu k).0 t < distance k t)
nearer k t table ht run =
    let d = distance k t in
    let (j, found, runs, le) =
      find_next-first k.procs (current_pid k) procs_max 0 d (omega arith) (omega arith)
        (subst (λ s. may_run (proc_at k.procs s) ≡ true) (sym (reached (current_pid k))) run) in
    let (now, same) = yield_cpu-chosen k in
    let next = (current_pid k + j) % procs_max in
    let chose : (yield_cpu k).0.current_proc ≡ next = now ∙ ap (or_idle k.idle_proc) found in
    let pid : current_pid (yield_cpu k).0 ≡ next + 1 =
      ap₂ (λ ps c. (proc_at ps c).pid) same chose ∙ table next (omega arith) runs in
    elim (closer (current_pid k) j le) [
      | inl there ↦ inl (chose ∙ there)
      | inr less ↦
          inr
            (subst (λ p. (t + procs_max - p % procs_max) % procs_max < distance k t) (sym pid) less)
    ]
  where
    reached : (p : ℕ) → (p + (t + procs_max - p % procs_max) % procs_max) % procs_max ≡ t
    reached p = omega arith

    closer :
        (p j : ℕ)
        → j ≤ (t + procs_max - p % procs_max) % procs_max
        → ((p + j) % procs_max ≡ t)
          ⊎ ((t + procs_max - ((p + j) % procs_max + 1) % procs_max) % procs_max
              < (t + procs_max - p % procs_max) % procs_max)
    closer p j le = elim (ℕ_discrete ((p + j) % procs_max) t) [
      | yes e ↦ inl e
      | no ne ↦ inr (omega (arith, ne))
    ]

abbrev pub after : ℕ → Kernel → Kernel
after zero k = k
after (suc n) k = after n (yield_cpu k).0

runs_within :
    (bound t : ℕ) (k : Kernel)
    → IsTable k.procs
    → t < procs_max
    → may_run (proc_at k.procs t) ≡ true
    → distance k t < bound
    → (n : ℕ) × (n < bound) × ((after (suc n) k).current_proc ≡ t)
runs_within zero t k table ht run h = elim h [ ]
runs_within (suc bound) t k table ht run h = elim (nearer k t table ht run) [
  | inl there ↦ (0, omega arith, there)
  | inr less ↦
      let same = sym (yield_cpu-chosen k).1 in
      let (n, le, e) =
        runs_within bound t (yield_cpu k).0 (subst IsTable same table) ht
          (subst (λ ps. may_run (proc_at ps t) ≡ true) same run) (omega arith) in
      (suc n, omega arith, e)
]

-- Every process that may run gets the processor at one of the next eight calls of `yield`, whoever
-- runs now, while no process starts or ends.
pub yield_fair :
    (k : Kernel) (t : ℕ)
    → IsTable k.procs
    → t < procs_max
    → may_run (proc_at k.procs t) ≡ true
    → (n : ℕ) × (n < procs_max) × ((after (suc n) k).current_proc ≡ t)
yield_fair k t table ht run = runs_within procs_max t k table ht run (omega arith)

find_next-none :
    (procs : List Process) (pid rounds i : ℕ)
    → ((j : ℕ) → may_run (proc_at procs j) ≡ false)
    → find_next procs pid rounds i ≡ none
unfolding find_next
find_next-none procs pid zero i h = refl
find_next-none procs pid (suc rounds) i h =
    rw (h ((pid + i) % procs_max)) (find_next-none procs pid rounds (i + 1) h)

find_next-may_run :
    (procs : List Process) (idle pid rounds i : ℕ)
    → (may_run (proc_at procs (or_idle idle (find_next procs pid rounds i))) ≡ true)
      ⊎ (or_idle idle (find_next procs pid rounds i) ≡ idle)
unfolding find_next
find_next-may_run procs idle pid zero i = inr refl
find_next-may_run procs idle pid (suc rounds) i =
    elim (Bool-cases (may_run (proc_at procs ((pid + i) % procs_max)))) [
      | inl found ↦ inl (rw found found)
      | inr busy ↦ rw busy (find_next-may_run procs idle pid rounds (i + 1))
    ]

-- The one chosen may run, or is the idle process, which stays what it is.
pub yield_cpu-next :
    (k : Kernel)
    → (may_run (proc_at k.procs (yield_cpu k).0.current_proc) ≡ true)
      ⊎ ((yield_cpu k).0.current_proc ≡ k.idle_proc)
yield_cpu-next k =
    subst (λ c. (may_run (proc_at k.procs c) ≡ true) ⊎ (c ≡ k.idle_proc))
      (sym (yield_cpu-chosen k).0)
      (find_next-may_run k.procs k.idle_proc (current_pid k) procs_max 0)

pub yield_cpu-idle : (k : Kernel) → (yield_cpu k).0.idle_proc ≡ k.idle_proc
unfolding yield_cpu
yield_cpu-idle k = elim (Bool-cases (chosen k == k.current_proc)) [
  | inl same ↦ rw same refl
  | inr other ↦ rw other refl
]

-- A change of the current process is a switch between two stacks.
pub yield_cpu-switches :
    (k : Kernel)
    → (yield_cpu k).0.current_proc ≢ k.current_proc
    → (yield_cpu k).1 ≡ some (k.current_proc, (yield_cpu k).0.current_proc)
unfolding yield_cpu
yield_cpu-switches k ne = elim (Bool-cases (chosen k == k.current_proc)) [
  | inl same ↦ absurd (ne ((yield_cpu-chosen k).0 ∙ (==_iff (chosen k) k.current_proc).0 same))
  | inr other ↦ rw other refl
]

-- The page directory in use stays that of the current process; no call changes a process; the one
-- chosen may run, and with none that may it is the idle process.
pub yield_cpu_lem :
    (k : Kernel)
    → IsLoaded k
    → let k' = (yield_cpu k).0 in
      IsLoaded k'
      × (k'.procs ≡ k.procs)
      × ((may_run (proc_at k.procs k'.current_proc) ≡ true) ⊎ (k'.current_proc ≡ k.idle_proc))
      × (((j : ℕ) → may_run (proc_at k.procs j) ≡ false) → k'.current_proc ≡ k.idle_proc)
yield_cpu_lem k h =
    let (now, same) = yield_cpu-chosen k in
    (
      yield_cpu-IsLoaded k h,
      same,
      yield_cpu-next k,
      λ idle.
          now ∙ ap (or_idle k.idle_proc) (find_next-none k.procs (current_pid k) procs_max 0 idle),
    )
