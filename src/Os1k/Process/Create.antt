-- ===== src/Os1k/Process/Create.antt =====
-- `create_process` gives a process its slot and its address space.
use mini_kvm.Base.{
  ℕ, zero, suc, ◌+◌, ◌-◌, ◌*◌, ◌%◌, ◌^◌, ◌≤◌, ◌<◌, ◌≡◌, ◌≢◌, ◌⊎◌, inl, inr, refl, sym,
}
use mini_kvm.Base.{arith, ap, ◌∙◌, subst, true, false, none, some, List, [], ◌∷◌, length, set}
use mini_kvm.Base.{length-set, get_or-set_self, get_or-set_ne, Bool-cases, ℕ_discrete}
use mini_kvm.Paging32.Walk.{walk}
use mini_kvm.Os1k.Memory.{Ram, phys, kernel_base, page_rw}
use mini_kvm.Os1k.Memory.Fresh.{IsSpace, cost}
use mini_kvm.Os1k.Memory.Range.{within, Grows, Grows-trans, map_range-Maps}
use mini_kvm.Os1k.Memory.NewPage.{alloc_pages-one}
use mini_kvm.Os1k.Process.{create_process, map_process, find_slot, push_frame, Created, is_unused}
use mini_kvm.Os1k.Process.EmptyDirectory.{cleared, cleared-IsSpace, cleared-walk, Grows-below}
use mini_kvm.Os1k.Process.Frame.{IsFrame, IsFrame_ext, push_frame-IsFrame, push_frame-IsOutside}
use mini_kvm.GuestMem.Laws.{IsOutside}
use mini_kvm.Os1k.Process.AddressSpace.{IsAddressSpace, user_pages, user_mapped, cost-le}
use mini_kvm.Os1k.Sched.{Process, runnable, proc_at, empty_slot, may_run}
use mini_kvm.Os1k.Sched.Fair.{IsTable}

map_process-IsAddressSpace :
    (lo ram_end page_table : ℕ) (image : List ℕ) (r : Ram)
    → IsSpace lo page_table r
    → ((va : ℕ) → walk r.mem (phys page_table) va ≡ none)
    → ram_end < 2 ^ 32
    → length image ≤ 2 ^ 22
    → r.next_paddr + (user_pages (length image) + 4) * 4096 ≤ ram_end
    → (r' : Ram) × (map_process ram_end page_table image r ≡ some r')
      × Grows lo page_table ((user_pages (length image) + 4) * 4096) r r'
      × IsAddressSpace page_table (user_pages (length image)) image r'
unfolding map_process
map_process-IsAddressSpace lo ram_end page_table image r space empty bound size room =
    let (s, e, g, maps) =
      map_range-Maps lo ram_end page_table page_rw 512 1024 0x80000000 0 r space bound
        (omega (arith, cost-le page_table 512 r)) (omega arith) (omega arith) (omega arith)
        (omega arith) (omega arith) (omega arith) (omega arith) in
    let (t, e', g', maps') =
      map_range-Maps lo ram_end page_table page_rw 0 1024 0 0 s g.space bound
        (omega (arith, cost-le page_table 512 r, cost-le page_table 0 s, g.upto)) (omega arith)
        (omega arith) (omega arith) (omega arith) (omega arith) (omega arith) (omega arith) in
    let (u, e'', g'', other, holds) =
      user_mapped lo ram_end page_table bound image size t g'.space
        (omega (arith, cost-le page_table 512 r, cost-le page_table 0 s, g.upto, g'.upto)) in
    (
      u,
      rw (e, e') e'',
      Grows-trans lo page_table 8192 (user_pages (length image) * 4096 + 8192)
          ((user_pages (length image) + 4) * 4096) r t u
          (Grows-trans lo page_table (cost page_table 512 r) (cost page_table 0 s) 8192 r s t g g'
            (omega (arith, cost-le page_table 512 r, cost-le page_table 0 s)))
          g'' (omega arith),
      record {
        kernel = λ a h.
            other (0x80000000 + a) (omega arith) (inr (omega arith))
            ∙ maps' (0x80000000 + a) (omega arith)
            ∙ rw (outside_low a h) (
                maps (0x80000000 + a) (omega arith) ∙ rw (inside_high a h) (ap some (omega arith)));
        low = λ a h.
            other a (omega arith) (inl (omega arith))
            ∙ maps' a (omega arith)
            ∙ rw (inside_low a h) (ap some (omega arith));
        user = holds;
        fault = λ va h over out high.
            other va h out
            ∙ maps' va h
            ∙ rw (above_low va over) (maps va h ∙ rw (outside_high va high) (empty va));
      },
    )
  where
    outside_low : (a : ℕ) → a < 2 ^ 22 → within 0 1024 (0x80000000 + a) ≡ false
    outside_low a h = ground arith

    inside_high : (a : ℕ) → a < 2 ^ 22 → within 0x80000000 1024 (0x80000000 + a) ≡ true
    inside_high a h = ground arith

    inside_low : (a : ℕ) → a < 2 ^ 22 → within 0 1024 a ≡ true
    inside_low a h = ground arith

    above_low : (va : ℕ) → 2 ^ 22 ≤ va → within 0 1024 va ≡ false
    above_low va h = ground arith

    outside_high :
        (va : ℕ)
        → (va < 0x80000000) ⊎ (0x80000000 + 2 ^ 22 ≤ va)
        → within 0x80000000 1024 va ≡ false
    outside_high va h = ground arith

-- The first free slot is found, if there is one.
find_slot-unused :
    (procs : List Process) (i j : ℕ)
    → j < length procs
    → is_unused (proc_at procs j).state ≡ true
    → (k : ℕ) × (find_slot procs i ≡ some (i + k))
      × (k < length procs)
      × (is_unused (proc_at procs k).state ≡ true)
      × ((t : ℕ) → t < k → is_unused (proc_at procs t).state ≡ false)
unfolding find_slot
find_slot-unused [] i j h u = absurd (omega arith)
find_slot-unused (p ∷ procs) i zero h u =
    (0, rw u (ap some (omega arith)), omega arith, u, λ t l. absurd (omega arith))
find_slot-unused (p ∷ procs) i (suc j) h u = elim (Bool-cases (is_unused p.state)) [
  | inl free ↦ (0, rw free (ap some (omega arith)), omega arith, free, λ t l. absurd (omega arith))
  | inr taken ↦
      let (k, e, lt, v, first) = find_slot-unused procs (i + 1) j (omega arith) u in
      (
        suc k,
        rw taken (e ∙ ap some (omega arith)),
        omega arith,
        v,
        λ t l. before_next p procs k taken first t l,
      )
]
  where
    before_next :
        (p : Process) (procs : List Process) (k : ℕ)
        → is_unused p.state ≡ false
        → ((t : ℕ) → t < k → is_unused (proc_at procs t).state ≡ false)
        → (t : ℕ) → t < suc k
        → is_unused (proc_at (p ∷ procs) t).state ≡ false
    before_next p procs k taken first zero l = taken
    before_next p procs k taken first (suc t) l = first t (omega arith)

find_slot-none :
    (procs : List Process) (i : ℕ)
    → ((j : ℕ) → j < length procs → is_unused (proc_at procs j).state ≡ false)
    → find_slot procs i ≡ none
unfolding find_slot
find_slot-none [] i h = refl
find_slot-none (p ∷ procs) i h =
    rw (h 0 (omega arith)) (find_slot-none procs (i + 1) (λ j lt. h (suc j) (omega arith)))

-- What a new process is given: its slot, its address space, and on its stack the frame that
-- `switch_context` pops, with the address of `user_entry` behind four zeros. The others keep what
-- they have: their slots, and every byte of memory below the pages newly handed out but the frame.
pub record IsCreated (user_entry user_stack : ℕ) (image : List ℕ) (procs : List Process) (r : Ram)
    (c : Created) : Type 0 where
  pub was_free : is_unused (proc_at procs c.slot).state ≡ true
  pub first : (i : ℕ) → i < c.slot → is_unused (proc_at procs i).state ≡ false
  pub entered : proc_at c.procs c.slot ≡ record {
    pid = c.slot + 1;
    state = runnable;
    sp = user_stack;
    page_table = phys r.next_paddr;
  }
  pub slots : length c.procs ≡ length procs
  pub others : (i : ℕ) → c.slot ≢ i → proc_at c.procs i ≡ proc_at procs i
  pub space : IsAddressSpace r.next_paddr (user_pages (length image)) image c.ram
  pub tables : IsSpace (phys r.next_paddr) r.next_paddr c.ram
  pub upto : c.ram.next_paddr ≤ r.next_paddr + (user_pages (length image) + 5) * 4096
  pub frame :
      kernel_base ≤ user_stack
      → user_stack + 20 ≤ r.next_paddr
      → IsFrame user_entry (phys user_stack) c.ram.mem
  pub kept :
      (x : ℕ)
      → kernel_base ≤ user_stack
      → x < phys r.next_paddr
      → IsOutside (phys user_stack) 20 x
      → c.ram.mem x ≡ r.mem x

-- With a free slot, and free memory for the directory, its tables and the user pages,
-- `create_process` returns: the first free slot holds the new process, and the directory that it
-- is given maps what it is to run with, and nothing else; its stack holds the frame to start from.
-- Every other slot is as it was, and so is every byte below the new pages but that frame.
pub create_process-IsCreated :
    (ram_end user_entry : ℕ) (stack_end : ℕ → ℕ) (procs : List Process) (image : List ℕ) (r : Ram)
    (j : ℕ)
    → j < length procs
    → is_unused (proc_at procs j).state ≡ true
    → kernel_base ≤ r.next_paddr
    → r.next_paddr % 4096 ≡ 0
    → ram_end < 2 ^ 32
    → user_entry < 2 ^ 32
    → length image ≤ 2 ^ 22
    → r.next_paddr + (user_pages (length image) + 5) * 4096 ≤ ram_end
    → (c : Created) × (create_process ram_end user_entry stack_end procs image r ≡ some c)
      × IsCreated user_entry (stack_end c.slot - 20) image procs r c
unfolding create_process
create_process-IsCreated ram_end user_entry stack_end procs image r j hj free high page bound entry
      size room =
    let (k, found, lt, was, first) = find_slot-unused procs 0 j hj free in
    let before : Ram = record r { mem = push_frame r.mem (stack_end (0 + k)) user_entry } in
    let (r', e, grows, map) =
      map_process-IsAddressSpace (phys r.next_paddr) ram_end r.next_paddr image (cleared before)
        (cleared-IsSpace before page high) (cleared-walk before page high) bound size
        (omega arith) in
    let slot : 0 + k ≡ k = omega arith in
    let same : (x : ℕ) → x < phys r.next_paddr → r'.mem x ≡ before.mem x =
      λ x h. Grows-below before page high _ r' grows x h in
    (
      record {
        slot = 0 + k;
        procs = set procs (0 + k) record {
          pid = 0 + k + 1;
          state = runnable;
          sp = stack_end (0 + k) - 20;
          page_table = phys r.next_paddr;
        };
        ram = r';
      },
      rw (found, alloc_pages-one ram_end before bound (omega arith), e) refl,
      record {
        was_free = subst (λ s. is_unused (proc_at procs s).state ≡ true) (sym slot) was;
        first = λ i l. first i (omega arith);
        entered = get_or-set_self procs (0 + k) _ empty_slot (omega arith);
        slots = length-set procs (0 + k) _;
        others = λ i ne. get_or-set_ne procs _ empty_slot ne;
        space = map;
        tables = grows.space;
        upto = omega (arith, grows.upto);
        frame = λ above below.
            IsFrame_ext user_entry (phys (stack_end (0 + k) - 20)) before.mem r'.mem
              (λ x h. same x (omega arith))
              (push_frame-IsFrame r.mem (stack_end (0 + k)) user_entry entry (omega arith));
        kept = λ x above h out.
            same x h
            ∙ push_frame-IsOutside r.mem (stack_end (0 + k)) user_entry x (omega arith) out;
      },
    )

-- With no free slot it ends in its PANIC.
pub create_process-none :
    (ram_end user_entry : ℕ) (stack_end : ℕ → ℕ) (procs : List Process) (image : List ℕ) (r : Ram)
    → ((j : ℕ) → j < length procs → is_unused (proc_at procs j).state ≡ false)
    → create_process ram_end user_entry stack_end procs image r ≡ none
unfolding create_process
create_process-none ram_end user_entry stack_end procs image r h =
    rw (find_slot-none procs 0 h) refl

-- The scheduler finds the process in the slot that goes with its `pid`.
pub IsCreated-IsTable :
    (user_entry user_stack : ℕ) (image : List ℕ) (procs : List Process) (r : Ram) (c : Created)
    → IsCreated user_entry user_stack image procs r c
    → IsTable procs
    → IsTable c.procs
IsCreated-IsTable user_entry user_stack image procs r c made table i h run =
    elim (ℕ_discrete c.slot i) [
      | yes e ↦
          ap (λ s. (proc_at c.procs s).pid) (sym e)
          ∙ ap (λ p. p.pid) made.entered
          ∙ ap (λ s. s + 1) e
      | no ne ↦
          ap (λ p. p.pid) (made.others i ne)
          ∙ table i h (subst (λ p. may_run p ≡ true) (made.others i ne) run)
    ]
