-- ===== src/Os1k/Boot/Start.antt =====
-- What `kernel_main` sets up before it enters the shell.
use mini_kvm.Base.{ℕ, zero, suc, ◌+◌, ◌-◌, ◌*◌, ◌%◌, ◌^◌, ◌≤◌, ◌<◌, ◌≡◌, inl, inr, refl}
use mini_kvm.Base.{ap, ◌∙◌, arith, subst, true, false, some, List, [], length}
use mini_kvm.Base.{replicate, length-set, get_or-set_self, get_or-set_ne, dec_lt, ◌⊎◌}
use mini_kvm.GuestMem.{Mem, memset}
use mini_kvm.GuestMem.Laws.{IsOutside}
use mini_kvm.Paging32.Walk.{walk}
use mini_kvm.Os1k.Memory.{Ram, phys, kernel_base}
use mini_kvm.Os1k.Process.{Created, create_process, is_unused}
use mini_kvm.Os1k.Process.AddressSpace.{IsAddressSpace, user_pages}
use mini_kvm.Os1k.Process.Create.{IsCreated, IsCreated-IsTable, create_process-IsCreated}
use mini_kvm.Os1k.Sched.{Process, runnable, procs_max, proc_at, empty_slot, may_run}
use mini_kvm.Os1k.Sched.Fair.{IsTable}
use mini_kvm.Os1k.Files.{fs_init}
use mini_kvm.Os1k.Boot.{Linked, Booted, kernel_main, with_files, with_idle, enter_shell, as_idle}
use mini_kvm.Os1k.Boot.{setup_idt_entry}
use mini_kvm.Os1k.Boot.Gate.{IsGate, IsGate-ext, setup_idt_entry-IsGate}
use mini_kvm.Os1k.Boot.Kept.{walk_kept}

-- How kernel.ld lays the kernel out: the BSS, with the stacks in it, behind the code and before the
-- free memory, which starts at a page and ends 4KB before the end of the 4MB that are mapped.
pub record IsLinked (l : Linked) : Type 0 where
  pub code : kernel_base + 0x1000 ≤ l.bss
  pub free : l.bss_end ≤ l.free_ram
  pub aligned : l.free_ram % 4096 ≡ 0
  pub memory : l.free_ram_end ≤ 0x803FF000
  pub entry : l.user_entry < 2 ^ 32
  pub handler : l.timer_interrupt_handler < 2 ^ 32
  pub stack : (i : ℕ) → i < procs_max → l.bss + 20 ≤ l.stack_end i
  pub stack_inside : (i : ℕ) → i < procs_max → l.stack_end i ≤ l.bss_end

-- The shell in slot 1 with process number 2, and the idle process in slot 0 with number 0; no
-- other process and no file. The processor has the shell's directory and stack, the shell's memory
-- is its image, and the idle process still has the kernel mapped. The timer's gate is in place.
pub record IsBooted (l : Linked) (image : List ℕ) (b : Booted) : Type 0 where
  pub shell :
      proc_at b.kernel.procs 1
      ≡ record { pid = 2; state = runnable; sp = b.esp; page_table = b.kernel.cr3 }
  pub idle :
      proc_at b.kernel.procs 0
      ≡ record { pid = 0; state = runnable; sp = l.stack_end 0 - 20; page_table = phys l.free_ram }
  pub free : (i : ℕ) → 1 < i → proc_at b.kernel.procs i ≡ empty_slot
  pub current : b.kernel.current_proc ≡ 1
  pub fallback : b.kernel.idle_proc ≡ 0
  pub stack : b.esp ≡ l.stack_end 1 - 20
  pub table : IsTable b.kernel.procs
  pub space :
      (d : ℕ) × (b.kernel.cr3 ≡ phys d) × IsAddressSpace d (user_pages (length image)) image b.ram
  pub idle_kernel :
      (a : ℕ) → a < 2 ^ 22 → walk b.ram.mem (phys l.free_ram) (0x80000000 + a) ≡ some a
  pub idle_low : (a : ℕ) → a < 2 ^ 22 → walk b.ram.mem (phys l.free_ram) a ≡ some a
  pub gate : IsGate 0x20 l.timer_interrupt_handler b.ram.mem
  pub files : b.files ≡ []

abbrev no_procs : List Process
no_procs = replicate procs_max empty_slot

none_made : (n i : ℕ) → proc_at (replicate n empty_slot) i ≡ empty_slot
none_made zero i = refl
none_made (suc n) zero = refl
none_made (suc n) (suc i) = none_made n i

-- A slot before which all are taken, and which is free, is the one that is found.
only_slot :
    (procs : List Process) (slot j : ℕ)
    → is_unused (proc_at procs slot).state ≡ true
    → ((i : ℕ) → i < slot → is_unused (proc_at procs i).state ≡ false)
    → ((i : ℕ) → i < j → is_unused (proc_at procs i).state ≡ false)
    → is_unused (proc_at procs j).state ≡ true
    → slot ≡ j
only_slot procs slot j free first taken here = elim (dec_lt slot j) [
  | yes l ↦ absurd (clash slot (taken slot l) free)
  | no ge ↦ elim (dec_lt j slot) [
    | yes g ↦ absurd (clash j (first j g) here)
    | no le ↦ omega (arith, ge, le)
  ]
]
  where
    clash :
        (i : ℕ)
        → is_unused (proc_at procs i).state ≡ false
        → is_unused (proc_at procs i).state ≡ true
        → ⊥
    clash i f t = cc

module _ (l : Linked) (linked : IsLinked l) (image : List ℕ) (size : length image ≤ 2 ^ 22)
    (room : l.free_ram + (user_pages (length image) + 14) * 4096 ≤ l.free_ram_end) (m : Mem) where
  abbrev with_gate : Mem
  with_gate =
      setup_idt_entry (memset m (phys l.bss) 0 (l.bss_end - l.bss)) 0x20 l.timer_interrupt_handler 0

  abbrev first_ram : Ram
  first_ram = record { mem = with_gate; next_paddr = l.free_ram }

  abbrev IdleMade : Created → Type 0
  IdleMade c = IsCreated l.user_entry (l.stack_end c.slot - 20) [] no_procs first_ram c

  idle_made :
      (c : Created) × (create_process l.free_ram_end l.user_entry l.stack_end no_procs [] first_ram
        ≡ some c)
      × IdleMade c
  idle_made =
      create_process-IsCreated l.free_ram_end l.user_entry l.stack_end no_procs [] first_ram 0
        (omega arith) refl
        (omega (
          arith,
          linked.code,
          linked.free,
          linked.stack 0 (omega arith),
          linked.stack_inside 0 (omega arith),
        ))
        linked.aligned (omega (arith, linked.memory)) linked.entry (omega arith) (omega arith)

  module _ (c : Created) (made : IdleMade c) where
    idle_slot : c.slot ≡ 0
    idle_slot =
        only_slot no_procs c.slot 0 made.was_free made.first (λ i h. absurd (omega arith)) refl

    abbrev procs : List Process
    procs = as_idle c.procs c.slot

    at_zero : proc_at procs 0 ≡ record (proc_at c.procs 0) { pid = 0 }
    at_zero = rw idle_slot (get_or-set_self c.procs 0 _ empty_slot (omega (arith, made.slots)))

    idle_entry : proc_at procs 0 ≡ record {
      pid = 0;
      state = runnable;
      sp = l.stack_end 0 - 20;
      page_table = phys l.free_ram;
    }
    idle_entry =
        at_zero
        ∙ ap (λ (p : Process). record p { pid = 0 })
            (subst
              (λ s. proc_at c.procs s ≡ record {
                pid = s + 1;
                state = runnable;
                sp = l.stack_end s - 20;
                page_table = phys l.free_ram;
              })
              idle_slot made.entered)

    others_empty : (i : ℕ) → 0 < i → proc_at procs i ≡ empty_slot
    others_empty i h =
        get_or-set_ne c.procs _ empty_slot (λ e. absurd (omega (arith, e, idle_slot)))
        ∙ made.others i (λ e. absurd (omega (arith, e, idle_slot)))
        ∙ none_made procs_max i

    procs-IsTable : IsTable procs
    procs-IsTable zero h run = absurd (clash (ap may_run idle_entry))
      where
        clash : may_run (proc_at procs 0) ≡ false → ⊥
        clash f = cc
    procs-IsTable (suc i) h run = absurd (clash (ap may_run (others_empty (suc i) (omega arith))))
      where
        clash : may_run (proc_at procs (suc i)) ≡ false → ⊥
        clash f = cc

    abbrev ShellMade : Created → Type 0
    ShellMade d = IsCreated l.user_entry (l.stack_end d.slot - 20) image procs c.ram d

    shell_made :
        (d : Created) × (create_process l.free_ram_end l.user_entry l.stack_end procs image c.ram
          ≡ some d)
        × ShellMade d
    shell_made =
        create_process-IsCreated l.free_ram_end l.user_entry l.stack_end procs image c.ram 1
          (omega (
            arith,
            made.slots,
            length-set c.procs c.slot (record (proc_at c.procs c.slot) { pid = 0 }),
          ))
          (ap (λ p. is_unused p.state) (others_empty 1 (omega arith)))
          (omega (arith, made.tables.high)) made.tables.page (omega (arith, linked.memory))
          linked.entry size (omega (arith, made.upto))

    module _ (d : Created) (shell : ShellMade d) where
      shell_slot : d.slot ≡ 1
      shell_slot =
          only_slot procs d.slot 1 shell.was_free shell.first
            (λ i h.
              subst (λ j. is_unused (proc_at procs j).state ≡ false) (omega arith)
                (ap (λ p. is_unused p.state) idle_entry))
            (ap (λ p. is_unused p.state) (others_empty 1 (omega arith)))

      stacks :
          (s : ℕ)
          → s < procs_max
          → (kernel_base + 0x1000 ≤ l.stack_end s - 20) × (l.stack_end s ≤ l.free_ram)
      stacks s h = (
        omega (arith, linked.code, linked.stack s h),
        omega (arith, linked.free, linked.stack_inside s h),
      )

      -- What lies below the frame of the new stack, or in the pages of the idle process.
      shell_keeps :
          (x : ℕ)
          → (x < 0x1000) ⊎ (phys l.free_ram ≤ x)
          → x < phys c.ram.next_paddr
          → d.ram.mem x ≡ c.ram.mem x
      shell_keeps x out h =
          let (low, high) = stacks d.slot (omega (arith, shell_slot)) in
          shell.kept x (omega arith) h (apart_from d.slot low high)
        where
          apart_from :
              (s : ℕ)
              → kernel_base + 0x1000 ≤ l.stack_end s - 20
              → l.stack_end s ≤ l.free_ram
              → IsOutside (phys (l.stack_end s - 20)) 20 x
          apart_from s low high = omega arith

      abbrev booted : Booted
      booted = record {
        kernel = record {
          procs = d.procs;
          current_proc = d.slot;
          idle_proc = c.slot;
          cr3 = (proc_at d.procs d.slot).page_table;
        };
        files = [];
        ram = d.ram;
        esp = (proc_at d.procs d.slot).sp;
      }

      shell_cr3 : booted.kernel.cr3 ≡ phys c.ram.next_paddr
      shell_cr3 = ap (λ p. p.page_table) shell.entered

      shell_esp : booted.esp ≡ l.stack_end 1 - 20
      shell_esp = ap (λ p. p.sp) shell.entered ∙ ap (λ s. l.stack_end s - 20) shell_slot

      shell_entry :
          proc_at d.procs 1
          ≡ record { pid = 2; state = runnable; sp = booted.esp; page_table = booted.kernel.cr3 }
      shell_entry =
          subst
            (λ s. proc_at d.procs s ≡ record {
              pid = s + 1;
              state = runnable;
              sp = booted.esp;
              page_table = booted.kernel.cr3;
            })
            shell_slot
            (λ i. record {
              pid = (ap (λ p. p.pid) shell.entered) i;
              state = (ap (λ p. p.state) shell.entered) i;
              sp = booted.esp;
              page_table = booted.kernel.cr3;
            })

      idle_walk :
          (va : ℕ) → walk d.ram.mem (phys l.free_ram) va ≡ walk c.ram.mem (phys l.free_ram) va
      idle_walk va =
          walk_kept (phys l.free_ram) (phys c.ram.next_paddr) c.ram.mem d.ram.mem (phys l.free_ram)
            va made.tables.dir (λ x p q. shell_keeps x (inr p) q)

      IsGate-kept : IsGate 0x20 l.timer_interrupt_handler d.ram.mem
      IsGate-kept =
          IsGate-ext 0x20 l.timer_interrupt_handler with_gate d.ram.mem
            (λ x p q. shell_keeps x (inl (omega arith)) (below_free x q) ∙ idle_keeps x q)
            (setup_idt_entry-IsGate _ 0x20 l.timer_interrupt_handler linked.handler)
        where
          below_free : (x : ℕ) → x < 0x528 + 8 * 0x20 + 8 → x < phys c.ram.next_paddr
          below_free x q = omega (arith, q, made.tables.dir.below, stacks 0 (omega arith))

          idle_keeps : (x : ℕ) → x < 0x528 + 8 * 0x20 + 8 → c.ram.mem x ≡ with_gate x
          idle_keeps x q =
              let (low, high) = stacks c.slot (omega (arith, idle_slot)) in
              made.kept x (omega arith) (omega arith) (inl (omega arith))

      booted-IsBooted : IsBooted l image booted
      booted-IsBooted = record {
        shell = shell_entry;
        idle = shell.others 0 (λ e. absurd (omega (arith, e, shell_slot))) ∙ idle_entry;
        free = λ i h.
            shell.others i (λ e. absurd (omega (arith, e, shell_slot)))
            ∙ others_empty i (omega arith);
        current = shell_slot;
        fallback = idle_slot;
        stack = shell_esp;
        table =
            IsCreated-IsTable l.user_entry (l.stack_end d.slot - 20) image procs c.ram d shell
              procs-IsTable;
        space = (c.ram.next_paddr, shell_cr3, shell.space);
        idle_kernel = λ a h. idle_walk (0x80000000 + a) ∙ made.space.kernel a h;
        idle_low = λ a h. idle_walk a ∙ made.space.low a h;
        gate = IsGate-kept;
        files = refl;
      }

-- With the kernel laid out as kernel.ld does, an image of at most 4MB and enough free memory for
-- both processes inside the 4MB that are mapped, the BSS and that memory all below or all behind
-- the page tables at 0x100000 that the kernel runs on, `kernel_main` reaches the shell, whatever
-- memory held: the shell in slot 1 with process number 2, the idle process in slot 0, no other process
-- and no file. The processor has the shell's directory and stack, the shell's memory is its
-- image, the idle process still has the kernel mapped, and the timer's gate is in place.
pub kernel_main-IsBooted :
    (l : Linked) (image : List ℕ) (m : Mem)
    → IsLinked l
    → length image ≤ 2 ^ 22
    → l.free_ram + (user_pages (length image) + 14) * 4096 ≤ l.free_ram_end
    → (l.free_ram + (user_pages (length image) + 14) * 4096 ≤ 0x80100000) ⊎ (0x80103000 ≤ l.bss)
    → (b : Booted) × (kernel_main l image m ≡ some b) × IsBooted l image b
unfolding kernel_main
kernel_main-IsBooted l image m linked size room tables =
    let (c, e, made) = idle_made l linked image size room m in
    let (d, e', shell) = shell_made l linked image size room m c made in
    (
      booted l linked image size room m c made d shell,
      ap (with_files l image (with_gate l linked image size room m)) no_files
          ∙ ap (with_idle l image []) e
          ∙ ap (enter_shell c.slot []) e',
      booted-IsBooted l linked image size room m c made d shell,
    )
  where
    no_files : fs_init (λ x. 0) ≡ some []
    no_files = unfold fs_init in refl
