-- ===== src/Os1k/Boot.antt =====
-- `kernel_main` of kvm-vmm-x86/os-1k/kernel.c, up to the jump into the shell. What the linker places
-- (kernel.ld) is a parameter. The arrays `procs`, `files` and `disk` lie in the BSS, so they are
-- zero when it is cleared; their contents are kept apart from memory. The lines that are printed
-- and the I/O privilege level are left out.
pub mod Gate
pub mod Kept
pub mod Start
use mini_kvm.Base.{ℕ, ◌+◌, ◌-◌, ◌*◌, Option, none, some, List, [], replicate, set}
use mini_kvm.Base.{bit_and, bit_or, u32, ◌<<<◌}
use mini_kvm.GuestMem.{Mem, memset, store}
use mini_kvm.Os1k.Memory.{Ram, phys}
use mini_kvm.Os1k.Sched.{Process, Kernel, procs_max, proc_at, empty_slot}
use mini_kvm.Os1k.Process.{Created, create_process}
use mini_kvm.Os1k.Files.{File, fs_init}

-- The linker's symbols, and the kernel address just behind the `stack` of each slot.
pub record Linked : Type 0 where
  pub bss : ℕ
  pub bss_end : ℕ
  pub free_ram : ℕ
  pub free_ram_end : ℕ
  pub user_entry : ℕ
  pub timer_interrupt_handler : ℕ
  pub stack_end : ℕ → ℕ

-- `idt`, which is mapped to itself
abbrev pub idt : ℕ
idt = 0x528

unfoldable pub setup_idt_entry : Mem → (vector handler_addr dpl : ℕ) → Mem
setup_idt_entry m vector handler_addr dpl =
    let flags = bit_or 0x8E00 (bit_and dpl 3 <<< 13) in
    let m =
      store 4 m (idt + 4 * (vector * 2 + 0)) (bit_or (bit_and handler_addr 0xFFFF <<< 16) 0x0008) in
    store 4 m (idt + 4 * (vector * 2 + 1)) (bit_or (bit_and handler_addr 0xFFFF0000) flags)

-- What is set up when the shell is entered: the processes, the files, memory, and the stack.
pub record Booted : Type 0 where
  pub kernel : Kernel
  pub files : List File
  pub ram : Ram
  pub esp : ℕ

-- `idle_proc->pid = 0`
abbrev pub as_idle : List Process → ℕ → List Process
as_idle procs slot = set procs slot (record (proc_at procs slot) { pid = 0 })

-- `current_proc = shell_proc`, and the jump with its page table and its stack.
abbrev pub enter_shell : (idle : ℕ) → List File → Option Created → Option Booted
enter_shell idle files none = none
enter_shell idle files (some shell) =
    let proc = proc_at shell.procs shell.slot in
    some record {
      kernel = record {
        procs = shell.procs;
        current_proc = shell.slot;
        idle_proc = idle;
        cr3 = proc.page_table;
      };
      files = files;
      ram = shell.ram;
      esp = proc.sp;
    }

module _ (l : Linked) (shell_image : List ℕ) where
  abbrev pub with_idle : List File → Option Created → Option Booted
  with_idle files none = none
  with_idle files (some idle) = enter_shell idle.slot files (
      create_process l.free_ram_end l.user_entry l.stack_end (as_idle idle.procs idle.slot)
        shell_image idle.ram)

  abbrev pub with_files : Mem → Option (List File) → Option Booted
  with_files m none = none
  with_files m (some files) = with_idle files (
      create_process l.free_ram_end l.user_entry l.stack_end (replicate procs_max empty_slot) []
        (record { mem = m; next_paddr = l.free_ram }))

  -- `none` stands for a PANIC.
  unfoldable pub kernel_main : Mem → Option Booted
  unfolding setup_idt_entry create_process fs_init
  kernel_main m =
      let m = memset m (phys l.bss) 0 (l.bss_end - l.bss) in
      with_files (setup_idt_entry m 0x20 l.timer_interrupt_handler 0) (fs_init (λ x. 0))
