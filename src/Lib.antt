-- ===== src/Lib.antt =====
-- Mini-KVM: a small virtual machine monitor on Linux KVM, in C (kvm-vmm-x86/src).
--
-- The VMM gives each vCPU a memory, loads a guest into it, writes the tables that the processor
-- needs there (page tables, GDT, IDT or IVT, for Linux the zero page), asks KVM for a vCPU with
-- the matching registers, and then serves the exits of each vCPU in a thread of its own. The
-- threads share one keyboard buffer, which the stdin thread fills, one UART, and a few ports.
--
-- The set-up of a guest:
--   Options         the command line (main in kvm-vmm-x86/src/main.c)
--   GuestMem        guest memory as a byte for each offset; memset, memcpy, integers in memory
--   Paging32        setup_page_tables (kvm-vmm-x86/src/main.c)
--   Paging64        kvm-vmm-x86/src/paging_64.c
--   Gdt             create_gdt_entry and the four GDTs; Gdt.Vectors the IVT and the IDT of Linux
--   Segments        the segment registers of each mode
--   LinuxBoot       kvm-vmm-x86/src/linux_boot.c: E820 map, zero page, bzImage, RAM disk
--   Cpuid           the entries that setup_cpuid changes (kvm-vmm-x86/src/cpuid.c)
--   VcpuSetup       setup_vcpu_context and the five modes that it sets up, with setup_cpuid and
--                   setup_msrs_64bit (kvm-vmm-x86/src/msr.c), as requests to a host; VcpuSetup.Kept
--                   which bytes of guest memory they change, Start, LongStart and Code32 the state
--                   that three of the modes start in
--   VcpuMemory      setup_vcpu_memory and load_guest_binary (kvm-vmm-x86/src/main.c)
--   Launch          the second half of main (kvm-vmm-x86/src/main.c): the loop that sets up the vCPUs
--                   from the parts above, and cleanup_vcpu; Launch.Linux the start of a Linux kernel;
--                   Launch.Names, Launch.Colors what a guest is shown as
--
-- The run of a guest (all in kvm-vmm-x86/src/main.c):
--   Keyboard        the ring buffer, a queue of at most 255 bytes
--   Machine         the context of a vCPU, the shared devices, and what leaves the program: output
--                   bytes, interrupt lines, single-step settings, as a list of events
--   Uart, Ports     COM1 and the other ports
--   Hypercall       port 0x500; Io the dispatch of an I/O exit
--   Exit            handle_vm_exit; Thread the loop of vcpu_thread
--
-- The guest operating system "1K OS" (kvm-vmm-x86/os-1k):
--   Os1k.Text       common.c: strcmp, and printf with its loops for "%d" and "%x"
--   Os1k.User       user.c: getchar and readline; Editor is the line without a buffer
--   Os1k.Shell      shell.c: the calculator, and the loops of the demos that compute;
--                   Shell.Answers what the four operators mean
--   Os1k.Sched      kernel.c: the process table and yield
--   Os1k.Memory     kernel.c: alloc_pages, map_page and the loops over it
--   Os1k.Process    kernel.c: create_process, on Memory and for Sched
--   Os1k.Files      kernel.c: fs_flush, fs_init and fs_lookup, with TarOctal for the octal numbers
--                   of the tar headers
--   Os1k.Switch     kernel.c: switch_context, as the registers that it saves and restores
--   Os1k.Syscall    kernel.c: handle_syscall, on Sched and Files
--   Os1k.Boot       kernel.c: kernel_main up to the jump into the shell, and setup_idt_entry
--
-- A state is a record, an operation a function from state to state, with `none`, `failed` or
-- `false` for the -1 of the C. The numbers are natural numbers, with the wrap-around of the C
-- types written out where a value can reach it. Each locked call, and each exit of a vCPU, is one
-- step; the exits, KVM's answers and the contents of files are arbitrary parameters. What a
-- refused call leaves behind is not modelled where the program gives up, but for what cleanup_vcpu
-- gives back. A loop of the C is a recursion on its count or on its list; the loops of "%d", of
-- the trial division and of Euclid take fuel, and the theorems show how much is enough: 11 rounds
-- for any 32-bit number, n + 1 for the divisors of n (below 46340 squared, from where i * i can
-- overflow an int), b + 1 for the greatest common divisor of a and b.
-- KVM's answer to KVM_SET_GUEST_DEBUG is a parameter that the exits pass over, as the code does;
-- what is said of single-stepping is what KVM was asked for. The registers that -v reads back are
-- requests whose failure is passed over. The memory of a vCPU is mapped at vcpu_id * mem_size, and
-- its tables are written as if that were 0: the start states are those of the first vCPU.
--
-- What the processor makes of the tables (page walks, descriptors, real-mode segments) is written
-- down from the processor's manual, independently of the code that writes the tables. Base holds
-- the shared lemmas on numbers, bits and lists, Tests the runs at concrete inputs.
--
-- The memory of the 1K OS is the physical memory behind its addresses from 0x80000000 on, which
-- setup_page_tables maps: 4MB, with the tables themselves at 0x100000, so that the start of the
-- kernel asks that what it hands out lies in the one and off the other. The disk of the 1K OS is a
-- byte for each offset, of which the program has 2560; the theorems ask that the files fit there,
-- or say when they do not. A C string is the list of its bytes before the NUL. The text that goes to
-- putchar is a list; the bytes that getchar polls are one.
--
-- Not modelled: logging, terminal settings, select and signals, init_kvm and the creation of
-- threads, the reading of MSRs for debugging, the guests in assembly; of the 1K OS the entry into a
-- program and the interrupt handler, which are assembly, and the texts of the shell's menu.
pub mod Base
pub mod GuestMem
pub mod Keyboard
pub mod Cpuid
pub mod VcpuSetup
pub mod VcpuMemory
pub mod TarOctal
pub mod Paging32
pub mod Paging64
pub mod Gdt
pub mod Segments
pub mod LinuxBoot
pub mod Machine
pub mod Uart
pub mod Ports
pub mod Hypercall
pub mod Io
pub mod Exit
pub mod Thread
pub mod Os1k
pub mod Options
pub mod Launch
pub mod Tests
