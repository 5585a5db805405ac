-- ===== src/VcpuSetup.antt =====
-- How a vCPU gets its first state: `setup_vcpu_context` and what it calls in
-- kvm-vmm-x86/src/main.c, with `setup_cpuid` (cpuid.c) and `setup_msrs_64bit` (msr.c). The host is
-- a parameter: what it does with each request may depend on all requests before it.
pub mod Host
pub mod Granted
pub mod Willing
pub mod Ends
pub mod Start
pub mod LongStart
pub mod Code32
pub mod Kept
pub use Host.{LinuxEntryMode, setup, code32, boot64, LinuxRsiMode, base, hdr, VcpuConfig, StartRegs}
pub use Host.{MsrEntry, Request, create_vcpu, get_vcpu_mmap_size, mmap_run, get_sregs, calloc_cpuid}
pub use Host.{
  get_supported_cpuid, set_sregs, set_cpuid2, set_regs, set_msrs, set_mp_state_runnable,
  verify_sregs, verify_regs,
}
pub use Host.{Kvm, Vm, Step, request}
unfoldable pub use Host.{◌and_then◌, write, change_sregs}
use mini_kvm.Base.{ℕ, ◌+◌, ◌-◌, ◌*◌, ◌^◌, Bool, true, false, if◌then◌else◌, List, [], ◌∷◌, ◌++◌}
use mini_kvm.Base.{Option, none, some, bit_or, u32}
use mini_kvm.GuestMem.{Mem}
use mini_kvm.Segments.{Sregs, setup_realmode_segments, setup_protectedmode_segments}
use mini_kvm.Segments.{setup_linux_boot_segments, setup_long_mode_segments}
use mini_kvm.Gdt.{
  setup_gdt, setup_idt, setup_linux_boot_gdt, setup_gdt_64bit, gdt_addr, gdt_total_size,
}
use mini_kvm.Gdt.{setup_linux_boot_gdt_64bit, linux_boot_cs, linux_boot_ds}
use mini_kvm.Gdt.Vectors.{setup_linux_prot_idt}
use mini_kvm.Paging32.{setup_page_tables}
use mini_kvm.Paging64.{setup_page_tables_64bit}
use mini_kvm.Cpuid.{CpuidEntry, modify_entries}

unfoldable pub setup_cpuid : Kvm → Step
setup_cpuid kvm =
    request kvm calloc_cpuid
    and_then request kvm get_supported_cpuid
    and_then (λ vm. request kvm (set_cpuid2 (modify_entries (kvm.supported_cpuid vm.requests))) vm)

-- EFER_SCE, EFER_LME, EFER_LMA, EFER_NXE
abbrev pub efer_sce : ℕ
efer_sce = 2 ^ 0

abbrev pub efer_lme : ℕ
efer_lme = 2 ^ 8

abbrev pub efer_lma : ℕ
efer_lma = 2 ^ 10

abbrev pub efer_nxe : ℕ
efer_nxe = 2 ^ 11

-- EFER; STAR, LSTAR, CSTAR, FMASK; FS_BASE, GS_BASE, KERNEL_GS_BASE
abbrev pub long_mode_msrs : List MsrEntry
long_mode_msrs =
    record { index = 0xC0000080; data_value = bit_or (bit_or efer_lme efer_sce) efer_nxe }
    ∷ record { index = 0xC0000081; data_value = 0 }
    ∷ record { index = 0xC0000082; data_value = 0 }
    ∷ record { index = 0xC0000083; data_value = 0 }
    ∷ record { index = 0xC0000084; data_value = 0 }
    ∷ record { index = 0xC0000100; data_value = 0 }
    ∷ record { index = 0xC0000101; data_value = 0 }
    ∷ record { index = 0xC0000102; data_value = 0 }
    ∷ []

-- Both callers go on when the MSRs are refused.
unfoldable pub try_msrs_64bit : Kvm → Step
try_msrs_64bit kvm vm = (true, (request kvm (set_msrs long_mode_msrs) vm).1)

-- The control registers of Long Mode: PAE; PE, ET, NE and PG; LME and LMA.
abbrev pub long_mode_control : Sregs → ℕ → Sregs
long_mode_control sregs cr3 = record sregs {
  cr3 = cr3;
  cr4 = 2 ^ 5;
  cr0 = 2 ^ 0 + 2 ^ 4 + 2 ^ 5 + 2 ^ 31;
  efer = bit_or efer_lme efer_lma;
}

abbrev pub long_mode_gdt : ℕ
long_mode_gdt = 0x5000

-- SELECTOR_KERNEL_CODE_64, SELECTOR_KERNEL_DATA_64
abbrev pub long_mode_sregs : ℕ → Sregs → Sregs
long_mode_sregs cr3 sregs =
    setup_long_mode_segments
      (long_mode_control
        (record sregs {
          gdt = record sregs.gdt { base = long_mode_gdt; limit = 5 * 8 - 1 };
          idt = record sregs.idt { base = 0x6000; limit = 0 };
        })
        cr3)
      0x08 0x10

-- `write` with a result for the requests that follow.
abbrev pub set_tables_64bit : ℕ → (Mem → ℕ → Mem) → (ℕ → Step) → Step
set_tables_64bit mem_size set_gdt next vm =
    let (cr3, mem) = setup_page_tables_64bit vm.mem mem_size in
    next cr3 (record vm { mem = set_gdt mem long_mode_gdt })

unfoldable pub setup_vcpu_longmode : Kvm → VcpuConfig → Step
setup_vcpu_longmode kvm ctx = set_tables_64bit ctx.mem_size setup_gdt_64bit (λ cr3.
    setup_cpuid kvm
    and_then request kvm get_sregs
    and_then change_sregs kvm (long_mode_sregs cr3)
    and_then request kvm
        (set_regs (record { rip = ctx.load_offset; rsp = 0x8000; rbp = 0; rsi = 0; rflags = 0x2 }))
    and_then try_msrs_64bit kvm)

-- GDTR and IDTR of the two 32-bit set-ups.
abbrev pub with_tables : Sregs → Sregs
with_tables sregs = record sregs {
  gdt = record sregs.gdt { base = gdt_addr; limit = gdt_total_size - 1 };
  idt = record sregs.idt { base = gdt_addr + gdt_total_size; limit = 256 * 8 - 1 };
}

abbrev pub protected_sregs : ℕ → Sregs → Sregs
protected_sregs page_dir_offset sregs =
    setup_protectedmode_segments
      (record (with_tables sregs) { cr3 = page_dir_offset; cr0 = 0x80000011; cr4 = 0 })

-- With -v the registers are read back and printed; a failure is passed over.
abbrev pub verified : Bool → List Request
verified true = verify_sregs ∷ verify_regs ∷ []
verified false = []

abbrev pub verify_settings : Bool → Step
verify_settings verbose vm = (true, record vm { requests = vm.requests ++ verified verbose })

abbrev pub with_page_tables : Kvm → VcpuConfig → Option (ℕ × Mem) → Step
with_page_tables kvm ctx none vm = (false, vm)
with_page_tables kvm ctx (some (page_dir_offset, mem)) vm =
    (request kvm get_sregs
        and_then change_sregs kvm (protected_sregs page_dir_offset)
        and_then request kvm
            (set_regs (record { rip = ctx.entry_point; rsp = 0; rbp = 0; rsi = 0; rflags = 0x2 }))
        and_then verify_settings ctx.verbose)
      (record vm { mem = mem })

unfoldable pub configure_protected_mode : Kvm → VcpuConfig → Step
configure_protected_mode kvm ctx =
    write setup_gdt
    and_then write setup_idt
    and_then (λ vm. with_page_tables kvm ctx (setup_page_tables ctx.mem_size vm.mem) vm)

abbrev pub code32_sregs : Sregs → Sregs
code32_sregs sregs =
    setup_linux_boot_segments
      (record (with_tables sregs) { cr0 = 0x11; cr3 = 0; cr4 = 0; efer = 0 })

-- LINUX_BOOT_PARAMS_ADDR
abbrev pub linux_boot_params_addr : ℕ
linux_boot_params_addr = 0x90000

abbrev pub code32_rsi : LinuxRsiMode → ℕ → ℕ
code32_rsi base boot_params_addr = boot_params_addr
code32_rsi hdr boot_params_addr = u32 (boot_params_addr + 0x1f1)

unfoldable pub configure_linux_code32_entry : Kvm → VcpuConfig → ℕ → Step
configure_linux_code32_entry kvm ctx boot_params_addr =
    write setup_linux_boot_gdt
    and_then write setup_linux_prot_idt
    and_then request kvm get_sregs
    and_then change_sregs kvm code32_sregs
    and_then setup_cpuid kvm
    and_then request kvm (
        set_regs (record {
          rip = ctx.entry_point;
          rsp = 0x9ff00;
          rbp = 0;
          rsi = code32_rsi ctx.linux_rsi boot_params_addr;
          rflags = 0x2;
        }))
    and_then request kvm set_mp_state_runnable

abbrev pub boot64_sregs : ℕ → Sregs → Sregs
boot64_sregs cr3 sregs =
    setup_long_mode_segments
      (long_mode_control
        (record sregs {
          gdt = record sregs.gdt { base = long_mode_gdt; limit = 5 * 8 - 1 };
          idt = record sregs.idt { base = 0; limit = 0 };
        })
        cr3)
      linux_boot_cs linux_boot_ds

unfoldable pub configure_linux_boot64_entry : Kvm → VcpuConfig → Step
configure_linux_boot64_entry kvm ctx =
    set_tables_64bit ctx.mem_size setup_linux_boot_gdt_64bit (λ cr3.
      setup_cpuid kvm
      and_then request kvm get_sregs
      and_then change_sregs kvm (boot64_sregs cr3)
      and_then request kvm (
          set_regs (record {
            rip = ctx.entry_point;
            rsp = 0x9ff00;
            rbp = 0;
            rsi = linux_boot_params_addr;
            rflags = 0x2;
          }))
      and_then try_msrs_64bit kvm
      and_then request kvm set_mp_state_runnable)

abbrev pub realmode_sregs : VcpuConfig → Sregs → Sregs
realmode_sregs ctx sregs = setup_realmode_segments sregs ctx.linux_guest ctx.vcpu_id ctx.mem_size

-- The real-mode entry of a Linux guest.
abbrev pub configure_linux_setup_entry : Kvm → VcpuConfig → Step
configure_linux_setup_entry kvm ctx =
    change_sregs kvm
      (λ sregs. realmode_sregs ctx (record sregs { cr0 = 0x10; cr3 = 0; cr4 = 0; efer = 0 }))
    and_then setup_cpuid kvm
    and_then request kvm
        (set_regs (record { rip = 0x200; rsp = 0x9ff00; rbp = 0x9ff00; rsi = 0; rflags = 0x2 }))
    and_then request kvm set_mp_state_runnable

abbrev pub setup_linux : Kvm → VcpuConfig → LinuxEntryMode → Step
setup_linux kvm ctx boot64 = configure_linux_boot64_entry kvm ctx
setup_linux kvm ctx code32 = configure_linux_code32_entry kvm ctx linux_boot_params_addr
setup_linux kvm ctx setup = configure_linux_setup_entry kvm ctx

-- What is set on top of the real-mode state.
abbrev pub switch_mode : Kvm → VcpuConfig → Step
switch_mode kvm ctx =
    if ctx.long_mode
    then setup_vcpu_longmode kvm ctx
    else if ctx.use_paging
    then configure_protected_mode kvm ctx
    else write (λ mem. mem)

abbrev pub setup_other : Kvm → VcpuConfig → Step
setup_other kvm ctx =
    change_sregs kvm (realmode_sregs ctx)
    and_then setup_cpuid kvm
    and_then request kvm (set_regs (record { rip = 0; rsp = 0; rbp = 0; rsi = 0; rflags = 0x2 }))
    and_then request kvm set_mp_state_runnable
    and_then switch_mode kvm ctx

-- On success the context is marked running with no exit counted.
unfoldable pub setup_vcpu_context : Kvm → VcpuConfig → Step
setup_vcpu_context kvm ctx =
    request kvm (create_vcpu ctx.vcpu_id)
    and_then request kvm get_vcpu_mmap_size
    and_then request kvm mmap_run
    and_then request kvm get_sregs
    and_then (if ctx.linux_guest then setup_linux kvm ctx ctx.linux_entry else setup_other kvm ctx)
