-- ===== src/VcpuSetup/Code32.antt =====
-- The state in which a Linux kernel is entered at its 32-bit entry.
use mini_kvm.Base.{ℕ, ◌≤◌, ◌≡◌, refl, sym, ap, ◌∙◌, arith, inl}
use mini_kvm.Base.{true, if◌then◌else◌, List, [], ◌∷◌, ◌++◌}
use mini_kvm.Base.Bits.{bit}
use mini_kvm.GuestMem.{Mem, load}
use mini_kvm.GuestMem.Laws.{load_ext}
use mini_kvm.Cpuid.{CpuidEntry, modify_entries}
use mini_kvm.Gdt.{setup_linux_boot_gdt}
use mini_kvm.Gdt.Descriptor.{decode}
use mini_kvm.Gdt.Tables.{linux_gdt-code, linux_gdt-data}
use mini_kvm.Gdt.Vectors.{setup_linux_prot_idt, setup_linux_prot_idt-IsOutside}
use mini_kvm.Segments.{Sregs, setup_linux_boot_segments}
use mini_kvm.Segments.Agree.{AllFromGdt, AllFromGdt_of_linux}
use mini_kvm.VcpuSetup.Ends.{enters}
use mini_kvm.VcpuSetup.{Kvm, Vm, VcpuConfig, Request, StartRegs, ◌and_then◌, change_sregs}
use mini_kvm.VcpuSetup.{write, set_sregs, set_regs, get_sregs, calloc_cpuid, get_supported_cpuid}
use mini_kvm.VcpuSetup.{set_cpuid2, set_mp_state_runnable, setup_cpuid, setup_vcpu_context}
use mini_kvm.VcpuSetup.{setup_linux, setup_other, configure_linux_code32_entry, code32_sregs}
use mini_kvm.VcpuSetup.{linux_boot_params_addr, code32_rsi, code32}

module _ (kvm : Kvm) (ctx : VcpuConfig) (vm : Vm) where
  abbrev descriptors : Mem
  descriptors = setup_linux_prot_idt (setup_linux_boot_gdt vm.mem)

  abbrev asked : List Request
  asked = vm.requests ++ get_sregs ∷ []

  abbrev final_sregs : Sregs
  final_sregs = code32_sregs (kvm.sregs asked)

  abbrev before_cpuid : List Request
  before_cpuid =
      ((asked ++ set_sregs final_sregs ∷ []) ++ calloc_cpuid ∷ []) ++ get_supported_cpuid ∷ []

  abbrev entries : List CpuidEntry
  entries = modify_entries (kvm.supported_cpuid before_cpuid)

  abbrev final_regs : StartRegs
  final_regs = record {
    rip = ctx.entry_point;
    rsp = 0x9ff00;
    rbp = 0;
    rsi = code32_rsi ctx.linux_rsi linux_boot_params_addr;
    rflags = 0x2;
  }

  abbrev final : Vm
  final = record {
    mem = descriptors;
    requests =
        ((before_cpuid ++ set_cpuid2 entries ∷ []) ++ set_regs final_regs ∷ [])
        ++ set_mp_state_runnable ∷ [];
  }

  configured :
      (configure_linux_code32_entry kvm ctx linux_boot_params_addr vm).0 ≡ true
      → (configure_linux_code32_entry kvm ctx linux_boot_params_addr vm).1 ≡ final
  unfolding configure_linux_code32_entry ◌and_then◌ write change_sregs setup_cpuid
  configured h = ground arith

  gdt_kept :
      (a : ℕ)
      → 0x500 ≤ a
      → a ≤ 0x520
      → load 8 descriptors a ≡ load 8 (setup_linux_boot_gdt vm.mem) a
  gdt_kept a low h = load_ext 8 descriptors (setup_linux_boot_gdt vm.mem) a (λ x p q.
      setup_linux_prot_idt-IsOutside (setup_linux_boot_gdt vm.mem) x (inl (omega arith))
        (inl (omega arith)))

  loaded : AllFromGdt descriptors final_sregs
  loaded =
      AllFromGdt_of_linux descriptors _
        (ap decode (gdt_kept 0x510 (omega arith) (omega arith)) ∙ linux_gdt-code vm.mem)
        (ap decode (gdt_kept 0x518 (omega arith) (omega arith)) ∙ linux_gdt-data vm.mem)

module _ (kvm : Kvm) (ctx : VcpuConfig) (linux : ctx.linux_guest ≡ true)
    (entry : ctx.linux_entry ≡ code32) where
  branch :
      (if ctx.linux_guest then setup_linux kvm ctx ctx.linux_entry else setup_other kvm ctx)
      ≡ configure_linux_code32_entry kvm ctx linux_boot_params_addr
  branch =
      ap (λ b. if b then setup_linux kvm ctx ctx.linux_entry else setup_other kvm ctx) linux
      ∙ ap (setup_linux kvm ctx) entry

-- A Linux kernel whose set-up for the 32-bit entry succeeds starts as its boot protocol wants: in
-- Protected Mode without paging, with interrupts off, at the entry point; CS is selector 0x10;
-- DS, ES and SS are selector 0x18, DS is flat; all six segments are those of the GDT in memory at
-- GDTR; EBP is 0, and ESI has the address of the zero page, or of the header in it if that was
-- asked for.
pub starts_code32 :
    (kvm : Kvm) (ctx : VcpuConfig) (vm : Vm)
    → ctx.linux_guest ≡ true
    → ctx.linux_entry ≡ code32
    → (setup_vcpu_context kvm ctx vm).0 ≡ true
    → let vm' = (setup_vcpu_context kvm ctx vm).1 in
      (earlier : List Request) × (entries : List CpuidEntry) × (sregs : Sregs) × (regs : StartRegs)
      × (vm'.requests
          ≡ (((((earlier ++ set_sregs sregs ∷ []) ++ calloc_cpuid ∷ []) ++ get_supported_cpuid ∷ [])
                ++ set_cpuid2 entries ∷ [])
              ++ set_regs regs ∷ [])
            ++ set_mp_state_runnable ∷ [])
      × (regs.rip ≡ ctx.entry_point)
      × (regs.rbp ≡ 0)
      × (regs.rsi ≡ code32_rsi ctx.linux_rsi 0x90000)
      × (bit regs.rflags 9 ≡ 0)
      × (bit sregs.cr0 0 ≡ 1)
      × (bit sregs.cr0 31 ≡ 0)
      × (sregs.cs.selector ≡ 0x10)
      × (sregs.ds.selector ≡ 0x18)
      × (sregs.es.selector ≡ 0x18)
      × (sregs.ss.selector ≡ 0x18)
      × (sregs.ds.base ≡ 0)
      × (sregs.ds.limit ≡ 0xffffffff)
      × (sregs.gdt.base ≡ 0x500)
      × AllFromGdt vm'.mem sregs
unfolding setup_linux_boot_segments
starts_code32 kvm ctx vm linux entry h =
    let (v, same, ends) =
      enters kvm ctx (configure_linux_code32_entry kvm ctx linux_boot_params_addr)
        (branch kvm ctx linux entry) vm h in
    let done : (setup_vcpu_context kvm ctx vm).1 ≡ final kvm ctx v =
      ap (λ r. r.1) ends ∙ configured kvm ctx v (ap (λ r. r.0) (sym ends) ∙ h) in
    rw done (
      asked kvm ctx v,
      entries kvm ctx v,
      final_sregs kvm ctx v,
      final_regs kvm ctx v,
      refl,
      refl,
      refl,
      refl,
      refl,
      refl,
      refl,
      refl,
      refl,
      refl,
      refl,
      refl,
      refl,
      refl,
      loaded kvm ctx v,
    )
