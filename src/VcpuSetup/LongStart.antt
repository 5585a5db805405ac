-- ===== src/VcpuSetup/LongStart.antt =====
-- The state in which a Long Mode guest starts.
use mini_kvm.Base.{ℕ, ◌+◌, ◌*◌, ◌/◌, ◌^◌, ◌<◌, ◌≤◌, ◌≡◌, refl, sym, ap, ◌∙◌, arith, inl}
use mini_kvm.Base.{true, false, ltb, if◌then◌else◌, List, [], ◌∷◌, ◌++◌, some, none}
use mini_kvm.Base.Bits.{bit}
use mini_kvm.GuestMem.{Mem, load}
use mini_kvm.GuestMem.Laws.{load_ext}
use mini_kvm.Gdt.{setup_gdt_64bit}
use mini_kvm.Gdt.Descriptor.{decode}
use mini_kvm.Gdt.Tables.{code_64, setup_gdt_64bit-code}
use mini_kvm.Gdt.Kept.{setup_gdt_64bit-IsOutside}
use mini_kvm.Segments.{Sregs, setup_long_mode_segments}
use mini_kvm.Paging64.{identity_tables, setup_page_tables_64bit}
use mini_kvm.Paging64.Walk.{walk, mapped_end, identity_walk}
use mini_kvm.Base.{subst}
use mini_kvm.VcpuSetup.Ends.{guest_physical, guest_physical-first}
use mini_kvm.VcpuSetup.Granted.{and_then-ok}
use mini_kvm.VcpuSetup.Ends.{ends_in, setup_cpuid-KeepsMem}
use mini_kvm.VcpuSetup.{Kvm, Vm, VcpuConfig, Request, Step, StartRegs, ◌and_then◌, change_sregs}
use mini_kvm.VcpuSetup.{request, set_sregs, set_regs, get_sregs, set_msrs, setup_cpuid}
use mini_kvm.VcpuSetup.{setup_vcpu_context, setup_vcpu_longmode, switch_mode, try_msrs_64bit}
use mini_kvm.VcpuSetup.{configure_protected_mode, write, long_mode_sregs, long_mode_msrs}

module _ (kvm : Kvm) (ctx : VcpuConfig) (vm : Vm) where
  abbrev tables : Mem
  tables = identity_tables ctx.mem_size vm.mem

  abbrev with_gdt : Vm
  with_gdt = record vm { mem = setup_gdt_64bit tables 0x5000 }

  abbrev told : Vm
  told = (setup_cpuid kvm with_gdt).1

  abbrev asked : List Request
  asked = told.requests ++ get_sregs ∷ []

  abbrev final_sregs : Sregs
  final_sregs = long_mode_sregs 0x2000 (kvm.sregs asked)

  abbrev final_regs : StartRegs
  final_regs = record { rip = ctx.load_offset; rsp = 0x8000; rbp = 0; rsi = 0; rflags = 0x2 }

  abbrev final : Vm
  final = record {
    mem = told.mem;
    requests =
        ((asked ++ set_sregs final_sregs ∷ []) ++ set_regs final_regs ∷ [])
        ++ set_msrs long_mode_msrs ∷ [];
  }

  abbrev rest : Step
  rest =
      request kvm get_sregs
      and_then change_sregs kvm (long_mode_sregs 0x2000)
      and_then request kvm (set_regs final_regs)
      and_then try_msrs_64bit kvm

  finished : (rest told).0 ≡ true → (rest told).1 ≡ final
  unfolding ◌and_then◌ change_sregs try_msrs_64bit
  finished h = ground arith

  configured :
      (setup_vcpu_longmode kvm ctx vm).0 ≡ true → (setup_vcpu_longmode kvm ctx vm).1 ≡ final
  unfolding setup_vcpu_longmode setup_page_tables_64bit
  configured h =
      let e = and_then-ok (setup_cpuid kvm) rest with_gdt h in
      ap (λ r. r.1) e ∙ finished (ap (λ r. r.0) (sym e) ∙ h)

  told-mem : told.mem ≡ setup_gdt_64bit tables 0x5000
  told-mem = setup_cpuid-KeepsMem kvm with_gdt

  tables_kept : (b : ℕ) → b + 8 ≤ 0x5000 → load 8 told.mem b ≡ load 8 tables b
  tables_kept b h =
      ap (λ m. load 8 m b) told-mem
      ∙ load_ext 8 (setup_gdt_64bit tables 0x5000) tables b
          (λ x p q. setup_gdt_64bit-IsOutside tables x (inl (omega arith)))

module _ (kvm : Kvm) (ctx : VcpuConfig) (long : ctx.long_mode ≡ true)
    (other : ctx.linux_guest ≡ false) where
  mode : switch_mode kvm ctx ≡ setup_vcpu_longmode kvm ctx
  mode =
      ap
        (λ b.
          if b
          then setup_vcpu_longmode kvm ctx
          else if ctx.use_paging
          then configure_protected_mode kvm ctx
          else write (λ mem. mem))
        long

-- The Long Mode guest of the first vCPU, with less than 2^63 bytes of memory, whose set-up succeeds,
-- starts at its load offset in 64-bit mode: protection, paging, PAE and both Long Mode bits of EFER
-- are on, CS names a 64-bit code segment in the GDT that the processor finds at GDTR in guest
-- physical memory, and CR3 gives there the identity map of the guest's memory, up to 1GB, and
-- nothing else, whatever the other vCPUs' memory holds. The MSRs are asked for last, and need not
-- be granted.
pub starts_long :
    (kvm : Kvm) (ctx : VcpuConfig) (vm : Vm) (others : Mem)
    → ctx.vcpu_id ≡ 0
    → ctx.long_mode ≡ true
    → ctx.linux_guest ≡ false
    → ctx.mem_size < 2 ^ 63
    → (setup_vcpu_context kvm ctx vm).0 ≡ true
    → let vm' = (setup_vcpu_context kvm ctx vm).1 in
      (earlier : List Request) × (sregs : Sregs) × (regs : StartRegs) × (vm'.requests
        ≡ ((earlier ++ set_sregs sregs ∷ []) ++ set_regs regs ∷ []) ++ set_msrs long_mode_msrs ∷ [])
      × (regs.rip ≡ ctx.load_offset)
      × (bit sregs.cr0 0 ≡ 1)
      × (bit sregs.cr0 31 ≡ 1)
      × (bit sregs.cr4 5 ≡ 1)
      × (bit sregs.efer 8 ≡ 1)
      × (bit sregs.efer 10 ≡ 1)
      × (sregs.cs.l ≡ 1)
      × (decode (
            load 8 (guest_physical others ctx vm'.mem) (sregs.gdt.base + sregs.cs.selector / 8 * 8))
          ≡ code_64)
      × ((va : ℕ)
          → va < 2 ^ 48
          → walk (guest_physical others ctx vm'.mem) sregs.cr3 va
            ≡ (if ltb va (mapped_end ctx.mem_size) then some va else none))
unfolding setup_long_mode_segments
starts_long kvm ctx vm others first long other small h =
    let (v, same, ends) =
      ends_in kvm ctx (setup_vcpu_longmode kvm ctx) (mode kvm ctx long other) other vm h in
    let ok : (setup_vcpu_longmode kvm ctx v).0 ≡ true = ap (λ r. r.0) (sym ends) ∙ h in
    let done : (setup_vcpu_context kvm ctx vm).1 ≡ final kvm ctx v =
      ap (λ r. r.1) ends ∙ configured kvm ctx v ok in
    let own = sym (guest_physical-first others ctx (final kvm ctx v).mem first) in
    rw done (
      asked kvm ctx v,
      final_sregs kvm ctx v,
      final_regs kvm ctx v,
      refl,
      refl,
      refl,
      refl,
      refl,
      refl,
      refl,
      refl,
      subst (λ m. decode (load 8 m 0x5008) ≡ code_64) own
          (ap (λ m. decode (load 8 m 0x5008)) (told-mem kvm ctx v)
            ∙ setup_gdt_64bit-code (tables kvm ctx v)),
      subst
          (λ m.
            (va : ℕ)
            → va < 2 ^ 48
            → walk m 0x2000 va ≡ (if ltb va (mapped_end ctx.mem_size) then some va else none))
          own (identity_walk v.mem ctx.mem_size (told kvm ctx v).mem (tables_kept kvm ctx v) small),
    )
