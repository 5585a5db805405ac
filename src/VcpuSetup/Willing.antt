-- ===== src/VcpuSetup/Willing.antt =====
-- The set-up of a vCPU on a host that refuses nothing.
use mini_kvm.Base.{ℕ, ◌<◌, ◌≡◌, ◌⊎◌, refl, ap, ◌∙◌, arith, Bool, true, false}
use mini_kvm.Base.{List, some, if◌then◌else◌}
use mini_kvm.GuestMem.{Mem}
use mini_kvm.Paging32.Walk.{setup_page_tables-walk}
use mini_kvm.Gdt.{setup_gdt, setup_idt}
use mini_kvm.VcpuSetup.{
  Kvm, Vm, VcpuConfig, Request, Step, request, ◌and_then◌, write, change_sregs,
}
use mini_kvm.Segments.{Sregs}
use mini_kvm.VcpuSetup.{setup_cpuid, try_msrs_64bit}
use mini_kvm.VcpuSetup.{
  setup_vcpu_longmode, with_page_tables, configure_protected_mode, setup_other,
}
use mini_kvm.VcpuSetup.{configure_linux_code32_entry, configure_linux_boot64_entry, setup_linux}
use mini_kvm.VcpuSetup.{setup_vcpu_context, LinuxEntryMode, setup, code32}
use mini_kvm.VcpuSetup.{boot64}
use mini_kvm.VcpuSetup.Granted.{is_set_msrs}

-- A host that refuses nothing but MSRs.
module _ (kvm : Kvm)
    (willing : (log : List Request) (r : Request)
      → is_set_msrs r ≡ false
      → kvm.accepts log r ≡ true) where
  abbrev Succeeds : Step → Type 0
  Succeeds s = (vm : Vm) → (s vm).0 ≡ true

  and_then-Succeeds : (s t : Step) → Succeeds s → Succeeds t → Succeeds (s and_then t)
  unfolding ◌and_then◌
  and_then-Succeeds s t p q vm = ground (arith, p vm, q (s vm).1)

  request-Succeeds : (r : Request) → is_set_msrs r ≡ false → Succeeds (request kvm r)
  request-Succeeds r h vm = willing vm.requests r h

  change_sregs-Succeeds : (f : Sregs → Sregs) → Succeeds (change_sregs kvm f)
  unfolding change_sregs
  change_sregs-Succeeds f vm = willing vm.requests _ refl

  write-Succeeds : (f : Mem → Mem) → Succeeds (write f)
  unfolding write
  write-Succeeds f vm = refl

  setup_cpuid-Succeeds : Succeeds (setup_cpuid kvm)
  unfolding setup_cpuid
  setup_cpuid-Succeeds =
      and_then-Succeeds _ _ (request-Succeeds _ refl)
        (and_then-Succeeds _ _ (request-Succeeds _ refl) (λ vm. willing vm.requests _ refl))

  try_msrs-Succeeds : Succeeds (try_msrs_64bit kvm)
  unfolding try_msrs_64bit
  try_msrs-Succeeds vm = refl

  longmode-Succeeds : (ctx : VcpuConfig) → Succeeds (setup_vcpu_longmode kvm ctx)
  unfolding setup_vcpu_longmode
  longmode-Succeeds ctx vm =
      and_then-Succeeds _ _ setup_cpuid-Succeeds
        (and_then-Succeeds _ _ (request-Succeeds _ refl) (
          and_then-Succeeds _ _ (change_sregs-Succeeds _)
            (and_then-Succeeds _ _ (request-Succeeds _ refl) try_msrs-Succeeds)))
        _

  page_tables-Succeeds :
      (ctx : VcpuConfig) (offset : ℕ) (mem : Mem)
      → Succeeds (with_page_tables kvm ctx (some (offset, mem)))
  page_tables-Succeeds ctx offset mem vm =
      and_then-Succeeds _ _ (request-Succeeds _ refl)
        (and_then-Succeeds _ _ (change_sregs-Succeeds _)
          (and_then-Succeeds _ _ (request-Succeeds _ refl) (λ v. refl)))
        _

  protected_mode-Succeeds :
      (ctx : VcpuConfig) → 0x103000 < ctx.mem_size → Succeeds (configure_protected_mode kvm ctx)
  unfolding configure_protected_mode ◌and_then◌ write
  protected_mode-Succeeds ctx large vm =
      let (m', e, walks, kept) =
        setup_page_tables-walk ctx.mem_size (setup_idt (setup_gdt vm.mem)) large in
      let written = record vm { mem = setup_idt (setup_gdt vm.mem) } in
      ap (λ o. (with_page_tables kvm ctx o written).0) e
      ∙ page_tables-Succeeds ctx 0x100000 m' written

  code32-Succeeds : (ctx : VcpuConfig) (a : ℕ) → Succeeds (configure_linux_code32_entry kvm ctx a)
  unfolding configure_linux_code32_entry
  code32-Succeeds ctx a = and_then-Succeeds _ _ (write-Succeeds _) (
      and_then-Succeeds _ _ (write-Succeeds _) (
        and_then-Succeeds _ _ (request-Succeeds _ refl) (
          and_then-Succeeds _ _ (change_sregs-Succeeds _) (
            and_then-Succeeds _ _ setup_cpuid-Succeeds
              (and_then-Succeeds _ _ (request-Succeeds _ refl) (request-Succeeds _ refl))))))

  boot64-Succeeds : (ctx : VcpuConfig) → Succeeds (configure_linux_boot64_entry kvm ctx)
  unfolding configure_linux_boot64_entry
  boot64-Succeeds ctx vm =
      and_then-Succeeds _ _ setup_cpuid-Succeeds
        (and_then-Succeeds _ _ (request-Succeeds _ refl) (
          and_then-Succeeds _ _ (change_sregs-Succeeds _) (
            and_then-Succeeds _ _ (request-Succeeds _ refl)
              (and_then-Succeeds _ _ try_msrs-Succeeds (request-Succeeds _ refl)))))
        _

  linux-Succeeds :
      (ctx : VcpuConfig) (entry : LinuxEntryMode) → Succeeds (setup_linux kvm ctx entry)
  linux-Succeeds ctx boot64 = boot64-Succeeds ctx
  linux-Succeeds ctx code32 = code32-Succeeds ctx _
  linux-Succeeds ctx setup = and_then-Succeeds _ _ (change_sregs-Succeeds _) (
      and_then-Succeeds _ _ setup_cpuid-Succeeds
        (and_then-Succeeds _ _ (request-Succeeds _ refl) (request-Succeeds _ refl)))

  if-Succeeds :
      (b : Bool) (s t : Step)
      → Succeeds s
      → (b ≡ false → Succeeds t)
      → Succeeds (if b then s else t)
  if-Succeeds true s t p q = p
  if-Succeeds false s t p q = q refl

  paging-Succeeds :
      (ctx : VcpuConfig) (b : Bool)
      → (b ≡ false) ⊎ (0x103000 < ctx.mem_size)
      → Succeeds (if b then configure_protected_mode kvm ctx else write (λ mem. mem))
  paging-Succeeds ctx false room = write-Succeeds _
  paging-Succeeds ctx true room = protected_mode-Succeeds ctx (ground (arith, room))

  -- If the host refuses no request, unless it is the one for the MSRs, the set-up succeeds in
  -- every mode; with 32-bit paging, where the memory has more than 0x103000 bytes.
  pub setup_vcpu_context-willing :
      (ctx : VcpuConfig) (vm : Vm)
      → (ctx.use_paging ≡ false) ⊎ (0x103000 < ctx.mem_size)
      → (setup_vcpu_context kvm ctx vm).0 ≡ true
  unfolding setup_vcpu_context
  setup_vcpu_context-willing ctx vm room =
      and_then-Succeeds _ _ (request-Succeeds _ refl)
        (and_then-Succeeds _ _ (request-Succeeds _ refl) (
          and_then-Succeeds _ _ (request-Succeeds _ refl) (
            and_then-Succeeds _ _ (request-Succeeds _ refl)
              (if-Succeeds ctx.linux_guest _ _ (linux-Succeeds ctx ctx.linux_entry) (λ e. other)))))
        vm
    where
      other : Succeeds (setup_other kvm ctx)
      other = and_then-Succeeds _ _ (change_sregs-Succeeds _) (
          and_then-Succeeds _ _ setup_cpuid-Succeeds (
            and_then-Succeeds _ _ (request-Succeeds _ refl) (
              and_then-Succeeds _ _ (request-Succeeds _ refl) (
                if-Succeeds ctx.long_mode _ _ (longmode-Succeeds ctx)
                  (λ e. paging-Succeeds ctx ctx.use_paging room)))))
