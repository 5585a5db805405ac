-- ===== src/VcpuSetup/Kept.antt =====
-- Where the set-up of a vCPU writes in guest memory.
use mini_kvm.Base.{ℕ, ◌*◌, ◌^◌, ◌<◌, ◌≡◌, refl, ◌∙◌, arith, Bool, true, false}
use mini_kvm.Base.{if◌then◌else◌, List, [], ◌∷◌, Bool-cases, Option-cases, inl, inr}
use mini_kvm.GuestMem.{Mem}
use mini_kvm.GuestMem.Laws.{IsOutside, memset-IsOutside}
use mini_kvm.Gdt.{setup_gdt, setup_idt, setup_linux_boot_gdt, setup_gdt_64bit}
use mini_kvm.Gdt.{setup_linux_boot_gdt_64bit}
use mini_kvm.Gdt.Kept.{
  setup_gdt-IsOutside, setup_linux_boot_gdt-IsOutside, setup_gdt_64bit-IsOutside,
  setup_linux_boot_gdt_64bit-IsOutside,
}
use mini_kvm.Gdt.Vectors.{setup_linux_prot_idt, setup_linux_prot_idt-IsOutside}
use mini_kvm.Paging32.{setup_page_tables}
use mini_kvm.Paging32.Walk.{setup_page_tables-IsOutside}
use mini_kvm.Paging64.{setup_page_tables_64bit}
use mini_kvm.Paging64.Walk.{setup_page_tables_64bit-walk}
use mini_kvm.Segments.{Sregs}
use mini_kvm.VcpuSetup.{
  Kvm, Vm, VcpuConfig, LinuxEntryMode, setup, code32, boot64, Request, Step, ◌and_then◌, write,
  change_sregs, request, get_sregs, set_regs, protected_sregs, set_mp_state_runnable,
  long_mode_sregs, boot64_sregs, linux_boot_params_addr,
}
use mini_kvm.VcpuSetup.{
  setup_cpuid, setup_vcpu_longmode, configure_protected_mode, configure_linux_code32_entry,
  configure_linux_boot64_entry, configure_linux_setup_entry, setup_linux, setup_other,
  setup_vcpu_context, with_page_tables, set_tables_64bit, try_msrs_64bit,
}

-- The tables of each mode: GDT and IDT, and the page tables; with Linux's 32-bit entry its
-- handler, and in Long Mode the GDT is in the last of the four pages.
abbrev pub linux_tables : LinuxEntryMode → List (ℕ × ℕ)
linux_tables setup = []
linux_tables code32 = (0x500, 0x828) ∷ (0x7000, 15) ∷ []
linux_tables boot64 = (0x2000, 0x4000) ∷ []

abbrev pub tables_of : VcpuConfig → List (ℕ × ℕ)
tables_of ctx =
    if ctx.linux_guest
    then linux_tables ctx.linux_entry
    else if ctx.long_mode
    then (0x2000, 0x4000) ∷ []
    else if ctx.use_paging
    then (0x500, 0x828) ∷ (0x100000, 0x3000) ∷ []
    else []

abbrev pub AllOutside : List (ℕ × ℕ) → ℕ → Type 0
AllOutside [] x = Unit
AllOutside ((a, n) ∷ tables) x = IsOutside a n x × AllOutside tables x

module _ (x : ℕ) where
  record KeepsByte (s : Step) : Type 0 where
    same : (vm : Vm) → (s vm).1.mem x ≡ vm.mem x

  request-KeepsByte : (kvm : Kvm) (r : Request) → KeepsByte (request kvm r)
  request-KeepsByte kvm r = record { same = λ vm. refl }

  and_then-KeepsByte :
      (first next : Step) → KeepsByte first → KeepsByte next → KeepsByte (first and_then next)
  unfolding ◌and_then◌
  and_then-KeepsByte first next f g = record {
    same = λ vm. elim (Bool-cases (first vm).0) [
      | inl e ↦ rw e (g.same (first vm).1 ∙ f.same vm)
      | inr e ↦ rw e (f.same vm)
    ];
  }

  change_sregs-KeepsByte : (kvm : Kvm) (f : Sregs → Sregs) → KeepsByte (change_sregs kvm f)
  unfolding change_sregs
  change_sregs-KeepsByte kvm f = record { same = λ vm. refl }

  write-KeepsByte : (f : Mem → Mem) → ((m : Mem) → f m x ≡ m x) → KeepsByte (write f)
  unfolding write
  write-KeepsByte f h = record { same = λ vm. h vm.mem }

  setup_cpuid-KeepsByte : (kvm : Kvm) → KeepsByte (setup_cpuid kvm)
  unfolding setup_cpuid
  setup_cpuid-KeepsByte kvm =
      and_then-KeepsByte _ _ (request-KeepsByte kvm _)
        (and_then-KeepsByte _ _ (request-KeepsByte kvm _) (record { same = λ vm. refl }))

  try_msrs_64bit-KeepsByte : (kvm : Kvm) → KeepsByte (try_msrs_64bit kvm)
  unfolding try_msrs_64bit
  try_msrs_64bit-KeepsByte kvm = record { same = λ vm. refl }

  set_tables_64bit-KeepsByte :
      (mem_size : ℕ) (set_gdt : Mem → ℕ → Mem) (next : ℕ → Step)
      → mem_size < 2 ^ 63
      → IsOutside 0x2000 0x4000 x
      → ((m : Mem) → set_gdt m 0x5000 x ≡ m x)
      → ((cr3 : ℕ) → KeepsByte (next cr3))
      → KeepsByte (set_tables_64bit mem_size set_gdt next)
  set_tables_64bit-KeepsByte mem_size set_gdt next small out g h = record {
    same = λ vm.
        (h (setup_page_tables_64bit vm.mem mem_size).0).same _
        ∙ g _
        ∙ (setup_page_tables_64bit-walk vm.mem mem_size small).1 x out;
  }

  setup_vcpu_longmode-KeepsByte :
      (kvm : Kvm) (ctx : VcpuConfig)
      → ctx.mem_size < 2 ^ 63
      → IsOutside 0x2000 0x4000 x
      → KeepsByte (setup_vcpu_longmode kvm ctx)
  unfolding setup_vcpu_longmode
  setup_vcpu_longmode-KeepsByte kvm ctx small out =
      set_tables_64bit-KeepsByte ctx.mem_size setup_gdt_64bit _ small out
        (λ m. setup_gdt_64bit-IsOutside m x (omega arith))
        (λ cr3. and_then-KeepsByte _ _ (setup_cpuid-KeepsByte kvm) (
          and_then-KeepsByte _ _ (request-KeepsByte kvm get_sregs) (
            and_then-KeepsByte _ _ (change_sregs-KeepsByte kvm (long_mode_sregs cr3)) (
              and_then-KeepsByte _ _
                (request-KeepsByte kvm (
                  set_regs (record {
                    rip = ctx.load_offset;
                    rsp = 0x8000;
                    rbp = 0;
                    rsi = 0;
                    rflags = 0x2;
                  })))
                (try_msrs_64bit-KeepsByte kvm)))))

  configure_linux_boot64_entry-KeepsByte :
      (kvm : Kvm) (ctx : VcpuConfig)
      → ctx.mem_size < 2 ^ 63
      → IsOutside 0x2000 0x4000 x
      → KeepsByte (configure_linux_boot64_entry kvm ctx)
  unfolding configure_linux_boot64_entry
  configure_linux_boot64_entry-KeepsByte kvm ctx small out =
      set_tables_64bit-KeepsByte ctx.mem_size setup_linux_boot_gdt_64bit _ small out
        (λ m. setup_linux_boot_gdt_64bit-IsOutside m x (omega arith))
        (λ cr3. and_then-KeepsByte _ _ (setup_cpuid-KeepsByte kvm) (
          and_then-KeepsByte _ _ (request-KeepsByte kvm get_sregs) (
            and_then-KeepsByte _ _ (change_sregs-KeepsByte kvm (boot64_sregs cr3)) (
              and_then-KeepsByte _ _
                (request-KeepsByte kvm (
                  set_regs (record {
                    rip = ctx.entry_point;
                    rsp = 0x9ff00;
                    rbp = 0;
                    rsi = linux_boot_params_addr;
                    rflags = 0x2;
                  })))
                (and_then-KeepsByte _ _ (try_msrs_64bit-KeepsByte kvm)
                  (request-KeepsByte kvm set_mp_state_runnable))))))

  with_page_tables-KeepsByte :
      (kvm : Kvm) (ctx : VcpuConfig) (vm : Vm)
      → IsOutside 0x100000 0x3000 x
      → (with_page_tables kvm ctx (setup_page_tables ctx.mem_size vm.mem) vm).1.mem x ≡ vm.mem x
  with_page_tables-KeepsByte kvm ctx vm out =
      elim (Option-cases (setup_page_tables ctx.mem_size vm.mem)) [
        | inl small ↦ rw small refl
        | inr ((cr3, m'), e) ↦ rw e (
            (and_then-KeepsByte _ _ (request-KeepsByte kvm get_sregs) (
                and_then-KeepsByte _ _ (change_sregs-KeepsByte kvm (protected_sregs cr3)) (
                  and_then-KeepsByte _ _
                    (request-KeepsByte kvm (
                      set_regs (record {
                        rip = ctx.entry_point;
                        rsp = 0;
                        rbp = 0;
                        rsi = 0;
                        rflags = 0x2;
                      })))
                    (record { same = λ v. refl })))).same
              (record vm { mem = m' })
            ∙ setup_page_tables-IsOutside ctx.mem_size vm.mem cr3 m' x e out)
      ]

  configure_protected_mode-KeepsByte :
      (kvm : Kvm) (ctx : VcpuConfig)
      → IsOutside 0x500 0x828 x
      → IsOutside 0x100000 0x3000 x
      → KeepsByte (configure_protected_mode kvm ctx)
  unfolding configure_protected_mode
  configure_protected_mode-KeepsByte kvm ctx low out =
      and_then-KeepsByte _ _
        (write-KeepsByte setup_gdt (λ m. setup_gdt-IsOutside m x (omega arith)))
        (and_then-KeepsByte _ _
          (write-KeepsByte setup_idt
            (λ m. unfold setup_idt in memset-IsOutside m 0x528 0 (256 * 8) x (omega arith)))
          (record { same = λ vm. with_page_tables-KeepsByte kvm ctx vm out }))

  configure_linux_code32_entry-KeepsByte :
      (kvm : Kvm) (ctx : VcpuConfig) (a : ℕ)
      → IsOutside 0x500 0x828 x
      → IsOutside 0x7000 15 x
      → KeepsByte (configure_linux_code32_entry kvm ctx a)
  unfolding configure_linux_code32_entry
  configure_linux_code32_entry-KeepsByte kvm ctx a low out =
      and_then-KeepsByte _ _
        (write-KeepsByte setup_linux_boot_gdt
          (λ m. setup_linux_boot_gdt-IsOutside m x (omega arith)))
        (and_then-KeepsByte _ _
          (write-KeepsByte setup_linux_prot_idt
            (λ m. setup_linux_prot_idt-IsOutside m x (omega arith) out))
          (and_then-KeepsByte _ _ (request-KeepsByte kvm _) (
            and_then-KeepsByte _ _ (change_sregs-KeepsByte kvm _) (
              and_then-KeepsByte _ _ (setup_cpuid-KeepsByte kvm)
                (and_then-KeepsByte _ _ (request-KeepsByte kvm _) (request-KeepsByte kvm _))))))

  configure_linux_setup_entry-KeepsByte :
      (kvm : Kvm) (ctx : VcpuConfig) → KeepsByte (configure_linux_setup_entry kvm ctx)
  configure_linux_setup_entry-KeepsByte kvm ctx =
      and_then-KeepsByte _ _ (change_sregs-KeepsByte kvm _) (
        and_then-KeepsByte _ _ (setup_cpuid-KeepsByte kvm)
          (and_then-KeepsByte _ _ (request-KeepsByte kvm _) (request-KeepsByte kvm _)))

  module _ (kvm : Kvm) (ctx : VcpuConfig) (small : ctx.mem_size < 2 ^ 63) where
    setup_linux-KeepsByte :
        (mode : LinuxEntryMode)
        → AllOutside (linux_tables mode) x
        → KeepsByte (setup_linux kvm ctx mode)
    setup_linux-KeepsByte setup h = configure_linux_setup_entry-KeepsByte kvm ctx
    setup_linux-KeepsByte code32 h =
        configure_linux_code32_entry-KeepsByte kvm ctx linux_boot_params_addr h.0 h.1.0
    setup_linux-KeepsByte boot64 h = configure_linux_boot64_entry-KeepsByte kvm ctx small h.0

    -- A chain of tests of the mode, by what holds in each branch.
    chosen :
        (b : Bool) (s t : Step) (ts us : List (ℕ × ℕ))
        → (AllOutside ts x → KeepsByte s)
        → (AllOutside us x → KeepsByte t)
        → AllOutside (if b then ts else us) x
        → KeepsByte (if b then s else t)
    chosen true s t ts us f g h = f h
    chosen false s t ts us f g h = g h

    setup_other-KeepsByte :
        AllOutside
          (if ctx.long_mode
            then (0x2000, 0x4000) ∷ []
            else if ctx.use_paging
            then (0x500, 0x828) ∷ (0x100000, 0x3000) ∷ []
            else [])
          x
        → KeepsByte (setup_other kvm ctx)
    setup_other-KeepsByte h = and_then-KeepsByte _ _ (change_sregs-KeepsByte kvm _) (
        and_then-KeepsByte _ _ (setup_cpuid-KeepsByte kvm) (
          and_then-KeepsByte _ _ (request-KeepsByte kvm _) (
            and_then-KeepsByte _ _ (request-KeepsByte kvm _) (
              chosen ctx.long_mode _ _ _ _ (λ t. setup_vcpu_longmode-KeepsByte kvm ctx small t.0)
                (chosen ctx.use_paging _ _ _ _
                  (λ t. configure_protected_mode-KeepsByte kvm ctx t.0 t.1.0)
                  (λ t. write-KeepsByte (λ mem. mem) (λ m. refl)))
                h))))

-- Whatever the host answers, and whether it succeeds or not, the set-up of a vCPU with less than
-- 2^63 bytes of memory changes no byte of it outside the tables of its mode.
pub setup_vcpu_context-kept :
    (kvm : Kvm) (ctx : VcpuConfig) (vm : Vm) (x : ℕ)
    → ctx.mem_size < 2 ^ 63
    → AllOutside (tables_of ctx) x
    → (setup_vcpu_context kvm ctx vm).1.mem x ≡ vm.mem x
unfolding setup_vcpu_context
setup_vcpu_context-kept kvm ctx vm x small h =
    (and_then-KeepsByte x _ _ (request-KeepsByte x kvm _) (
        and_then-KeepsByte x _ _ (request-KeepsByte x kvm _) (
          and_then-KeepsByte x _ _ (request-KeepsByte x kvm _) (
            and_then-KeepsByte x _ _ (request-KeepsByte x kvm _) (
              chosen x kvm ctx small ctx.linux_guest _ _ _ _
                (setup_linux-KeepsByte x kvm ctx small ctx.linux_entry)
                (setup_other-KeepsByte x kvm ctx small) h))))).same
      vm
