-- ===== src/VcpuSetup/Start.antt =====
-- The state in which a Protected Mode guest with paging starts.
use mini_kvm.Base.{
  ℕ, ◌^◌, ◌≤◌, ◌<◌, ◌≡◌, refl, ap, ◌∙◌, sym, arith, Bool, true, false, if◌then◌else◌,
}
use mini_kvm.Base.{List, [], ◌∷◌, ◌++◌, Option, some, inl}
use mini_kvm.Base.Bits.{bit}
use mini_kvm.GuestMem.{Mem, load}
use mini_kvm.GuestMem.Laws.{IsOutside, load_ext, load-memset-IsOutside}
use mini_kvm.Gdt.{setup_gdt, setup_idt}
use mini_kvm.Segments.{Sregs, setup_protectedmode_segments}
use mini_kvm.Segments.Agree.{AllFromGdt, AllFromGdt_of}
use mini_kvm.Gdt.Descriptor.{decode}
use mini_kvm.Gdt.Tables.{setup_gdt-code, setup_gdt-data}
use mini_kvm.Paging32.{setup_page_tables}
use mini_kvm.Paging32.Walk.{walk, kernel_map, setup_page_tables-walk}
use mini_kvm.VcpuSetup.Ends.{EndsAs, ends_in, guest_physical, guest_physical-first}
use mini_kvm.VcpuSetup.{verified}
use mini_kvm.Base.{subst}
use mini_kvm.VcpuSetup.{Kvm, Vm, VcpuConfig, Request, StartRegs, ◌and_then◌, write, change_sregs}
use mini_kvm.VcpuSetup.{set_sregs, set_regs, get_sregs}
use mini_kvm.VcpuSetup.{setup_vcpu_context, configure_protected_mode}
use mini_kvm.VcpuSetup.{setup_vcpu_longmode, switch_mode, with_page_tables, protected_sregs}

module _ (kvm : Kvm) (ctx : VcpuConfig) (paging : ctx.use_paging ≡ true)
    (short : ctx.long_mode ≡ false) (other : ctx.linux_guest ≡ false) where
  mode : switch_mode kvm ctx ≡ configure_protected_mode kvm ctx
  mode =
      ap
        (λ b.
          if b
          then setup_vcpu_longmode kvm ctx
          else if ctx.use_paging
          then configure_protected_mode kvm ctx
          else write (λ mem. mem))
        short
      ∙ ap (λ b. if b then configure_protected_mode kvm ctx else write (λ mem. mem)) paging

  ends_protected :
      (vm : Vm)
      → (setup_vcpu_context kvm ctx vm).0 ≡ true
      → EndsAs (setup_vcpu_context kvm ctx) (configure_protected_mode kvm ctx) vm
  ends_protected = ends_in kvm ctx (configure_protected_mode kvm ctx) mode other

-- What a successful `configure_protected_mode` leaves.
module _ (kvm : Kvm) (ctx : VcpuConfig) (large : 0x103000 < ctx.mem_size) (vm : Vm) where
  abbrev descriptors : Mem
  descriptors = setup_idt (setup_gdt vm.mem)

  abbrev tables :
      (m' : Mem) × (setup_page_tables ctx.mem_size descriptors ≡ some (0x00100000, m'))
      × ((va : ℕ) → va < 2 ^ 32 → walk m' 0x00100000 va ≡ kernel_map va)
      × ((x : ℕ) → IsOutside 0x00100000 0x3000 x → m' x ≡ descriptors x)
  tables = setup_page_tables-walk ctx.mem_size descriptors large

  abbrev asked : List Request
  asked = vm.requests ++ get_sregs ∷ []

  abbrev final_sregs : Sregs
  final_sregs = protected_sregs 0x00100000 (kvm.sregs asked)

  abbrev final_regs : StartRegs
  final_regs = record { rip = ctx.entry_point; rsp = 0; rbp = 0; rsi = 0; rflags = 0x2 }

  abbrev final : Vm
  final = record {
    mem = tables.0;
    requests =
        ((asked ++ set_sregs final_sregs ∷ []) ++ set_regs final_regs ∷ []) ++ verified ctx.verbose;
  }

  abbrev from_tables : Option (ℕ × Mem) → Bool × Vm
  from_tables o = with_page_tables kvm ctx o (record { mem = descriptors; requests = vm.requests })

  finished :
      (from_tables (some (0x00100000, tables.0))).0 ≡ true
      → (from_tables (some (0x00100000, tables.0))).1 ≡ final
  unfolding ◌and_then◌ change_sregs
  finished h = ground arith

  configured :
      (configure_protected_mode kvm ctx vm).0 ≡ true
      → (configure_protected_mode kvm ctx vm).1 ≡ final
  unfolding configure_protected_mode ◌and_then◌ write
  configured h =
      ap (λ o. (from_tables o).1) tables.1
      ∙ finished (ap (λ o. (from_tables o).0) (sym tables.1) ∙ h)

  gdt_kept : (a : ℕ) → a ≤ 0x520 → load 8 tables.0 a ≡ load 8 (setup_gdt vm.mem) a
  unfolding setup_idt
  gdt_kept a h =
      load_ext 8 tables.0 descriptors a (λ x p q. tables.3 x (omega arith))
      ∙ load-memset-IsOutside 8 (setup_gdt vm.mem) 0x528 0 2048 a (inl (omega arith))

  loaded : AllFromGdt tables.0 final_sregs
  loaded =
      AllFromGdt_of tables.0 _ (ap decode (gdt_kept 0x508 (omega arith)) ∙ setup_gdt-code vm.mem)
        (ap decode (gdt_kept 0x510 (omega arith)) ∙ setup_gdt-data vm.mem)

-- The guest of the first vCPU, with 32-bit paging and more than 0x103000 bytes of memory, whose
-- set-up succeeds, starts at its entry point in a consistent machine: the requests end with those
-- that load the segment registers and the general ones, and with -v the two that read them back;
-- paging and protection are on, the segments are those of the GDT that the processor finds at GDTR
-- in guest physical memory, and CR3 gives there the address map that the kernel expects. This holds
-- whatever the memory held, whatever the host answered, and whatever the other vCPUs' memory holds.
pub starts_protected :
    (kvm : Kvm) (ctx : VcpuConfig) (vm : Vm) (others : Mem)
    → ctx.vcpu_id ≡ 0
    → ctx.use_paging ≡ true
    → ctx.long_mode ≡ false
    → ctx.linux_guest ≡ false
    → 0x103000 < ctx.mem_size
    → (setup_vcpu_context kvm ctx vm).0 ≡ true
    → let vm' = (setup_vcpu_context kvm ctx vm).1 in
      (earlier : List Request) × (sregs : Sregs) × (regs : StartRegs) × (vm'.requests
        ≡ ((earlier ++ set_sregs sregs ∷ []) ++ set_regs regs ∷ []) ++ verified ctx.verbose)
      × (regs.rip ≡ ctx.entry_point)
      × (bit sregs.cr0 0 ≡ 1)
      × (bit sregs.cr0 31 ≡ 1)
      × (sregs.gdt.base ≡ 0x500)
      × AllFromGdt (guest_physical others ctx vm'.mem) sregs
      × ((va : ℕ)
          → va < 2 ^ 32
          → walk (guest_physical others ctx vm'.mem) sregs.cr3 va ≡ kernel_map va)
unfolding setup_protectedmode_segments
starts_protected kvm ctx vm others first paging short other large h =
    let (v, same, ends) = ends_protected kvm ctx paging short other vm h in
    let ok : (configure_protected_mode kvm ctx v).0 ≡ true = ap (λ r. r.0) (sym ends) ∙ h in
    let done : (setup_vcpu_context kvm ctx vm).1 ≡ final kvm ctx large v =
      ap (λ r. r.1) ends ∙ configured kvm ctx large v ok in
    let own = sym (guest_physical-first others ctx (final kvm ctx large v).mem first) in
    rw done (
      asked kvm ctx large v,
      final_sregs kvm ctx large v,
      final_regs kvm ctx large v,
      refl,
      refl,
      refl,
      refl,
      refl,
      subst (λ m. AllFromGdt m (final_sregs kvm ctx large v)) own (loaded kvm ctx large v),
      subst (λ m. (va : ℕ) → va < 2 ^ 32 → walk m 0x00100000 va ≡ kernel_map va) own
          (tables kvm ctx large v).2,
    )
