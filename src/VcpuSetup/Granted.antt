-- ===== src/VcpuSetup/Granted.antt =====
-- What a vCPU set-up that succeeds has asked of the host.
use mini_kvm.Base.{ℕ, ◌≡◌, ◌⊎◌, inl, inr, refl, ap, ◌∙◌, sym, arith, Bool, true, false, Bool-cases}
use mini_kvm.Base.{List, [], ◌∷◌, ◌++◌, append-nil, append_assoc, Option, none, some, if◌then◌else◌}
use mini_kvm.GuestMem.{Mem}
use mini_kvm.VcpuSetup.{
  Kvm, Vm, VcpuConfig, Request, Step, request, ◌and_then◌, write, change_sregs,
}
use mini_kvm.Segments.{Sregs}
use mini_kvm.VcpuSetup.{set_sregs, long_mode_msrs}
use mini_kvm.VcpuSetup.{set_msrs, setup_cpuid, try_msrs_64bit}
use mini_kvm.VcpuSetup.{
  setup_vcpu_longmode, with_page_tables, verify_settings, verified, verify_sregs, verify_regs,
  configure_protected_mode, setup_other,
}
use mini_kvm.VcpuSetup.{configure_linux_code32_entry, configure_linux_boot64_entry, setup_linux}
use mini_kvm.VcpuSetup.{setup_vcpu_context, LinuxEntryMode, setup, code32}
use mini_kvm.VcpuSetup.{boot64}

-- The request for the MSRs of Long Mode.
abbrev pub is_set_msrs : Request → Bool
is_set_msrs (set_msrs entries) = true
is_set_msrs _ = false

-- The requests whose refusal is passed over.
abbrev pub is_passed_over : Request → Bool
is_passed_over (set_msrs entries) = true
is_passed_over verify_sregs = true
is_passed_over verify_regs = true
is_passed_over _ = false

-- A step that succeeds as a whole is its second part, after a first one that succeeded.
pub and_then-ok :
    (first next : Step) (vm : Vm)
    → ((first and_then next) vm).0 ≡ true
    → (first and_then next) vm ≡ next (first vm).1
unfolding ◌and_then◌
and_then-ok first next vm h = elim (Bool-cases (first vm).0) [
  | inl e ↦ ground (arith, e)
  | inr e ↦ absurd (ground (arith, e))
]

and_then-first :
    (first next : Step) (vm : Vm) → ((first and_then next) vm).0 ≡ true → (first vm).0 ≡ true
unfolding ◌and_then◌
and_then-first first next vm h = elim (Bool-cases (first vm).0) [
  | inl e ↦ e
  | inr e ↦ absurd (ground (arith, e))
]

module _ (kvm : Kvm) where
  -- Each of `new`, made one after the other behind `log`, was accepted or may be refused.
  abbrev pub AreGranted : List Request → List Request → Type 0
  AreGranted log [] = Unit
  AreGranted log (r ∷ rs) =
      ((kvm.accepts log r ≡ true) ⊎ (is_passed_over r ≡ true)) × AreGranted (log ++ r ∷ []) rs

  abbrev pub HasGranted : Vm → Vm → Type 0
  HasGranted vm vm' =
      (new : List Request) × (vm'.requests ≡ vm.requests ++ new) × AreGranted vm.requests new

  -- What a step that succeeds has asked.
  abbrev IsHonest : Step → Type 0
  IsHonest s = (vm : Vm) → (s vm).0 ≡ true → HasGranted vm (s vm).1

  AreGranted-append :
      (log xs ys : List Request)
      → AreGranted log xs
      → AreGranted (log ++ xs) ys
      → AreGranted log (xs ++ ys)
  AreGranted-append log [] ys p q = rw⁻¹ (append-nil log) q
  AreGranted-append log (r ∷ xs) ys (p, ps) q =
      (p, AreGranted-append (log ++ r ∷ []) xs ys ps (rw (append_assoc log (r ∷ []) xs) q))

  HasGranted-trans : (a b c : Vm) → HasGranted a b → HasGranted b c → HasGranted a c
  HasGranted-trans a b c (xs, e, p) (ys, f, q) = (
    xs ++ ys,
    f ∙ ap (λ l. l ++ ys) e ∙ append_assoc a.requests xs ys,
    AreGranted-append a.requests xs ys p (rw⁻¹ e q),
  )

  and_then-IsHonest : (s t : Step) → IsHonest s → IsHonest t → IsHonest (s and_then t)
  and_then-IsHonest s t p q vm h =
      let e = and_then-ok s t vm h in
      rw e (
        HasGranted-trans vm (s vm).1 (t (s vm).1).1 (p vm (and_then-first s t vm h))
          (q (s vm).1 (ap (λ r. r.0) (sym e) ∙ h)))

  request-IsHonest : (r : Request) → IsHonest (request kvm r)
  request-IsHonest r vm h = (r ∷ [], refl, (inl h, tt))

  change_sregs-IsHonest : (f : Sregs → Sregs) → IsHonest (change_sregs kvm f)
  unfolding change_sregs
  change_sregs-IsHonest f vm h = request-IsHonest (set_sregs (f (kvm.sregs vm.requests))) vm h

  quiet : (vm vm' : Vm) → vm'.requests ≡ vm.requests → HasGranted vm vm'
  quiet vm vm' e = ([], e ∙ sym (append-nil vm.requests), tt)

  setup_cpuid-IsHonest : IsHonest (setup_cpuid kvm)
  unfolding setup_cpuid
  setup_cpuid-IsHonest =
      and_then-IsHonest _ _ (request-IsHonest _)
        (and_then-IsHonest _ _ (request-IsHonest _) (λ vm h. request-IsHonest _ vm h))

  try_msrs-IsHonest : IsHonest (try_msrs_64bit kvm)
  unfolding try_msrs_64bit
  try_msrs-IsHonest vm h = (set_msrs long_mode_msrs ∷ [], refl, (inr refl, tt))

  longmode-IsHonest : (ctx : VcpuConfig) → IsHonest (setup_vcpu_longmode kvm ctx)
  unfolding setup_vcpu_longmode
  longmode-IsHonest ctx vm h =
      and_then-IsHonest _ _ setup_cpuid-IsHonest
        (and_then-IsHonest _ _ (request-IsHonest _) (
          and_then-IsHonest _ _ (change_sregs-IsHonest _)
            (and_then-IsHonest _ _ (request-IsHonest _) try_msrs-IsHonest)))
        _ h

  verify-IsHonest : (verbose : Bool) → IsHonest (verify_settings verbose)
  verify-IsHonest true vm h = (verified true, refl, (inr refl, (inr refl, tt)))
  verify-IsHonest false vm h = ([], refl, tt)

  page_tables-IsHonest :
      (ctx : VcpuConfig) (o : Option (ℕ × Mem)) → IsHonest (with_page_tables kvm ctx o)
  page_tables-IsHonest ctx none vm h = absurd (ground (arith, h))
  page_tables-IsHonest ctx (some (offset, mem)) vm h =
      and_then-IsHonest _ _ (request-IsHonest _)
        (and_then-IsHonest _ _ (change_sregs-IsHonest _)
          (and_then-IsHonest _ _ (request-IsHonest _) (verify-IsHonest ctx.verbose)))
        _ h

  write-IsHonest : (f : Mem → Mem) → IsHonest (write f)
  unfolding write
  write-IsHonest f vm h = quiet vm (write f vm).1 refl

  protected_mode-IsHonest : (ctx : VcpuConfig) → IsHonest (configure_protected_mode kvm ctx)
  unfolding configure_protected_mode
  protected_mode-IsHonest ctx =
      and_then-IsHonest _ _ (write-IsHonest _)
        (and_then-IsHonest _ _ (write-IsHonest _) (λ vm h. page_tables-IsHonest ctx _ vm h))

  code32-IsHonest : (ctx : VcpuConfig) (a : ℕ) → IsHonest (configure_linux_code32_entry kvm ctx a)
  unfolding configure_linux_code32_entry
  code32-IsHonest ctx a = and_then-IsHonest _ _ (write-IsHonest _) (
      and_then-IsHonest _ _ (write-IsHonest _) (
        and_then-IsHonest _ _ (request-IsHonest _) (
          and_then-IsHonest _ _ (change_sregs-IsHonest _) (
            and_then-IsHonest _ _ setup_cpuid-IsHonest
              (and_then-IsHonest _ _ (request-IsHonest _) (request-IsHonest _))))))

  boot64-IsHonest : (ctx : VcpuConfig) → IsHonest (configure_linux_boot64_entry kvm ctx)
  unfolding configure_linux_boot64_entry
  boot64-IsHonest ctx vm h =
      and_then-IsHonest _ _ setup_cpuid-IsHonest
        (and_then-IsHonest _ _ (request-IsHonest _) (
          and_then-IsHonest _ _ (change_sregs-IsHonest _) (
            and_then-IsHonest _ _ (request-IsHonest _)
              (and_then-IsHonest _ _ try_msrs-IsHonest (request-IsHonest _)))))
        _ h

  linux-IsHonest :
      (ctx : VcpuConfig) (entry : LinuxEntryMode) → IsHonest (setup_linux kvm ctx entry)
  linux-IsHonest ctx boot64 = boot64-IsHonest ctx
  linux-IsHonest ctx code32 = code32-IsHonest ctx _
  linux-IsHonest ctx setup = and_then-IsHonest _ _ (change_sregs-IsHonest _) (
      and_then-IsHonest _ _ setup_cpuid-IsHonest
        (and_then-IsHonest _ _ (request-IsHonest _) (request-IsHonest _)))

  if-IsHonest : (b : Bool) (s t : Step) → IsHonest s → IsHonest t → IsHonest (if b then s else t)
  if-IsHonest true s t p q = p
  if-IsHonest false s t p q = q

  other-IsHonest : (ctx : VcpuConfig) → IsHonest (setup_other kvm ctx)
  other-IsHonest ctx = and_then-IsHonest _ _ (change_sregs-IsHonest _) (
      and_then-IsHonest _ _ setup_cpuid-IsHonest (
        and_then-IsHonest _ _ (request-IsHonest _) (
          and_then-IsHonest _ _ (request-IsHonest _) (
            if-IsHonest ctx.long_mode _ _ (longmode-IsHonest ctx)
              (if-IsHonest ctx.use_paging _ _ (protected_mode-IsHonest ctx) (write-IsHonest _))))))

-- A set-up that succeeds has made only requests that the host accepted, but for the MSRs of
-- Long Mode and the two reads of -v whose answers are only printed, which it may refuse: no other
-- failure is passed over.
pub setup_vcpu_context-granted :
    (kvm : Kvm) (ctx : VcpuConfig) (vm : Vm)
    → (setup_vcpu_context kvm ctx vm).0 ≡ true
    → HasGranted kvm vm (setup_vcpu_context kvm ctx vm).1
unfolding setup_vcpu_context
setup_vcpu_context-granted kvm ctx = and_then-IsHonest kvm _ _ (request-IsHonest kvm _) (
    and_then-IsHonest kvm _ _ (request-IsHonest kvm _) (
      and_then-IsHonest kvm _ _ (request-IsHonest kvm _) (
        and_then-IsHonest kvm _ _ (request-IsHonest kvm _) (
          if-IsHonest kvm ctx.linux_guest _ _ (linux-IsHonest kvm ctx ctx.linux_entry)
            (other-IsHonest kvm ctx)))))
