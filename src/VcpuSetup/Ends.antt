-- ===== src/VcpuSetup/Ends.antt =====
-- How a set-up that succeeds ends: with the steps of its mode, on memory as it was.
use mathlib.Core.Path.{fun_ext}
use mini_kvm.Base.{◌-◌, ◌*◌, ltb}
use mini_kvm.GuestMem.{Mem}
use mini_kvm.Base.{◌≡◌, refl, ap, ◌∙◌, sym, arith, true, false, if◌then◌else◌}
use mini_kvm.Segments.{Sregs}
use mini_kvm.VcpuSetup.Granted.{and_then-ok}
use mini_kvm.VcpuSetup.{Kvm, Vm, VcpuConfig, Step, ◌and_then◌, change_sregs}
use mini_kvm.VcpuSetup.{setup_cpuid, setup_vcpu_context}
use mini_kvm.VcpuSetup.{setup_linux, switch_mode, setup_other}

-- What the processor of a vCPU finds at a guest physical address: its own memory is mapped from
-- vcpu_id * mem_size on (`setup_vcpu_memory`), and `others`, that of the vCPUs before it, lies below.
abbrev pub guest_physical : (others : Mem) → VcpuConfig → Mem → Mem
guest_physical others ctx mem x =
    let start = ctx.vcpu_id * ctx.mem_size in if ltb x start then others x else mem (x - start)

-- For the first vCPU the two agree.
pub guest_physical-first :
    (others : Mem) (ctx : VcpuConfig) (mem : Mem)
    → ctx.vcpu_id ≡ 0
    → guest_physical others ctx mem ≡ mem
guest_physical-first others ctx mem first = fun_ext λ x. rw first (ground arith)

-- Steps that leave guest memory alone.
abbrev pub KeepsMem : Step → Type 0
KeepsMem s = (vm : Vm) → (s vm).1.mem ≡ vm.mem

and_then-KeepsMem :
    (first next : Step) → KeepsMem first → KeepsMem next → KeepsMem (first and_then next)
unfolding ◌and_then◌
and_then-KeepsMem first next f g vm = ground (arith, f vm, g (first vm).1)

pub setup_cpuid-KeepsMem : (kvm : Kvm) → KeepsMem (setup_cpuid kvm)
unfolding setup_cpuid
setup_cpuid-KeepsMem kvm =
    and_then-KeepsMem _ _ (λ vm. refl) (and_then-KeepsMem _ _ (λ vm. refl) (λ vm. refl))

pub change_sregs-KeepsMem : (kvm : Kvm) (f : Sregs → Sregs) → KeepsMem (change_sregs kvm f)
unfolding change_sregs
change_sregs-KeepsMem kvm f vm = refl

-- A successful `first and_then next` ends as `next` does from a state with the same memory.
abbrev pub EndsAs : Step → Step → Vm → Type 0
EndsAs s t vm = (vm' : Vm) × (vm'.mem ≡ vm.mem) × (s vm ≡ t vm')

after :
    (first next last : Step) (vm : Vm)
    → KeepsMem first
    → ((first and_then next) vm).0 ≡ true
    → ((vm' : Vm) → (next vm').0 ≡ true → EndsAs next last vm')
    → EndsAs (first and_then next) last vm
after first next last vm keeps h rest =
    let e = and_then-ok first next vm h in
    let (vm', same, ends) = rest (first vm).1 (ap (λ r. r.0) (sym e) ∙ h) in
    (vm', same ∙ keeps vm, e ∙ ends)

replaced :
    (s t last : Step) (vm : Vm)
    → s ≡ t
    → (s vm).0 ≡ true
    → ((t vm).0 ≡ true → EndsAs t last vm)
    → EndsAs s last vm
replaced s t last vm e h rest =
    let (vm', same, ends) = rest (ap (λ f. (f vm).0) (sym e) ∙ h) in
    (vm', same, ap (λ f. f vm) e ∙ ends)

-- The four requests that come first in every mode.
pub enters :
    (kvm : Kvm) (ctx : VcpuConfig) (last : Step)
    → (if ctx.linux_guest then setup_linux kvm ctx ctx.linux_entry else setup_other kvm ctx) ≡ last
    → (vm : Vm) → (setup_vcpu_context kvm ctx vm).0 ≡ true
    → EndsAs (setup_vcpu_context kvm ctx) last vm
unfolding setup_vcpu_context
enters kvm ctx last branch vm h =
    after _ _ _ vm (λ v. refl) h
      (λ a ha.
        after _ _ _ a (λ v. refl) ha
          (λ b hb.
            after _ _ _ b (λ v. refl) hb
              (λ c hc.
                after _ _ _ c (λ v. refl) hc
                  (λ d hd. replaced _ _ _ d branch hd (λ ok. (d, refl, refl))))))

-- A guest other than Linux ends in the switch of its mode.
module _ (kvm : Kvm) (ctx : VcpuConfig) (last : Step) (mode : switch_mode kvm ctx ≡ last)
    (other : ctx.linux_guest ≡ false) where
  branch :
      (if ctx.linux_guest then setup_linux kvm ctx ctx.linux_entry else setup_other kvm ctx)
      ≡ setup_other kvm ctx
  branch = ap (λ b. if b then setup_linux kvm ctx ctx.linux_entry else setup_other kvm ctx) other

  from_real_mode : (d : Vm) → (setup_other kvm ctx d).0 ≡ true → EndsAs (setup_other kvm ctx) last d
  from_real_mode d hd = after _ _ _ d (change_sregs-KeepsMem kvm _) hd (λ e he.
      after _ _ _ e (setup_cpuid-KeepsMem kvm) he (λ f hf.
        after _ _ _ f (λ v. refl) hf
          (λ g hg.
            after _ _ _ g (λ v. refl) hg
              (λ i hi. replaced _ _ _ i mode hi (λ ok. (i, refl, refl))))))

  pub ends_in :
      (vm : Vm)
      → (setup_vcpu_context kvm ctx vm).0 ≡ true
      → EndsAs (setup_vcpu_context kvm ctx) last vm
  ends_in vm h =
      let (d, same, e) = enters kvm ctx (setup_other kvm ctx) branch vm h in
      let (v, kept, f) = from_real_mode d (ap (λ r. r.0) (sym e) ∙ h) in (v, kept ∙ same, e ∙ f)
