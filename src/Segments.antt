-- ===== src/Segments.antt =====
-- The segment registers that kvm-vmm-x86/src/main.c hands to KVM (`struct kvm_segment` and the
-- part of `struct kvm_sregs` that the VMM sets; the rest of that structure is passed back as KVM
-- gave it).
pub mod Agree
pub mod RealMode
use mini_kvm.Base.{ℕ, ◌*◌, ◌/◌, Bool, if◌then◌else◌, u16, u64}
use mini_kvm.Gdt.{linux_boot_cs, linux_boot_ds}

pub record Segment : Type 0 where
  pub base : ℕ
  pub limit : ℕ
  pub selector : ℕ
  pub type : ℕ
  pub present : ℕ
  pub dpl : ℕ
  pub db : ℕ
  pub s : ℕ
  pub l : ℕ
  pub g : ℕ
  pub avl : ℕ
  pub unusable : ℕ

pub record DescriptorTable : Type 0 where
  pub base : ℕ
  pub limit : ℕ

pub record Sregs : Type 0 where
  pub cs : Segment
  pub ds : Segment
  pub es : Segment
  pub fs : Segment
  pub gs : Segment
  pub ss : Segment
  pub gdt : DescriptorTable
  pub idt : DescriptorTable
  pub cr0 : ℕ
  pub cr3 : ℕ
  pub cr4 : ℕ
  pub efer : ℕ

-- `sregs->es = sregs->fs = sregs->gs = sregs->ss = sregs->ds` behind new CS and DS.
abbrev pub with_segments : Sregs → Segment → Segment → Sregs
with_segments sregs cs ds = record sregs { cs = cs; ds = ds; es = ds; fs = ds; gs = ds; ss = ds }

-- A 16-bit segment of 64KB.
abbrev pub real_segment : Segment → ℕ → ℕ → ℕ → Segment
real_segment old base selector type = record old {
  base = base;
  selector = selector;
  limit = 0xFFFF;
  type = type;
  present = 1;
  dpl = 0;
  db = 0;
  s = 1;
  l = 0;
  g = 0;
  avl = 0;
}

-- A flat segment of 4GB.
abbrev pub flat_segment : Segment → ℕ → ℕ → ℕ → ℕ → Segment
flat_segment old selector type db l = record old {
  base = 0;
  limit = 0xFFFF_FFFF;
  selector = selector;
  type = type;
  present = 1;
  dpl = 0;
  db = db;
  s = 1;
  l = l;
  g = 1;
  avl = 0;
}

-- REAL_MODE_KERNEL_ADDR
abbrev pub real_mode_kernel_addr : ℕ
real_mode_kernel_addr = 0x10000

-- `uint16_t cs_value = ctx->vcpu_id * (ctx->mem_size / 16)`
abbrev pub cs_value : ℕ → ℕ → ℕ
cs_value vcpu_id mem_size = u16 (u64 (vcpu_id * (mem_size / 16)))

-- The arguments are the fields of the context that the function reads.
pub setup_realmode_segments : Sregs → (linux_guest : Bool) (vcpu_id mem_size : ℕ) → Sregs
setup_realmode_segments sregs linux_guest vcpu_id mem_size =
    let kernel_seg = u16 (real_mode_kernel_addr / 16) in
    let cs_value = cs_value vcpu_id mem_size in
    if linux_guest
    then with_segments sregs (real_segment sregs.cs real_mode_kernel_addr kernel_seg 0x9b)
        (real_segment sregs.ds real_mode_kernel_addr kernel_seg 0x93)
    else with_segments sregs (real_segment sregs.cs (cs_value * 16) cs_value 0x9b)
        (real_segment sregs.ds (cs_value * 16) cs_value 0x93)

unfoldable pub setup_protectedmode_segments : Sregs → Sregs
setup_protectedmode_segments sregs =
    with_segments sregs (flat_segment sregs.cs 0x08 0x0a 1 0) (flat_segment sregs.ds 0x10 0x02 1 0)

unfoldable pub setup_linux_boot_segments : Sregs → Sregs
setup_linux_boot_segments sregs =
    with_segments sregs (flat_segment sregs.cs linux_boot_cs 0x0a 1 0)
      (flat_segment sregs.ds linux_boot_ds 0x02 1 0)

-- The 64-bit segments of `setup_vcpu_longmode` and `configure_linux_boot64_entry`.
unfoldable pub setup_long_mode_segments : Sregs → ℕ → ℕ → Sregs
setup_long_mode_segments sregs code data_selector =
    with_segments sregs (flat_segment sregs.cs code 0xb 0 1)
      (flat_segment sregs.ds data_selector 0x3 1 0)
