-- ===== src/Tests/Setup.antt =====
-- The set-up of a vCPU on a host that refuses the MSRs only.
use mini_kvm.VcpuSetup.Ends.{guest_physical}
use mini_kvm.VcpuSetup.{verified}
use mini_kvm.Base.{ℕ, ◌^◌, ◌<◌, ◌≡◌, inr, refl, arith, true, false, not}
use mini_kvm.Base.{List, [], ◌∷◌, ◌++◌}
use mini_kvm.Base.Bits.{bit}
use mini_kvm.Segments.{Segment, Sregs}
use mini_kvm.Segments.Agree.{AllFromGdt}
use mini_kvm.Paging32.Walk.{walk, kernel_map}
use mini_kvm.Cpuid.{CpuidEntry, modify_entry}
use mini_kvm.Cpuid.Bits.{has, modify_entry-bits}
use mini_kvm.VcpuSetup.{Kvm, Vm, VcpuConfig, Request, StartRegs, set_sregs, set_regs, code32, hdr}
use mini_kvm.VcpuSetup.{setup_vcpu_context}
use mini_kvm.Base.{some}
use mini_kvm.VcpuMemory.{BinaryFile}
use mini_kvm.VcpuSetup.Granted.{HasGranted, is_set_msrs, setup_vcpu_context-granted}
use mini_kvm.VcpuSetup.Willing.{setup_vcpu_context-willing}
use mini_kvm.VcpuSetup.Start.{starts_protected}
use mini_kvm.VcpuSetup.LongStart.{starts_long}
use mini_kvm.VcpuSetup.Code32.{starts_code32}
use mini_kvm.VcpuSetup.{calloc_cpuid, get_supported_cpuid, set_cpuid2, set_mp_state_runnable}
use mini_kvm.Base.{inl}
use mini_kvm.VcpuSetup.{set_msrs, long_mode_msrs}
use mini_kvm.Paging64.Walk as Paging64
use mini_kvm.Paging64.Walk.{mapped_end}
use mini_kvm.Gdt.Descriptor.{decode}
use mini_kvm.Gdt.Tables.{code_64}
use mini_kvm.GuestMem.{load}
use mini_kvm.Base.{◌+◌, ◌*◌, ◌/◌, ltb, if◌then◌else◌, some, none}

-- What KVM reports for a vCPU after reset.
abbrev reset_segment : Segment
reset_segment = record {
  base = 0;
  limit = 0xffff;
  selector = 0;
  type = 3;
  present = 1;
  dpl = 0;
  db = 0;
  s = 1;
  l = 0;
  g = 0;
  avl = 0;
  unusable = 0;
}

abbrev reset : Sregs
reset = record {
  cs = reset_segment;
  ds = reset_segment;
  es = reset_segment;
  fs = reset_segment;
  gs = reset_segment;
  ss = reset_segment;
  gdt = record { base = 0; limit = 0xffff };
  idt = record { base = 0; limit = 0xffff };
  cr0 = 0x60000010;
  cr3 = 0;
  cr4 = 0;
  efer = 0;
}

abbrev cpuid : CpuidEntry
cpuid = record { function = 1; index = 0; flags = 0; eax = 0x663; ebx = 0; ecx = 0; edx = 0 }

-- Bit 6 of EDX is PAE.
modify_entry-bits_example :
    let e = modify_entry cpuid in
    (bit e.edx 6 ≡ 1)
    × (bit e.ecx 6 ≡ 0)
    × (e.function ≡ 1)
    × (e.index ≡ 0)
    × (e.flags ≡ 0)
    × (e.eax ≡ 0x663)
    × (e.ebx ≡ 0)
unfolding has
modify_entry-bits_example = modify_entry-bits cpuid 6

abbrev kvm : Kvm
kvm = record {
  accepts = λ log r. not (is_set_msrs r);
  sregs = λ log. reset;
  supported_cpuid = λ log. cpuid ∷ [];
}

kvm_willing : (log : List Request) (r : Request) → is_set_msrs r ≡ false → kvm.accepts log r ≡ true
kvm_willing log r h = ground arith

-- A guest of 4MB with paging.
abbrev ctx : VcpuConfig
ctx = record {
  vcpu_id = 0;
  mem_size = 0x400000;
  use_paging = true;
  long_mode = false;
  entry_point = 0x80001000;
  load_offset = 0x1000;
  linux_guest = false;
  linux_entry = code32;
  linux_rsi = hdr;
  verbose = true;
}

abbrev vm : Vm
vm = record { mem = λ x. 0xcc; requests = [] }

setup_vcpu_context-willing_example : (setup_vcpu_context kvm ctx vm).0 ≡ true
setup_vcpu_context-willing_example =
    setup_vcpu_context-willing kvm kvm_willing ctx vm (inr (omega arith))

setup_vcpu_context-granted_example : HasGranted kvm vm (setup_vcpu_context kvm ctx vm).1
setup_vcpu_context-granted_example =
    setup_vcpu_context-granted kvm ctx vm
      (setup_vcpu_context-willing kvm kvm_willing ctx vm (inr (omega arith)))

starts_protected_example :
    let vm' = (setup_vcpu_context kvm ctx vm).1 in
    (earlier : List Request) × (sregs : Sregs) × (regs : StartRegs) × (vm'.requests
      ≡ ((earlier ++ set_sregs sregs ∷ []) ++ set_regs regs ∷ []) ++ verified true)
    × (regs.rip ≡ 0x80001000)
    × (bit sregs.cr0 0 ≡ 1)
    × (bit sregs.cr0 31 ≡ 1)
    × (sregs.gdt.base ≡ 0x500)
    × AllFromGdt (guest_physical (λ x. 7) ctx vm'.mem) sregs
    × ((va : ℕ)
        → va < 2 ^ 32
        → walk (guest_physical (λ x. 7) ctx vm'.mem) sregs.cr3 va ≡ kernel_map va)
starts_protected_example =
    starts_protected kvm ctx vm (λ x. 7) refl refl refl refl (omega arith)
      (setup_vcpu_context-willing kvm kvm_willing ctx vm (inr (omega arith)))

abbrev second : VcpuConfig
second = record ctx { vcpu_id = 1 }

abbrev binary : BinaryFile
binary = record { fsize = some 3; bytes = 0xB0 ∷ 0x00 ∷ 0xF4 ∷ [] }

-- A guest of 4MB in Long Mode.
abbrev long_ctx : VcpuConfig
long_ctx = record ctx { long_mode = true }

starts_long_example :
    let vm' = (setup_vcpu_context kvm long_ctx vm).1 in
    (earlier : List Request) × (sregs : Sregs) × (regs : StartRegs) × (vm'.requests
      ≡ ((earlier ++ set_sregs sregs ∷ []) ++ set_regs regs ∷ []) ++ set_msrs long_mode_msrs ∷ [])
    × (regs.rip ≡ 0x1000)
    × (bit sregs.cr0 0 ≡ 1)
    × (bit sregs.cr0 31 ≡ 1)
    × (bit sregs.cr4 5 ≡ 1)
    × (bit sregs.efer 8 ≡ 1)
    × (bit sregs.efer 10 ≡ 1)
    × (sregs.cs.l ≡ 1)
    × (decode (
          load 8
            (guest_physical (λ x. 7) long_ctx vm'.mem)
            (sregs.gdt.base + sregs.cs.selector / 8 * 8))
        ≡ code_64)
    × ((va : ℕ)
        → va < 2 ^ 48
        → Paging64.walk (guest_physical (λ x. 7) long_ctx vm'.mem) sregs.cr3 va
          ≡ (if ltb va (mapped_end 0x400000) then some va else none))
starts_long_example =
    starts_long kvm long_ctx vm (λ x. 7) refl refl refl (omega arith)
      (setup_vcpu_context-willing kvm kvm_willing long_ctx vm (inr (omega arith)))

-- A Linux kernel that is entered at 1MB.
abbrev linux_ctx : VcpuConfig
linux_ctx = record ctx { use_paging = false; linux_guest = true; entry_point = 0x100000 }

starts_code32_example :
    let vm' = (setup_vcpu_context kvm linux_ctx vm).1 in
    (earlier : List Request) × (entries : List CpuidEntry) × (sregs : Sregs) × (regs : StartRegs)
    × (vm'.requests
        ≡ (((((earlier ++ set_sregs sregs ∷ []) ++ calloc_cpuid ∷ []) ++ get_supported_cpuid ∷ [])
              ++ set_cpuid2 entries ∷ [])
            ++ set_regs regs ∷ [])
          ++ set_mp_state_runnable ∷ [])
    × (regs.rip ≡ 0x100000)
    × (regs.rbp ≡ 0)
    × (regs.rsi ≡ 0x901f1)
    × (bit regs.rflags 9 ≡ 0)
    × (bit sregs.cr0 0 ≡ 1)
    × (bit sregs.cr0 31 ≡ 0)
    × (sregs.cs.selector ≡ 0x10)
    × (sregs.ds.selector ≡ 0x18)
    × (sregs.es.selector ≡ 0x18)
    × (sregs.ss.selector ≡ 0x18)
    × (sregs.ds.base ≡ 0)
    × (sregs.ds.limit ≡ 0xffffffff)
    × (sregs.gdt.base ≡ 0x500)
    × AllFromGdt vm'.mem sregs
starts_code32_example =
    starts_code32 kvm linux_ctx vm refl refl
      (setup_vcpu_context-willing kvm kvm_willing linux_ctx vm (inl refl))
