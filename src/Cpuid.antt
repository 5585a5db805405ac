-- ===== src/Cpuid.antt =====
-- kvm-vmm-x86/src/cpuid.c: the feature bits that the VMM adds to the entries KVM supports.
pub mod Bits
use mini_kvm.Base.{ℕ, ◌^◌, List, [], ◌∷◌, ◌==◌, if◌then◌else◌, bit_or, map}

-- `struct kvm_cpuid_entry2`
pub record CpuidEntry : Type 0 where
  pub function : ℕ
  pub index : ℕ
  pub flags : ℕ
  pub eax : ℕ
  pub ebx : ℕ
  pub ecx : ℕ
  pub edx : ℕ

-- `reg |= flag` for each flag, given by its bit number.
unfoldable pub set_flags : ℕ → List ℕ → ℕ
set_flags reg [] = reg
set_flags reg (k ∷ ks) = set_flags (bit_or reg (2 ^ k)) ks

-- FPU, PSE, TSC, MSR, PAE, APIC, SEP, MTRR, PGE, CMOV, PAT, CLFLUSH, MMX, FXSR, SSE, SSE2
abbrev pub feat_edx : List ℕ
feat_edx = 0 ∷ 3 ∷ 4 ∷ 5 ∷ 6 ∷ 9 ∷ 11 ∷ 12 ∷ 13 ∷ 15 ∷ 16 ∷ 19 ∷ 23 ∷ 24 ∷ 25 ∷ 26 ∷ []

-- SSE3, SSSE3, CX16, SSE4.1, SSE4.2, POPCNT
abbrev pub feat_ecx : List ℕ
feat_ecx = 0 ∷ 9 ∷ 13 ∷ 19 ∷ 20 ∷ 23 ∷ []

-- SYSCALL, NX, PDPE1GB, RDTSCP, LM
abbrev pub ext_edx : List ℕ
ext_edx = 11 ∷ 20 ∷ 26 ∷ 27 ∷ 29 ∷ []

-- LAHF
abbrev pub ext_ecx : List ℕ
ext_ecx = 0 ∷ []

unfoldable pub modify_entry : CpuidEntry → CpuidEntry
modify_entry entry =
    if entry.function == 0x1
    then record entry { edx = set_flags entry.edx feat_edx; ecx = set_flags entry.ecx feat_ecx }
    else if entry.function == 0x80000001
    then record entry { edx = set_flags entry.edx ext_edx; ecx = set_flags entry.ecx ext_ecx }
    else entry

pub modify_entries : List CpuidEntry → List CpuidEntry
modify_entries entries = map modify_entry entries
