-- ===== src/Cpuid/Bits.antt =====
-- The feature bits after `setup_cpuid` has changed an entry.
use mini_kvm.Base.{ℕ, ◌^◌, ◌<◌, ◌≡◌, inl, inr, refl, ap, ◌∙◌, arith}
use mini_kvm.Base.{Bool, false, List, [], ◌∷◌, ◌==◌, ◌||◌, if◌then◌else◌, bit_or, dec_lt}
use mini_kvm.Base.Bits.{bit, bit-or, bit-pow_self, bit-pow_ne}
use mini_kvm.Cpuid.{CpuidEntry, set_flags, modify_entry, feat_edx, feat_ecx, ext_edx, ext_ecx}

unfoldable pub has : List ℕ → ℕ → Bool
has [] k = false
has (j ∷ js) k = j == k || has js k

bit-lt : (a k : ℕ) → bit a k < 2
bit-lt a k = omega arith

set_bit : (reg j k : ℕ) → bit (bit_or reg (2 ^ j)) k ≡ (if j == k then 1 else bit reg k)
set_bit reg j k = elim (dec_lt j k) [
  | yes p ↦ ground (arith, bit-or k reg (2 ^ j), bit-pow_ne j k (inl p), bit-lt reg k)
  | no p ↦ elim (dec_lt k j) [
    | yes q ↦ ground (arith, bit-or k reg (2 ^ j), bit-pow_ne j k (inr q), bit-lt reg k)
    | no q ↦ ground (arith, bit-or k reg (2 ^ j), at_self (omega (arith, p, q)), bit-lt reg k)
  ]
]
  where
    at_self : j ≡ k → bit (2 ^ j) k ≡ 1
    at_self e = ap (λ n. bit (2 ^ j) n) (omega (arith, e)) ∙ bit-pow_self j

set_flags-bit :
    (ks : List ℕ) (reg k : ℕ) → bit (set_flags reg ks) k ≡ (if has ks k then 1 else bit reg k)
unfolding set_flags has
set_flags-bit [] reg k = refl
set_flags-bit (j ∷ ks) reg k =
    set_flags-bit ks (bit_or reg (2 ^ j)) k ∙ ground (arith, set_bit reg j k)

-- The bits that CPUID functions 1 and 0x80000001 must report in EDX and ECX, from the processor's
-- manual: FPU, PSE, TSC, MSR, PAE, APIC, SEP, MTRR, PGE, CMOV, PAT, CLFSH, MMX, FXSR, SSE, SSE2;
-- SYSCALL, NX, 1GB pages, RDTSCP, Long Mode; SSE3, SSSE3, CX16, SSE4.1, SSE4.2, POPCNT; LAHF.
abbrev pub added_edx : ℕ → List ℕ
added_edx f =
    if f == 1
    then 0 ∷ 3 ∷ 4 ∷ 5 ∷ 6 ∷ 9 ∷ 11 ∷ 12 ∷ 13 ∷ 15 ∷ 16 ∷ 19 ∷ 23 ∷ 24 ∷ 25 ∷ 26 ∷ []
    else if f == 0x80000001
    then 11 ∷ 20 ∷ 26 ∷ 27 ∷ 29 ∷ []
    else []

abbrev pub added_ecx : ℕ → List ℕ
added_ecx f =
    if f == 1 then 0 ∷ 9 ∷ 13 ∷ 19 ∷ 20 ∷ 23 ∷ [] else if f == 0x80000001 then 0 ∷ [] else []

-- A changed entry has every bit of EDX and ECX that its function must report, and all its other
-- bits and fields as the host gave them.
pub modify_entry-bits :
    (entry : CpuidEntry) (k : ℕ)
    → let e = modify_entry entry in
      (bit e.edx k ≡ (if has (added_edx entry.function) k then 1 else bit entry.edx k))
      × (bit e.ecx k ≡ (if has (added_ecx entry.function) k then 1 else bit entry.ecx k))
      × (e.function ≡ entry.function)
      × (e.index ≡ entry.index)
      × (e.flags ≡ entry.flags)
      × (e.eax ≡ entry.eax)
      × (e.ebx ≡ entry.ebx)
unfolding modify_entry
modify_entry-bits entry k = ground (
  arith,
  set_flags-bit feat_edx entry.edx k,
  set_flags-bit feat_ecx entry.ecx k,
  set_flags-bit ext_edx entry.edx k,
  set_flags-bit ext_ecx entry.ecx k,
  set_flags-bit [] entry.edx k,
  set_flags-bit [] entry.ecx k,
  nothing k,
)
  where
    nothing : (n : ℕ) → has [] n ≡ false
    nothing n = unfold has in refl
