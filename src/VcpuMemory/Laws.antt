-- ===== src/VcpuMemory/Laws.antt =====
-- The memories of the vCPUs are apart, and a binary that is loaded lies inside one.
use mini_kvm.Base.{ℕ, ◌+◌, ◌*◌, ◌^◌, ◌≤◌, ◌<◌, ◌≡◌, ap, ◌∙◌, sym, arith, Bool, true, false}
use mini_kvm.Base.{some, length, get_or, u64, inl, inr, Option-cases}
use mini_kvm.GuestMem.{Mem, copy_in}
use mini_kvm.GuestMem.Laws.{IsOutside, copy_in-IsOutside, copy_in-inside}
use mini_kvm.VcpuSetup.{VcpuConfig}
use mini_kvm.VcpuMemory.{vcpu_mem_size, MemoryRegion, setup_vcpu_memory, BinaryFile, load_sized}
use mini_kvm.VcpuMemory.{load_guest_binary}

-- What a successful `setup_vcpu_memory` gave.
abbrev region_of : VcpuConfig → MemoryRegion
region_of ctx = record {
  slot = ctx.vcpu_id;
  guest_phys_addr = u64 (ctx.vcpu_id * vcpu_mem_size ctx);
  memory_size = vcpu_mem_size ctx;
}

memory_set :
    (mmap_ok region_ok : Bool) (ctx ctx' : VcpuConfig) (r : MemoryRegion)
    → setup_vcpu_memory mmap_ok region_ok ctx ≡ some (ctx', r)
    → r ≡ region_of ctx
unfolding setup_vcpu_memory
memory_set true true ctx ctx' r h = ground arith
memory_set true false ctx ctx' r h = absurd (ground arith)
memory_set false region_ok ctx ctx' r h = absurd (ground arith)

-- Two of the VMM's four vCPUs that run guests of the same kind get different slots, and the one
-- with the greater number has its memory behind the other's.
pub setup_vcpu_memory-apart :
    (a b c d : Bool) (ctx ctx' ctx₂ ctx₂' : VcpuConfig) (r s : MemoryRegion)
    → setup_vcpu_memory a b ctx ≡ some (ctx', r)
    → setup_vcpu_memory c d ctx₂ ≡ some (ctx₂', s)
    → ctx.linux_guest ≡ ctx₂.linux_guest
    → ctx.use_paging ≡ ctx₂.use_paging
    → ctx.vcpu_id < ctx₂.vcpu_id
    → ctx₂.vcpu_id < 4
    → (r.slot < s.slot) × (r.guest_phys_addr + r.memory_size ≤ s.guest_phys_addr)
setup_vcpu_memory-apart a b c d ctx ctx' ctx₂ ctx₂' r s h k linux paging less small =
    rw (memory_set a b ctx ctx' r h, memory_set c d ctx₂ ctx₂' s k) (less, ground arith)

-- A binary that is loaded has the size that the file reports, lies inside the memory at its
-- offset, and changes nothing else.
pub load_guest_binary-loaded :
    (f : BinaryFile) (mem : Mem) (mem_size load_offset : ℕ) (mem' : Mem)
    → length f.bytes < 2 ^ 63
    → load_offset < 2 ^ 32
    → load_guest_binary (some f) mem mem_size load_offset ≡ some mem'
    → (f.fsize ≡ some (length f.bytes))
      × (load_offset + length f.bytes ≤ mem_size)
      × ((i : ℕ) → i < length f.bytes → mem' (load_offset + i) ≡ get_or f.bytes i 0)
      × ((x : ℕ) → IsOutside load_offset (length f.bytes) x → mem' x ≡ mem x)
unfolding load_guest_binary
load_guest_binary-loaded f mem mem_size load_offset mem' small off h = elim (Option-cases f.fsize) [
  | inl e ↦ absurd (ground (arith, e))
  | inr (n, e) ↦
      (let (whole, fits, same) = sized n (ap (load_sized f mem mem_size load_offset) (sym e) ∙ h) in
        (
          e ∙ ap (λ k. some k) (sym whole),
          fits,
          λ i p.
              ap (λ m. m (load_offset + i)) (sym same) ∙ copy_in-inside mem load_offset f.bytes i p,
          λ x out. ap (λ m. m x) (sym same) ∙ copy_in-IsOutside mem load_offset f.bytes x out,
        ))
]
  where
    sized :
        (n : ℕ)
        → load_sized f mem mem_size load_offset (some n) ≡ some mem'
        → (length f.bytes ≡ n)
          × (load_offset + length f.bytes ≤ mem_size)
          × (copy_in mem load_offset f.bytes ≡ mem')
    sized n k = ground arith
