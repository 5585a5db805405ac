-- ===== src/VcpuMemory.antt =====
-- The memory of a vCPU and the guest binary in it (`setup_vcpu_memory`, `load_guest_binary` of
-- kvm-vmm-x86/src/main.c).
pub mod Laws
use mini_kvm.Base.{
  ℕ, ◌+◌, ◌*◌, Bool, not, ◌||◌, ◌&&◌, ◌==◌, ltb, if◌then◌else◌, Option, none, some, List,
}
use mini_kvm.Base.{length, u64}
use mini_kvm.GuestMem.{Mem, copy_in}
use mini_kvm.VcpuSetup.{VcpuConfig}

-- 256MB for Linux, 4MB with paging, else 256KB.
abbrev pub vcpu_mem_size : VcpuConfig → ℕ
vcpu_mem_size ctx =
    if ctx.linux_guest
    then 256 * 1024 * 1024
    else if ctx.use_paging
    then 4 * 1024 * 1024
    else 256 * 1024

-- `struct kvm_userspace_memory_region`; the host address is the vCPU's own memory.
pub record MemoryRegion : Type 0 where
  pub slot : ℕ
  pub guest_phys_addr : ℕ
  pub memory_size : ℕ

-- Whether the mapping and KVM's request succeed are parameters; the result is the context with
-- its memory size, and the region.
unfoldable pub setup_vcpu_memory :
    (mmap_ok region_ok : Bool) → VcpuConfig → Option (VcpuConfig × MemoryRegion)
setup_vcpu_memory mmap_ok region_ok ctx =
    let size = vcpu_mem_size ctx in
    if mmap_ok && region_ok
    then some (
      record ctx { mem_size = size },
      record { slot = ctx.vcpu_id; guest_phys_addr = u64 (ctx.vcpu_id * size); memory_size = size },
    )
    else none

-- An opened file: its size (`none` where `ftell` fails), and what `fread` gives when it is asked
-- for that many bytes.
pub record BinaryFile : Type 0 where
  pub fsize : Option ℕ
  pub bytes : List ℕ

abbrev pub load_sized : BinaryFile → Mem → ℕ → ℕ → Option ℕ → Option Mem
load_sized f mem mem_size load_offset none = none
load_sized f mem mem_size load_offset (some fsize) =
    if ltb mem_size (u64 (fsize + load_offset)) || not (length f.bytes == fsize)
    then none
    else some (copy_in mem load_offset f.bytes)

-- `none` for a file that cannot be opened, and for -1.
unfoldable pub load_guest_binary : Option BinaryFile → Mem → (mem_size load_offset : ℕ) → Option Mem
load_guest_binary none mem mem_size load_offset = none
load_guest_binary (some f) mem mem_size load_offset = load_sized f mem mem_size load_offset f.fsize
