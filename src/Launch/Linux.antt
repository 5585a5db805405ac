-- ===== src/Launch/Linux.antt =====
-- The start of a Linux kernel (`main`, kvm-vmm-x86/src/main.c): its memory, the image, the zero
-- page, the initial RAM disk, the command line and the vCPU, in this order. The zero page is the
-- part of guest memory at LINUX_BOOT_PARAMS_ADDR; none of the files is read to there.
pub mod Memory
pub mod Final
pub mod HandOver
use mini_kvm.Base.{ℕ, ◌+◌, ◌-◌, ◌==◌, ltb, leb, Bool, true, false, ◌&&◌, not, if◌then◌else◌}
use mini_kvm.Base.{Option, none, some, List, [], ◌∷◌, ◌++◌, take, bit_and}
use mini_kvm.GuestMem.{Mem, inside, memset, copy_in, load}
use mini_kvm.Gdt.Vectors.{setup_linux_ivt}
use mini_kvm.LinuxBoot.{
  BzImage, Initrd, load_linux_kernel, setup_linux_boot_params, load_initrd, code32_start,
  kernel_load_addr, command_line_addr,
}
use mini_kvm.Options.{Options}
use mini_kvm.VcpuSetup.{VcpuConfig, LinuxEntryMode, setup, code32, boot64, Kvm, Vm}
use mini_kvm.VcpuSetup.{setup_vcpu_context, linux_boot_params_addr}
use mini_kvm.VcpuMemory.{MemoryRegion, setup_vcpu_memory}
use mini_kvm.Launch.{static_context}

-- What the system answers; the command line as the bytes before its NUL. The last is KVM's answer
-- to the request for single-stepping.
pub record LinuxHost : Type 0 where
  pub mmap_ok : Bool
  pub region_ok : Bool
  pub image : Option BzImage
  pub initrd : Option Initrd
  pub cmdline : Option (List ℕ)
  pub kvm : Kvm
  pub singlestep_ok : Bool

abbrev pub linux_config : Options → VcpuConfig
linux_config o = record static_context.config {
  linux_guest = true;
  linux_entry = o.linux_entry;
  linux_rsi = o.linux_rsi;
  verbose = o.verbose;
}

-- `boot_params`
abbrev pub zero_page : Mem → Mem
zero_page mem x = mem (linux_boot_params_addr + x)

-- Memory with a zero page that a call has changed.
unfoldable pub with_zero_page : Mem → Mem → Mem
with_zero_page mem params x =
    if inside linux_boot_params_addr 4096 x then params (x - linux_boot_params_addr) else mem x

abbrev pub put : Option (Mem × Mem) → Option Mem
put none = none
put (some (mem, params)) = some (with_zero_page mem params)

-- Memory before the image is loaded.
unfoldable pub first_memory : Mem
first_memory = setup_linux_ivt (memset (λ x. 0) linux_boot_params_addr 0 4096)

abbrev pub is_given {ℓ} : {A : Type ℓ} → Option A → Bool
is_given none = false
is_given (some a) = true

unfoldable pub add_boot_params : ℕ → Option (List ℕ) → Mem → Mem
unfolding with_zero_page
add_boot_params mem_size cmdline mem =
    with_zero_page mem (setup_linux_boot_params (zero_page mem) mem_size (is_given cmdline))

-- The RAM disk is optional.
unfoldable pub add_initrd : ℕ → Option Initrd → Mem → Option Mem
unfolding with_zero_page
add_initrd mem_size none mem = some mem
add_initrd mem_size (some initrd) mem = put (load_initrd initrd mem mem_size (zero_page mem))

-- `boot_params->hdr.xloadflags & XLF_KERNEL_64`
abbrev pub is_64bit : Mem → Bool
is_64bit mem = not (bit_and (load 2 (zero_page mem) 0x236) 1 == 0)

abbrev pub refuses_boot64 : LinuxEntryMode → Mem → Bool
refuses_boot64 boot64 mem = not (is_64bit mem)
refuses_boot64 code32 mem = false
refuses_boot64 setup mem = false

abbrev pub entry_of : LinuxEntryMode → Mem → ℕ
entry_of boot64 mem = kernel_load_addr + 0x200
entry_of code32 mem = load 4 (zero_page mem) code32_start
entry_of setup mem = load 4 (zero_page mem) code32_start

-- `strlen(linux_cmdline) + 1` bytes, or 256.
unfoldable pub copy_cmdline : Option (List ℕ) → Mem → Mem
copy_cmdline none mem = mem
copy_cmdline (some cmdline) mem = copy_in mem command_line_addr (take 256 (cmdline ++ 0 ∷ []))

-- The vCPU, and single-stepping at the highest debug level.
abbrev pub with_singlestep : LinuxHost → Options → VcpuConfig → Bool × Vm → Option (VcpuConfig × Vm)
with_singlestep host o config (false, vm) = none
with_singlestep host o config (true, vm) =
    if o.debug_level == 3 && not host.singlestep_ok then none else some (config, vm)

abbrev pub create_linux : LinuxHost → Options → VcpuConfig → Mem → Option (VcpuConfig × Vm)
create_linux host o config mem =
    let config = record config {
      long_mode = is_64bit mem;
      entry_point = entry_of o.linux_entry mem;
    } in
    if refuses_boot64 o.linux_entry mem
    then none
    else with_singlestep host o config (
        setup_vcpu_context host.kvm config
          (record { mem = copy_cmdline host.cmdline mem; requests = [] }))

abbrev pub with_initrd : LinuxHost → Options → VcpuConfig → Option Mem → Option (VcpuConfig × Vm)
with_initrd host o config none = none
with_initrd host o config (some mem) = create_linux host o config mem

abbrev pub with_kernel : LinuxHost → Options → VcpuConfig → Option Mem → Option (VcpuConfig × Vm)
with_kernel host o config none = none
with_kernel host o config (some mem) =
    with_initrd host o config
      (add_initrd config.mem_size host.initrd (add_boot_params config.mem_size host.cmdline mem))

abbrev pub with_region :
    LinuxHost → Options → Option (VcpuConfig × MemoryRegion) → Option (VcpuConfig × Vm)
with_region host o none = none
with_region host o (some (config, region)) =
    with_kernel host o config
      (put (load_linux_kernel host.image first_memory config.mem_size (zero_page first_memory)))

-- The vCPU's configuration, memory and requests; `none` where it jumps to `cleanup_vcpus`.
unfoldable pub boot_linux : LinuxHost → Options → Option (VcpuConfig × Vm)
unfolding first_memory add_boot_params add_initrd copy_cmdline
boot_linux host o =
    with_region host o (setup_vcpu_memory host.mmap_ok host.region_ok (linux_config o))
