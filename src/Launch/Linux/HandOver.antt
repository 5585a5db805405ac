-- ===== src/Launch/Linux/HandOver.antt =====
-- What a Linux kernel finds in memory when its vCPU starts.
use mini_kvm.Base.{ℕ, ◌≡◌, inl, inr, refl, sym, ap, ◌∙◌, arith}
use mini_kvm.Base.{subst, Bool, true, false, if◌then◌else◌, Bool-cases}
use mini_kvm.Base.{Option, none, some, List, []}
use mini_kvm.GuestMem.{Mem}
use mini_kvm.LinuxBoot.{BzImage, load_linux_kernel}
use mini_kvm.LinuxBoot.Kernel.{load_linux_kernel-loaded}
use mini_kvm.Options.{Options}
use mini_kvm.VcpuSetup.{VcpuConfig, Vm, setup_vcpu_context}
use mini_kvm.VcpuMemory.{setup_vcpu_memory}
use mini_kvm.Launch.Linux.{LinuxHost, linux_config, zero_page, put, first_memory}
use mini_kvm.Launch.Linux.{add_boot_params, add_initrd, copy_cmdline, is_64bit, entry_of}
use mini_kvm.Launch.Linux.{refuses_boot64, with_singlestep, create_linux, with_initrd, with_kernel}
use mini_kvm.Launch.Linux.{with_region, boot_linux}
use mini_kvm.Launch.Linux.Memory.{put-some, add_initrd-IsAdded}
use mini_kvm.Launch.Linux.Final.{
  IsImage, linux_mem_size, IsHandedOver, sized_linux, ready, m3-bound,
}
use mini_kvm.Launch.Linux.Final.{handed_over}

region_made :
    (a b : Bool) (host : LinuxHost) (o : Options) (out : VcpuConfig × Vm)
    → with_region host o (setup_vcpu_memory a b (linux_config o)) ≡ some out
    → with_kernel host o
        (sized_linux o)
        (put (load_linux_kernel host.image first_memory linux_mem_size (zero_page first_memory)))
      ≡ some out
unfolding setup_vcpu_memory
region_made true true host o out h = h
region_made true false host o out h = cc
region_made false b host o out h = cc

kernel_loaded :
    (host : LinuxHost) (o : Options) (config : VcpuConfig) (r : Option Mem) (out : VcpuConfig × Vm)
    → with_kernel host o config r ≡ some out
    → (mem : Mem) × (r ≡ some mem)
      × (with_initrd host o config (
            add_initrd config.mem_size host.initrd
              (add_boot_params config.mem_size host.cmdline mem))
          ≡ some out)
kernel_loaded host o config none out h = cc
kernel_loaded host o config (some mem) out h = (mem, refl, h)

disk_added :
    (host : LinuxHost) (o : Options) (config : VcpuConfig) (r : Option Mem) (out : VcpuConfig × Vm)
    → with_initrd host o config r ≡ some out
    → (mem : Mem) × (r ≡ some mem) × (create_linux host o config mem ≡ some out)
disk_added host o config none out h = cc
disk_added host o config (some mem) out h = (mem, refl, h)

stepped :
    (host : LinuxHost) (o : Options) (config : VcpuConfig) (r : Bool × Vm) (out : VcpuConfig × Vm)
    → with_singlestep host o config r ≡ some out
    → (config ≡ out.0) × (r.1 ≡ out.1)
stepped host o config (false, vm) out h = cc
stepped host o config (true, vm) out h = (ground arith, ground arith)

created :
    (host : LinuxHost) (o : Options) (cfg : VcpuConfig) (mem : Mem) (out : VcpuConfig × Vm)
    → create_linux host o cfg mem ≡ some out
    → let config = record cfg {
      long_mode = is_64bit mem;
      entry_point = entry_of o.linux_entry mem;
    } in
      (config ≡ out.0)
      × ((setup_vcpu_context host.kvm config
            (record { mem = copy_cmdline host.cmdline mem; requests = [] })).1
          ≡ out.1)
created host o cfg mem out h = elim (Bool-cases (refuses_boot64 o.linux_entry mem)) [
  | inl refused ↦ absurd (clash refused)
  | inr fits ↦ stepped host o _ _ out (sym (ap (λ b. if b then none else last) fits) ∙ h)
]
  where
    last : Option (VcpuConfig × Vm)
    last =
        let config = record cfg {
          long_mode = is_64bit mem;
          entry_point = entry_of o.linux_entry mem;
        } in
        with_singlestep host o config (
          setup_vcpu_context host.kvm config
            (record { mem = copy_cmdline host.cmdline mem; requests = [] }))

    clash : refuses_boot64 o.linux_entry mem ≡ true → ⊥
    clash refused =
        let e : none ≡ some out = sym (ap (λ b. if b then none else last) refused) ∙ h in cc

-- When the start of a Linux kernel succeeds, from a file below 2^63 bytes whose reads give no
-- more than was asked for and is there, then behind the loading of the disk and the command line
-- and the tables that the vCPU gets, the setup code up to 64KB and the kernel up to the size of
-- its initial area stand where they were loaded; the zero page lists the memory map; the disk is
-- whole where the zero page says, behind that area and inside the memory; the command line is its
-- first 256 bytes with the NUL, and the zero page points to it; and code32 enters where the zero
-- page says.
pub boot_linux-IsHandedOver :
    (host : LinuxHost) (o : Options) (image : BzImage) (setup_code kernel_code : List ℕ)
    (config : VcpuConfig) (vm : Vm)
    → host.image ≡ some image
    → IsImage image setup_code kernel_code
    → boot_linux host o ≡ some (config, vm)
    → IsHandedOver host o setup_code kernel_code config vm
unfolding boot_linux
boot_linux-IsHandedOver host o image setup_code kernel_code config vm opened is h =
    let (mem, put_eq, h₂) =
      kernel_loaded host o (sized_linux o) _ (config, vm)
        (region_made host.mmap_ok host.region_ok host o (config, vm) h) in
    let (loaded, params, load_eq, whole) = put-some _ mem put_eq in
    let (m4, disk_eq, h₃) =
      disk_added host o (sized_linux o) _ (config, vm)
        (subst
          (λ m.
            with_initrd host o (sized_linux o) (
              add_initrd linux_mem_size host.initrd (add_boot_params linux_mem_size host.cmdline m))
            ≡ some (config, vm))
          (sym whole) h₂) in
    let (config_eq, vm_eq) = created host o (sized_linux o) m4 (config, vm) h₃ in
    let (magic, all, setup_fits, kernel_fits, setup_at, kernel_at, rest, start) =
      load_linux_kernel-loaded image first_memory linux_mem_size (zero_page first_memory) loaded
        params is.size is.buf setup_code kernel_code is.stat is.ready is.setup_read is.kernel_read
        is.byte is.size_lt (omega arith) is.setup_le is.setup_asked is.kernel_le
        (ap (λ i. load_linux_kernel i first_memory linux_mem_size (zero_page first_memory))
            (sym opened)
          ∙ load_eq) in
    subst (λ c. IsHandedOver host o setup_code kernel_code c vm) config_eq
      (subst
        (λ v.
          IsHandedOver host o setup_code kernel_code
            (ready host o setup_code kernel_code loaded params m4) v)
        vm_eq
        (handed_over host o setup_code kernel_code loaded params m4
          (add_initrd-IsAdded linux_mem_size host.initrd _ m4
            (m3-bound host o setup_code kernel_code loaded params m4) disk_eq)
          setup_at kernel_at))
