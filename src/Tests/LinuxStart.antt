-- ===== src/Tests/LinuxStart.antt =====
-- A Linux kernel that is started with a RAM disk and a command line.
use mini_kvm.Base.{◌≡◌, ◌∙◌, refl, ap, inl, arith, Bool, true, false}
use mini_kvm.Base.{Option, none, some, [], ◌∷◌}
use mini_kvm.GuestMem.{Mem, copy_in, load, store, store8, memset}
use mini_kvm.LinuxBoot.{file, copy_header, default_entry, load_linux_kernel, load_initrd}
use mini_kvm.LinuxBoot.{setup_linux_boot_params, add_e820_entry}
use mini_kvm.Options.{Options, defaults}
use mini_kvm.Segments.{Segment}
use mini_kvm.VcpuSetup.{Kvm, Vm, VcpuConfig, code32, setup_vcpu_context}
use mini_kvm.VcpuSetup.Willing.{setup_vcpu_context-willing}
use mini_kvm.VcpuMemory.{setup_vcpu_memory}
use mini_kvm.Launch.Linux.{LinuxHost, linux_config, zero_page, with_zero_page, first_memory}
use mini_kvm.Launch.Linux.{add_boot_params, add_initrd, with_initrd, boot_linux, with_singlestep}
use mini_kvm.Launch.Linux.{copy_cmdline, is_64bit, entry_of}
use mini_kvm.Launch.Linux.Final.{IsImage, IsHandedOver}
use mini_kvm.Launch.Linux.HandOver.{boot_linux-IsHandedOver}
use mini_kvm.Tests.Linux.{zeros, disk_file, setup_code, kernel_code, image, first}

abbrev reset_segment : Segment
reset_segment = record {
  base = 0;
  limit = 0xffff;
  selector = 0;
  type = 3;
  present = 1;
  dpl = 0;
  db = 0;
  s = 1;
  l = 0;
  g = 0;
  avl = 0;
  unusable = 0;
}

-- KVM refuses nothing, and reports the state after reset.
abbrev kvm : Kvm
kvm = record {
  accepts = λ log r. true;
  sregs = λ log. record {
    cs = reset_segment;
    ds = reset_segment;
    es = reset_segment;
    fs = reset_segment;
    gs = reset_segment;
    ss = reset_segment;
    gdt = record { base = 0; limit = 0xffff };
    idt = record { base = 0; limit = 0xffff };
    cr0 = 0x60000010;
    cr3 = 0;
    cr4 = 0;
    efer = 0;
  };
  supported_cpuid = λ log. [];
}

-- The image above with its disk, and a command line.
abbrev host : LinuxHost
host = record {
  mmap_ok = true;
  region_ok = true;
  image = some image;
  initrd = some (file disk_file);
  cmdline = some (114 ∷ 111 ∷ []);
  kvm = kvm;
  singlestep_ok = true;
}

abbrev options : Options
options = record defaults { linux_boot = true }

abbrev memory_made : Mem
memory_made =
    with_zero_page (copy_in (copy_in first_memory 0x10000 setup_code) 0x100000 kernel_code)
      (default_entry (copy_header (zero_page first_memory) first))

abbrev memory_told : Mem
memory_told = add_boot_params 0x10000000 host.cmdline memory_made

abbrev start : Option (VcpuConfig × Vm)
start =
    with_initrd host options (record (linux_config options) { mem_size = 0x10000000 })
      (add_initrd 0x10000000 host.initrd memory_told)

started : boot_linux host options ≡ start
unfolding boot_linux setup_vcpu_memory load_linux_kernel load_initrd load setup_linux_boot_params
    copy_in
started = refl

abbrev filled : Option Mem → Mem
filled none = memory_told
filled (some m) = m

abbrev memory_full : Mem
memory_full = filled (add_initrd 0x10000000 host.initrd memory_told)

disk_added : add_initrd 0x10000000 host.initrd memory_told ≡ some memory_full
unfolding add_initrd load_initrd load setup_linux_boot_params add_boot_params store store8
    add_e820_entry memset copy_in
disk_added = refl

abbrev config : VcpuConfig
config = record (linux_config options) {
  mem_size = 0x10000000;
  long_mode = is_64bit memory_full;
  entry_point = entry_of code32 memory_full;
}

abbrev begun : Vm
begun = record { mem = copy_cmdline host.cmdline memory_full; requests = [] }

abbrev vcpu : Bool × Vm
vcpu = setup_vcpu_context kvm config begun

stepped : (r : Bool × Vm) → r.0 ≡ true → with_singlestep host options config r ≡ some (config, r.1)
stepped (true, vm) h = refl
stepped (false, vm) h = cc

booted : boot_linux host options ≡ some (config, vcpu.1)
booted =
    started
    ∙ ap (with_initrd host options (record (linux_config options) { mem_size = 0x10000000 }))
        disk_added
    ∙ stepped vcpu (setup_vcpu_context-willing kvm (λ log r h. refl) config begun (inl refl))

image_read : IsImage image setup_code kernel_code
unfolding copy_in
image_read = record {
  size = 2051;
  buf = zeros;
  stat = refl;
  ready = refl;
  setup_read = refl;
  kernel_read = refl;
  byte = omega arith;
  size_lt = omega arith;
  setup_le = omega arith;
  setup_asked = omega arith;
  kernel_le = omega arith;
}

boot_linux-IsHandedOver_example : IsHandedOver host options setup_code kernel_code config vcpu.1
boot_linux-IsHandedOver_example =
    boot_linux-IsHandedOver host options image setup_code kernel_code config vcpu.1 refl image_read
      booted
