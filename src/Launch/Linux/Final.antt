-- ===== src/Launch/Linux/Final.antt =====
-- The memory of a Linux kernel behind all steps of its start, part by part.
use mini_kvm.Base.{ℕ, ◌+◌, ◌-◌, ◌*◌, ◌^◌, ◌≤◌, ◌<◌, ◌≡◌, inl, inr, refl, sym, ap, ◌∙◌, arith}
use mini_kvm.Base.{subst, Bool-cases}
use mini_kvm.Base.{some, List, [], ◌∷◌, ◌++◌, take, length, get_or, ltb}
use mini_kvm.GuestMem.{Mem, load}
use mini_kvm.GuestMem.Laws.{IsOutside, load_ext}
use mini_kvm.LinuxBoot.{
  BzImage, file, InitrdFile, setup_linux_boot_params, read_into, hdr, setup_bytes, init_size,
  initrd_addr_max, ramdisk_image, ramdisk_size, code32_start,
}
use mini_kvm.LinuxBoot.ZeroPage.{memory_map, load-cmd_line_ptr, setup_linux_boot_params-memory_map}
use mini_kvm.LinuxBoot.E820.{e820_table, table_ext-page}
use mini_kvm.Options.{Options}
use mini_kvm.VcpuSetup.{VcpuConfig, LinuxEntryMode, setup, code32, boot64, Vm, setup_vcpu_context}
use mini_kvm.VcpuSetup.Kept.{AllOutside, linux_tables, setup_vcpu_context-kept}
use mini_kvm.Launch.Linux.{LinuxHost, linux_config, zero_page, with_zero_page}
use mini_kvm.Launch.Linux.{add_boot_params, copy_cmdline, is_64bit, entry_of}
use mini_kvm.Launch.Linux.{is_given}
use mini_kvm.Launch.Linux.Memory.{
  with_zero_page-IsOutside, zero_page-with, IsAdded, copy_cmdline-IsOutside, copy_cmdline-inside,
}

-- A bzImage whose reads give no more bytes than were asked for and than the file has.
pub record IsImage (image : BzImage) (setup kernel : List ℕ) : Type 0 where
  pub size : ℕ
  pub buf : Mem
  pub stat : image.st_size ≡ some size
  pub ready : image.first_buf ≡ some buf
  pub setup_read : image.setup ≡ some setup
  pub kernel_read : image.kernel ≡ some kernel
  pub byte : read_into buf image.first hdr < 256
  pub size_lt : size < 2 ^ 63
  pub setup_le : length setup ≤ size
  pub setup_asked : length setup ≤ setup_bytes (read_into buf image.first hdr)
  pub kernel_le : length kernel ≤ size - length setup

abbrev pub linux_mem_size : ℕ
linux_mem_size = 256 * 1024 * 1024

-- The setup code up to 64KB, and the kernel up to the size of its initial area, stand where they
-- were loaded; the zero page lists the memory map of 256MB; the disk is whole and where the zero
-- page says, behind that area and inside the memory; the command line is its first 256 bytes with
-- the NUL, and the zero page points to it; and the 32-bit entry is the zero page's.
pub record IsHandedOver (host : LinuxHost) (o : Options) (setup_code kernel_code : List ℕ)
    (config : VcpuConfig) (vm : Vm) : Type 0 where
  pub memory : config.mem_size ≡ linux_mem_size
  pub setup :
      (k : ℕ) → k < length setup_code → k < 0x10000 → vm.mem (0x10000 + k) ≡ get_or setup_code k 0
  pub kernel :
      (k : ℕ)
      → k < length kernel_code
      → k < load 4 (zero_page vm.mem) init_size
      → vm.mem (0x100000 + k) ≡ get_or kernel_code k 0
  pub map : e820_table (zero_page vm.mem) ≡ memory_map linux_mem_size
  pub disk :
      (f : InitrdFile)
      → host.initrd ≡ some (file f)
      → (start : ℕ) × (bytes : List ℕ) × (f.bytes ≡ some bytes)
        × (load 4 (zero_page vm.mem) ramdisk_image ≡ start)
        × (load 4 (zero_page vm.mem) ramdisk_size ≡ length bytes)
        × (0x100000 + load 4 (zero_page vm.mem) init_size ≤ start)
        × (start + length bytes ≤ linux_mem_size)
        × ((k : ℕ) → k < length bytes → vm.mem (start + k) ≡ get_or bytes k 0)
  pub cmdline :
      (line : List ℕ)
      → host.cmdline ≡ some line
      → (k : ℕ) → k < length (take 256 (line ++ 0 ∷ []))
      → vm.mem (0x20000 + k) ≡ get_or (take 256 (line ++ 0 ∷ [])) k 0
  pub cmdline_at :
      (line : List ℕ) → host.cmdline ≡ some line → load 4 (zero_page vm.mem) 0x228 ≡ 0x20000
  pub entry : o.linux_entry ≡ code32 → config.entry_point ≡ load 4 (zero_page vm.mem) code32_start

abbrev pub sized_linux : Options → VcpuConfig
sized_linux o = record (linux_config o) { mem_size = linux_mem_size }

-- The tables of every entry lie below the setup code.
spared : (mode : LinuxEntryMode) (x : ℕ) → 0x8000 ≤ x → AllOutside (linux_tables mode) x
spared setup x h = tt
spared code32 x h = (inr (omega arith), (inr (omega arith), tt))
spared boot64 x h = (inr (omega arith), tt)

few_ranges : (mem_size : ℕ) → length (memory_map mem_size) ≤ 128
few_ranges mem_size = elim (Bool-cases (ltb 0x100000 mem_size)) [
  | inl e ↦ rw e (omega arith)
  | inr e ↦ rw e (omega arith)
]

module _ (host : LinuxHost) (o : Options) (setup_code kernel_code : List ℕ) (loaded : Mem)
    (params : Mem) (m4 : Mem) where
  abbrev m2 : Mem
  m2 = with_zero_page loaded params

  abbrev m3 : Mem
  m3 = add_boot_params linux_mem_size host.cmdline m2

  abbrev page : Mem
  page = setup_linux_boot_params (zero_page m2) linux_mem_size (is_given host.cmdline)

  m3-IsOutside : (x : ℕ) → IsOutside 0x90000 4096 x → m3 x ≡ loaded x
  unfolding add_boot_params
  m3-IsOutside x out =
      with_zero_page-IsOutside m2 page x out ∙ with_zero_page-IsOutside loaded params x out

  m3-page : (x : ℕ) → x < 4096 → zero_page m3 x ≡ page x
  unfolding add_boot_params
  m3-page x h = zero_page-with m2 page x h

  pub m3-bound : load 4 (zero_page m3) initrd_addr_max < 2 ^ 32
  m3-bound = omega (
    arith,
    load_ext 4 (zero_page m3) page initrd_addr_max (λ x p q. m3-page x (omega arith)),
    (setup_linux_boot_params-memory_map (zero_page m2) linux_mem_size (is_given host.cmdline)
        (omega arith)).1,
  )

  abbrev pub ready : VcpuConfig
  ready = record (sized_linux o) {
    long_mode = is_64bit m4;
    entry_point = entry_of o.linux_entry m4;
  }

  abbrev pub final : Vm
  final =
      (setup_vcpu_context host.kvm ready
        (record { mem = copy_cmdline host.cmdline m4; requests = [] })).1

  final-same : (x : ℕ) → 0x8000 ≤ x → final.mem x ≡ copy_cmdline host.cmdline m4 x
  final-same x h =
      setup_vcpu_context-kept host.kvm ready
        (record { mem = copy_cmdline host.cmdline m4; requests = [] }) x (omega arith)
        (spared o.linux_entry x h)

  final-IsOutside : (x : ℕ) → 0x8000 ≤ x → IsOutside 0x20000 256 x → final.mem x ≡ m4 x
  final-IsOutside x h out = final-same x h ∙ copy_cmdline-IsOutside host.cmdline m4 x out

  module _ (added : IsAdded linux_mem_size host.initrd m3 m4) where
    final-page :
        (x : ℕ)
        → x < 4096
        → IsOutside ramdisk_image 8 x
        → IsOutside initrd_addr_max 4 x
        → zero_page final.mem x ≡ zero_page m3 x
    final-page x h out away =
        final-IsOutside (0x90000 + x) (omega arith) (inr (omega arith)) ∙ added.page x h out away

    final-init_size : load 4 (zero_page final.mem) init_size ≡ load 4 (zero_page m3) init_size
    final-init_size =
        load_ext 4 (zero_page final.mem) (zero_page m3) init_size
          (λ x p q. final-page x (omega arith) (inr (omega arith)) (inr (omega arith)))

    final-load : (a : ℕ) → a + 4 ≤ 4096 → load 4 (zero_page final.mem) a ≡ load 4 (zero_page m4) a
    final-load a h =
        load_ext 4 (zero_page final.mem) (zero_page m4) a
          (λ x p q. final-IsOutside (0x90000 + x) (omega arith) (inr (omega arith)))

    pub handed_over :
        ((k : ℕ) → k < length setup_code → loaded (0x10000 + k) ≡ get_or setup_code k 0)
        → ((k : ℕ) → k < length kernel_code → loaded (0x100000 + k) ≡ get_or kernel_code k 0)
        → IsHandedOver host o setup_code kernel_code ready final
    handed_over setup_at kernel_at = record {
      memory = refl;
      setup = λ k h low.
          final-IsOutside (0x10000 + k) (omega arith) (inl (omega arith))
          ∙ added.low (0x10000 + k) (omega arith)
          ∙ m3-IsOutside (0x10000 + k) (inl (omega arith))
          ∙ setup_at k h;
      kernel = λ k h low.
          final-IsOutside (0x100000 + k) (omega arith) (inr (omega arith))
          ∙ added.kernel (0x100000 + k) (omega arith) (omega (arith, low, final-init_size))
          ∙ m3-IsOutside (0x100000 + k) (inr (omega arith))
          ∙ kernel_at k h;
      map =
          table_ext-page (zero_page final.mem) page
            (subst (λ t. length t ≤ 128) (sym listed) (few_ranges linux_mem_size))
            (λ x h.
              final-page x (omega (arith, h)) (omega (arith, h)) (omega (arith, h))
              ∙ m3-page x (omega (arith, h)))
          ∙ listed;
      disk = λ f e.
          let (start, bytes, read, at, long, above, below, image) = added.disk f e in
          (
            start,
            bytes,
            read,
            final-load ramdisk_image (omega arith) ∙ at,
            final-load ramdisk_size (omega arith) ∙ long,
            omega (arith, above, final-init_size),
            below,
            λ k h.
                final-IsOutside (start + k) (omega (arith, above)) (inr (omega (arith, above)))
                ∙ image k h,
          );
      cmdline = λ line e k h.
          final-same (0x20000 + k) (omega arith)
          ∙ ap (λ c. copy_cmdline c m4 (0x20000 + k)) e
          ∙ copy_cmdline-inside line m4 k h;
      cmdline_at = λ line e.
          load_ext 4 (zero_page final.mem) page 0x228 (λ x p q.
            final-page x (omega arith) (inr (omega arith)) (inl (omega arith))
            ∙ m3-page x (omega arith))
          ∙ ap
              (λ c.
                load 4 (setup_linux_boot_params (zero_page m2) linux_mem_size (is_given c)) 0x228)
              e
          ∙ load-cmd_line_ptr (zero_page m2) linux_mem_size (omega arith);
      entry = λ e. ap (λ mode. entry_of mode m4) e ∙ sym (final-load code32_start (omega arith));
    }
      where
        listed : e820_table page ≡ memory_map linux_mem_size
        listed =
            (setup_linux_boot_params-memory_map (zero_page m2) linux_mem_size
              (is_given host.cmdline) (omega arith)).0
