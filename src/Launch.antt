-- ===== src/Launch.antt =====
-- The start of the guests (the second half of `main`, kvm-vmm-x86/src/main.c): the loop that sets up
-- one vCPU for each guest binary, and what `cleanup_vcpu` gives back. What the system answers is a
-- parameter. Linux is the start of a Linux kernel; Names and Colors are what a guest is shown as.
pub mod Guests
pub mod Willing
pub mod Cleanup
pub mod Linux
pub mod Names
pub mod Colors
use mini_kvm.Base.{ℕ, ◌+◌, Bool, true, false, ◌&&◌, if◌then◌else◌, Option, none, some}
use mini_kvm.Base.{List, [], ◌∷◌, ◌++◌, map}
use mini_kvm.Base.Int.{ℤ, pos, negsuc}
use mini_kvm.GuestMem.{Mem}
use mini_kvm.Options.{Options}
use mini_kvm.VcpuSetup.{VcpuConfig, setup, base, Kvm, Vm, Request, setup_vcpu_context}
use mini_kvm.VcpuSetup.{create_vcpu, get_vcpu_mmap_size, mmap_run}
use mini_kvm.VcpuMemory.{MemoryRegion, BinaryFile, setup_vcpu_memory, load_guest_binary}
use Prim.Native.String.{String}

-- The files that can be opened, and for each vCPU whether its memory is mapped, whether KVM takes
-- the region, the rest of KVM's answers, and the descriptor of the vCPU if it is created.
pub record Environment : Type 0 where
  pub binary : String → Option BinaryFile
  pub mmap_ok : ℕ → Bool
  pub region_ok : ℕ → Bool
  pub kvm : ℕ → Kvm
  pub vcpu_fd : ℕ → ℕ

-- `vcpu_context_t`: the configuration, the region and memory; the descriptor, and whether the
-- two pointers are mapped (not NULL and not MAP_FAILED).
pub record Context : Type 0 where
  pub config : VcpuConfig
  pub region : Option MemoryRegion
  pub vm : Vm
  pub vcpu_fd : ℤ
  pub kvm_run : Bool
  pub guest_mem : Bool

abbrev pub no_vm : Vm
no_vm = record { mem = λ x. 0; requests = [] }

-- An entry of the static `vcpus`, which is zero.
abbrev pub static_context : Context
static_context = record {
  config = record {
    vcpu_id = 0;
    mem_size = 0;
    use_paging = false;
    long_mode = false;
    entry_point = 0;
    load_offset = 0;
    linux_guest = false;
    linux_entry = setup;
    linux_rsi = base;
    verbose = false;
  };
  region = none;
  vm = no_vm;
  vcpu_fd = pos 0;
  kvm_run = false;
  guest_mem = false;
}

-- The fields that the loop sets first.
abbrev pub guest_config : Options → ℕ → VcpuConfig
guest_config o i = record static_context.config {
  vcpu_id = i;
  use_paging = o.enable_paging;
  long_mode = o.enable_long_mode;
  entry_point = o.entry_point;
  verbose = o.verbose;
  load_offset = if o.enable_paging then o.load_offset else 0;
}

abbrev pub new_context : Options → ℕ → Context
new_context o i = record static_context { config = guest_config o i; vcpu_fd = negsuc 0 }

-- Whether the first request of `setup_vcpu_context`, and whether its first three succeed.
abbrev pub is_created : Kvm → ℕ → Bool
is_created kvm i = kvm.accepts [] (create_vcpu i)

abbrev pub is_mapped : Kvm → ℕ → Bool
is_mapped kvm i =
    is_created kvm i
    && kvm.accepts (create_vcpu i ∷ []) get_vcpu_mmap_size
    && kvm.accepts (create_vcpu i ∷ get_vcpu_mmap_size ∷ []) mmap_run

module _ (env : Environment) where
  -- The descriptor and the mapping are kept also where a later request fails.
  abbrev pub with_vcpu : ℕ → Context → Bool × Vm → Bool × Context
  with_vcpu i c (ok, vm) = (
    ok,
    record c {
      vm = vm;
      vcpu_fd = if is_created (env.kvm i) i then pos (env.vcpu_fd i) else negsuc 0;
      kvm_run = is_mapped (env.kvm i) i;
    },
  )

  abbrev pub with_binary : ℕ → Context → Option Mem → Bool × Context
  with_binary i c none = (false, c)
  with_binary i c (some mem) =
      with_vcpu i c (setup_vcpu_context (env.kvm i) c.config (record { mem = mem; requests = [] }))

  abbrev pub with_memory :
      ℕ → (guest_binary : String) → Context → Option (VcpuConfig × MemoryRegion) → Bool × Context
  with_memory i guest_binary c none = (false, record c { guest_mem = env.mmap_ok i })
  with_memory i guest_binary c (some (config, region)) =
      with_binary i (record c { config = config; region = some region; guest_mem = true })
        (load_guest_binary (env.binary guest_binary) no_vm.mem config.mem_size config.load_offset)

  -- The body of the loop; `false` where it jumps to `cleanup_vcpus`.
  unfoldable pub setup_guest : Options → ℕ → (guest_binary : String) → Bool × Context
  setup_guest o i guest_binary =
      with_memory i guest_binary (new_context o i)
        (setup_vcpu_memory (env.mmap_ok i) (env.region_ok i) (guest_config o i))

  abbrev pub then_others :
      (untouched : List Context) → Bool × Context → Bool × List Context → Bool × List Context
  then_others untouched (true, c) (ok, others) = (ok, c ∷ others)
  then_others untouched (false, c) others = (false, c ∷ untouched)

  -- The loop, from guest `i` on: whether all succeed, and `vcpus` afterwards.
  unfoldable pub setup_guests : Options → ℕ → List String → Bool × List Context
  unfolding setup_guest
  setup_guests o i [] = (true, [])
  setup_guests o i (guest ∷ guests) =
      then_others (map (λ g. static_context) guests) (setup_guest o i guest)
        (setup_guests o (i + 1) guests)

-- What is given back to the system.
pub data Resource : Type 0 where
  run_area memory descriptor : ℕ → Resource

abbrev pub close_fd : ℤ → List Resource
close_fd (pos fd) = descriptor fd ∷ []
close_fd (negsuc n) = []

unfoldable pub cleanup_vcpu : ℕ → Context → List Resource
cleanup_vcpu i c =
    (if c.kvm_run then run_area i ∷ [] else [])
    ++ (if c.guest_mem then memory i ∷ [] else [])
    ++ close_fd c.vcpu_fd

-- The loop at `cleanup_vcpus`, from vCPU `i` on.
unfoldable pub cleanup_vcpus : ℕ → List Context → List Resource
unfolding cleanup_vcpu
cleanup_vcpus i [] = []
cleanup_vcpus i (c ∷ cs) = cleanup_vcpu i c ++ cleanup_vcpus (i + 1) cs
