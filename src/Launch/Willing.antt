-- ===== src/Launch/Willing.antt =====
-- The start of the guests on a host that gives what is asked for.
use mini_kvm.Base.{ℕ, ◌+◌, ◌*◌, ◌^◌, ◌≤◌, ◌<◌, ◌≡◌, ◌⊎◌, inl, inr, refl, ap, ◌∙◌, arith}
use mini_kvm.Base.{Bool, true, false, Bool-cases, some, List, [], ◌∷◌, length, map, u64}
use mini_kvm.GuestMem.{copy_in}
use mini_kvm.Options.{Options}
use mini_kvm.VcpuSetup.{VcpuConfig, Vm, Request, setup_vcpu_context}
use mini_kvm.VcpuSetup.Granted.{is_set_msrs}
use mini_kvm.VcpuSetup.Willing.{setup_vcpu_context-willing}
use mini_kvm.VcpuMemory.{MemoryRegion, BinaryFile, vcpu_mem_size, setup_vcpu_memory}
use mini_kvm.VcpuMemory.{load_sized, load_guest_binary}
use mini_kvm.Launch.{Environment, Context, static_context, guest_config, new_context, no_vm}
use mini_kvm.Launch.{setup_guest, setup_guests, with_memory, with_binary, with_vcpu, then_others}
use Prim.Native.String.{String}

-- For vCPU `i` there is memory and KVM takes it; KVM refuses no request but that for the MSRs.
pub record IsWilling (env : Environment) (i : ℕ) : Type 0 where
  pub mmap : env.mmap_ok i ≡ true
  pub region : env.region_ok i ≡ true
  pub kvm :
      (log : List Request) (r : Request) → is_set_msrs r ≡ false → (env.kvm i).accepts log r ≡ true

-- The guest's file can be read whole and fits the memory behind its load offset.
pub record Fits (env : Environment) (o : Options) (i : ℕ) (guest : String) : Type 0 where
  pub file : BinaryFile
  pub opened : env.binary guest ≡ some file
  pub whole : file.fsize ≡ some (length file.bytes)
  pub room : (guest_config o i).load_offset + length file.bytes ≤ vcpu_mem_size (guest_config o i)

abbrev pub AllFit : Environment → Options → ℕ → List String → Type 0
AllFit env o i [] = Unit
AllFit env o i (guest ∷ guests) = Fits env o i guest × AllFit env o (i + 1) guests

module _ (env : Environment) (o : Options) (i : ℕ) (guest : String) (willing : IsWilling env i)
    (fits : Fits env o i guest) where
  abbrev config : VcpuConfig
  config = record (guest_config o i) { mem_size = vcpu_mem_size (guest_config o i) }

  abbrev region : MemoryRegion
  region = record {
    slot = i;
    guest_phys_addr = u64 (i * vcpu_mem_size (guest_config o i));
    memory_size = vcpu_mem_size (guest_config o i);
  }

  memory_given :
      setup_vcpu_memory (env.mmap_ok i) (env.region_ok i) (guest_config o i) ≡ some (config, region)
  unfolding setup_vcpu_memory
  memory_given = rw (willing.mmap, willing.region) refl

  abbrev sized : Context
  sized = record (new_context o i) { config = config; region = some region; guest_mem = true }

  size_lt : vcpu_mem_size (guest_config o i) < 2 ^ 23
  size_lt = elim (Bool-cases o.enable_paging) [
    | inl e ↦ rw e (omega arith)
    | inr e ↦ rw e (omega arith)
  ]

  image_read :
      load_guest_binary (env.binary guest) no_vm.mem config.mem_size config.load_offset
      ≡ some (copy_in no_vm.mem config.load_offset fits.file.bytes)
  unfolding load_guest_binary
  image_read =
      ap (λ b. load_guest_binary b no_vm.mem config.mem_size config.load_offset) fits.opened
      ∙ ap (load_sized fits.file no_vm.mem config.mem_size config.load_offset) fits.whole
      ∙ ground (arith, fits.room, size_lt)

  room_left : (config.use_paging ≡ false) ⊎ (0x103000 < config.mem_size)
  room_left = elim (Bool-cases o.enable_paging) [ inl e ↦ inr (rw e (omega arith)) | inr e ↦ inl e ]

  abbrev ready : Vm
  ready = record { mem = copy_in no_vm.mem config.load_offset fits.file.bytes; requests = [] }

  vcpu_answer : (r : Bool × Vm) → (with_vcpu env i sized r).0 ≡ r.0
  vcpu_answer (ok, vm) = refl

  setup_guest-willing : (setup_guest env o i guest).0 ≡ true
  unfolding setup_guest
  setup_guest-willing =
      ap (λ r. (with_memory env i guest (new_context o i) r).0) memory_given
      ∙ ap (λ image. (with_binary env i sized image).0) image_read
      ∙ vcpu_answer (setup_vcpu_context (env.kvm i) config ready)
      ∙ setup_vcpu_context-willing (env.kvm i) willing.kvm config ready room_left

-- On a host that gives each vCPU its memory and refuses no request, unless it is the one for the
-- MSRs, guests whose files can be read and fit the memory are all set up.
pub setup_guests-willing :
    (env : Environment) (o : Options) (i : ℕ) (guests : List String)
    → ((j : ℕ) → IsWilling env j)
    → AllFit env o i guests
    → (setup_guests env o i guests).0 ≡ true
unfolding setup_guests
setup_guests-willing env o i [] willing fits = refl
setup_guests-willing env o i (guest ∷ guests) willing (here, later) =
    one_round (setup_guest env o i guest) (setup_guests env o (i + 1) guests)
      (setup_guest-willing env o i guest (willing i) here)
      (setup_guests-willing env o (i + 1) guests willing later)
  where
    one_round :
        (r : Bool × Context) (rest : Bool × List Context)
        → r.0 ≡ true
        → rest.0 ≡ true
        → (then_others env (map (λ g. static_context) guests) r rest).0 ≡ true
    one_round (true, c) (ok, others) e f = f
    one_round (false, c) rest e f = cc
