-- ===== src/Launch/Cleanup.antt =====
-- What `cleanup_vcpus` gives back, against what the set-up was given.
use mini_kvm.Base.{ℕ, ◌+◌, ◌≡◌, refl, sym, ap, ◌∙◌, arith, Bool, true, false}
use mini_kvm.Base.{if◌then◌else◌, Option, none, some, List, [], ◌∷◌, ◌++◌, map, length, replicate}
use mini_kvm.Base.{append_assoc, append-nil}
use mini_kvm.Base.Int.{negsuc}
use mini_kvm.GuestMem.{Mem}
use mini_kvm.Options.{Options}
use mini_kvm.VcpuSetup.{VcpuConfig, Vm, setup_vcpu_context}
use mini_kvm.VcpuMemory.{MemoryRegion, setup_vcpu_memory, load_guest_binary}
use mini_kvm.Launch.{Environment, Context, Resource, run_area, memory, descriptor, static_context}
use mini_kvm.Launch.{new_context, guest_config, is_created, is_mapped, no_vm}
use mini_kvm.Launch.{setup_guest, setup_guests, cleanup_vcpu, cleanup_vcpus}
use mini_kvm.Launch.{with_memory, with_binary, with_vcpu, then_others}
use Prim.Native.String.{String}

module _ (env : Environment) (o : Options) where
  -- How far the set-up of a guest comes: its memory is taken by KVM, and its binary is loaded.
  abbrev pub memory_of : ℕ → Option (VcpuConfig × MemoryRegion)
  memory_of i = setup_vcpu_memory (env.mmap_ok i) (env.region_ok i) (guest_config o i)

  abbrev pub image_of : String → VcpuConfig → Option Mem
  image_of guest config =
      load_guest_binary (env.binary guest) no_vm.mem config.mem_size config.load_offset

  -- The resources of a vCPU that KVM is asked to create.
  abbrev pub vcpu_given : ℕ → List Resource
  vcpu_given i =
      (if is_mapped (env.kvm i) i then run_area i ∷ [] else [])
      ++ memory i ∷ []
      ++ (if is_created (env.kvm i) i then descriptor (env.vcpu_fd i) ∷ [] else [])

  abbrev pub given_with : ℕ → Option Mem → List Resource
  given_with i none = memory i ∷ []
  given_with i (some mem) = vcpu_given i

  -- What one round of the loop is given.
  abbrev pub given : ℕ → String → Option (VcpuConfig × MemoryRegion) → List Resource
  given i guest none = if env.mmap_ok i then memory i ∷ [] else []
  given i guest (some (config, region)) = given_with i (image_of guest config)

  -- What the loop is given, up to the first guest that fails.
  abbrev pub all_given : ℕ → List String → List Resource
  all_given i [] = []
  all_given i (guest ∷ guests) =
      given i guest (memory_of i)
      ++ (if (setup_guest env o i guest).0 then all_given (i + 1) guests else [])

  -- The guests behind the first one that fails.
  abbrev pub behind : ℕ → List String → ℕ
  behind i [] = 0
  behind i (guest ∷ guests) =
      if (setup_guest env o i guest).0 then behind (i + 1) guests else length guests

  vcpu_released :
      (i : ℕ) (c : Context) (r : Bool × Vm)
      → c.guest_mem ≡ true
      → cleanup_vcpu i (with_vcpu env i c r).1 ≡ vcpu_given i
  unfolding cleanup_vcpu
  vcpu_released i c (ok, vm) h = ground arith

  image_released :
      (i : ℕ) (c : Context) (image : Option Mem)
      → c.guest_mem ≡ true
      → c.kvm_run ≡ false
      → c.vcpu_fd ≡ negsuc 0
      → cleanup_vcpu i (with_binary env i c image).1 ≡ given_with i image
  image_released i c none h k f = unfold cleanup_vcpu in rw (h, k, f) refl
  image_released i c (some mem) h k f =
      vcpu_released i c
        (setup_vcpu_context (env.kvm i) c.config (record { mem = mem; requests = [] })) h

  released :
      (i : ℕ) (guest : String) (r : Option (VcpuConfig × MemoryRegion))
      → cleanup_vcpu i (with_memory env i guest (new_context o i) r).1 ≡ given i guest r
  released i guest none = unfold cleanup_vcpu in append-nil _
  released i guest (some (config, region)) =
      image_released i
        (record (new_context o i) { config = config; region = some region; guest_mem = true })
        (image_of guest config) refl refl refl

  guest_released :
      (i : ℕ) (guest : String)
      → cleanup_vcpu i (setup_guest env o i guest).1 ≡ given i guest (memory_of i)
  unfolding setup_guest
  guest_released i guest = released i guest (memory_of i)

-- A vCPU that was never begun has descriptor 0.
untouched_closed :
    (i : ℕ) (guests : List String)
    → cleanup_vcpus i (map (λ g. static_context) guests) ≡ replicate (length guests) (descriptor 0)
unfolding cleanup_vcpus cleanup_vcpu
untouched_closed i [] = refl
untouched_closed i (g ∷ guests) = ap (λ r. descriptor 0 ∷ r) (untouched_closed (i + 1) guests)

one_round :
    (env : Environment) (i : ℕ) (guests : List String) (r : Bool × Context)
    (rest : Bool × List Context) (here later : List Resource) (n : ℕ)
    → cleanup_vcpu i r.1 ≡ here
    → cleanup_vcpus (i + 1) rest.1 ≡ later ++ replicate n (descriptor 0)
    → cleanup_vcpus i (then_others env (map (λ g. static_context) guests) r rest).1
      ≡ (here ++ (if r.0 then later else []))
        ++ replicate (if r.0 then n else length guests) (descriptor 0)
unfolding cleanup_vcpus
one_round env i guests (true, c) (ok, others) here later n e ih =
    ap (λ xs. xs ++ cleanup_vcpus (i + 1) others) e
    ∙ ap (λ xs. here ++ xs) ih
    ∙ sym (append_assoc here later (replicate n (descriptor 0)))
one_round env i guests (false, c) rest here later n e ih =
    ap (λ xs. xs ++ cleanup_vcpus (i + 1) (map (λ g. static_context) guests)) e
    ∙ ap (λ xs. here ++ xs) (untouched_closed (i + 1) guests)
    ∙ ap (λ xs. xs ++ replicate (length guests) (descriptor 0)) (sym (append-nil here))

-- The loop and its clean-up: all that the system gave for the vCPUs, up to the one whose set-up
-- failed, is given back once, nothing else but descriptor 0, which is closed for every vCPU behind
-- the one that failed.
pub cleanup_vcpus-setup_guests :
    (env : Environment) (o : Options) (i : ℕ) (guests : List String)
    → cleanup_vcpus i (setup_guests env o i guests).1
      ≡ all_given env o i guests ++ replicate (behind env o i guests) (descriptor 0)
unfolding setup_guests cleanup_vcpus
cleanup_vcpus-setup_guests env o i [] = refl
cleanup_vcpus-setup_guests env o i (guest ∷ guests) =
    one_round env i guests (setup_guest env o i guest) (setup_guests env o (i + 1) guests) _ _ _
      (guest_released env o i guest) (cleanup_vcpus-setup_guests env o (i + 1) guests)
