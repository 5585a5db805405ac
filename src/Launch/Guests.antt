-- ===== src/Launch/Guests.antt =====
-- What the guests start from when the set-up of all of them succeeds.
use mini_kvm.Base.{ℕ, ◌+◌, ◌*◌, ◌^◌, ◌≤◌, ◌<◌, ◌≡◌, refl, ◌∙◌}
use mini_kvm.Base.{arith, subst, Bool, true, false, Option, none, some, List, [], ◌∷◌}
use mini_kvm.Base.{length, get_or, map, inl, inr, Bool-cases, u64}
use mini_kvm.GuestMem.{Mem}
use mini_kvm.GuestMem.Laws.{IsOutside}
use mini_kvm.Options.{Options}
use mini_kvm.VcpuSetup.{VcpuConfig, setup_vcpu_context}
use mini_kvm.VcpuSetup.Kept.{AllOutside, tables_of, setup_vcpu_context-kept}
use mini_kvm.VcpuMemory.{MemoryRegion, BinaryFile, vcpu_mem_size, setup_vcpu_memory}
use mini_kvm.VcpuMemory.{load_guest_binary}
use mini_kvm.VcpuMemory.Laws.{load_guest_binary-loaded}
use mini_kvm.Launch.{Environment, Context, static_context, guest_config, new_context, no_vm}
use mini_kvm.Launch.{setup_guest, setup_guests, with_memory, with_binary, with_vcpu, then_others}
use Prim.Native.String.{String}

-- What `setup_vcpu_memory` adds to the configuration.
abbrev pub sized_config : Options → ℕ → VcpuConfig
sized_config o i = record (guest_config o i) { mem_size = vcpu_mem_size (guest_config o i) }

-- Guest `i` has a slot of its own, with as much memory as its mode wants, right behind that of
-- the guest before it. Its binary lies in it from the load offset on, zeros around it, but where
-- the tables of its mode are.
pub record IsLaunched (env : Environment) (o : Options) (i : ℕ) (guest : String) (c : Context)
    : Type 0 where
  pub config : c.config ≡ sized_config o i
  pub region :
      c.region
      ≡ some record {
        slot = i;
        guest_phys_addr = i * c.config.mem_size;
        memory_size = c.config.mem_size;
      }
  pub file : BinaryFile
  pub opened : env.binary guest ≡ some file
  pub whole : file.fsize ≡ some (length file.bytes)
  pub fits : c.config.load_offset + length file.bytes ≤ c.config.mem_size
  pub image :
      (k : ℕ)
      → k < length file.bytes
      → AllOutside (tables_of c.config) (c.config.load_offset + k)
      → c.vm.mem (c.config.load_offset + k) ≡ get_or file.bytes k 0
  pub zeros :
      (x : ℕ)
      → IsOutside c.config.load_offset (length file.bytes) x
      → AllOutside (tables_of c.config) x
      → c.vm.mem x ≡ 0

abbrev pub AllLaunched : Environment → Options → ℕ → List String → List Context → Type 0
AllLaunched env o i [] [] = Unit
AllLaunched env o i [] (c ∷ cs) = ⊥
AllLaunched env o i (guest ∷ guests) [] = ⊥
AllLaunched env o i (guest ∷ guests) (c ∷ cs) =
    IsLaunched env o i guest c × AllLaunched env o (i + 1) guests cs

-- The region that KVM is given.
abbrev region_for : Options → ℕ → MemoryRegion
region_for o i = record {
  slot = i;
  guest_phys_addr = i * vcpu_mem_size (guest_config o i);
  memory_size = vcpu_mem_size (guest_config o i);
}

memory_size_lt : (o : Options) (i : ℕ) → vcpu_mem_size (guest_config o i) < 2 ^ 23
memory_size_lt o i = elim (Bool-cases o.enable_paging) [
  | inl e ↦ rw e (omega arith)
  | inr e ↦ rw e (omega arith)
]

memory_given :
    (a b : Bool) (o : Options) (i : ℕ) (config : VcpuConfig) (region : MemoryRegion)
    → i < 4
    → setup_vcpu_memory a b (guest_config o i) ≡ some (config, region)
    → ◌≡◌ {A = VcpuConfig × MemoryRegion} (sized_config o i, region_for o i) (config, region)
unfolding setup_vcpu_memory
memory_given true true o i config region h e = ground (arith, no_wrap)
  where
    no_wrap : u64 (i * vcpu_mem_size (guest_config o i)) ≡ i * vcpu_mem_size (guest_config o i)
    no_wrap = grind (arith, memory_size_lt o i)
memory_given true false o i config region h e = absurd (ground arith)
memory_given false b o i config region h e = absurd (ground arith)

module _ (env : Environment) (o : Options)
    (small : (guest : String) (f : BinaryFile)
      → env.binary guest ≡ some f
      → length f.bytes < 2 ^ 63)
    (offset : o.load_offset < 2 ^ 32) (i : ℕ) (few : i < 4) (guest : String) where
  offset_lt : (sized_config o i).load_offset < 2 ^ 32
  offset_lt = elim (Bool-cases o.enable_paging) [ inl e ↦ rw e offset | inr e ↦ rw e (omega arith) ]

  -- The context when the memory is there.
  abbrev sized : Context
  sized = record (new_context o i) {
    config = sized_config o i;
    region = some (region_for o i);
    guest_mem = true;
  }

  with_vcpu-IsLaunched :
      (f : BinaryFile) (mem : Mem)
      → env.binary guest ≡ some f
      → load_guest_binary (some f) no_vm.mem sized.config.mem_size sized.config.load_offset
        ≡ some mem
      → IsLaunched env o i guest
          (with_vcpu env i sized
            (setup_vcpu_context (env.kvm i) sized.config (record { mem = mem; requests = [] }))).1
  with_vcpu-IsLaunched f mem open_ok loaded =
      let (whole, fits, image, rest) =
        load_guest_binary-loaded f no_vm.mem sized.config.mem_size sized.config.load_offset mem
          (small guest f open_ok) offset_lt loaded in
      record {
        config = refl;
        region = refl;
        file = f;
        opened = open_ok;
        whole = whole;
        fits = fits;
        image = λ k h out. kept mem (sized.config.load_offset + k) out ∙ image k h;
        zeros = λ x away out. kept mem x out ∙ rest x away;
      }
    where
      kept :
          (mem : Mem) (x : ℕ)
          → AllOutside (tables_of sized.config) x
          → (setup_vcpu_context
                (env.kvm i)
                sized.config
                (record { mem = mem; requests = [] })).1.mem
              x
            ≡ mem x
      kept mem x out =
          setup_vcpu_context-kept (env.kvm i) sized.config (record { mem = mem; requests = [] }) x
            (omega (arith, memory_size_lt o i)) out

  with_binary-IsLaunched :
      (file : Option BinaryFile) (image : Option Mem)
      → env.binary guest ≡ file
      → load_guest_binary file no_vm.mem sized.config.mem_size sized.config.load_offset ≡ image
      → (with_binary env i sized image).0 ≡ true
      → IsLaunched env o i guest (with_binary env i sized image).1
  with_binary-IsLaunched file none e l h = cc
  with_binary-IsLaunched none (some mem) e l h = absurd (clash l)
    where
      clash :
          load_guest_binary none no_vm.mem sized.config.mem_size sized.config.load_offset ≡ some mem
          → ⊥
      clash c = unfold load_guest_binary in cc c
  with_binary-IsLaunched (some f) (some mem) e l h = with_vcpu-IsLaunched f mem e l

  with_memory-IsLaunched :
      (r : Option (VcpuConfig × MemoryRegion))
      → setup_vcpu_memory (env.mmap_ok i) (env.region_ok i) (guest_config o i) ≡ r
      → (with_memory env i guest (new_context o i) r).0 ≡ true
      → IsLaunched env o i guest (with_memory env i guest (new_context o i) r).1
  with_memory-IsLaunched none e = λ h. cc
  with_memory-IsLaunched (some (config, region)) e =
      subst
        (λ p.
          (with_memory env i guest (new_context o i) (some p)).0 ≡ true
          → IsLaunched env o i guest (with_memory env i guest (new_context o i) (some p)).1)
        (memory_given (env.mmap_ok i) (env.region_ok i) o i config region few e)
        (with_binary-IsLaunched (env.binary guest) _ refl refl)

  setup_guest-IsLaunched :
      (setup_guest env o i guest).0 ≡ true → IsLaunched env o i guest (setup_guest env o i guest).1
  unfolding setup_guest
  setup_guest-IsLaunched h = with_memory-IsLaunched _ refl h

-- When every guest of at most four is set up, with files below 2^63 bytes and a load offset of 32
-- bits, each has a slot and a region of its own, as large as its mode wants and right behind that
-- of the guest before it; its binary, as long as its file says, lies in it from the load offset
-- on with zeros around it, but where the tables of its mode are written. This holds whatever KVM
-- answers.
pub setup_guests-AllLaunched :
    (env : Environment) (o : Options) (i : ℕ) (guests : List String)
    → ((guest : String) (f : BinaryFile) → env.binary guest ≡ some f → length f.bytes < 2 ^ 63)
    → o.load_offset < 2 ^ 32
    → i + length guests ≤ 4
    → (setup_guests env o i guests).0 ≡ true
    → AllLaunched env o i guests (setup_guests env o i guests).1
unfolding setup_guests
setup_guests-AllLaunched env o i [] small offset few h = tt
setup_guests-AllLaunched env o i (guest ∷ guests) small offset few h =
    one_round (setup_guest env o i guest) (setup_guests env o (i + 1) guests)
      (setup_guest-IsLaunched env o small offset i (omega arith) guest)
      (setup_guests-AllLaunched env o (i + 1) guests small offset (omega arith)) h
  where
    one_round :
        (r : Bool × Context) (rest : Bool × List Context)
        → (r.0 ≡ true → IsLaunched env o i guest r.1)
        → (rest.0 ≡ true → AllLaunched env o (i + 1) guests rest.1)
        → (then_others env (map (λ g. static_context) guests) r rest).0 ≡ true
        → AllLaunched env o i
            (guest ∷ guests)
            (then_others env (map (λ g. static_context) guests) r rest).1
    one_round (true, c) (ok, others) f g k = (f refl, g k)
    one_round (false, c) rest f g k = cc
