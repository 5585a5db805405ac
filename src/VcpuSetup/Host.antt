-- ===== src/VcpuSetup/Host.antt =====
-- The host as the set-up of a vCPU sees it (KVM's requests and `struct kvm_regs`), and the fields
-- of `vcpu_context_t` that the set-up reads.
use mini_kvm.Base.{ℕ, Bool, true, false, if◌then◌else◌, List, [], ◌∷◌, ◌++◌}
use mini_kvm.GuestMem.{Mem}
use mini_kvm.Segments.{Sregs}
use mini_kvm.Gdt.{}
use mini_kvm.Cpuid.{CpuidEntry}

-- `linux_entry_mode_t`, `linux_rsi_mode_t`
pub data LinuxEntryMode : Type 0 where
  setup code32 boot64 : LinuxEntryMode

pub data LinuxRsiMode : Type 0 where
  base hdr : LinuxRsiMode

-- The fields of `vcpu_context_t` that the set-up reads.
pub record VcpuConfig : Type 0 where
  pub vcpu_id : ℕ
  pub mem_size : ℕ
  pub use_paging : Bool
  pub long_mode : Bool
  pub entry_point : ℕ
  pub load_offset : ℕ
  pub linux_guest : Bool
  pub linux_entry : LinuxEntryMode
  pub linux_rsi : LinuxRsiMode
  pub verbose : Bool

-- `struct kvm_regs`, of which the other registers are always cleared.
pub record StartRegs : Type 0 where
  pub rip : ℕ
  pub rsp : ℕ
  pub rbp : ℕ
  pub rsi : ℕ
  pub rflags : ℕ

-- `struct kvm_msr_entry`
pub record MsrEntry : Type 0 where
  pub index : ℕ
  pub data_value : ℕ

-- What is asked of the host: the KVM requests, and the memory that it is asked for. The last two are
-- KVM_GET_SREGS and KVM_GET_REGS where the answer is only printed.
pub data Request : Type 0 where
  create_vcpu : ℕ → Request
  get_vcpu_mmap_size mmap_run get_sregs calloc_cpuid get_supported_cpuid : Request
  set_sregs : Sregs → Request
  set_cpuid2 : List CpuidEntry → Request
  set_regs : StartRegs → Request
  set_msrs : List MsrEntry → Request
  set_mp_state_runnable : Request
  verify_sregs verify_regs : Request

-- Whether a request succeeds after those before it, and what the two reads answer.
pub record Kvm : Type 0 where
  pub accepts : List Request → Request → Bool
  pub sregs : List Request → Sregs
  pub supported_cpuid : List Request → List CpuidEntry

pub record Vm : Type 0 where
  pub mem : Mem
  pub requests : List Request

-- Whether the C function goes on, and the state after it.
abbrev pub Step : Type 0
Step = Vm → Bool × Vm

abbrev pub request : Kvm → Request → Step
request kvm r vm = (kvm.accepts vm.requests r, record vm { requests = vm.requests ++ r ∷ [] })

-- `if (first < 0) return -1; next`
infixr 20 ◌and_then◌
unfoldable pub ◌and_then◌ : Step → Step → Step
(first and_then next) vm = let (ok, vm') = first vm in if ok then next vm' else (false, vm')

unfoldable pub write : (Mem → Mem) → Step
write f vm = (true, record vm { mem = f vm.mem })

-- A request with the segment registers that the host was last asked for.
unfoldable pub change_sregs : Kvm → (Sregs → Sregs) → Step
change_sregs kvm f vm = request kvm (set_sregs (f (kvm.sregs vm.requests))) vm
