-- ===== src/Tests/Launch.antt =====
-- Two guests that are started, a run of the loop that fails at its second guest, and the memory of
-- a vCPU behind its set-up.
use mini_kvm.Base.{ℕ, ◌+◌, ◌^◌, ◌<◌, ◌≡◌, inr, refl, arith, Bool, true, false}
use mini_kvm.Base.{none, some, List, [], ◌∷◌, ◌++◌, replicate, if◌then◌else◌, length}
use mini_kvm.Options.{Options, defaults}
use mini_kvm.Segments.{Segment, Sregs}
use mini_kvm.VcpuSetup.{Kvm, VcpuConfig, setup_vcpu_context}
use mini_kvm.VcpuSetup.Kept.{setup_vcpu_context-kept}
use mini_kvm.VcpuMemory.{BinaryFile}
use mini_kvm.Launch.{Environment, setup_guests, cleanup_vcpus, descriptor}
use mini_kvm.Launch.{static_context}
use mini_kvm.Launch.Guests.{AllLaunched, setup_guests-AllLaunched}
use mini_kvm.Launch.Willing.{IsWilling, AllFit, setup_guests-willing}
use mini_kvm.Launch.Names.{bin, extract_guest_name, extract_guest_name-bin}
use mini_kvm.Launch.Colors.{vcpu_color}
use mini_kvm.Base.{map}
use mini_kvm.Launch.Cleanup.{all_given, behind, cleanup_vcpus-setup_guests}
use Prim.Native.String.{String}
use text.Mathlib.Text.{◌==◌}

-- What KVM reports for a vCPU after reset.
abbrev reset_segment : Segment
reset_segment = record {
  base = 0;
  limit = 0xffff;
  selector = 0;
  type = 3;
  present = 1;
  dpl = 0;
  db = 0;
  s = 1;
  l = 0;
  g = 0;
  avl = 0;
  unusable = 0;
}

abbrev reset : Sregs
reset = record {
  cs = reset_segment;
  ds = reset_segment;
  es = reset_segment;
  fs = reset_segment;
  gs = reset_segment;
  ss = reset_segment;
  gdt = record { base = 0; limit = 0xffff };
  idt = record { base = 0; limit = 0xffff };
  cr0 = 0x60000010;
  cr3 = 0;
  cr4 = 0;
  efer = 0;
}

abbrev kvm : Kvm
kvm = record { accepts = λ log r. true; sregs = λ log. reset; supported_cpuid = λ log. [] }

-- "a.bin" and "b.bin" are there.
abbrev a_bin : BinaryFile
a_bin = record { fsize = some 3; bytes = 0xB0 ∷ 0x00 ∷ 0xF4 ∷ [] }

abbrev b_bin : BinaryFile
b_bin = record { fsize = some 1; bytes = 0xF4 ∷ [] }

abbrev env : Environment
env = record {
  binary = λ v. if v == "a.bin" then some a_bin else if v == "b.bin" then some b_bin else none;
  mmap_ok = λ i. true;
  region_ok = λ i. true;
  kvm = λ i. kvm;
  vcpu_fd = λ i. 7 + i;
}

abbrev paging : Options
paging = record defaults { enable_paging = true }

env-IsWilling : (i : ℕ) → IsWilling env i
env-IsWilling i = record { mmap = refl; region = refl; kvm = λ log r h. refl }

abbrev two : List String
two = "a.bin" ∷ "b.bin" ∷ []

two-AllFit : AllFit env paging 0 two
two-AllFit = (
  record { file = a_bin; opened = refl; whole = refl; room = omega arith },
  (record { file = b_bin; opened = refl; whole = refl; room = omega arith }, tt),
)

env-small : (guest : String) (f : BinaryFile) → env.binary guest ≡ some f → length f.bytes < 2 ^ 63
env-small guest f e = by_test (guest == "a.bin") (guest == "b.bin") e
  where
    by_test :
        (a b : Bool)
        → (if a then some a_bin else if b then some b_bin else none) ≡ some f
        → length f.bytes < 2 ^ 63
    by_test true b h = ground arith
    by_test false true h = ground arith
    by_test false false h = cc

setup_guests-willing_example : (setup_guests env paging 0 two).0 ≡ true
setup_guests-willing_example = setup_guests-willing env paging 0 two env-IsWilling two-AllFit

setup_guests-AllLaunched_example : AllLaunched env paging 0 two (setup_guests env paging 0 two).1
setup_guests-AllLaunched_example =
    setup_guests-AllLaunched env paging 0 two env-small (omega arith) (omega arith)
      (setup_guests-willing env paging 0 two env-IsWilling two-AllFit)

-- The second of four guests is not there: the two behind it are never begun.
abbrev four : List String
four = "a.bin" ∷ "gone.bin" ∷ "b.bin" ∷ "b.bin" ∷ []

cleanup_vcpus-setup_guests_example :
    cleanup_vcpus 0 (setup_guests env paging 0 four).1
    ≡ all_given env paging 0 four ++ replicate (behind env paging 0 four) (descriptor 0)
cleanup_vcpus-setup_guests_example = cleanup_vcpus-setup_guests env paging 0 four

abbrev ctx : VcpuConfig
ctx = record static_context.config { mem_size = 0x400000; use_paging = true }

-- The first byte behind the page tables.
setup_vcpu_context-kept_example :
    (setup_vcpu_context kvm ctx (record { mem = λ x. 0xcc; requests = [] })).1.mem 0x103000 ≡ 0xcc
setup_vcpu_context-kept_example =
    setup_vcpu_context-kept kvm ctx (record { mem = λ x. 0xcc; requests = [] }) 0x103000
      (omega arith) (inr (omega arith), (inr (omega arith), tt))

-- "guest/a.b.bin"
extract_guest_name-bin_example :
    extract_guest_name ((103 ∷ 117 ∷ 101 ∷ 115 ∷ 116 ∷ []) ++ (47 ∷ ((97 ∷ 46 ∷ 98 ∷ []) ++ bin)))
    ≡ 97 ∷ 46 ∷ 98 ∷ []
extract_guest_name-bin_example =
    extract_guest_name-bin (103 ∷ 117 ∷ 101 ∷ 115 ∷ 116 ∷ []) (97 ∷ 46 ∷ 98 ∷ [])
      (refl, (refl, (refl, tt))) (omega arith)

-- Four vCPUs: green, blue, blue to magenta, and pink.
four_colors : map (vcpu_color 4) (0 ∷ 1 ∷ 2 ∷ 3 ∷ []) ≡ 46 ∷ 45 ∷ 93 ∷ 198 ∷ []
unfolding vcpu_color
four_colors = refl
