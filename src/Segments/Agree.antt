-- ===== src/Segments/Agree.antt =====
-- The segment registers agree with the descriptors that their selectors name in guest memory: a
-- guest that reloads a selector keeps the segment it was started with.
use mini_kvm.Base.{◌+◌, ◌*◌, ◌/◌, ◌%◌, ◌≡◌, arith}
use mini_kvm.Base.{if◌then◌else◌, ◌==◌}
use mini_kvm.GuestMem.{Mem, load}
use mini_kvm.Gdt.{access_code_r, access_data_w}
use mini_kvm.Gdt.Tables.{flat}
use mini_kvm.Gdt.{setup_gdt, setup_linux_boot_gdt, gdt_addr}
use mini_kvm.Gdt.Descriptor.{Descriptor, decode}
use mini_kvm.Gdt.Tables.{setup_gdt-code, setup_gdt-data, linux_gdt-code, linux_gdt-data}
use mini_kvm.Segments.{Segment, Sregs, setup_protectedmode_segments, setup_linux_boot_segments}

-- What the processor caches when it loads the descriptor `d` through `selector`.
pub record IsLoaded (d : Descriptor) (seg : Segment) : Type 0 where
  pub base : seg.base ≡ d.base
  pub limit : seg.limit ≡ (if d.flags / 8 == 1 then d.limit * 4096 + 4095 else d.limit)
  pub type : seg.type ≡ d.access % 16
  pub s : seg.s ≡ d.access / 16 % 2
  pub dpl : seg.dpl ≡ d.access / 32 % 4
  pub present : seg.present ≡ d.access / 128
  pub avl : seg.avl ≡ d.flags % 2
  pub l : seg.l ≡ d.flags / 2 % 2
  pub db : seg.db ≡ d.flags / 4 % 2
  pub g : seg.g ≡ d.flags / 8

-- The segment is the one that its selector names in the GDT at `gdt_addr`.
abbrev pub FromGdt : Mem → Segment → Type 0
FromGdt m seg = IsLoaded (decode (load 8 m (gdt_addr + seg.selector / 8 * 8))) seg

abbrev pub AllFromGdt : Mem → Sregs → Type 0
AllFromGdt m sregs =
    FromGdt m sregs.cs
    × FromGdt m sregs.ds
    × FromGdt m sregs.es
    × FromGdt m sregs.fs
    × FromGdt m sregs.gs
    × FromGdt m sregs.ss

-- A memory that still holds the two descriptors is enough.
pub AllFromGdt_of :
    (m : Mem) (sregs : Sregs)
    → decode (load 8 m (gdt_addr + 8)) ≡ flat access_code_r
    → decode (load 8 m (gdt_addr + 16)) ≡ flat access_data_w
    → AllFromGdt m (setup_protectedmode_segments sregs)
unfolding setup_protectedmode_segments
AllFromGdt_of m sregs code data_of = (
  rw code (omega arith),
  rw data_of (omega arith),
  rw data_of (omega arith),
  rw data_of (omega arith),
  rw data_of (omega arith),
  rw data_of (omega arith),
)

-- Whatever the memory and the registers were before, the six segment registers that the VMM sets
-- for a Protected Mode guest are those that their selectors name in the GDT that it writes.
pub protectedmode-agree :
    (m : Mem) (sregs : Sregs) → AllFromGdt (setup_gdt m) (setup_protectedmode_segments sregs)
protectedmode-agree m sregs =
    AllFromGdt_of (setup_gdt m) sregs (setup_gdt-code m) (setup_gdt-data m)

-- The same for the GDT of the Linux boot protocol.
pub AllFromGdt_of_linux :
    (m : Mem) (sregs : Sregs)
    → decode (load 8 m (gdt_addr + 16)) ≡ flat access_code_r
    → decode (load 8 m (gdt_addr + 24)) ≡ flat access_data_w
    → AllFromGdt m (setup_linux_boot_segments sregs)
unfolding setup_linux_boot_segments
AllFromGdt_of_linux m sregs code data_of = (
  rw code (omega arith),
  rw data_of (omega arith),
  rw data_of (omega arith),
  rw data_of (omega arith),
  rw data_of (omega arith),
  rw data_of (omega arith),
)

-- Whatever the memory and the registers were before, the six segment registers that the VMM sets
-- for the 32-bit Linux entry are those that their selectors name in the GDT that it writes for the
-- Linux boot protocol.
pub linux_boot-agree :
    (m : Mem) (sregs : Sregs)
    → AllFromGdt (setup_linux_boot_gdt m) (setup_linux_boot_segments sregs)
linux_boot-agree m sregs =
    AllFromGdt_of_linux (setup_linux_boot_gdt m) sregs (linux_gdt-code m) (linux_gdt-data m)
