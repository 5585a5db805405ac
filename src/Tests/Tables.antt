-- ===== src/Tests/Tables.antt =====
-- The tables in a guest memory: page tables, segment descriptors, interrupt vectors.
use mini_kvm.Base.{ℕ, ◌^◌, ◌<◌, ◌≡◌, refl, arith}
use mini_kvm.Base.{some}
use mini_kvm.GuestMem.{Mem}
use mini_kvm.Paging32.{setup_page_tables}
use mini_kvm.Paging32.Walk.{kernel_map, setup_page_tables-walk}
use mini_kvm.Paging32.Walk
use mini_kvm.GuestMem.Laws.{IsOutside}

abbrev blank : Mem
blank = λ x. 0xcc

-- 4MB
setup_page_tables-walk_example :
    (m' : Mem) × (setup_page_tables 0x400000 blank ≡ some (0x00100000, m'))
    × ((va : ℕ) → va < 2 ^ 32 → Walk.walk m' 0x00100000 va ≡ kernel_map va)
    × ((x : ℕ) → IsOutside 0x00100000 0x3000 x → m' x ≡ 0xcc)
setup_page_tables-walk_example = setup_page_tables-walk 0x400000 blank (omega arith)

kernel_map_high : kernel_map 0x80001234 ≡ some 0x1234
kernel_map_high = refl
