-- ===== src/Paging32/Walk.antt =====
-- The processor's reading of the tables: with CR4 = 0 the linear address is split 10-10-12 and
-- every page has 4KB. (Intel SDM, vol. 3, 4.3; independent of the code that writes the tables.)
use mini_kvm.Base.{Bool, ℕ, ◌+◌, ◌-◌, ◌*◌, ◌/◌, ◌%◌, ◌^◌, ◌≤◌, ◌<◌, ◌≡◌, ◌⊎◌, inl, ap, ◌∙◌}
use mini_kvm.Base.{arith, Option, none, some, ltb, leb, ◌==◌, ◌&&◌, if◌then◌else◌}
use mini_kvm.Base.Bits.{or-fields}
use mini_kvm.GuestMem.{Mem, load, fill}
use mini_kvm.GuestMem.Laws.{
  load-store, load-store-IsOutside, load-memset-IsOutside, load-memset_zero,
}
use mini_kvm.Base.{dec_lt}
use mini_kvm.GuestMem.Laws.{IsOutside, fill-IsOutside, store-IsOutside, memset-IsOutside}
use mini_kvm.GuestMem.Laws.{load-fill, load-fill-IsOutside}
use mini_kvm.Paging32.{page_dir_offset, page_table_0_offset, page_table_512_offset, page_entry}
use mini_kvm.Paging32.{clear_tables, set_directory, setup_page_tables}

abbrev pub is_present : ℕ → Bool
is_present entry = entry % 2 == 1

-- The frame of an entry, bits 31 to 12.
abbrev pub frame : ℕ → ℕ
frame entry = entry / 4096 * 4096

abbrev pub walk_table : Mem → ℕ → ℕ → Option ℕ
walk_table m pde va =
    let pte = load 4 m (frame pde + 4 * (va / 4096 % 1024)) in
    if is_present pte then some (frame pte + va % 4096) else none

-- The physical address of a linear address, or `none` for a page fault.
unfoldable pub walk : Mem → ℕ → ℕ → Option ℕ
walk m cr3 va =
    let pde = load 4 m (frame cr3 + 4 * (va / 2 ^ 22 % 1024)) in
    if is_present pde then walk_table m pde va else none

page_entry-sum : (i : ℕ) → page_entry i ≡ i * 4096 + 3
page_entry-sum i = or-fields 12 i 3 (omega arith)

page_entry-lt : (i : ℕ) → i < 1024 → page_entry i < 256 ^ 4
page_entry-lt i h = omega (arith, page_entry-sum i)

-- The memory that a successful `setup_page_tables` leaves.
abbrev pub after : Mem → Mem
after m =
    fill 4 page_entry 1024 0
      (fill 4 page_entry 1024 0 (set_directory (clear_tables m)) page_table_0_offset)
      page_table_512_offset

module _ (m : Mem) where
  table_512_entry :
      (k : ℕ) → k < 1024 → load 4 (after m) (page_table_512_offset + 4 * k) ≡ k * 4096 + 3
  table_512_entry k h =
      load-fill 4 page_entry 1024 0 _ page_table_512_offset k (λ i p. page_entry-lt i p) h
      ∙ page_entry-sum (0 + k)
      ∙ omega arith

  table_0_entry : (k : ℕ) → k < 1024 → load 4 (after m) (page_table_0_offset + 4 * k) ≡ k * 4096 + 3
  table_0_entry k h =
      load-fill-IsOutside 4 4 page_entry 1024 0 _ page_table_512_offset _ (inl (omega arith))
      ∙ load-fill 4 page_entry 1024 0 _ page_table_0_offset k (λ i p. page_entry-lt i p) h
      ∙ page_entry-sum (0 + k)
      ∙ omega arith

  -- The tables lie behind the directory.
  directory-after :
      (k : ℕ)
      → k < 1024
      → load 4 (after m) (page_dir_offset + 4 * k)
        ≡ load 4 (set_directory (clear_tables m)) (page_dir_offset + 4 * k)
  directory-after k h =
      load-fill-IsOutside 4 4 page_entry 1024 0 _ page_table_512_offset _ (inl (omega arith))
      ∙ load-fill-IsOutside 4 4 page_entry 1024 0 _ page_table_0_offset _ (inl (omega arith))

  directory_first : load 4 (after m) page_dir_offset ≡ 0x00101003
  directory_first =
      directory-after 0 (omega arith)
      ∙ load-store-IsOutside 4 4 _ (page_dir_offset + 4 * 512) page_dir_offset 0x00102003
          (inl (omega arith))
      ∙ load-store 4 _ page_dir_offset 0x00101003 (omega arith)

  directory_high : load 4 (after m) (page_dir_offset + 4 * 512) ≡ 0x00102003
  directory_high = directory-after 512 (omega arith) ∙ load-store 4 _ _ 0x00102003 (omega arith)

  directory_other :
      (k : ℕ)
      → k < 1024
      → 0 < k
      → (k < 512) ⊎ (512 < k)
      → load 4 (after m) (page_dir_offset + 4 * k) ≡ 0
  directory_other k h pos ne =
      directory-after k h
      ∙ load-store-IsOutside 4 4 _ (page_dir_offset + 4 * 512) _ 0x00102003 (omega arith)
      ∙ load-store-IsOutside 4 4 _ page_dir_offset _ 0x00101003 (omega arith)
      ∙ load-memset-IsOutside 4 _ page_table_512_offset 0 4096 _ (inl (omega arith))
      ∙ load-memset-IsOutside 4 _ page_table_0_offset 0 4096 _ (inl (omega arith))
      ∙ load-memset_zero 4 m page_dir_offset 4096 _ (omega arith) (omega arith)

  low : (va : ℕ) → va < 2 ^ 22 → walk (after m) page_dir_offset va ≡ some va
  unfolding walk
  low va h = ground (
    arith,
    ap (λ i. load 4 (after m) (page_dir_offset + 4 * i)) (first_index va h),
    directory_first,
    table_0_entry (va / 4096 % 1024),
  )
    where
      first_index : (x : ℕ) → x < 2 ^ 22 → x / 2 ^ 22 % 1024 ≡ 0
      first_index x p = omega arith

  high :
      (va : ℕ)
      → 2 ^ 31 ≤ va
      → va < 2 ^ 31 + 2 ^ 22
      → walk (after m) page_dir_offset va ≡ some (va - 2 ^ 31)
  unfolding walk
  high va h k = ground (
    arith,
    ap (λ i. load 4 (after m) (page_dir_offset + 4 * i)) (index va h k),
    directory_high,
    table_512_entry (va / 4096 % 1024),
  )
    where
      index : (x : ℕ) → 2 ^ 31 ≤ x → x < 2 ^ 31 + 2 ^ 22 → x / 2 ^ 22 % 1024 ≡ 512
      index x p q = omega arith

  unmapped :
      (va : ℕ)
      → va < 2 ^ 32
      → 2 ^ 22 ≤ va
      → (va < 2 ^ 31) ⊎ (2 ^ 31 + 2 ^ 22 ≤ va)
      → walk (after m) page_dir_offset va ≡ none
  unfolding walk
  unmapped va h k out =
      ground (arith, directory_other (va / 2 ^ 22 % 1024) (omega arith) (omega arith) (omega arith))

-- The mapping that the 1K OS is linked for: the low 4MB, once at 0 and once at 0x80000000.
abbrev pub kernel_map : ℕ → Option ℕ
kernel_map va =
    if ltb va (2 ^ 22)
    then some va
    else if leb (2 ^ 31) va && ltb va (2 ^ 31 + 2 ^ 22)
    then some (va - 2 ^ 31)
    else none

after-walk : (m : Mem) (va : ℕ) → va < 2 ^ 32 → walk (after m) page_dir_offset va ≡ kernel_map va
after-walk m va h = elim (dec_lt va (2 ^ 22)) [
  | yes p ↦ ground (arith, low m va p)
  | no p ↦ ground (arith, high m va, unmapped m va h)
]

after-IsOutside : (m : Mem) (x : ℕ) → IsOutside 0x00100000 0x3000 x → after m x ≡ m x
after-IsOutside m x out =
    fill-IsOutside 4 page_entry 1024 0 _ page_table_512_offset x (omega arith)
    ∙ fill-IsOutside 4 page_entry 1024 0 _ page_table_0_offset x (omega arith)
    ∙ store-IsOutside 4 _ (page_dir_offset + 4 * 512) 0x00102003 x (omega arith)
    ∙ store-IsOutside 4 _ page_dir_offset 0x00101003 x (omega arith)
    ∙ memset-IsOutside _ page_table_512_offset 0 4096 x (omega arith)
    ∙ memset-IsOutside _ page_table_0_offset 0 4096 x (omega arith)
    ∙ memset-IsOutside m page_dir_offset 0 4096 x (omega arith)

pub setup_page_tables-IsOutside :
    (mem_size : ℕ) (m : Mem) (cr3 : ℕ) (m' : Mem) (x : ℕ)
    → setup_page_tables mem_size m ≡ some (cr3, m')
    → IsOutside 0x00100000 0x3000 x
    → m' x ≡ m x
unfolding setup_page_tables
setup_page_tables-IsOutside mem_size m cr3 m' x e out = ap (λ n. n x) same ∙ after-IsOutside m x out
  where
    same : m' ≡ after m
    same = ground arith

-- In a memory of more than 0x103000 bytes the set-up succeeds with CR3 = 0x100000, and with
-- the tables that it leaves the processor translates every 32-bit address as intended: the low 4MB
-- to themselves, 0x80000000 to 0x803fffff down to 0, and a page fault for all else. No byte
-- outside the three pages is changed.
pub setup_page_tables-walk :
    (mem_size : ℕ) (m : Mem)
    → 0x103000 < mem_size
    → (m' : Mem) × (setup_page_tables mem_size m ≡ some (0x00100000, m'))
      × ((va : ℕ) → va < 2 ^ 32 → walk m' 0x00100000 va ≡ kernel_map va)
      × ((x : ℕ) → IsOutside 0x00100000 0x3000 x → m' x ≡ m x)
unfolding setup_page_tables
setup_page_tables-walk mem_size m h =
    (after m, ground arith, after-walk m, λ x out. after-IsOutside m x out)
