-- ===== src/Paging64/Walk.antt =====
-- The processor's reading of the four-level tables: 9-9-9-9-12, a 2MB page where bit 7 of the
-- page-directory entry is set. (Intel SDM, vol. 3, 4.5; independent of the code that writes them.)
use mini_kvm.Base.{
  ℕ, ◌+◌, ◌*◌, ◌/◌, ◌%◌, ◌^◌, ◌<◌, ◌≡◌, ◌∙◌, ap, refl, arith, Bool, Option, none, some,
}
use mini_kvm.Base.{◌==◌, ltb, if◌then◌else◌, min, inl, ◌⊎◌, ◌≤◌, bit_or, dec_lt}
use mini_kvm.Base.Bits.{or_assoc, or-fields}
use mini_kvm.GuestMem.{Mem, memset, store, load}
use mini_kvm.GuestMem.Laws.{load-store, load-store-IsOutside, load-memset_zero}
use mini_kvm.GuestMem.Laws.{
  load-fill, load-fill-IsOutside, IsOutside, fill-IsOutside, store-IsOutside, memset-IsOutside,
}
use mini_kvm.Paging64.{pml4_addr, pdpt_addr, pd_addr, pt_entries, page_entry, num_pages_2mb}
use mini_kvm.Paging64.{identity_tables, setup_page_tables_64bit}

abbrev pub is_present : ℕ → Bool
is_present entry = entry % 2 == 1

abbrev pub is_large : ℕ → Bool
is_large entry = entry / 2 ^ 7 % 2 == 1

-- Bits 51 to 12 of an entry.
abbrev pub frame : ℕ → ℕ
frame entry = entry / 2 ^ 12 % 2 ^ 40 * 2 ^ 12

abbrev pub walk_pt : Mem → ℕ → ℕ → Option ℕ
walk_pt m pde va =
    let pte = load 8 m (frame pde + 8 * (va / 2 ^ 12 % 512)) in
    if is_present pte then some (frame pte + va % 2 ^ 12) else none

abbrev pub walk_pd : Mem → ℕ → ℕ → Option ℕ
walk_pd m pdpte va =
    let pde = load 8 m (frame pdpte + 8 * (va / 2 ^ 21 % 512)) in
    if is_present pde
    then if is_large pde
      then some (pde / 2 ^ 21 % 2 ^ 31 * 2 ^ 21 + va % 2 ^ 21)
      else walk_pt m pde va
    else none

abbrev pub walk_pdpt : Mem → ℕ → ℕ → Option ℕ
walk_pdpt m pml4e va =
    let pdpte = load 8 m (frame pml4e + 8 * (va / 2 ^ 30 % 512)) in
    if is_present pdpte then walk_pd m pdpte va else none

pub walk : Mem → ℕ → ℕ → Option ℕ
walk m cr3 va =
    let pml4e = load 8 m (frame cr3 + 8 * (va / 2 ^ 39 % 512)) in
    if is_present pml4e then walk_pdpt m pml4e va else none

page_entry-sum : (i : ℕ) → page_entry i ≡ i * 0x200000 + 0x87
page_entry-sum i =
    rw
      (
        or_assoc (bit_or (bit_or (i * 2 ^ 21) 1) 2) 4 0x80,
        or_assoc (bit_or (i * 2 ^ 21) 1) 2 0x84,
        or_assoc (i * 2 ^ 21) 1 0x86,
      )
      (or-fields 21 i 0x87 (omega arith))

page_entry-lt : (i : ℕ) → i < 512 → page_entry i < 256 ^ 8
page_entry-lt i h = omega (arith, page_entry-sum i)

abbrev pub rounded : ℕ → ℕ
rounded mem_size = min (num_pages_2mb mem_size) pt_entries

module _ (m : Mem) (mem_size : ℕ) where
  pub directory_entry :
      (k : ℕ)
      → k < rounded mem_size
      → load 8 (identity_tables mem_size m) (pd_addr + 8 * k) ≡ k * 0x200000 + 0x87
  directory_entry k h =
      load-fill 8 page_entry (rounded mem_size) 0 _ pd_addr k (λ i p. page_entry-lt i (omega arith))
        h
      ∙ page_entry-sum (0 + k)
      ∙ omega arith

  before_directory :
      (b : ℕ)
      → b + 8 ≤ pd_addr
      → load 8 (identity_tables mem_size m) b
        ≡ load 8
            (store 8 (store 8 (memset m pml4_addr 0 0x4000) pml4_addr 0x3007) pdpt_addr 0x4007)
            b
  before_directory b h =
      load-fill-IsOutside 8 8 page_entry (rounded mem_size) 0 _ pd_addr b (inl (omega arith))

  pub pml4_first : load 8 (identity_tables mem_size m) pml4_addr ≡ 0x3007
  pml4_first =
      before_directory pml4_addr (omega arith)
      ∙ load-store-IsOutside 8 8 _ pdpt_addr pml4_addr 0x4007 (inl (omega arith))
      ∙ load-store 8 _ pml4_addr 0x3007 (omega arith)

  pub pdpt_first : load 8 (identity_tables mem_size m) pdpt_addr ≡ 0x4007
  pdpt_first =
      before_directory pdpt_addr (omega arith) ∙ load-store 8 _ pdpt_addr 0x4007 (omega arith)

  -- All else in the four pages is 0.
  cleared :
      (b : ℕ)
      → pml4_addr ≤ b
      → b + 8 ≤ pml4_addr + 0x4000
      → (pml4_addr + 8 ≤ b) × ((b + 8 ≤ pdpt_addr) ⊎ (pdpt_addr + 8 ≤ b))
      → (b + 8 ≤ pd_addr) ⊎ (pd_addr + 8 * rounded mem_size ≤ b)
      → load 8 (identity_tables mem_size m) b ≡ 0
  cleared b lo hi apart out =
      load-fill-IsOutside 8 8 page_entry (rounded mem_size) 0 _ pd_addr b out
      ∙ load-store-IsOutside 8 8 _ pdpt_addr b 0x4007 (omega arith)
      ∙ load-store-IsOutside 8 8 _ pml4_addr b 0x3007 (omega arith)
      ∙ load-memset_zero 8 m pml4_addr 0x4000 b (omega arith) (omega arith)

-- A memory `t` that still holds the first three of the four pages, whatever is in the last.
module _ (m : Mem) (mem_size : ℕ) (t : Mem)
    (same : (b : ℕ) → b + 8 ≤ 0x5000 → load 8 t b ≡ load 8 (identity_tables mem_size m) b) where
  in_directory : (k : ℕ) → k < rounded mem_size → load 8 t (pd_addr + 8 * k) ≡ k * 0x200000 + 0x87
  in_directory k h = same (pd_addr + 8 * k) (omega arith) ∙ directory_entry m mem_size k h

  in_pml4 : load 8 t pml4_addr ≡ 0x3007
  in_pml4 = same pml4_addr (omega arith) ∙ pml4_first m mem_size

  in_pdpt : load 8 t pdpt_addr ≡ 0x4007
  in_pdpt = same pdpt_addr (omega arith) ∙ pdpt_first m mem_size

  not_there :
      (b : ℕ)
      → pml4_addr ≤ b
      → b + 8 ≤ 0x5000
      → (pml4_addr + 8 ≤ b) × ((b + 8 ≤ pdpt_addr) ⊎ (pdpt_addr + 8 ≤ b))
      → (b + 8 ≤ pd_addr) ⊎ (pd_addr + 8 * rounded mem_size ≤ b)
      → load 8 t b ≡ 0
  not_there b lo hi apart out = same b hi ∙ cleared m mem_size b lo (omega (arith, hi)) apart out

  mapped :
      (va : ℕ)
      → va < 2 ^ 30
      → va < 0x200000 * num_pages_2mb mem_size
      → walk t pml4_addr va ≡ some va
  unfolding walk
  mapped va h k = ground (
    arith,
    ap (λ i. load 8 t (pml4_addr + 8 * i)) (pml4_index va h),
    ap (λ i. load 8 t (pdpt_addr + 8 * i)) (pdpt_index va h),
    in_pml4,
    in_pdpt,
    in_directory (va / 2 ^ 21 % 512),
  )
    where
      pml4_index : (x : ℕ) → x < 2 ^ 30 → x / 2 ^ 39 % 512 ≡ 0
      pml4_index x p = omega arith

      pdpt_index : (x : ℕ) → x < 2 ^ 30 → x / 2 ^ 30 % 512 ≡ 0
      pdpt_index x p = omega arith

  unmapped :
      (va : ℕ)
      → va < 2 ^ 48
      → (2 ^ 30 ≤ va) ⊎ (0x200000 * num_pages_2mb mem_size ≤ va)
      → walk t pml4_addr va ≡ none
  unfolding walk
  unmapped va h out = elim (dec_lt va (2 ^ 39)) [
    | no far ↦ ground (
      arith,
      not_there (pml4_addr + 8 * (va / 2 ^ 39 % 512)) (omega arith) (omega arith) (omega arith)
          (omega arith),
    )
    | yes p ↦ elim (dec_lt va (2 ^ 30)) [
      | no far ↦ ground (
        arith,
        ap (λ i. load 8 t (pml4_addr + 8 * i)) (first va p),
        in_pml4,
        not_there (pdpt_addr + 8 * (va / 2 ^ 30 % 512)) (omega arith) (omega arith) (omega arith)
            (omega arith),
      )
      | yes q ↦ ground (
        arith,
        ap (λ i. load 8 t (pml4_addr + 8 * i)) (first va p),
        ap (λ i. load 8 t (pdpt_addr + 8 * i)) (second va q),
        in_pml4,
        in_pdpt,
        not_there (pd_addr + 8 * (va / 2 ^ 21 % 512)) (omega arith) (omega arith) (omega arith)
            (omega arith),
      )
    ]
  ]
    where
      first : (x : ℕ) → x < 2 ^ 39 → x / 2 ^ 39 % 512 ≡ 0
      first x p = omega arith

      second : (x : ℕ) → x < 2 ^ 30 → x / 2 ^ 30 % 512 ≡ 0
      second x p = omega arith

-- The end of the mapping: the memory's size rounded up to 2MB, or 1GB where that is less.
abbrev pub mapped_end : ℕ → ℕ
mapped_end mem_size = min (2 ^ 30) ((mem_size + 0x1fffff) / 0x200000 * 0x200000)

-- The tables in such a memory.
pub identity_walk :
    (m : Mem) (mem_size : ℕ) (t : Mem)
    → ((b : ℕ) → b + 8 ≤ 0x5000 → load 8 t b ≡ load 8 (identity_tables mem_size m) b)
    → mem_size < 2 ^ 63
    → (va : ℕ) → va < 2 ^ 48
    → walk t pml4_addr va ≡ (if ltb va (mapped_end mem_size) then some va else none)
identity_walk m mem_size t same small va h = elim (dec_lt va (mapped_end mem_size)) [
  | yes p ↦ ground (arith, mapped m mem_size t same va (omega arith) (omega arith))
  | no p ↦ ground (arith, unmapped m mem_size t same va h (omega arith))
]

-- For a memory below 2^63 bytes the tables map every 48-bit address below `mapped_end` to
-- itself, and every other one faults. No byte outside the four pages from 0x2000 on is changed.
pub setup_page_tables_64bit-walk :
    (m : Mem) (mem_size : ℕ)
    → mem_size < 2 ^ 63
    → let (cr3, m') = setup_page_tables_64bit m mem_size in
      ((va : ℕ)
        → va < 2 ^ 48
        → walk m' cr3 va ≡ (if ltb va (mapped_end mem_size) then some va else none))
      × ((x : ℕ) → IsOutside 0x2000 0x4000 x → m' x ≡ m x)
unfolding setup_page_tables_64bit
setup_page_tables_64bit-walk m mem_size small = (translates, outside)
  where
    translates :
        (va : ℕ)
        → va < 2 ^ 48
        → walk (identity_tables mem_size m) pml4_addr va
          ≡ (if ltb va (mapped_end mem_size) then some va else none)
    translates = identity_walk m mem_size (identity_tables mem_size m) (λ b h. refl) small

    outside : (x : ℕ) → IsOutside 0x2000 0x4000 x → identity_tables mem_size m x ≡ m x
    outside x out =
        fill-IsOutside 8 page_entry (rounded mem_size) 0 _ pd_addr x (omega arith)
        ∙ store-IsOutside 8 _ pdpt_addr 0x4007 x (omega arith)
        ∙ store-IsOutside 8 _ pml4_addr 0x3007 x (omega arith)
        ∙ memset-IsOutside m pml4_addr 0 0x4000 x (omega arith)
