-- ===== src/Paging64.antt =====
-- kvm-vmm-x86/src/paging_64.c: the four-level tables of a Long Mode guest, with pages of 2MB.
pub mod Walk
pub mod Verify
use mini_kvm.Base.{
  u64, ℕ, ◌+◌, ◌-◌, ◌*◌, ◌/◌, ◌^◌, min, bit_and, bit_or, ◌>>>◌, ◌==◌, if◌then◌else◌,
}
use mini_kvm.Base.{Option, none, some}
use mini_kvm.GuestMem.{Mem, memset, store, load, fill}

-- GUEST_64_PML4_ADDR, GUEST_64_PDPT_ADDR, GUEST_64_PD_ADDR
abbrev pub pml4_addr : ℕ
pml4_addr = 0x2000

abbrev pub pdpt_addr : ℕ
pdpt_addr = 0x3000

abbrev pub pd_addr : ℕ
pd_addr = 0x4000

-- PT_ENTRIES
abbrev pub pt_entries : ℕ
pt_entries = 512

-- PTE_PRESENT, PTE_WRITE, PTE_USER, PTE_PSE
abbrev pub pte_present : ℕ
pte_present = 0x01

abbrev pub pte_write : ℕ
pte_write = 0x02

abbrev pub pte_user : ℕ
pte_user = 0x04

abbrev pub pte_pse : ℕ
pte_pse = 0x80

-- `addr | PTE_PRESENT | PTE_WRITE | PTE_USER`
abbrev pub table_entry : ℕ → ℕ
table_entry addr = bit_or (bit_or (bit_or addr pte_present) pte_write) pte_user

abbrev pub page_entry : ℕ → ℕ
page_entry i = bit_or (table_entry (i * 0x200000)) pte_pse

-- Rounded up, in `size_t`.
abbrev pub num_pages_2mb : ℕ → ℕ
num_pages_2mb mem_size = u64 (mem_size + 0x1fffff) / 0x200000

-- The loop's test is `i < num_pages_2mb && i < PT_ENTRIES`.
abbrev pub identity_tables : ℕ → Mem → Mem
identity_tables mem_size m =
    fill 8 page_entry (min (num_pages_2mb mem_size) pt_entries) 0
      (store 8 (store 8 (memset m pml4_addr 0 0x4000) pml4_addr (table_entry pdpt_addr)) pdpt_addr
        (table_entry pd_addr))
      pd_addr

-- CR3 beside the new memory.
unfoldable pub setup_page_tables_64bit : Mem → ℕ → ℕ × Mem
setup_page_tables_64bit m mem_size = (pml4_addr, identity_tables mem_size m)

-- VA_PML4_INDEX, VA_PDPT_INDEX, VA_PD_INDEX
abbrev pub va_pml4_index : ℕ → ℕ
va_pml4_index va = bit_and (va >>> 39) 0x1ff

abbrev pub va_pdpt_index : ℕ → ℕ
va_pdpt_index va = bit_and (va >>> 30) 0x1ff

abbrev pub va_pd_index : ℕ → ℕ
va_pd_index va = bit_and (va >>> 21) 0x1ff

-- The mirror mapping shares the PDPT and the PD with the low one.
pub setup_page_tables_64bit_kernel : Mem → ℕ → ℕ → ℕ × Mem
setup_page_tables_64bit_kernel m mem_size kernel_virt_base = (
  pml4_addr,
  store 8
      (store 8 (identity_tables mem_size m) (pml4_addr + 8 * va_pml4_index kernel_virt_base)
        (bit_or (bit_or pdpt_addr pte_present) pte_write))
      (pdpt_addr + 8 * va_pdpt_index kernel_virt_base)
      (bit_or (bit_or pd_addr pte_present) pte_write),
)

-- What `verify_page_tables_64bit` reports.
pub data Report : Type 0 where
  pml4_not_present pdpt_not_present pd_not_present not_implemented : Report
  maps_to : ℕ → Report

-- PTE_ADDR_MASK
abbrev pub addr_mask : ℕ
addr_mask = 0x000F_FFFF_FFFF_F000

pub verify_page_tables_64bit : Mem → ℕ → Report
verify_page_tables_64bit m test_va =
    let offset = bit_and test_va 0x1FFFFF in
    let pml4e = load 8 m (pml4_addr + 8 * va_pml4_index test_va) in
    let pdpte = load 8 m (bit_and pml4e addr_mask + 8 * va_pdpt_index test_va) in
    let pde = load 8 m (bit_and pdpte addr_mask + 8 * va_pd_index test_va) in
    if bit_and pml4e pte_present == 0
    then pml4_not_present
    else if bit_and pdpte pte_present == 0
    then pdpt_not_present
    else if bit_and pde pte_present == 0
    then pd_not_present
    else if bit_and pde pte_pse == 0
    then not_implemented
    else maps_to (bit_or (bit_and pde (2 ^ 64 - 0x200000)) offset)
