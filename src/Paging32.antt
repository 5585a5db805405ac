-- ===== src/Paging32.antt =====
-- `setup_page_tables` of kvm-vmm-x86/src/main.c: the page directory and the two page tables that
-- the VMM writes into the memory of a Protected Mode guest.
pub mod Walk
use mini_kvm.Base.{ℕ, ◌+◌, ◌*◌, bit_or, ◌<<<◌, leb, if◌then◌else◌, Option, none, some}
use mini_kvm.GuestMem.{Mem, memset, store, fill}

abbrev pub page_dir_offset : ℕ
page_dir_offset = 0x00100000

abbrev pub page_table_0_offset : ℕ
page_table_0_offset = 0x00101000

abbrev pub page_table_512_offset : ℕ
page_table_512_offset = 0x00102000

-- Present, R/W, one 4KB page for each index.
abbrev pub page_entry : ℕ → ℕ
page_entry i = bit_or (i <<< 12) 0x03

abbrev pub clear_tables : Mem → Mem
clear_tables m =
    memset (memset (memset m page_dir_offset 0 4096) page_table_0_offset 0 4096)
      page_table_512_offset 0 4096

abbrev pub set_directory : Mem → Mem
set_directory m =
    store 4 (store 4 m page_dir_offset (bit_or page_table_0_offset 0x03))
      (page_dir_offset + 4 * 512) (bit_or page_table_512_offset 0x03)

-- The offset for CR3 beside the new memory; `none` is the -1 for a memory that is too small.
pub setup_page_tables : ℕ → Mem → Option (ℕ × Mem)
setup_page_tables mem_size m =
    if leb mem_size (page_table_512_offset + 4096)
    then none
    else some (
      page_dir_offset,
      fill 4 page_entry 1024 0
          (fill 4 page_entry 1024 0 (set_directory (clear_tables m)) page_table_0_offset)
          page_table_512_offset,
    )
