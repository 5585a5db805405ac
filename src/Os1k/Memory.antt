-- ===== src/Os1k/Memory.antt =====
-- The memory of the processes of the 1K OS (`alloc_pages`, `map_page` and the address space that
-- `create_process` builds, kvm-vmm-x86/os-1k/kernel.c). Memory is the guest's physical memory: the
-- kernel runs with the VMM's page tables, which map its addresses from 0x80000000 on down to 0.
-- They map the 4MB of that memory and lie in it themselves, at 0x100000: a theorem that is about a
-- run of the kernel asks that the pages it hands out are among the 4MB and not those tables.
pub mod Entries
pub mod Directory
pub mod Tables
pub mod Fresh
pub mod MapPage
pub mod Range
pub mod NewPage
pub mod UserPages
use mini_kvm.Base.{ℕ, zero, suc, ◌+◌, ◌-◌, ◌*◌, ◌/◌, ltb, ◌==◌, if◌then◌else◌, Option, none, some}
use mini_kvm.Base.{bit_and, bit_or, ◌>>>◌, u32, List, take, drop}
use mini_kvm.GuestMem.{Mem, memset, copy_in, store, load}

abbrev pub kernel_base : ℕ
kernel_base = 0x80000000

-- The physical address behind a kernel address.
abbrev pub phys : ℕ → ℕ
phys v = v - kernel_base

abbrev pub page_size : ℕ
page_size = 4096

-- Memory, and the `next_paddr` of `alloc_pages`, which is a kernel address.
pub record Ram : Type 0 where
  pub mem : Mem
  pub next_paddr : ℕ

-- PAGE_P, PAGE_RW, PAGE_U
abbrev pub page_p : ℕ
page_p = 1

abbrev pub page_rw : ℕ
page_rw = 2

abbrev pub page_u : ℕ
page_u = 4

-- `ram_end` is the linker's `__free_ram_end`; `none` is the PANIC. The code looks at no other bound,
-- so neither does this: pages outside the 4MB, or on the live tables, are for the callers to exclude.
unfoldable pub alloc_pages : (ram_end n : ℕ) → Ram → Option (ℕ × Ram)
alloc_pages ram_end n r =
    let next = u32 (r.next_paddr + n * page_size) in
    if ltb ram_end next
    then none
    else some (
      r.next_paddr,
      record { mem = memset r.mem (phys r.next_paddr) 0 (n * page_size); next_paddr = next },
    )

-- `table[i]`, of a table at a kernel address.
abbrev pub table_get : Mem → ℕ → ℕ → ℕ
table_get m table i = load 4 m (phys table + 4 * i)

abbrev pub table_set : Mem → ℕ → ℕ → ℕ → Mem
table_set m table i e = store 4 m (phys table + 4 * i) e

abbrev pub link_table : (page_table pd_index : ℕ) → Option (ℕ × Ram) → Option Ram
link_table page_table pd_index none = none
link_table page_table pd_index (some (pt_vaddr, r)) =
    let pt_paddr = phys pt_vaddr in
    some (record r {
      mem =
          table_set r.mem page_table pd_index
            (bit_or (bit_or (bit_or (bit_and pt_paddr 0xFFFFF000) page_p) page_rw) page_u);
    })

-- The page table for an index of the directory is made when there is none.
unfoldable pub ensure_table : (ram_end : ℕ) → Ram → (page_table pd_index : ℕ) → Option Ram
unfolding alloc_pages
ensure_table ram_end r page_table pd_index =
    if bit_and (table_get r.mem page_table pd_index) page_p == 0
    then link_table page_table pd_index (alloc_pages ram_end 1 r)
    else some r

unfoldable pub set_page : (page_table pd_index vaddr paddr flags : ℕ) → Ram → Ram
set_page page_table pd_index vaddr paddr flags r =
    let pt_index = bit_and (vaddr >>> 12) 0x3FF in
    let pt_paddr = bit_and (table_get r.mem page_table pd_index) 0xFFFFF000 in
    let pt = u32 (pt_paddr + kernel_base) in
    record r {
      mem = table_set r.mem pt pt_index (bit_or (bit_or (bit_and paddr 0xFFFFF000) flags) page_p);
    }

abbrev pub mapped : (page_table pd_index vaddr paddr flags : ℕ) → Option Ram → Option Ram
mapped page_table pd_index vaddr paddr flags none = none
mapped page_table pd_index vaddr paddr flags (some r) =
    some (set_page page_table pd_index vaddr paddr flags r)

-- `none` stands for a PANIC.
unfoldable pub map_page : (ram_end : ℕ) → Ram → (page_table vaddr paddr flags : ℕ) → Option Ram
unfolding ensure_table set_page
map_page ram_end r page_table vaddr paddr flags =
    let pd_index = bit_and (vaddr >>> 22) 0x3FF in
    if bit_and vaddr (page_size - 1) == 0
    then (if bit_and paddr (page_size - 1) == 0
        then mapped page_table pd_index vaddr paddr flags
            (ensure_table ram_end r page_table pd_index)
        else none)
    else none

infixl 5 ◌>>=◌
abbrev pub ◌>>=◌ : Option Ram → (Ram → Option Ram) → Option Ram
none >>= f = none
some r >>= f = f r

-- The two loops over the low 4MB: `n` pages on from `vaddr`, mapped to those on from `paddr`.
unfoldable pub map_range : (ram_end page_table flags : ℕ) (n vaddr paddr : ℕ) → Ram → Option Ram
map_range ram_end page_table flags zero vaddr paddr r = some r
map_range ram_end page_table flags (suc n) vaddr paddr r =
    map_page ram_end r page_table vaddr paddr flags
    >>= map_range ram_end page_table flags n (vaddr + page_size) (paddr + page_size)

-- The body of the loops that map user memory: a new page, which `content` is copied into.
abbrev pub user_page : (ram_end page_table vaddr : ℕ) → List ℕ → Option (ℕ × Ram) → Option Ram
user_page ram_end page_table vaddr content none = none
user_page ram_end page_table vaddr content (some (page_vaddr, r)) =
    map_page ram_end (record r { mem = copy_in r.mem (phys page_vaddr) content }) page_table vaddr
      (phys page_vaddr) (bit_or page_u page_rw)

-- `n` user pages on from `vaddr`; the bytes of `image` fill them as far as they go. Both loops of
-- `create_process` are of this form, the one for the stack with no bytes left.
unfoldable pub map_user : (ram_end page_table : ℕ) (n vaddr : ℕ) → List ℕ → Ram → Option Ram
unfolding alloc_pages
map_user ram_end page_table zero vaddr image r = some r
map_user ram_end page_table (suc n) vaddr image r =
    user_page ram_end page_table vaddr (take page_size image) (alloc_pages ram_end 1 r)
    >>= map_user ram_end page_table n (vaddr + page_size) (drop page_size image)
