-- ===== src/Paging64/Verify.antt =====
-- What the debugging check of the 64-bit tables reports (`verify_page_tables_64bit`).
use mini_kvm.Base.{ℕ, ◌+◌, ◌-◌, ◌*◌, ◌/◌, ◌%◌, ◌^◌, ◌<◌, ◌≡◌, ap, arith}
use mini_kvm.Base.{bit_and}
use mini_kvm.Base.Bits.{or-fields, and-low, and-high, and-single}
use mini_kvm.GuestMem.{Mem}
use mini_kvm.GuestMem.Laws.{}
use mini_kvm.Paging64.{va_pml4_index, va_pdpt_index, va_pd_index, pte_present, pte_pse}
use mini_kvm.Paging64.{verify_page_tables_64bit, maps_to}
use mini_kvm.Paging64.{setup_page_tables_64bit}
use mini_kvm.Paging64.Walk.{mapped_end, directory_entry, pml4_first, pdpt_first}

-- On the tables of a memory below 2^63 bytes the debugging check reports the identity for every
-- address below `mapped_end`.
pub verify_page_tables_64bit-setup :
    (m : Mem) (mem_size va : ℕ)
    → mem_size < 2 ^ 63
    → va < mapped_end mem_size
    → verify_page_tables_64bit (setup_page_tables_64bit m mem_size).1 va ≡ maps_to va
unfolding setup_page_tables_64bit verify_page_tables_64bit
verify_page_tables_64bit-setup m mem_size va small h =
    rw
      (
        pml4_index,
        pml4_first m mem_size,
        pdpt_index,
        pdpt_first m mem_size,
        pd_index,
        directory_entry m mem_size (va / 2 ^ 21) (omega arith),
        entry_present,
        entry_pse,
        entry_frame,
        and-low 21 va,
        or-fields 21 (va / 2 ^ 21) (va % 2 ^ 21) (omega arith),
      )
      (ap maps_to (omega arith))
  where
    pml4_index : va_pml4_index va ≡ 0
    pml4_index = omega (arith, and-low 9 (va / 2 ^ 39))

    pdpt_index : va_pdpt_index va ≡ 0
    pdpt_index = omega (arith, and-low 9 (va / 2 ^ 30))

    pd_index : va_pd_index va ≡ va / 2 ^ 21
    pd_index = omega (arith, and-low 9 (va / 2 ^ 21))

    entry_present : bit_and (va / 2 ^ 21 * 0x200000 + 0x87) pte_present ≡ 1
    entry_present = omega (arith, and-low 1 (va / 2 ^ 21 * 0x200000 + 0x87))

    entry_pse : bit_and (va / 2 ^ 21 * 0x200000 + 0x87) pte_pse ≡ 0x80
    entry_pse = omega (arith, and-single 7 (va / 2 ^ 21 * 0x200000 + 0x87))

    entry_frame : bit_and (va / 2 ^ 21 * 0x200000 + 0x87) (2 ^ 64 - 0x200000) ≡ va / 2 ^ 21 * 2 ^ 21
    entry_frame = omega (
      arith,
      and-high 21 (va / 2 ^ 21 * 0x200000 + 0x87) (2 ^ 43 - 1),
      and-low 43 ((va / 2 ^ 21 * 0x200000 + 0x87) / 2 ^ 21),
    )
