-- ===== src/LinuxBoot/ZeroPage.antt =====
-- The zero page that `setup_linux_boot_params` makes.
use mini_kvm.Base.{ℕ, ◌+◌, ◌-◌, ◌^◌, ◌≤◌, ◌<◌, ◌≡◌, ◌⊎◌, refl}
use mini_kvm.Base.{◌∙◌, arith, Bool, true, false, List, [], ◌∷◌, ltb, if◌then◌else◌}
use mini_kvm.GuestMem.{Mem, memset, store, load}
use mini_kvm.GuestMem.Laws.{store-IsOutside, load-store, load-store-IsOutside}
use mini_kvm.LinuxBoot.{e820_entries, hdr, hdr_size, add_e820_entry}
use mini_kvm.LinuxBoot.{type_of_loader, cmd_line_ptr, initrd_addr_max, clear_params}
use mini_kvm.LinuxBoot.{
  setup_linux_boot_params, add_high_memory, set_cmd_line_ptr, e820_ram, e820_reserved,
}
use mini_kvm.LinuxBoot.{command_line_addr, highest_initrd_addr}
use mini_kvm.LinuxBoot.E820.{Range, e820_table, IsBeside, add_e820_entry_lem, table_ext}

-- The map that a guest of `mem_size` bytes must see: RAM up to 640KB, the reserved area up to 1MB,
-- and the rest as RAM.
abbrev pub memory_map : ℕ → List Range
memory_map mem_size =
    record { addr = 0; size = 0xa0000; type = 1 }
    ∷ record { addr = 0xa0000; size = 0x60000; type = 2 }
    ∷ (if ltb 0x100000 mem_size
        then record { addr = 0x100000; size = mem_size - 0x100000; type = 1 } ∷ []
        else [])

-- Not one of the fields that the VMM itself fills in.
abbrev pub IsKept : ℕ → Type 0
IsKept x =
    (x < type_of_loader) ⊎ ((type_of_loader < x) × (x < cmd_line_ptr)) ⊎ (cmd_line_ptr + 8 ≤ x)

module _ (params : Mem) (mem_size : ℕ) (small : mem_size < 2 ^ 64) where
  abbrev low_added : Mem
  low_added = add_e820_entry (clear_params params) 0 0xa0000 e820_ram

  abbrev reserved_added : Mem
  reserved_added = add_e820_entry low_added 0xa0000 0x60000 e820_reserved

  abbrev high_added : Mem
  high_added = add_high_memory mem_size reserved_added

  cleared_count : clear_params params e820_entries ≡ 0
  unfolding memset
  cleared_count = ground arith

  cleared_table : e820_table (clear_params params) ≡ []
  unfolding e820_table
  cleared_table = rw cleared_count refl

  low_added_lem :
      (e820_table low_added ≡ record { addr = 0; size = 0xa0000; type = 1 } ∷ [])
      × (low_added e820_entries ≡ 1)
      × ((x : ℕ) → IsBeside x → low_added x ≡ clear_params params x)
  low_added_lem = ground (
    arith,
    cleared_count,
    cleared_table,
    add_e820_entry_lem (clear_params params) 0 0xa0000 e820_ram (omega arith) (omega arith)
        (omega arith),
  )

  reserved_added_lem :
      (e820_table reserved_added
        ≡ record { addr = 0; size = 0xa0000; type = 1 }
          ∷ record { addr = 0xa0000; size = 0x60000; type = 2 }
          ∷ [])
      × (reserved_added e820_entries ≡ 2)
      × ((x : ℕ) → IsBeside x → reserved_added x ≡ low_added x)
  reserved_added_lem = ground (
    arith,
    low_added_lem.0,
    low_added_lem.1,
    add_e820_entry_lem low_added 0xa0000 0x60000 e820_reserved (omega arith) (omega arith)
        (omega arith),
  )

  high_added_lem :
      (e820_table high_added ≡ memory_map mem_size)
      × ((x : ℕ) → IsBeside x → high_added x ≡ reserved_added x)
  high_added_lem = ground (
    arith,
    reserved_added_lem.0,
    reserved_added_lem.1,
    add_e820_entry_lem reserved_added 0x100000 (mem_size - 0x100000) e820_ram (omega arith)
        (omega arith) (omega arith),
  )

  abbrev pub filled_in : Bool → Mem
  filled_in cmdline =
      store 4 (store 1 (set_cmd_line_ptr cmdline high_added) type_of_loader 0xFF) initrd_addr_max
        highest_initrd_addr

  filled_in-IsKept : (cmdline : Bool) (x : ℕ) → IsKept x → filled_in cmdline x ≡ high_added x
  filled_in-IsKept true x h =
      store-IsOutside 4 _ initrd_addr_max highest_initrd_addr x (omega (arith, h))
      ∙ store-IsOutside 1 _ type_of_loader 0xFF x (omega (arith, h))
      ∙ store-IsOutside 4 _ cmd_line_ptr command_line_addr x (omega (arith, h))
  filled_in-IsKept false x h =
      store-IsOutside 4 _ initrd_addr_max highest_initrd_addr x (omega (arith, h))
      ∙ store-IsOutside 1 _ type_of_loader 0xFF x (omega (arith, h))

-- The pointer to a command line that is given.
pub load-cmd_line_ptr :
    (params : Mem) (mem_size : ℕ)
    → mem_size < 2 ^ 64
    → load 4 (setup_linux_boot_params params mem_size true) cmd_line_ptr ≡ command_line_addr
unfolding setup_linux_boot_params
load-cmd_line_ptr params mem_size small =
    load-store-IsOutside 4 4 _ initrd_addr_max cmd_line_ptr highest_initrd_addr (omega arith)
    ∙ load-store-IsOutside 1 4 _ type_of_loader cmd_line_ptr 0xFF (omega arith)
    ∙ load-store 4 (high_added params mem_size small) cmd_line_ptr command_line_addr (omega arith)

-- For a memory of `mem_size` bytes the zero page lists the memory map of that size, whatever it
-- listed before. It keeps every byte of the setup header but the loader type, the command line
-- pointer and the highest initrd address, which gets its new value.
pub setup_linux_boot_params-memory_map :
    (params : Mem) (mem_size : ℕ) (cmdline : Bool)
    → mem_size < 2 ^ 64
    → let p = setup_linux_boot_params params mem_size cmdline in
      (e820_table p ≡ memory_map mem_size)
      × (load 4 p initrd_addr_max ≡ 0x37FFFFFF)
      × ((x : ℕ) → hdr ≤ x → x < hdr + hdr_size → IsKept x → p x ≡ params x)
unfolding setup_linux_boot_params
setup_linux_boot_params-memory_map params mem_size cmdline small = (
  table_ext (filled_in params mem_size small cmdline) (high_added params mem_size small)
        (λ x h. filled_in-IsKept params mem_size small cmdline x (omega (arith, h)))
      ∙ (high_added_lem params mem_size small).0,
  load-store 4 _ initrd_addr_max highest_initrd_addr (omega arith),
  λ x lo hi h. filled_in-IsKept params mem_size small cmdline x h ∙ kept x lo hi,
)
  where
    kept : (x : ℕ) → hdr ≤ x → x < hdr + hdr_size → high_added params mem_size small x ≡ params x
    kept x lo hi =
        (high_added_lem params mem_size small).1 x (omega arith, omega arith)
        ∙ (reserved_added_lem params mem_size small).2 x (omega arith, omega arith)
        ∙ (low_added_lem params mem_size small).2 x (omega arith, omega arith)
        ∙ ground arith
