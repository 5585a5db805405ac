-- ===== src/Gdt.antt =====
-- The descriptor tables that kvm-vmm-x86/src/main.c writes into guest memory, with the layouts of
-- kvm-vmm-x86/src/protected_mode.h and long_mode.h: GDTs, IDTs and the real-mode vectors.
pub mod Descriptor
pub mod Tables
pub mod Vectors
pub mod Kept
use mini_kvm.Base.{ℕ, ◌+◌, ◌*◌, bit_and, bit_or, ◌>>>◌, ◌<<<◌}
use mini_kvm.GuestMem.{Mem, memset, store}

-- GDT_ADDR and GDT_TOTAL_SIZE
abbrev pub gdt_addr : ℕ
gdt_addr = 0x500

abbrev pub gdt_total_size : ℕ
gdt_total_size = 5 * 8

-- ACCESS_CODE_R, ACCESS_DATA_W, LIMIT_GRAN
abbrev pub access_code_r : ℕ
access_code_r = 0x9A

abbrev pub access_data_w : ℕ
access_data_w = 0x92

abbrev pub limit_gran : ℕ
limit_gran = 0xC0

-- LINUX_BOOT_CS and LINUX_BOOT_DS
abbrev pub linux_boot_cs : ℕ
linux_boot_cs = 0x10

abbrev pub linux_boot_ds : ℕ
linux_boot_ds = 0x18

-- The six fields of the packed `gdt_entry_t` at `entry`.
pub create_gdt_entry : Mem → ℕ → ℕ → ℕ → ℕ → ℕ → Mem
create_gdt_entry m entry base limit access flags =
    let base_low = store 2 m (entry + 2) (bit_and base 0xFFFF) in
    let base_mid = store 1 base_low (entry + 4) (bit_and (base >>> 16) 0xFF) in
    let base_high = store 1 base_mid (entry + 7) (bit_and (base >>> 24) 0xFF) in
    let limit_low = store 2 base_high entry (bit_and limit 0xFFFF) in
    let access_byte = store 1 limit_low (entry + 5) access in
    store 1 access_byte (entry + 6) (bit_or (bit_and (limit >>> 16) 0x0F) (bit_and flags 0xF0))

-- Entries 0 to 4: null, kernel code and data, user code and data.
pub setup_gdt : Mem → Mem
setup_gdt m =
    let m0 = create_gdt_entry m gdt_addr 0 0 0 0 in
    let m1 = create_gdt_entry m0 (gdt_addr + 8) 0 0xFFFFF access_code_r limit_gran in
    let m2 = create_gdt_entry m1 (gdt_addr + 16) 0 0xFFFFF access_data_w limit_gran in
    let m3 = create_gdt_entry m2 (gdt_addr + 24) 0 0xFFFFF 0xFA limit_gran in
    create_gdt_entry m3 (gdt_addr + 32) 0 0xFFFFF 0xF2 limit_gran

-- __BOOT_CS is entry 2, __BOOT_DS entry 3; the others stay null.
pub setup_linux_boot_gdt : Mem → Mem
setup_linux_boot_gdt m =
    let cleared = memset m gdt_addr 0 gdt_total_size in
    let m0 = create_gdt_entry cleared gdt_addr 0 0 0 0 in
    let m1 = create_gdt_entry m0 (gdt_addr + 8) 0 0 0 0 in
    let m2 = create_gdt_entry m1 (gdt_addr + 16) 0 0xFFFFF access_code_r limit_gran in
    let m3 = create_gdt_entry m2 (gdt_addr + 24) 0 0xFFFFF access_data_w limit_gran in
    create_gdt_entry m3 (gdt_addr + 32) 0 0 0 0

-- 256 invalid gates right behind the GDT.
unfoldable pub setup_idt : Mem → Mem
setup_idt m = memset m (gdt_addr + gdt_total_size) 0 (256 * 8)

-- GDT_PRESENT | GDT_CODE_DATA | GDT_RW, and GDT_EXECUTABLE; GDT_LONG_MODE.
abbrev pub data_access_64 : ℕ
data_access_64 = bit_or (bit_or (1 <<< 7) (1 <<< 4)) (1 <<< 1)

abbrev pub code_access_64 : ℕ
code_access_64 = bit_or (bit_or (bit_or (1 <<< 7) (1 <<< 4)) (1 <<< 3)) (1 <<< 1)

abbrev pub long_mode_flag : ℕ
long_mode_flag = 1 <<< 5

-- One assignment to each field of the packed `gdt_entry_64_t` at `entry`.
abbrev pub set_gdt_entry_64 : Mem → ℕ → ℕ → ℕ → Mem
set_gdt_entry_64 m entry access granularity =
    let limit_low = store 2 m entry 0 in
    let base_low = store 2 limit_low (entry + 2) 0 in
    let base_mid = store 1 base_low (entry + 4) 0 in
    let access_byte = store 1 base_mid (entry + 5) access in
    store 1 (store 1 access_byte (entry + 6) granularity) (entry + 7) 0

pub setup_gdt_64bit : Mem → ℕ → Mem
setup_gdt_64bit m gdt_base =
    let cleared = memset (memset m gdt_base 0 (5 * 8)) gdt_base 0 8 in
    let code = set_gdt_entry_64 cleared (gdt_base + 8) code_access_64 long_mode_flag in
    set_gdt_entry_64 code (gdt_base + 16) data_access_64 0

pub setup_linux_boot_gdt_64bit : Mem → ℕ → Mem
setup_linux_boot_gdt_64bit m gdt_base =
    let cleared = memset m gdt_base 0 (5 * 8) in
    let code_access = store 1 cleared (gdt_base + 16 + 5) code_access_64 in
    let code = store 1 code_access (gdt_base + 16 + 6) long_mode_flag in
    let data_access = store 1 code (gdt_base + 24 + 5) data_access_64 in
    store 1 data_access (gdt_base + 24 + 6) 0
