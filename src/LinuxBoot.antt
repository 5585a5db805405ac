-- ===== src/LinuxBoot.antt =====
-- kvm-vmm-x86/src/linux_boot.c: the zero page (`struct boot_params`) and the images of a Linux
-- guest. The zero page is its bytes, the fields at the offsets that linux_boot.h asserts. The
-- files are parameters: what `fstat`, each `malloc` and each `read` gives, in the order of the calls.
pub mod E820
pub mod ZeroPage
pub mod Placement
pub mod Kernel
use mini_kvm.Base.{
  ℕ, ◌+◌, ◌-◌, ◌*◌, ◌/◌, ◌^◌, Bool, true, false, ◌==◌, ◌&&◌, leb, ltb, if◌then◌else◌,
}
use mini_kvm.Base.{Option, none, some, List, length, bit_and, u8, u32, u64, not, ◌||◌}
use mini_kvm.GuestMem.{Mem, inside, memset, copy_in, store, load}

-- `offsetof(struct boot_params, …)`
abbrev pub e820_entries : ℕ
e820_entries = 0x1e8

abbrev pub hdr : ℕ
hdr = 0x1f1

abbrev pub e820_map : ℕ
e820_map = 0x2d0

-- `sizeof(struct linux_setup_header)`
abbrev pub hdr_size : ℕ
hdr_size = 119

-- The header's fields, from the start of the zero page.
abbrev pub boot_flag : ℕ
boot_flag = 0x1fe

abbrev pub header : ℕ
header = 0x202

abbrev pub type_of_loader : ℕ
type_of_loader = 0x210

abbrev pub loadflags : ℕ
loadflags = 0x211

abbrev pub code32_start : ℕ
code32_start = 0x214

abbrev pub ramdisk_image : ℕ
ramdisk_image = 0x218

abbrev pub ramdisk_size : ℕ
ramdisk_size = 0x21c

abbrev pub cmd_line_ptr : ℕ
cmd_line_ptr = 0x228

abbrev pub initrd_addr_max : ℕ
initrd_addr_max = 0x22c

abbrev pub init_size : ℕ
init_size = 0x260

-- KERNEL_LOAD_ADDR, REAL_MODE_KERNEL_ADDR, COMMAND_LINE_ADDR, INITRD_ADDR_MAX
abbrev pub kernel_load_addr : ℕ
kernel_load_addr = 0x100000

abbrev pub real_mode_kernel_addr : ℕ
real_mode_kernel_addr = 0x10000

abbrev pub command_line_addr : ℕ
command_line_addr = 0x20000

abbrev pub highest_initrd_addr : ℕ
highest_initrd_addr = 0x37FFFFFF

-- E820_RAM, E820_RESERVED
abbrev pub e820_ram : ℕ
e820_ram = 1

abbrev pub e820_reserved : ℕ
e820_reserved = 2

-- The address of an entry, 20 bytes each.
abbrev pub e820_entry : ℕ → ℕ
e820_entry i = e820_map + i * 20

unfoldable pub add_e820_entry : Mem → ℕ → ℕ → ℕ → Mem
add_e820_entry params addr size type =
    let entry = e820_entry (params e820_entries) in
    if leb 128 (params e820_entries)
    then params
    else store 1 (store 4 (store 8 (store 8 params entry addr) (entry + 8) size) (entry + 16) type)
        e820_entries (params e820_entries + 1)

-- All 4096 bytes but the setup header are cleared.
abbrev pub clear_params : Mem → Mem
clear_params params x = if inside hdr hdr_size x then params x else memset params 0 0 4096 x

abbrev pub add_high_memory : ℕ → Mem → Mem
add_high_memory mem_size params =
    if ltb 0x100000 mem_size
    then add_e820_entry params 0x100000 (mem_size - 0x100000) e820_ram
    else params

abbrev pub set_cmd_line_ptr : Bool → Mem → Mem
set_cmd_line_ptr cmdline params =
    if cmdline then store 4 params cmd_line_ptr command_line_addr else params

-- `cmdline` is whether a command line is given.
unfoldable pub setup_linux_boot_params : Mem → ℕ → Bool → Mem
setup_linux_boot_params params mem_size cmdline =
    let low = add_e820_entry (clear_params params) 0 0xa0000 e820_ram in
    let reserved = add_e820_entry low 0xa0000 0x60000 e820_reserved in
    let high = add_high_memory mem_size reserved in
    store 4 (store 1 (set_cmd_line_ptr cmdline high) type_of_loader 0xFF) initrd_addr_max
      highest_initrd_addr

-- `bytes_read < (ssize_t)n`: the bytes that a `read` gave, `none` for -1.
abbrev pub is_short : Option (List ℕ) → ℕ → Bool
is_short none n = ltb n (2 ^ 63)
is_short (some bytes) n = ltb n (2 ^ 63) && ltb (length bytes) n

-- The buffer after a `read` into it.
abbrev pub read_into : Mem → Option (List ℕ) → Mem
read_into buf none = buf
read_into buf (some bytes) = copy_in buf 0 bytes

-- `open` succeeded; the file's size, whether the buffer is allocated, and what is read into it.
pub record InitrdFile : Type 0 where
  pub st_size : Option ℕ
  pub buf : Bool
  pub bytes : Option (List ℕ)

abbrev pub max_end : ℕ → ℕ → ℕ
max_end addr_max mem_size = if leb mem_size addr_max then mem_size - 1 else addr_max

-- `desired_start`
abbrev pub initrd_start : ℕ → ℕ → ℕ
initrd_start last size = bit_and (last + 1 - size) (2 ^ 64 - 4096)

abbrev pub place_initrd : Mem → Mem → ℕ → ℕ → Option (List ℕ) → Option (Mem × Mem)
place_initrd mem params start size none = none
place_initrd mem params start size (some bytes) =
    if length bytes == size
    then some (
      copy_in mem start bytes,
      store 4 (store 4 (store 4 params ramdisk_image (u32 start)) ramdisk_size (u32 size))
          initrd_addr_max highest_initrd_addr,
    )
    else none

abbrev pub load_initrd_file : Mem → ℕ → Mem → InitrdFile → ℕ → Option (Mem × Mem)
load_initrd_file mem mem_size params file size =
    let last = max_end (load 4 params initrd_addr_max) mem_size in
    let start = initrd_start last size in
    if size == 0
      || ltb mem_size size
      || ltb (last + 1) size
      || ltb start (kernel_load_addr + load 4 params init_size)
      || not file.buf
    then none
    else place_initrd mem params start size file.bytes

abbrev pub with_size : Mem → ℕ → Mem → InitrdFile → Option ℕ → Option (Mem × Mem)
with_size mem mem_size params file none = none
with_size mem mem_size params file (some size) = load_initrd_file mem mem_size params file size

-- The path is NULL, cannot be opened, or names a file.
pub data Initrd : Type 0 where
  absent unopened : Initrd
  file : InitrdFile → Initrd

-- The guest's memory and the zero page; `none` for -1.
unfoldable pub load_initrd : Initrd → Mem → ℕ → Mem → Option (Mem × Mem)
load_initrd absent mem mem_size params = some (mem, params)
load_initrd unopened mem mem_size params = none
load_initrd (file f) mem mem_size params = with_size mem mem_size params f f.st_size

-- The opened bzImage: its size, the three buffers (the first one's bytes are arbitrary before the
-- `read`), and the three reads.
pub record BzImage : Type 0 where
  pub st_size : Option ℕ
  pub first_buf : Option Mem
  pub first : Option (List ℕ)
  pub setup_buf : Bool
  pub setup : Option (List ℕ)
  pub kernel_buf : Bool
  pub kernel : Option (List ℕ)

abbrev pub setup_bytes : ℕ → ℕ
setup_bytes sects = if sects == 0 then 4 * 512 else (sects + 1) * 512

-- `st_size - setup_size` in `size_t`
abbrev pub kernel_bytes : ℕ → ℕ → ℕ
kernel_bytes st_size setup_size = u64 (st_size + 2 ^ 64 - setup_size)

abbrev pub copy_read : Mem → ℕ → Option (List ℕ) → Mem
copy_read mem a none = mem
copy_read mem a (some bytes) = copy_in mem a bytes

abbrev pub default_entry : Mem → Mem
default_entry params =
    if load 4 params code32_start == 0 then store 4 params code32_start kernel_load_addr else params

-- `first` holds the first sectors of the file. The setup header lies there at its offset in the
-- zero page.
abbrev pub copy_header : Mem → Mem → Mem
copy_header params first x = if inside hdr hdr_size x then first x else params x

abbrev pub is_bz_image : Mem → Bool
is_bz_image first =
    load 2 first boot_flag == 0xAA55
    && load 4 first header == 0x53726448
    && not (bit_and (first loadflags) 1 == 0)

abbrev pub load_image : BzImage → Mem → ℕ → Mem → ℕ → Mem → Option (Mem × Mem)
load_image image mem mem_size params st_size first =
    let setup_size = setup_bytes (first hdr) in
    let kernel_size = kernel_bytes st_size setup_size in
    if is_short image.first 512
      || not (is_bz_image first)
      || not image.setup_buf
      || is_short image.setup setup_size
      || ltb mem_size (real_mode_kernel_addr + setup_size)
      || not image.kernel_buf
      || is_short image.kernel kernel_size
      || ltb mem_size (u64 (kernel_load_addr + kernel_size))
    then none
    else some (
      copy_read (copy_read mem real_mode_kernel_addr image.setup) kernel_load_addr image.kernel,
      default_entry (copy_header params first),
    )

abbrev pub with_first : BzImage → Mem → ℕ → Mem → ℕ → Option Mem → Option (Mem × Mem)
with_first image mem mem_size params st_size none = none
with_first image mem mem_size params st_size (some buf) =
    load_image image mem mem_size params st_size (read_into buf image.first)

abbrev pub with_stat : BzImage → Mem → ℕ → Mem → Option ℕ → Option (Mem × Mem)
with_stat image mem mem_size params none = none
with_stat image mem mem_size params (some st_size) =
    with_first image mem mem_size params st_size image.first_buf

-- `none` for a file that cannot be opened.
unfoldable pub load_linux_kernel : Option BzImage → Mem → ℕ → Mem → Option (Mem × Mem)
load_linux_kernel none mem mem_size params = none
load_linux_kernel (some image) mem mem_size params =
    with_stat image mem mem_size params image.st_size
