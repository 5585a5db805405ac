-- ===== src/Os1k/Files.antt =====
-- The file system of the 1K OS (`fs_flush`, `fs_init` and `fs_lookup` of
-- kvm-vmm-x86/os-1k/kernel.c). The disk is the array `disk`, a byte for each offset; a file is its
-- name up to the NUL and its data up to its size.
pub mod Header
pub mod Archive
pub mod Lookup
use mini_kvm.Base.{ℕ, zero, suc, ◌+◌, ◌-◌, ◌*◌, ◌/◌, ◌%◌, ◌==◌, if◌then◌else◌, Bool, true, false}
use mini_kvm.Base.{Option, none, some, List, [], ◌∷◌, ◌++◌, length}
use mini_kvm.Base.Int.{ℤ, pos, negsuc}
use mini_kvm.GuestMem.{Mem, memset, copy_in, store8}
use mini_kvm.Os1k.Text.{strcmp}
use mini_kvm.TarOctal.{octal_digits, oct2int}

pub record File : Type 0 where
  pub in_use : Bool
  pub name : List ℕ
  pub contents : List ℕ

-- FILES_MAX
abbrev pub files_max : ℕ
files_max = 2

abbrev pub header_size : ℕ
header_size = 512

abbrev pub disk_size : ℕ
disk_size = 2560

-- The offsets of `struct tar_header`.
abbrev pub mode_at : ℕ
mode_at = 100

abbrev pub size_at : ℕ
size_at = 124

abbrev pub checksum_at : ℕ
checksum_at = 148

abbrev pub type_at : ℕ
type_at = 156

abbrev pub magic_at : ℕ
magic_at = 257

abbrev pub version_at : ℕ
version_at = 263

-- `align_up(sizeof(struct tar_header) + size, SECTOR_SIZE)`
abbrev pub sectors : ℕ → ℕ
sectors size = (header_size + size + 511) / 512 * 512

abbrev pub strcpy : Mem → ℕ → List ℕ → Mem
strcpy m a s = copy_in m a (s ++ 0 ∷ [])

-- "000644", "ustar", "00"
abbrev pub mode_text : List ℕ
mode_text = 48 ∷ 48 ∷ 48 ∷ 54 ∷ 52 ∷ 52 ∷ []

abbrev pub magic_text : List ℕ
magic_text = 117 ∷ 115 ∷ 116 ∷ 97 ∷ 114 ∷ []

abbrev pub version_text : List ℕ
version_text = 48 ∷ 48 ∷ []

-- The header up to its checksum.
unfoldable pub write_fields : Mem → ℕ → List ℕ → ℕ → Mem
write_fields m off name size =
    let m = memset m off 0 header_size in
    let m = strcpy m off name in
    let m = strcpy m (off + mode_at) mode_text in
    let m = strcpy m (off + magic_at) magic_text in
    let m = strcpy m (off + version_at) version_text in
    let m = store8 m (off + type_at) 48 in copy_in m (off + size_at) (octal_digits 12 size)

-- The loop that adds up `n` bytes from `a` on.
unfoldable pub sum_bytes : (n : ℕ) → Mem → ℕ → ℕ
sum_bytes zero m a = 0
sum_bytes (suc n) m a = m a + sum_bytes n m (a + 1)

-- ' ' for each byte of the checksum field, and the bytes of the header.
abbrev pub checksum : Mem → ℕ → ℕ
checksum m off = 32 * 8 + sum_bytes header_size m off

unfoldable pub write_file : Mem → ℕ → File → Mem
unfolding write_fields
write_file m off file =
    let m = write_fields m off file.name (length file.contents) in
    let m = copy_in m (off + checksum_at) (octal_digits 6 (checksum m off)) in
    copy_in m (off + header_size) file.contents

-- The loop over `files`, at the offset `off`.
unfoldable pub flush_from : Mem → ℕ → List File → Mem
unfolding write_file
flush_from m off [] = m
flush_from m off (file ∷ files) =
    flush_from (if file.in_use then write_file m off file else m)
      (if file.in_use then off + sectors (length file.contents) else off) files

-- The model's disk has no end: what the source writes behind `disk` when the files do not fit is
-- written on here too, and the theorems ask that they fit.
unfoldable pub fs_flush : Mem → List File → Mem
unfolding flush_from
fs_flush disk files = flush_from (memset disk 0 0 disk_size) 0 files

-- The string at `a`, of at most `n` bytes; `none` when no NUL ends it there.
unfoldable pub string_at : (n : ℕ) → Mem → ℕ → Option (List ℕ)
string_at zero m a = none
string_at (suc n) m a =
    let rest : Option (List ℕ) = elim (string_at n m (a + 1)) [
      | none ↦ none
      | some s ↦ some (m a ∷ s)
    ] in
    if m a == 0 then some [] else rest

-- `n` bytes from `a` on.
unfoldable pub bytes_at : (n : ℕ) → Mem → ℕ → List ℕ
bytes_at zero m a = []
bytes_at (suc n) m a = m a ∷ bytes_at n m (a + 1)

abbrev pub or_panic : Bool → Option (List File) → Option (List File)
or_panic true files = files
or_panic false files = none

abbrev pub is_zero : ℤ → Bool
is_zero (pos n) = n == 0
is_zero (negsuc n) = false

-- `strcmp(header->magic, "ustar") == 0`
abbrev pub is_ustar : Option (List ℕ) → Bool
is_ustar none = false
is_ustar (some magic) = is_zero (strcmp magic magic_text)

abbrev pub put_file : Option (List ℕ) → List ℕ → Option (List File) → Option (List File)
put_file none contents files = none
put_file (some name) contents none = none
put_file (some name) contents (some files) =
    some (record { in_use = true; name = name; contents = contents } ∷ files)

-- The loop, with the rounds left, at the offset `off`: the files that it puts into the slots, one
-- after the other. `none` is the PANIC, or a string that does not end inside its header.
unfoldable pub init_from : (rounds : ℕ) → Mem → ℕ → Option (List File)
init_from zero disk off = some []
init_from (suc rounds) disk off =
    let filesz = oct2int (bytes_at 12 disk (off + size_at)) in
    let read =
      put_file (string_at header_size disk off) (bytes_at filesz disk (off + header_size))
        (init_from rounds disk (off + sectors filesz)) in
    if disk off == 0
    then some []
    else or_panic (is_ustar (string_at header_size disk (off + magic_at))) read

unfoldable pub fs_init : Mem → Option (List File)
unfolding init_from
fs_init disk = init_from files_max disk 0

-- The index of the first slot with that name, in use or not; `none` is NULL.
unfoldable pub lookup_from : List File → ℕ → List ℕ → Option ℕ
lookup_from [] i filename = none
lookup_from (file ∷ files) i filename =
    if is_zero (strcmp file.name filename) then some i else lookup_from files (i + 1) filename

unfoldable pub fs_lookup : List File → List ℕ → Option ℕ
unfolding lookup_from
fs_lookup files filename = lookup_from files 0 filename
