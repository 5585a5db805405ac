-- ===== src/Os1k/Files/Archive.antt =====
-- What `fs_flush` puts on the disk is what `fs_init` finds there.
use mini_kvm.Base.{ℕ, zero, suc, ◌+◌, ◌*◌, ◌≤◌, ◌<◌, ◌≡◌, inl, inr, refl, sym, ap, ◌∙◌}
use mini_kvm.Base.{
  arith, some, List, [], ◌∷◌, ◌++◌, length, length-append, get_or, true, false, ◌==◌, Bool-cases,
  if◌then◌else◌,
}
use mini_kvm.GuestMem.{Mem, memset}
use mini_kvm.GuestMem.Laws.{memset-IsOutside, memset-inside}
use mini_kvm.TarOctal.{octal_digits, oct2int}
use mini_kvm.TarOctal.RoundTrip.{oct2int-octal_digits}
use mini_kvm.Os1k.Text.{strcmp}
use mini_kvm.Os1k.Text.Compare.{IsText}
use mini_kvm.Os1k.Files.{
  File, string_at, bytes_at, write_file, flush_from, fs_flush, init_from, fs_init,
}
use mini_kvm.Os1k.Files.{header_size, size_at, magic_at, magic_text, sectors, disk_size, files_max}
use mini_kvm.Os1k.Files.{is_ustar, put_file}
use mini_kvm.Os1k.Files.Header.{
  HoldsAt, string_at-HoldsAt, bytes_at-HoldsAt, length-octal_digits, write_file-name,
  write_file-magic, write_file-size, write_file-contents, write_file-IsOutside,
}

-- A name that is not empty and fits its field, and data that fit `data`.
pub record IsFile (file : File) : Type 0 where
  pub name : IsText file.name
  pub named : 0 < length file.name
  pub short : length file.name < 100
  pub small : length file.contents ≤ 1024

abbrev pub AllFiles : List File → Type 0
AllFiles [] = Unit
AllFiles (file ∷ files) = IsFile file × AllFiles files

-- The files that there are.
abbrev pub used : List File → List File
used [] = []
used (file ∷ files) = if file.in_use then file ∷ used files else used files

-- Writing goes on behind what is written.
flush_from-below :
    (m : Mem) (off : ℕ) (files : List File) (x : ℕ)
    → AllFiles files
    → x < off
    → flush_from m off files x ≡ m x
unfolding flush_from
flush_from-below m off [] x h l = refl
flush_from-below m off (file ∷ files) x h l = elim (Bool-cases file.in_use) [
  | inr unused ↦ rw unused (flush_from-below m off files x h.1 l)
  | inl in_use ↦ rw in_use (
      flush_from-below (write_file m off file) (off + sectors (length file.contents)) files x h.1
        (omega arith)
      ∙ write_file-IsOutside m off file h.0.short x (inl l))
]

-- One file is read back where it was written.
module _ (disk m : Mem) (off : ℕ) (file : File) (is_file : IsFile file)
    (same : (x : ℕ)
      → x < off + sectors (length file.contents)
      → disk x ≡ write_file m off file x) where
  on_disk :
      (a : ℕ) (bytes : List ℕ)
      → a + length bytes ≤ off + (header_size + length file.contents)
      → HoldsAt (write_file m off file) a bytes
      → HoldsAt disk a bytes
  on_disk a bytes le h i l = same (a + i) (omega arith) ∙ h i l

  read_size : oct2int (bytes_at 12 disk (off + size_at)) ≡ length file.contents
  read_size =
      ap (λ n. oct2int (bytes_at n disk (off + size_at)))
        (sym (length-octal_digits 12 (length file.contents)))
      ∙ ap oct2int (
          bytes_at-HoldsAt disk (off + size_at) (octal_digits 12 (length file.contents)) (
            on_disk (off + size_at) (octal_digits 12 (length file.contents))
              (omega (arith, length-octal_digits 12 (length file.contents)))
              (write_file-size m off file is_file.short)))
      ∙ (oct2int-octal_digits 12 (length file.contents) [] (omega (arith, is_file.small))).0

  read_contents : bytes_at (length file.contents) disk (off + header_size) ≡ file.contents
  read_contents = bytes_at-HoldsAt disk (off + header_size) file.contents (
      on_disk (off + header_size) file.contents (omega arith)
        (write_file-contents m off file is_file.short))

  name_fits : length (file.name ++ 0 ∷ []) ≡ length file.name + 1
  name_fits = length-append file.name (0 ∷ []) ∙ omega arith

  name_held : HoldsAt disk off (file.name ++ 0 ∷ [])
  name_held =
      on_disk off (file.name ++ 0 ∷ []) (omega (arith, name_fits, is_file.short))
        (write_file-name m off file is_file.short)

  read_name : string_at header_size disk off ≡ some file.name
  read_name =
      string_at-HoldsAt header_size disk off file.name is_file.name (omega (arith, is_file.short))
        name_held

  read_magic : is_ustar (string_at header_size disk (off + magic_at)) ≡ true
  read_magic =
      ap is_ustar (
        string_at-HoldsAt header_size disk (off + magic_at) magic_text (omega arith) (omega arith) (
          on_disk (off + magic_at) (magic_text ++ 0 ∷ []) (omega arith)
            (write_file-magic m off file is_file.short)))
      ∙ (unfold strcmp in refl)

  not_empty : (disk off == 0) ≡ false
  not_empty =
      first file.name is_file.name is_file.named
        (ap disk (omega arith) ∙ name_held 0 (omega (arith, name_fits)))
    where
      first :
          (name : List ℕ)
          → IsText name
          → 0 < length name
          → disk off ≡ get_or (name ++ 0 ∷ []) 0 0
          → (disk off == 0) ≡ false
      first [] t l e = absurd (omega arith)
      first (c ∷ name) t l e = let p = t.0 in ground arith

  one_read :
      (rounds : ℕ)
      → init_from (suc rounds) disk off
        ≡ put_file
            (some file.name)
            file.contents
            (init_from rounds disk (off + sectors (length file.contents)))
  unfolding init_from
  one_read rounds = rw (not_empty, read_magic, read_size, read_name, read_contents) refl

file-in_use :
    (file : File)
    → file.in_use ≡ true
    → record { in_use = true; name = file.name; contents = file.contents } ≡ file
file-in_use file e =
    ap (λ b. record { in_use = b; name = file.name; contents = file.contents }) (sym e)

-- From an offset behind which the disk is empty, as many files are read as were written.
read_back :
    (rounds off : ℕ) (m : Mem) (files : List File)
    → AllFiles files
    → length files ≤ rounds
    → off + rounds * 1536 ≤ files_max * 1536
    → ((x : ℕ) → off ≤ x → x < disk_size → m x ≡ 0)
    → init_from rounds (flush_from m off files) off ≡ some (used files)
read_back zero off m [] h l room empty = unfold init_from in refl
read_back (suc rounds) off m [] h l room empty =
    unfold init_from flush_from in rw (empty off (omega arith) (omega arith)) refl
read_back zero off m (file ∷ files) h l room empty = absurd (omega arith)
read_back (suc rounds) off m (file ∷ files) h l room empty = elim (Bool-cases file.in_use) [
  | inr unused ↦
      ap (λ d. init_from (suc rounds) d off) (unused_skipped unused)
      ∙ read_back (suc rounds) off m files h.1 (omega arith) room empty
      ∙ ap some (sym (ap (λ b. if b then file ∷ used files else used files) unused))
  | inl in_use ↦
      ap (λ d. init_from (suc rounds) d off) (written_first in_use)
      ∙ one_read disk m off file h.0
          (λ x lt. flush_from-below (write_file m off file) next files x h.1 lt) rounds
      ∙ ap (put_file (some file.name) file.contents) (
          read_back rounds next (write_file m off file) files h.1 (omega arith)
            (omega (arith, h.0.small))
            (λ x le lt.
              write_file-IsOutside m off file h.0.short x (inr (omega arith))
              ∙ empty x (omega arith) lt))
      ∙ ap (λ f. some (f ∷ used files)) (file-in_use file in_use)
      ∙ ap some (sym (used_first in_use))
]
  where
    next : ℕ
    next = off + sectors (length file.contents)

    disk : Mem
    disk = flush_from (write_file m off file) next files

    used_first : file.in_use ≡ true → used (file ∷ files) ≡ file ∷ used files
    used_first e = ap (λ b. if b then file ∷ used files else used files) e

    written_first : file.in_use ≡ true → flush_from m off (file ∷ files) ≡ disk
    written_first e =
        unfold flush_from in
        ap
          (λ b. flush_from (if b then write_file m off file else m) (if b then next else off) files)
          e

    unused_skipped : file.in_use ≡ false → flush_from m off (file ∷ files) ≡ flush_from m off files
    unused_skipped e =
        unfold flush_from in
        ap
          (λ b. flush_from (if b then write_file m off file else m) (if b then next else off) files)
          e

-- The bytes of the disk that the files take.
abbrev pub space_of : List File → ℕ
space_of [] = 0
space_of (file ∷ files) =
    if file.in_use then sectors (length file.contents) + space_of files else space_of files

-- Files that take no more than the 2560 bytes of `disk`, and that `fs_flush` writes to it whatever
-- was there, are those that `fs_init` reads from it, in their order, with their names and data.
pub fs_init-fs_flush :
    (disk : Mem) (files : List File)
    → AllFiles files
    → length files ≤ files_max
    → space_of files ≤ disk_size
    → fs_init (fs_flush disk files) ≡ some (used files)
unfolding fs_init fs_flush
fs_init-fs_flush disk files h l fits =
    read_back files_max 0 (memset disk 0 0 disk_size) files h l (omega arith)
      (λ x le lt. memset-inside disk 0 0 disk_size x (omega arith) (omega arith))

flush_from-above :
    (m : Mem) (off : ℕ) (files : List File) (x : ℕ)
    → AllFiles files
    → off + space_of files ≤ x
    → flush_from m off files x ≡ m x
unfolding flush_from
flush_from-above m off [] x h l = refl
flush_from-above m off (file ∷ files) x h l = elim (Bool-cases file.in_use) [
  | inr unused ↦
      let l' : off + space_of files ≤ x = rw unused at l in
      rw unused (flush_from-above m off files x h.1 l')
  | inl in_use ↦
      let l' : off + (sectors (length file.contents) + space_of files) ≤ x = rw in_use at l in
      rw in_use (
        flush_from-above (write_file m off file) (off + sectors (length file.contents)) files x h.1
          (omega arith)
        ∙ write_file-IsOutside m off file h.0.short x (inr (omega arith)))
]

-- When the files with their headers take no more than the 2560 bytes of `disk`, no byte behind it
-- is written.
pub fs_flush_bounds :
    (disk : Mem) (files : List File) (x : ℕ)
    → AllFiles files
    → space_of files ≤ disk_size
    → disk_size ≤ x
    → fs_flush disk files x ≡ disk x
unfolding fs_flush
fs_flush_bounds disk files x h fits le =
    flush_from-above (memset disk 0 0 disk_size) 0 files x h (omega arith)
    ∙ memset-IsOutside disk 0 0 disk_size x (inr (omega arith))
