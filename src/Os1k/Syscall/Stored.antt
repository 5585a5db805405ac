-- ===== src/Os1k/Syscall/Stored.antt =====
-- Whatever a process asks for, the disk stays what `fs_init` reads the files from.
use mini_kvm.Base.{◌⊎◌, ◌<◌, dec_lt}
use mini_kvm.Os1k.Files.{disk_size}
use mini_kvm.Base.{ℕ, zero, suc, ◌+◌, ◌^◌, ◌≤◌, ◌≡◌, inl, inr, refl, sym, ap, ◌∙◌}
use mini_kvm.Base.{arith, subst, Bool, true, false, leb, ◌==◌, if◌then◌else◌, Bool-cases}
use mini_kvm.Base.{Option, none, some, List, [], ◌∷◌, map, length, set, length-set}
use mini_kvm.Base.Int.{ℤ, pos, negsuc}
use mini_kvm.GuestMem.{Mem}
use mini_kvm.Os1k.Files.{
  File, bytes_at, write_file, sectors, flush_from, fs_flush, fs_init, files_max,
}
use mini_kvm.Os1k.Files.Archive.{IsFile, AllFiles, used, space_of, fs_init-fs_flush}
use mini_kvm.Os1k.Sched.{Kernel, yield_cpu}
use mini_kvm.Os1k.Syscall.{
  Slot, Os, TrapFrame, Outcome, returns, waits, panics, faults, leaves, file_of, slot_at,
}
use mini_kvm.Os1k.Syscall.{data_size, transfer_size, wait_char, exit_process, exit_current}
use mini_kvm.Os1k.Syscall.{
  unless_returned, write_slot, write_transfer, read_transfer, transfer, lookup_slot, handle_syscall,
}

-- What a slot holds: a file, where it is in use, and never more than its array.
pub record IsSlot (s : Slot) : Type 0 where
  pub file : s.in_use ≡ true → IsFile (file_of s)
  pub small : s.size ≤ data_size

abbrev pub AllSlots : List Slot → Type 0
AllSlots [] = Unit
AllSlots (s ∷ slots) = IsSlot s × AllSlots slots

-- The files of the slots in use.
abbrev pub stored : List Slot → List File
stored slots = used (map file_of slots)

pub record IsStored (s : Os) : Type 0 where
  pub slots : AllSlots s.files
  pub few : length s.files ≤ files_max
  pub fits : space_of (stored s.files) ≤ disk_size
  pub disk : fs_init s.disk ≡ some (stored s.files)

pub length-bytes_at : (n : ℕ) (m : Mem) (a : ℕ) → length (bytes_at n m a) ≡ n
unfolding bytes_at
length-bytes_at zero m a = refl
length-bytes_at (suc n) m a = ap suc (length-bytes_at n m (a + 1))

used-in_use :
    (file : File) (files : List File) → file.in_use ≡ true → used (file ∷ files) ≡ file ∷ used files
used-in_use file files e = ap (λ b. if b then file ∷ used files else used files) e

used-free :
    (file : File) (files : List File) → file.in_use ≡ false → used (file ∷ files) ≡ used files
used-free file files e = ap (λ b. if b then file ∷ used files else used files) e

module _ (m : Mem) (off : ℕ) (file : File) (files : List File) where
  abbrev flush_if : Bool → Mem
  flush_if b =
      flush_from (if b then write_file m off file else m)
        (if b then off + sectors (length file.contents) else off) files

  flush_from-in_use : file.in_use ≡ true → flush_from m off (file ∷ files) ≡ flush_if true
  unfolding flush_from
  flush_from-in_use e = ap flush_if e

  flush_from-free : file.in_use ≡ false → flush_from m off (file ∷ files) ≡ flush_if false
  unfolding flush_from
  flush_from-free e = ap flush_if e

flush_from-used :
    (m : Mem) (off : ℕ) (files : List File) → flush_from m off files ≡ flush_from m off (used files)
flush_from-used m off [] = refl
flush_from-used m off (file ∷ files) = elim (Bool-cases file.in_use) [
  | inl here ↦
      flush_from-in_use m off file files here
      ∙ flush_from-used (write_file m off file) (off + sectors (length file.contents)) files
      ∙ sym (flush_from-in_use m off file (used files) here)
      ∙ ap (flush_from m off) (sym (used-in_use file files here))
  | inr free ↦
      flush_from-free m off file files free
      ∙ flush_from-used m off files
      ∙ ap (flush_from m off) (sym (used-free file files free))
]

stored-AllFiles : (slots : List Slot) → AllSlots slots → AllFiles (stored slots)
stored-AllFiles [] h = tt
stored-AllFiles (s ∷ slots) h = elim (Bool-cases s.in_use) [
  | inl here ↦
      subst AllFiles (sym (used-in_use (file_of s) (map file_of slots) here))
        (h.0.file here, stored-AllFiles slots h.1)
  | inr free ↦
      subst AllFiles (sym (used-free (file_of s) (map file_of slots) free))
        (stored-AllFiles slots h.1)
]

used-used : (files : List File) → used (used files) ≡ used files
used-used [] = refl
used-used (file ∷ files) = elim (Bool-cases file.in_use) [
  | inl here ↦
      ap used (used-in_use file files here)
      ∙ used-in_use file (used files) here
      ∙ ap (λ fs. file ∷ fs) (used-used files)
      ∙ sym (used-in_use file files here)
  | inr free ↦
      ap used (used-free file files free) ∙ used-used files ∙ sym (used-free file files free)
]

length-stored : (slots : List Slot) → length (stored slots) ≤ length slots
length-stored [] = omega arith
length-stored (s ∷ slots) = elim (Bool-cases s.in_use) [
  | inl here ↦ rw here (omega (arith, length-stored slots))
  | inr free ↦ rw free (omega (arith, length-stored slots))
]

fs_flush-used : (disk : Mem) (files : List File) → fs_flush disk files ≡ fs_flush disk (used files)
unfolding fs_flush
fs_flush-used disk files = flush_from-used _ 0 files

-- What `fs_flush` writes is read again, whatever stands in the free slots.
pub flushed :
    (disk : Mem) (slots : List Slot)
    → AllSlots slots
    → length slots ≤ files_max
    → space_of (stored slots) ≤ disk_size
    → fs_init (fs_flush disk (map file_of slots)) ≡ some (stored slots)
flushed disk slots h few fits =
    ap fs_init (fs_flush-used disk (map file_of slots))
    ∙ fs_init-fs_flush disk (stored slots) (stored-AllFiles slots h)
        (omega (arith, length-stored slots)) fits
    ∙ ap some (used-used (map file_of slots))

pub slot_at-IsSlot : (slots : List Slot) (i : ℕ) → AllSlots slots → IsSlot (slot_at slots i)
slot_at-IsSlot [] i h = record { file = λ e. cc; small = omega arith }
slot_at-IsSlot (s ∷ slots) zero h = h.0
slot_at-IsSlot (s ∷ slots) (suc i) h = slot_at-IsSlot slots i h.1

set-AllSlots :
    (slots : List Slot) (i : ℕ) (s : Slot) → AllSlots slots → IsSlot s → AllSlots (set slots i s)
set-AllSlots [] i s h k = tt
set-AllSlots (t ∷ slots) zero s h k = (k, h.1)
set-AllSlots (t ∷ slots) (suc i) s h k = (h.0, set-AllSlots slots i s h.1 k)

transfer_size-le : (len size : ℕ) → size ≤ data_size → transfer_size len size ≤ data_size
transfer_size-le len size h = ground arith

write_slot-IsSlot :
    (file : Slot) (user : Mem) (buf len : ℕ)
    → IsSlot file
    → len ≤ data_size
    → IsSlot (write_slot file user buf len)
unfolding write_slot
write_slot-IsSlot file user buf len h le = record {
  file = λ e. record {
    name = (h.file e).name;
    named = (h.file e).named;
    short = (h.file e).short;
    small = omega (arith, length-bytes_at len (write_slot file user buf len).data_bytes 0);
  };
  small = le;
}

abbrev pub KeepsStored : Outcome → Type 0
KeepsStored (returns s f) = IsStored s ⊎ (disk_size < space_of (stored s.files))
KeepsStored (leaves s) = IsStored s
KeepsStored waits = Unit
KeepsStored panics = Unit
KeepsStored faults = Unit

transfer-KeepsStored :
    (writes : Bool) (s : Os) (f : TrapFrame) (o : Option ℕ)
    → IsStored s
    → KeepsStored (transfer writes s f o)
transfer-KeepsStored writes s f none h = inl h
transfer-KeepsStored writes s f (some i) h = elim (Bool-cases (leb (2 ^ 31) f.edx)) [
  | inl negative ↦ rw negative tt
  | inr positive ↦ rw positive (by_kind writes)
]
  where
    len : ℕ
    len = transfer_size f.edx (slot_at s.files i).size

    written : List Slot
    written = set s.files i (write_slot (slot_at s.files i) s.user f.ecx len)

    written-AllSlots : AllSlots written
    written-AllSlots = set-AllSlots s.files i _ h.slots (
        write_slot-IsSlot (slot_at s.files i) s.user f.ecx len (slot_at-IsSlot s.files i h.slots)
          (transfer_size-le f.edx _ (slot_at-IsSlot s.files i h.slots).small))

    written-few : length written ≤ files_max
    written-few =
        omega (arith, length-set s.files i (write_slot (slot_at s.files i) s.user f.ecx len), h.few)

    by_kind :
        (w : Bool) → KeepsStored (if w then write_transfer s f i len else read_transfer s f i len)
    by_kind true = elim (dec_lt disk_size (space_of (stored written))) [
      | yes over ↦ inr over
      | no le ↦
          let fits : space_of (stored written) ≤ disk_size = omega (arith, le) in
          inl (record {
            slots = written-AllSlots;
            few = written-few;
            fits = fits;
            disk = flushed s.disk written written-AllSlots written-few fits;
          })
    ]
    by_kind false = inl (record { slots = h.slots; few = h.few; fits = h.fits; disk = h.disk })

wait_char-KeepsStored :
    (others : Os → Os) (polls : List ℤ) (s : Os) (f : TrapFrame)
    → ((t : Os) → IsStored t → IsStored (others t))
    → IsStored s
    → KeepsStored (wait_char others polls s f)
unfolding wait_char
wait_char-KeepsStored others [] s f o h = tt
wait_char-KeepsStored others (pos ch ∷ polls) s f o h = inl h
wait_char-KeepsStored others (negsuc n ∷ polls) s f o h =
    wait_char-KeepsStored others polls _ f o
      (o _ (record { slots = h.slots; few = h.few; fits = h.fits; disk = h.disk }))

exit_process-KeepsStored : (s : Os) → IsStored s → KeepsStored (exit_process s)
unfolding exit_process
exit_process-KeepsStored s h = by_switch (yield_cpu (exit_current s.kernel))
  where
    by_switch : (r : Kernel × Option (ℕ × ℕ)) → KeepsStored (unless_returned s r)
    by_switch (k, none) = tt
    by_switch (k, some switch) = record {
      slots = h.slots;
      few = h.few;
      fits = h.fits;
      disk = h.disk;
    }

-- After every system call that returns or gives the processor away the disk holds the files that
-- are in use, so that `fs_init` would read them from it, and each is a file of at most 1024 bytes;
-- or, where the call returns, the files have outgrown the 2560 bytes of the disk. This is for
-- `others`, the processes that run while this one waits for a key, that keep it too.
pub handle_syscall-IsStored :
    (others : Os → Os) (polls : List ℤ) (s : Os) (f : TrapFrame)
    → ((t : Os) → IsStored t → IsStored (others t))
    → IsStored s
    → KeepsStored (handle_syscall others polls s f)
unfolding handle_syscall
handle_syscall-IsStored others polls s f o h =
    chosen (f.eax == 1) _ _
      (inl (record { slots = h.slots; few = h.few; fits = h.fits; disk = h.disk }))
      (chosen (f.eax == 2) _ _ (wait_char-KeepsStored others polls s f o h) (
        chosen (f.eax == 0) _ _ (exit_process-KeepsStored s h) (
          chosen (f.eax == 3) _ _
            (transfer-KeepsStored false s f (lookup_slot s.files s.user f.ebx) h)
            (chosen (f.eax == 4) _ _
              (transfer-KeepsStored true s f (lookup_slot s.files s.user f.ebx) h) tt))))
  where
    chosen :
        (b : Bool) (x y : Outcome)
        → KeepsStored x
        → KeepsStored y
        → KeepsStored (if b then x else y)
    chosen true x y p q = p
    chosen false x y p q = q
