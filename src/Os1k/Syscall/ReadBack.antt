-- ===== src/Os1k/Syscall/ReadBack.antt =====
-- What a process writes to a file is what it reads from it.
use mini_kvm.Base.{ℕ, zero, suc, ◌+◌, ◌^◌, ◌≤◌, ◌<◌, ◌≡◌, inl, inr, refl, sym, ap, ◌∙◌}
use mini_kvm.Base.{arith, subst, true, false, Bool-cases, if◌then◌else◌, leb}
use mini_kvm.Base.{Option, none, some, List, [], ◌∷◌, map, length, get_or, set, get_or-set_self}
use mini_kvm.Base.Int.{ℤ}
use mini_kvm.GuestMem.{Mem, copy_in}
use mini_kvm.GuestMem.Laws.{IsOutside, copy_in-IsOutside, copy_in-inside}
use mini_kvm.Os1k.Text.{strcmp}
use mini_kvm.Os1k.Files.{bytes_at, string_at, lookup_from, fs_lookup, fs_flush, is_zero}
use mini_kvm.Os1k.Syscall.{
  Slot, Os, TrapFrame, returns, file_of, slot_at, free_slot, data_size, transfer,
}
use mini_kvm.Os1k.Syscall.{faults, transfer_size, write_transfer, read_transfer}
use mini_kvm.Os1k.Syscall.{write_slot, lookup_name, lookup_slot, handle_syscall}
use mini_kvm.Os1k.Syscall.Stored.{length-bytes_at}

pub get_or-bytes_at : (n : ℕ) (m : Mem) (a i : ℕ) → i < n → get_or (bytes_at n m a) i 0 ≡ m (a + i)
unfolding bytes_at
get_or-bytes_at zero m a i h = elim h [ ]
get_or-bytes_at (suc n) m a zero h = ap m (omega arith)
get_or-bytes_at (suc n) m a (suc i) h =
    get_or-bytes_at n m (a + 1) i (omega arith) ∙ ap m (omega arith)

-- A lookup depends only on the names.
lookup_from-set :
    (slots : List Slot) (i j : ℕ) (s : Slot) (filename : List ℕ)
    → s.name ≡ (slot_at slots i).name
    → lookup_from (map file_of (set slots i s)) j filename
      ≡ lookup_from (map file_of slots) j filename
unfolding lookup_from
lookup_from-set [] i j s filename e = refl
lookup_from-set (t ∷ slots) zero j s filename e =
    ap
      (λ n.
        if is_zero (strcmp n filename)
        then some j
        else lookup_from (map file_of slots) (j + 1) filename)
      e
lookup_from-set (t ∷ slots) (suc i) j s filename e =
    ap (λ r. if is_zero (strcmp t.name filename) then some j else r)
      (lookup_from-set slots i (j + 1) s filename e)

lookup_from-lt :
    (slots : List Slot) (j : ℕ) (filename : List ℕ) (i : ℕ)
    → lookup_from (map file_of slots) j filename ≡ some (j + i)
    → i < length slots
unfolding lookup_from
lookup_from-lt [] j filename i h = absurd (ground arith)
lookup_from-lt (t ∷ slots) j filename zero h = omega arith
lookup_from-lt (t ∷ slots) j filename (suc i) h =
    elim (Bool-cases (is_zero (strcmp t.name filename))) [
      | inl here ↦ absurd (ground arith)
      | inr later ↦
          let r = lookup_from-lt slots (j + 1) filename i (later_one later) in omega (arith, r)
    ]
  where
    later_one :
        is_zero (strcmp t.name filename) ≡ false
        → lookup_from (map file_of slots) (j + 1) filename ≡ some (j + 1 + i)
    later_one later = ground arith

lookup_name-set :
    (slots : List Slot) (i : ℕ) (s : Slot) (o : Option (List ℕ))
    → s.name ≡ (slot_at slots i).name
    → lookup_name (set slots i s) o ≡ lookup_name slots o
unfolding fs_lookup
lookup_name-set slots i s none e = refl
lookup_name-set slots i s (some filename) e = lookup_from-set slots i 0 s filename e

lookup_name-lt :
    (slots : List Slot) (o : Option (List ℕ)) (i : ℕ)
    → lookup_name slots o ≡ some i
    → i < length slots
unfolding fs_lookup
lookup_name-lt slots none i h = absurd (ground arith)
lookup_name-lt slots (some filename) i h =
    lookup_from-lt slots 0 filename i (h ∙ ap some (omega arith))

-- A transfer of no more bytes than fit a file.
module _ (s : Os) (f : TrapFrame) (i : ℕ) (fits : f.edx ≤ data_size) where
  size-same : transfer_size f.edx (slot_at s.files i).size ≡ f.edx
  size-same = ground arith

  transfer-write : transfer true s f (some i) ≡ write_transfer s f i f.edx
  transfer-write =
      ap (λ b. if b then faults else write_transfer s f i size) not_negative
      ∙ ap (write_transfer s f i) size-same
    where
      size : ℕ
      size = transfer_size f.edx (slot_at s.files i).size

      not_negative : leb (2 ^ 31) f.edx ≡ false
      not_negative = ground arith

  transfer-read : transfer false s f (some i) ≡ read_transfer s f i f.edx
  transfer-read =
      ap (λ b. if b then faults else read_transfer s f i size) not_negative
      ∙ ap (read_transfer s f i) size-same
    where
      size : ℕ
      size = transfer_size f.edx (slot_at s.files i).size

      not_negative : leb (2 ^ 31) f.edx ≡ false
      not_negative = ground arith

module _ (others : Os → Os) (polls : List ℤ) (s : Os) (f : TrapFrame) where
  handle_write :
      f.eax ≡ 4
      → handle_syscall others polls s f ≡ transfer true s f (lookup_slot s.files s.user f.ebx)
  unfolding handle_syscall
  handle_write e = rw e refl

  handle_read :
      f.eax ≡ 3
      → handle_syscall others polls s f ≡ transfer false s f (lookup_slot s.files s.user f.ebx)
  unfolding handle_syscall
  handle_read e = rw e refl

-- A process that writes at most 1024 bytes to a file that there is, and then reads no more than
-- those under the same name, into any buffer: both calls return with the number of bytes, the
-- buffer holds what was written, and no other byte of the process's memory is changed.
pub handle_syscall-read_back :
    (others : Os → Os) (polls later : List ℤ) (s : Os) (f g : TrapFrame) (i : ℕ)
    → f.eax ≡ 4
    → g.eax ≡ 3
    → g.ebx ≡ f.ebx
    → lookup_slot s.files s.user f.ebx ≡ some i
    → f.edx ≤ 1024
    → g.edx ≤ f.edx
    → (s' s'' : Os) × (handle_syscall others polls s f ≡ returns s' (record f { eax = f.edx }))
      × (handle_syscall others later s' g ≡ returns s'' (record g { eax = g.edx }))
      × ((x : ℕ) → x < g.edx → s''.user (g.ecx + x) ≡ s.user (f.ecx + x))
      × ((x : ℕ) → IsOutside g.ecx g.edx x → s''.user x ≡ s.user x)
unfolding lookup_slot write_slot
handle_syscall-read_back others polls later s f g i ef eg name found fits less = (
  s',
  s'',
  handle_write others polls s f ef ∙ ap (transfer true s f) found ∙ transfer-write s f i fits,
  handle_read others later s' g eg
      ∙ ap (transfer false s' g) again
      ∙ transfer-read s' g i (omega arith),
  λ x h.
      copy_in-inside s.user g.ecx bytes x (omega (arith, length-bytes_at g.edx read.data_bytes 0))
      ∙ get_or-bytes_at g.edx read.data_bytes 0 x h
      ∙ ap (λ t. t.data_bytes (0 + x)) new_slot
      ∙ copy_in-inside (slot_at s.files i).data_bytes 0 (bytes_at f.edx s.user f.ecx) x
          (omega (arith, length-bytes_at f.edx s.user f.ecx))
      ∙ get_or-bytes_at f.edx s.user f.ecx x (omega arith),
  λ x out.
      copy_in-IsOutside s.user g.ecx bytes x
        (subst (λ n. IsOutside g.ecx n x) (sym (length-bytes_at g.edx read.data_bytes 0)) out),
)
  where
    written : Slot
    written = write_slot (slot_at s.files i) s.user f.ecx f.edx

    files : List Slot
    files = set s.files i written

    s' : Os
    s' = record s { files = files; disk = fs_flush s.disk (map file_of files) }

    read : Slot
    read = slot_at files i

    bytes : List ℕ
    bytes = bytes_at g.edx read.data_bytes 0

    s'' : Os
    s'' = record s' { user = copy_in s.user g.ecx bytes }

    new_slot : read ≡ written
    new_slot =
        get_or-set_self s.files i written free_slot
          (lookup_name-lt s.files (string_at 100 s.user f.ebx) i found)

    again : lookup_slot files s.user g.ebx ≡ some i
    again =
        lookup_name-set s.files i written (string_at 100 s.user g.ebx) refl
        ∙ ap (λ a. lookup_name s.files (string_at 100 s.user a)) name
        ∙ found
