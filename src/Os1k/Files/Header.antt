-- ===== src/Os1k/Files/Header.antt =====
-- What `fs_flush` writes for one file is read back by `fs_init`.
use mini_kvm.Base.{ℕ, zero, suc, ◌+◌, ◌%◌, ◌/◌, ◌≤◌, ◌<◌, ◌≡◌, ◌⊎◌, inl, inr, refl, ap, ap₂, ◌∙◌}
use mini_kvm.Base.{arith, some, List, [], ◌∷◌, ◌++◌, length, length-append, get_or, false, ◌==◌}
use mini_kvm.GuestMem.{Mem, memset, copy_in, store8, store}
use mini_kvm.GuestMem.Laws.{IsOutside, copy_in-IsOutside, copy_in-inside, memset-IsOutside}
use mini_kvm.GuestMem.Laws.{store-IsOutside}
use mini_kvm.TarOctal.{octal_digits}
use mini_kvm.Os1k.Text.Compare.{IsText}
use mini_kvm.Os1k.Files.{File, string_at, bytes_at, write_fields, write_file, checksum}
use mini_kvm.Os1k.Files.{header_size, size_at, checksum_at, magic_at, type_at, version_at, mode_at}
use mini_kvm.Os1k.Files.{mode_text, magic_text, version_text}

-- The bytes from `a` on are those of a list.
abbrev pub HoldsAt : Mem → ℕ → List ℕ → Type 0
HoldsAt m a bytes = (i : ℕ) → i < length bytes → m (a + i) ≡ get_or bytes i 0

HoldsAt-tail :
    (m : Mem) (a b : ℕ) (bytes : List ℕ)
    → HoldsAt m a (b ∷ bytes)
    → (m a ≡ b) × HoldsAt m (a + 1) bytes
HoldsAt-tail m a b bytes h =
    (ap m (omega arith) ∙ h 0 (omega arith), λ i l. ap m (omega arith) ∙ h (suc i) (omega arith))

pub string_at-HoldsAt :
    (n : ℕ) (m : Mem) (a : ℕ) (s : List ℕ)
    → IsText s
    → length s < n
    → HoldsAt m a (s ++ 0 ∷ [])
    → string_at n m a ≡ some s
unfolding string_at
string_at-HoldsAt zero m a s t l h = elim l [ ]
string_at-HoldsAt (suc n) m a [] t l h = let (e, r) = HoldsAt-tail m a 0 [] h in rw e refl
string_at-HoldsAt (suc n) m a (c ∷ s) t l h =
    let (e, r) = HoldsAt-tail m a c (s ++ 0 ∷ []) h in
    rw (string_at-HoldsAt n m (a + 1) s t.1 (omega arith) r, nonzero (m a) (omega (arith, e, t.0)))
      (ap (λ b. some (b ∷ s)) e)
  where
    nonzero : (c : ℕ) → 0 < c → (c == 0) ≡ false
    nonzero c p = ground arith

pub bytes_at-HoldsAt :
    (m : Mem) (a : ℕ) (bytes : List ℕ) → HoldsAt m a bytes → bytes_at (length bytes) m a ≡ bytes
unfolding bytes_at
bytes_at-HoldsAt m a [] h = refl
bytes_at-HoldsAt m a (b ∷ bytes) h =
    let (e, r) = HoldsAt-tail m a b bytes h in ap₂ ◌∷◌ e (bytes_at-HoldsAt m (a + 1) bytes r)

pub length-octal_digits : (len n : ℕ) → length (octal_digits len n) ≡ len
unfolding octal_digits
length-octal_digits zero n = refl
length-octal_digits (suc len) n =
    length-append (octal_digits len (n / 8)) ((n % 8 + 48) ∷ [])
    ∙ omega (arith, length-octal_digits len (n / 8))

-- A region that a copy does not touch.
kept :
    (m : Mem) (a : ℕ) (bytes : List ℕ) (b : ℕ) (held : List ℕ)
    → (b + length held ≤ a) ⊎ (a + length bytes ≤ b)
    → HoldsAt m b held
    → HoldsAt (copy_in m a bytes) b held
kept m a bytes b held apart h i l = copy_in-IsOutside m a bytes (b + i) (omega arith) ∙ h i l

passed :
    (m : Mem) (a : ℕ) (bytes : List ℕ) (x : ℕ) {v : ℕ}
    → IsOutside a (length bytes) x
    → m x ≡ v
    → copy_in m a bytes x ≡ v
passed m a bytes x out e = copy_in-IsOutside m a bytes x out ∙ e

passed_byte : (m : Mem) (a b x : ℕ) {v : ℕ} → IsOutside a 1 x → m x ≡ v → store8 m a b x ≡ v
unfolding store8 store
passed_byte m a b x out e = store-IsOutside 1 m a b x out ∙ e

copied : (m : Mem) (a : ℕ) (bytes : List ℕ) → HoldsAt (copy_in m a bytes) a bytes
copied m a bytes i l = copy_in-inside m a bytes i l

kept_byte :
    (m : Mem) (a v b : ℕ) (held : List ℕ)
    → (b + length held ≤ a) ⊎ (a + 1 ≤ b)
    → HoldsAt m b held
    → HoldsAt (store8 m a v) b held
unfolding store8 store
kept_byte m a v b held apart h i l = store-IsOutside 1 m a v (b + i) (omega arith) ∙ h i l

module _ (m : Mem) (off : ℕ) (name : List ℕ) (size : ℕ) (short : length name < 100) where
  name_length : length (name ++ 0 ∷ []) ≡ length name + 1
  name_length = length-append name (0 ∷ []) ∙ omega arith

  fields-name : HoldsAt (write_fields m off name size) off (name ++ 0 ∷ [])
  unfolding write_fields
  fields-name =
      kept _ (off + size_at) (octal_digits 12 size) off (name ++ 0 ∷ [])
        (inl (omega (arith, name_length)))
        (kept_byte _ (off + type_at) 48 off (name ++ 0 ∷ []) (inl (omega (arith, name_length))) (
          kept _ (off + version_at) (version_text ++ 0 ∷ []) off (name ++ 0 ∷ [])
            (inl (omega (arith, name_length)))
            (kept _ (off + magic_at) (magic_text ++ 0 ∷ []) off (name ++ 0 ∷ [])
              (inl (omega (arith, name_length)))
              (kept _ (off + mode_at) (mode_text ++ 0 ∷ []) off (name ++ 0 ∷ [])
                (inl (omega (arith, name_length)))
                (copied (memset m off 0 header_size) off (name ++ 0 ∷ []))))))

  fields-magic : HoldsAt (write_fields m off name size) (off + magic_at) (magic_text ++ 0 ∷ [])
  unfolding write_fields
  fields-magic =
      kept _ (off + size_at) (octal_digits 12 size) (off + magic_at) (magic_text ++ 0 ∷ [])
        (inr (omega (arith, length-octal_digits 12 size)))
        (kept_byte _ (off + type_at) 48 (off + magic_at) (magic_text ++ 0 ∷ []) (inr (omega arith))
          (kept _ (off + version_at) (version_text ++ 0 ∷ []) (off + magic_at)
            (magic_text ++ 0 ∷ []) (inl (omega arith))
            (copied _ (off + magic_at) (magic_text ++ 0 ∷ []))))

  fields-size : HoldsAt (write_fields m off name size) (off + size_at) (octal_digits 12 size)
  unfolding write_fields
  fields-size = copied _ (off + size_at) (octal_digits 12 size)

module _ (m : Mem) (off : ℕ) (file : File) (short : length file.name < 100) where
  abbrev size : ℕ
  size = length file.contents

  pub write_file-name : HoldsAt (write_file m off file) off (file.name ++ 0 ∷ [])
  unfolding write_file
  write_file-name =
      let l = name_length m off file.name size short in
      kept _ (off + header_size) file.contents off (file.name ++ 0 ∷ []) (inl (omega (arith, l))) (
        kept (write_fields m off file.name size) (off + checksum_at) _ off (file.name ++ 0 ∷ [])
          (inl (omega (arith, l))) (fields-name m off file.name size short))

  pub write_file-magic : HoldsAt (write_file m off file) (off + magic_at) (magic_text ++ 0 ∷ [])
  unfolding write_file
  write_file-magic =
      kept _ (off + header_size) file.contents (off + magic_at) (magic_text ++ 0 ∷ [])
        (inl (omega arith))
        (kept (write_fields m off file.name size) (off + checksum_at)
          (octal_digits 6 (checksum (write_fields m off file.name size) off)) (off + magic_at)
          (magic_text ++ 0 ∷ [])
          (inr (
            omega
              (arith, length-octal_digits 6 (checksum (write_fields m off file.name size) off))))
          (fields-magic m off file.name size short))

  pub write_file-size : HoldsAt (write_file m off file) (off + size_at) (octal_digits 12 size)
  unfolding write_file
  write_file-size =
      let l = length-octal_digits 12 size in
      kept _ (off + header_size) file.contents (off + size_at) (octal_digits 12 size)
        (inl (omega (arith, l)))
        (kept (write_fields m off file.name size) (off + checksum_at) _ (off + size_at)
          (octal_digits 12 size) (inl (omega (arith, l))) (fields-size m off file.name size short))

  pub write_file-contents : HoldsAt (write_file m off file) (off + header_size) file.contents
  unfolding write_file
  write_file-contents = copied _ (off + header_size) file.contents

  pub write_file-IsOutside :
      (x : ℕ) → IsOutside off (header_size + size) x → write_file m off file x ≡ m x
  unfolding write_file write_fields
  write_file-IsOutside x out =
      let l = name_length m off file.name size short in
      let l6 = length-octal_digits 6 (checksum (write_fields m off file.name size) off) in
      let l12 = length-octal_digits 12 size in
      passed _ (off + header_size) file.contents x (omega arith) (
        passed (write_fields m off file.name size) (off + checksum_at)
          (octal_digits 6 (checksum (write_fields m off file.name size) off)) x (omega (arith, l6))
          (passed _ (off + size_at) (octal_digits 12 size) x (omega (arith, l12)) (
            passed_byte _ (off + type_at) 48 x (omega arith) (
              passed _ (off + version_at) (version_text ++ 0 ∷ []) x (omega arith) (
                passed _ (off + magic_at) (magic_text ++ 0 ∷ []) x (omega arith) (
                  passed _ (off + mode_at) (mode_text ++ 0 ∷ []) x (omega arith) (
                    passed (memset m off 0 header_size) off (file.name ++ 0 ∷ []) x
                      (omega (arith, l))
                      (memset-IsOutside m off 0 header_size x (omega arith)))))))))
