-- ===== src/Os1k/Files/Lookup.antt =====
-- `fs_lookup` finds the first file of a name.
use mini_kvm.Base.{ℕ, ◌+◌, ◌≡◌, ◌≢◌, refl, ap, ◌∙◌, arith, some, none, Option}
use mini_kvm.Base.{List, [], ◌∷◌, ◌++◌, length, true, false, Bool-cases, inl, inr}
use mini_kvm.Base.Int.{ℤ, pos, negsuc}
use mini_kvm.Os1k.Text.{strcmp}
use mini_kvm.Os1k.Text.Compare.{IsText, strcmp_zero}
use mini_kvm.Os1k.Files.{File, lookup_from, fs_lookup, is_zero}

abbrev pub NoneNamed : List ℕ → List File → Type 0
NoneNamed filename [] = Unit
NoneNamed filename (file ∷ files) = (file.name ≢ filename) × NoneNamed filename files

abbrev pub AllNamed : List File → Type 0
AllNamed [] = Unit
AllNamed (file ∷ files) = IsText file.name × AllNamed files

-- No file of a list has the name, or the first that has it stands behind `before`.
pub data Found (files : List File) (i : ℕ) (filename : List ℕ) (o : Option ℕ) : Type 0 where
  missing : NoneNamed filename files → o ≡ none → Found files i filename o
  found :
      (before later : List File) (file : File)
      → files ≡ before ++ file ∷ later
      → NoneNamed filename before
      → file.name ≡ filename
      → o ≡ some (i + length before)
      → Found files i filename o

zero_is : (z : ℤ) → is_zero z ≡ true → z ≡ pos 0
zero_is (pos n) h = ground arith
zero_is (negsuc n) h = cc

Found-later :
    (file : File) (files : List File) (i : ℕ) (filename : List ℕ) {o : Option ℕ}
    → file.name ≢ filename
    → Found files (i + 1) filename o
    → Found (file ∷ files) i filename o
Found-later file files i filename ne (missing others e) = missing (ne, others) e
Found-later file files i filename ne (found before later f split others is e) =
    found (file ∷ before) later f (ap (λ l. file ∷ l) split) (ne, others) is
      (e ∙ ap some (omega arith))

lookup_from-Found :
    (files : List File) (i : ℕ) (filename : List ℕ)
    → AllNamed files
    → IsText filename
    → Found files i filename (lookup_from files i filename)
unfolding lookup_from
lookup_from-Found [] i filename h t = missing tt refl
lookup_from-Found (file ∷ files) i filename h t =
    elim (Bool-cases (is_zero (strcmp file.name filename))) [
      | inl same ↦
          found [] files file refl tt
            ((strcmp_zero file.name filename h.0 t).0 (zero_is (strcmp file.name filename) same))
            (rw same (ap some (omega arith)))
      | inr other ↦ rw other (
          Found-later file files i filename
            (λ e.
              differs (strcmp file.name filename) other
                ((strcmp_zero file.name filename h.0 t).1 e))
            (lookup_from-Found files (i + 1) filename h.1 t))
    ]
  where
    differs : (z : ℤ) → is_zero z ≡ false → z ≡ pos 0 → ⊥
    differs (pos n) f e = ground arith
    differs (negsuc n) f e = ground arith

-- The answer is the slot of the first file of that name, or NULL when none has it.
pub fs_lookup-Found :
    (files : List File) (filename : List ℕ)
    → AllNamed files
    → IsText filename
    → Found files 0 filename (fs_lookup files filename)
unfolding fs_lookup
fs_lookup-Found files filename h t = lookup_from-Found files 0 filename h t
