-- ===== src/Os1k/User/Editor.antt =====
-- A line as it is edited, with no buffer: the characters typed, the last of them first.
use mini_kvm.Base.{ℕ, suc, ◌+◌, ltb, ◌==◌, if◌then◌else◌, Option, none, some}
use mini_kvm.Base.{◌≡◌, ◌≢◌, refl, ap, ◌∙◌, arith, List, [], ◌∷◌, length, set, drop}
use mini_kvm.Base.Int.{ℤ}
use mini_kvm.Os1k.User.{is_newline, is_erase, is_printable, char_of, discard_line}

-- The characters in the order in which they were typed, before `rest`.
abbrev pub onto : List ℕ → List ℕ → List ℕ
onto [] rest = rest
onto (c ∷ typed) rest = onto typed (c ∷ rest)

abbrev pub edit : ℤ → List ℕ → List ℕ
edit ch typed =
    if is_erase ch then drop 1 typed else if is_printable ch then char_of ch ∷ typed else typed

abbrev pub cut : List ℕ → Option (List ℤ) → Option (List ℕ × List ℤ)
cut typed none = none
cut typed (some keys) = some (onto typed [], keys)

-- The line that is read, and the keys left: up to a newline, or to the one after the line is full.
unfoldable pub read : (capacity : ℕ) → List ℤ → List ℕ → Option (List ℕ × List ℤ)
unfolding discard_line
read capacity [] typed = none
read capacity (ch ∷ keys) typed =
    let rest = read capacity keys (edit ch typed) in
    if ltb (length typed) capacity
    then (if is_newline ch then some (onto typed [], keys) else rest)
    else cut typed (discard_line (ch ∷ keys))

-- The C string at the start of a buffer.
abbrev pub c_string : List ℕ → List ℕ
c_string [] = []
c_string (c ∷ cs) = if c == 0 then [] else c ∷ c_string cs

abbrev pub AllNonzero : List ℕ → Type 0
AllNonzero [] = Unit
AllNonzero (c ∷ cs) = (c ≢ 0) × AllNonzero cs

module _ where
  pub set-onto :
      (typed : List ℕ) (i c : ℕ) (l : List ℕ)
      → set (onto typed l) (length typed + i) c ≡ onto typed (set l i c)
  set-onto [] i c l = ap (λ k. set l k c) (omega arith)
  set-onto (d ∷ typed) i c l =
      ap (λ k. set (onto typed (d ∷ l)) k c) (omega arith) ∙ set-onto typed (suc i) c (d ∷ l)

  pub length-onto : (typed l : List ℕ) → length (onto typed l) ≡ length typed + length l
  length-onto [] l = omega arith
  length-onto (d ∷ typed) l = omega (arith, length-onto typed (d ∷ l))

  pub c_string-onto :
      (typed l : List ℕ) → AllNonzero typed → c_string (onto typed l) ≡ onto typed (c_string l)
  c_string-onto [] l h = refl
  c_string-onto (d ∷ typed) l h = c_string-onto typed (d ∷ l) h.1 ∙ ap (onto typed) (ground arith)
