-- ===== src/Os1k/User/Typed.antt =====
-- Lines that a user types: when `readline` returns, and what a line without editing keys gives.
use mini_kvm.Base.{ℕ, zero, suc, ◌-◌, ◌≤◌, ◌<◌, ltb, Option, none, some, Bool-cases, inl, inr}
use mini_kvm.Base.{◌≡◌, ◌≢◌, ◌⊎◌, refl, sym, ap, ◌∙◌, arith, List, [], ◌∷◌, ◌++◌, length}
use mini_kvm.Base.{take, map, ltb→lt, true, false, if◌then◌else◌, ◌||◌, subst}
use mini_kvm.Base.Int.{ℤ, pos, is_minus_one}
use mini_kvm.Os1k.User.{Line, readline, discard_line, is_newline}
use mini_kvm.Os1k.User.{getchar, keys_of, sign_extend}
use mini_kvm.Os1k.User.Editor
use mini_kvm.Os1k.User.Editor.{onto, edit, cut, c_string}
use mini_kvm.Os1k.User.Readline.{Matches, readline_refines}

-- `keys_of` lists the results of the calls of `getchar`.
keys_of-getchar :
    (polls : List ℕ)
    → keys_of polls ≡ (elim (getchar polls) [ none ↦ [] | some (ch, later) ↦ ch ∷ keys_of later ])
unfolding getchar keys_of
keys_of-getchar [] = refl
keys_of-getchar (al ∷ polls) = elim (Bool-cases (is_minus_one (sign_extend al))) [
  | inl retry ↦ rw retry (keys_of-getchar polls)
  | inr key ↦ rw key refl
]

abbrev pub HasNewline : List ℤ → Type 0
HasNewline [] = ⊥
HasNewline (ch ∷ keys) = (is_newline ch ≡ true) ⊎ HasNewline keys

discard_line-returns :
    (keys : List ℤ) → HasNewline keys → (rest : List ℤ) × (discard_line keys ≡ some rest)
unfolding discard_line
discard_line-returns [] h = elim h [ ]
discard_line-returns (ch ∷ keys) (inl e) = (keys, ground arith)
discard_line-returns (ch ∷ keys) (inr later) =
    elim (Bool-cases (is_newline ch || is_minus_one ch)) [
      | inl end ↦ (keys, rw end refl)
      | inr more ↦ rw more (discard_line-returns keys later)
    ]

read-returns :
    (capacity : ℕ) (keys : List ℤ) (typed : List ℕ)
    → HasNewline keys
    → Editor.read capacity keys typed ≢ none
unfolding Editor.read
read-returns capacity [] typed h = elim h [ ]
read-returns capacity (ch ∷ keys) typed h = elim (Bool-cases (ltb (length typed) capacity)) [
  | inl room ↦ rw room (goes_on h (read-returns capacity keys (edit ch typed)))
  | inr full ↦
      let (rest, e) = discard_line-returns (ch ∷ keys) h in
      rw full (λ z. cut_some (discard_line (ch ∷ keys)) e z)
]
  where
    goes_on :
        HasNewline (ch ∷ keys)
        → (HasNewline keys → Editor.read capacity keys (edit ch typed) ≢ none)
        → (if is_newline ch
            then some (onto typed [], keys)
            else Editor.read capacity keys (edit ch typed))
          ≢ none
    goes_on (inl e) ih = rw e (λ z. cc)
    goes_on (inr later) ih = elim (Bool-cases (is_newline ch)) [
      | inl e ↦ rw e (λ z. cc)
      | inr e ↦ rw e (ih later)
    ]

    cut_some : (o : Option (List ℤ)) {rest : List ℤ} → o ≡ some rest → cut typed o ≢ none
    cut_some none e z = cc
    cut_some (some keys) e z = cc

-- The bytes of plain text, from ' ' to '~'.
abbrev pub AllPrintable : List ℕ → Type 0
AllPrintable [] = Unit
AllPrintable (c ∷ cs) = (0x20 ≤ c) × (c < 0x7F) × AllPrintable cs

discard_line-typed :
    (text : List ℕ) (rest : List ℤ)
    → AllPrintable text
    → discard_line (map pos text ++ pos b'\n' ∷ rest) ≡ some rest
unfolding discard_line
discard_line-typed [] rest h = refl
discard_line-typed (c ∷ text) rest h = ground (arith, discard_line-typed text rest h.2)

take-nil : (n : ℕ) → ◌≡◌ {A = List ℕ} (take n []) []
take-nil zero = refl
take-nil (suc n) = refl

read-typed :
    (capacity : ℕ) (text typed : List ℕ) (rest : List ℤ)
    → AllPrintable text
    → length typed ≤ capacity
    → Editor.read capacity (map pos text ++ pos b'\n' ∷ rest) typed
      ≡ some (onto typed (take (capacity - length typed) text), rest)
unfolding Editor.read
read-typed capacity [] typed rest h le = elim (Bool-cases (ltb (length typed) capacity)) [
  | inl room ↦ rw (room, take-nil (capacity - length typed)) refl
  | inr full ↦ rw (full, take-nil (capacity - length typed)) refl
]
read-typed capacity (c ∷ text) typed rest h le = elim (Bool-cases (ltb (length typed) capacity)) [
  | inl room ↦
      let below = ltb→lt (length typed) capacity room in
      rw (room, not_newline, edit_types)
        (read-typed capacity text (c ∷ typed) rest h.2 (omega arith)
          ∙ ap (λ l. some (onto typed l, rest)) (sym (take-cons below)))
  | inr full ↦ rw full (
      ap (cut typed) (discard_line-typed (c ∷ text) rest h)
      ∙ ap (λ k. some (onto typed (take k (c ∷ text)), rest)) (none_left full))
]
  where
    not_newline : is_newline (pos c) ≡ false
    not_newline = ground arith

    edit_types : edit (pos c) typed ≡ c ∷ typed
    edit_types = ground arith

    take-cons :
        length typed < capacity
        → take (capacity - length typed) (c ∷ text) ≡ c ∷ take (capacity - suc (length typed)) text
    take-cons b =
        let one_more : capacity - length typed ≡ suc (capacity - suc (length typed)) =
          omega arith in
        ap (λ k. take k (c ∷ text)) one_more

    none_left : ltb (length typed) capacity ≡ false → 0 ≡ capacity - length typed
    none_left f = ground arith

-- When a newline is among the keys that come, `readline` returns, whatever is typed before it.
pub readline_returns :
    (bufsz : ℕ) (keys : List ℤ) (buf : List ℕ)
    → 0 < bufsz
    → length buf ≡ bufsz
    → HasNewline keys
    → (l : Line) × (readline bufsz keys buf ≡ some l)
readline_returns bufsz keys buf h e n =
    answered (readline bufsz keys buf) (Editor.read (bufsz - 1) keys []) refl
      (readline_refines bufsz keys buf h e) (read-returns (bufsz - 1) keys [] n)
  where
    answered :
        (o : Option Line) (s : Option (List ℕ × List ℤ))
        → readline bufsz keys buf ≡ o
        → Matches bufsz o s
        → s ≢ none
        → (l : Line) × (readline bufsz keys buf ≡ some l)
    answered none none r m ne = absurd (ne refl)
    answered none (some s) r m ne = elim m [ ]
    answered (some l) s r m ne = (l, r)

-- A line of printable text is read as its first `bufsz` - 1 characters; the rest of it, up to the
-- newline and with it, is consumed.
pub readline_typed :
    (bufsz : ℕ) (text buf : List ℕ) (rest : List ℤ)
    → 0 < bufsz
    → length buf ≡ bufsz
    → AllPrintable text
    → Matches bufsz
        (readline bufsz (map pos text ++ pos b'\n' ∷ rest) buf)
        (some (take (bufsz - 1) text, rest))
readline_typed bufsz text buf rest h e p =
    subst (Matches bufsz (readline bufsz (map pos text ++ pos b'\n' ∷ rest) buf))
      (read-typed (bufsz - 1) text [] rest p (omega arith)
        ∙ ap (λ k. some (take k text, rest)) none_yet)
      (readline_refines bufsz (map pos text ++ pos b'\n' ∷ rest) buf h e)
  where
    none_yet : bufsz - 1 - length {A = ℕ} [] ≡ bufsz - 1
    none_yet = omega arith
