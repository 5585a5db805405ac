-- ===== src/Os1k/User/Readline.antt =====
-- `readline` behaves as the editor, and stays within its buffer.
use mini_kvm.Base.{ℕ, suc, ◌+◌, ◌-◌, ◌<◌, ltb, Option, none, some, Bool-cases, inl, inr}
use mini_kvm.Base.{◌≡◌, ◌≢◌, refl, ap, ◌∙◌, subst, arith, List, [], ◌∷◌, length, set}
use mini_kvm.Base.{drop, if◌then◌else◌, ltb→lt, lt→ltb, true}
use mini_kvm.Base.Int.{ℤ, pos, negsuc}
use mini_kvm.Os1k.User.{Line, echo, readline, readline_from, discard_line, finish_full}
use mini_kvm.Os1k.User.{is_newline, is_erase, is_printable, char_of, rub_out}
use mini_kvm.Os1k.User.Editor
use mini_kvm.Os1k.User.Editor.{onto, edit, cut, c_string, AllNonzero}
use mini_kvm.Os1k.User.Editor.{set-onto, length-onto, c_string-onto}

-- The buffer holds the editor's line as a C string, the result is its length, and the buffer is as
-- long as before.
abbrev pub Matches : ℕ → Option Line → Option (List ℕ × List ℤ) → Type 0
Matches bufsz none none = Unit
Matches bufsz (some l) (some (text, keys)) =
    (c_string l.buf ≡ text)
    × (l.ret ≡ length text)
    × (l.ret < bufsz)
    × (length l.buf ≡ bufsz)
    × (l.keys ≡ keys)
Matches bufsz none (some e) = ⊥
Matches bufsz (some l) none = ⊥

Matches-echo :
    (bufsz : ℕ) (cs : List ℕ) (o : Option Line) (e : Option (List ℕ × List ℤ))
    → Matches bufsz o e
    → Matches bufsz (echo cs o) e
Matches-echo bufsz cs none none m = m
Matches-echo bufsz cs none (some e) m = m
Matches-echo bufsz cs (some l) none m = m
Matches-echo bufsz cs (some l) (some e) m = m

set_end :
    (typed l : List ℕ) (x c : ℕ) → set (onto typed (x ∷ l)) (length typed) c ≡ onto typed (c ∷ l)
set_end typed l x c =
    ap (λ i. set (onto typed (x ∷ l)) i c) (omega arith) ∙ set-onto typed 0 c (x ∷ l)

-- The NUL put behind what was typed ends the line there.
Matches-ended :
    (bufsz : ℕ) (typed l echoed : List ℕ) (x : ℕ) (keys : List ℤ)
    → AllNonzero typed
    → length typed + suc (length l) ≡ bufsz
    → Matches bufsz
        (some record {
          ret = length typed;
          buf = set (onto typed (x ∷ l)) (length typed) 0;
          echoed = echoed;
          keys = keys;
        })
        (some (onto typed [], keys))
Matches-ended bufsz typed l echoed x keys h e = (
  ap c_string (set_end typed l x 0) ∙ c_string-onto typed (0 ∷ l) h,
  omega (arith, length-onto typed []),
  omega arith,
  ap length (set_end typed l x 0) ∙ length-onto typed (0 ∷ l) ∙ e,
  refl,
)

Matches-full :
    (bufsz : ℕ) (typed l : List ℕ) (x : ℕ) (keys : Option (List ℤ))
    → AllNonzero typed
    → length typed + suc (length l) ≡ bufsz
    → length typed ≡ bufsz - 1
    → Matches bufsz (finish_full bufsz (onto typed (x ∷ l)) keys) (cut typed keys)
Matches-full bufsz typed l x none h e f = tt
Matches-full bufsz typed l x (some keys) h e f =
    subst
      (λ i.
        Matches bufsz
          (some record {
            ret = i;
            buf = set (onto typed (x ∷ l)) i 0;
            echoed = b'\n' ∷ [];
            keys = keys;
          })
          (some (onto typed [], keys)))
      f (Matches-ended bufsz typed l (b'\n' ∷ []) x keys h e)

printable-ne : (ch : ℤ) → is_printable ch ≡ true → char_of ch ≢ 0
printable-ne (pos n) h = λ e. ground arith
printable-ne (negsuc n) h = cc

-- The claim for the keys that are left, at every line so far.
abbrev Follows : ℕ → List ℤ → Type 0
Follows bufsz keys =
    (typed l : List ℕ) (x : ℕ)
    → AllNonzero typed
    → length typed + suc (length l) ≡ bufsz
    → Matches bufsz (readline_from bufsz (length typed) keys (onto typed (x ∷ l)))
        (Editor.read (bufsz - 1) keys typed)

erase_step :
    (bufsz : ℕ) (keys : List ℤ) (typed l : List ℕ) (x : ℕ)
    → Follows bufsz keys
    → AllNonzero typed
    → length typed + suc (length l) ≡ bufsz
    → Matches bufsz
        (if ltb 0 (length typed)
          then echo rub_out (readline_from bufsz (length typed - 1) keys (onto typed (x ∷ l)))
          else readline_from bufsz (length typed) keys (onto typed (x ∷ l)))
        (Editor.read (bufsz - 1) keys (drop 1 typed))
erase_step bufsz keys [] l x follows h e = follows [] l x h e
erase_step bufsz keys (d ∷ typed) l x follows h e =
    rw (lt→ltb 0 (suc (length typed)) (omega arith)) (
      Matches-echo bufsz rub_out _ _ (
        subst
          (λ i.
            Matches bufsz (readline_from bufsz i keys (onto (d ∷ typed) (x ∷ l)))
              (Editor.read (bufsz - 1) keys typed))
          (omega arith) (follows typed (x ∷ l) d h.1 (omega arith))))

store_step :
    (bufsz : ℕ) (keys : List ℤ) (typed l : List ℕ) (x c : ℕ)
    → Follows bufsz keys
    → AllNonzero typed
    → length typed + suc (length l) ≡ bufsz
    → length typed < bufsz - 1
    → c ≢ 0
    → Matches bufsz
        (echo
          (c ∷ [])
          (readline_from bufsz (length typed + 1) keys (set (onto typed (x ∷ l)) (length typed) c)))
        (Editor.read (bufsz - 1) keys (c ∷ typed))
store_step bufsz keys typed [] x c follows h e room nz = absurd (omega arith)
store_step bufsz keys typed (y ∷ l) x c follows h e room nz = Matches-echo bufsz (c ∷ []) _ _ (
    rw (set_end typed (y ∷ l) x c) (
      subst
        (λ i.
          Matches bufsz (readline_from bufsz i keys (onto (c ∷ typed) (y ∷ l)))
            (Editor.read (bufsz - 1) keys (c ∷ typed)))
        (omega arith) (follows (c ∷ typed) l y (nz, h) (omega arith))))

from_Matches : (bufsz : ℕ) (keys : List ℤ) → Follows bufsz keys
unfolding readline_from Editor.read
from_Matches bufsz [] typed l x h e = tt
from_Matches bufsz (ch ∷ keys) typed l x h e = elim (Bool-cases (ltb (length typed) (bufsz - 1))) [
  | inr full ↦ rw full (Matches-full bufsz typed l x (discard_line (ch ∷ keys)) h e (ground arith))
  | inl room ↦ rw room (elim (Bool-cases (is_newline ch)) [
    | inl end ↦ rw end (Matches-ended bufsz typed l (b'\n' ∷ []) x keys h e)
    | inr more ↦ rw more (elim (Bool-cases (is_erase ch)) [
      | inl erase ↦ rw erase (erase_step bufsz keys typed l x (from_Matches bufsz keys) h e)
      | inr other ↦ rw other (elim (Bool-cases (is_printable ch)) [
        | inl printable ↦ rw printable (
            store_step bufsz keys typed l x (char_of ch) (from_Matches bufsz keys) h e
              (ltb→lt (length typed) (bufsz - 1) room) (printable-ne ch printable))
        | inr control ↦ rw control (from_Matches bufsz keys typed l x h e)
      ])
    ])
  ])
]

-- On every sequence of keys and every buffer of `bufsz` bytes, `readline` reads the line that the
-- editor does, and waits where it waits: the buffer then holds the line as a C string, the result
-- is its length and less than `bufsz`, and the buffer keeps its length.
pub readline_refines :
    (bufsz : ℕ) (keys : List ℤ) (buf : List ℕ)
    → 0 < bufsz
    → length buf ≡ bufsz
    → Matches bufsz (readline bufsz keys buf) (Editor.read (bufsz - 1) keys [])
unfolding readline
readline_refines bufsz keys [] h e = absurd (omega arith)
readline_refines bufsz keys (x ∷ l) h e = from_Matches bufsz keys [] l x tt (omega arith)
