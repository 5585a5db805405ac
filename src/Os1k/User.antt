-- ===== src/Os1k/User.antt =====
-- Input of the programs of the 1K OS (`getchar` and `readline` of kvm-vmm-x86/os-1k/user.c). The
-- bytes that the hypercall hands over, poll after poll, are a list; `none` stands for waiting on.
pub mod Editor
pub mod Readline
pub mod Typed
use mini_kvm.Base.{ℕ, zero, suc, ◌+◌, ◌-◌, ltb, leb, ◌==◌, if◌then◌else◌, Bool, false, ◌&&◌, ◌||◌}
use mini_kvm.Base.{Option, none, some, List, [], ◌∷◌, ◌++◌, set}
use mini_kvm.Base.Int.{ℤ, pos, negsuc, is_minus_one}

-- `movsbl`
abbrev pub sign_extend : ℕ → ℤ
sign_extend al = if ltb al 128 then pos al else negsuc (255 - al)

-- Polls until the answer is not -1, and leaves the answers after that.
unfoldable pub getchar : List ℕ → Option (ℤ × List ℕ)
getchar [] = none
getchar (al ∷ polls) =
    if is_minus_one (sign_extend al) then getchar polls else some (sign_extend al, polls)

-- What the calls of `getchar` return, one after the other.
unfoldable pub keys_of : List ℕ → List ℤ
keys_of [] = []
keys_of (al ∷ polls) =
    if is_minus_one (sign_extend al) then keys_of polls else sign_extend al ∷ keys_of polls

-- `ch == c`
abbrev pub is_char : ℕ → ℤ → Bool
is_char c (pos n) = n == c
is_char c (negsuc n) = false

abbrev pub is_newline : ℤ → Bool
is_newline ch = is_char b'\n' ch || is_char b'\r' ch

abbrev pub is_erase : ℤ → Bool
is_erase ch = is_char 0x08 ch || is_char 0x7F ch

abbrev pub is_printable : ℤ → Bool
is_printable (pos n) = leb 0x20 n && ltb n 0x7F
is_printable (negsuc n) = false

-- `(char) ch` of a printable `ch`.
abbrev pub char_of : ℤ → ℕ
char_of (pos n) = n
char_of (negsuc n) = 255 - n

-- What a call leaves: its result, the buffer, the bytes put out and the keys not yet read.
pub record Line : Type 0 where
  pub ret : ℕ
  pub buf : List ℕ
  pub echoed : List ℕ
  pub keys : List ℤ

abbrev pub echo : List ℕ → Option Line → Option Line
echo cs none = none
echo cs (some l) = some (record l { echoed = cs ++ l.echoed })

-- The loop that discards the rest of a line.
unfoldable pub discard_line : List ℤ → Option (List ℤ)
discard_line [] = none
discard_line (ch ∷ keys) = if is_newline ch || is_minus_one ch then some keys else discard_line keys

abbrev pub finish_full : ℕ → List ℕ → Option (List ℤ) → Option Line
finish_full bufsz buf none = none
finish_full bufsz buf (some keys) =
    some record { ret = bufsz - 1; buf = set buf (bufsz - 1) 0; echoed = b'\n' ∷ []; keys = keys }

-- "\b \b"
abbrev pub rub_out : List ℕ
rub_out = 8 ∷ 32 ∷ 8 ∷ []

-- The loop, at `filled`, for a `bufsz` of at least 1.
unfoldable pub readline_from : (bufsz filled : ℕ) → List ℤ → List ℕ → Option Line
unfolding discard_line
readline_from bufsz filled [] buf = none
readline_from bufsz filled (ch ∷ keys) buf =
    let erased =
      if ltb 0 filled
      then echo rub_out (readline_from bufsz (filled - 1) keys buf)
      else readline_from bufsz filled keys buf in
    let stored =
      echo (char_of ch ∷ [])
        (readline_from bufsz (filled + 1) keys (set buf filled (char_of ch))) in
    let ignored = readline_from bufsz filled keys buf in
    if ltb filled (bufsz - 1)
    then (if is_newline ch
        then some record { ret = filled; buf = set buf filled 0; echoed = b'\n' ∷ []; keys = keys }
        else if is_erase ch
        then erased
        else if is_printable ch
        then stored
        else ignored)
    else finish_full bufsz buf (discard_line (ch ∷ keys))

pub readline : (bufsz : ℕ) → List ℤ → List ℕ → Option Line
unfolding readline_from
readline bufsz keys buf = readline_from bufsz 0 keys buf
