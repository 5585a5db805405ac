-- ===== src/Os1k/Text/Format.antt =====
-- A format and the arguments that fit it, piece by piece.
use mini_kvm.Base.{ℕ, ◌^◌, ◌<◌, ◌≡◌, ◌≢◌, refl, ap, ◌∙◌, arith}
use mini_kvm.Base.{some, List, [], ◌∷◌, ◌++◌, length}
use mini_kvm.Os1k.Text.{Arg, word, text, conversion, printf, prepend, prepend_all}
use mini_kvm.Os1k.Text.{print_decimal, print_hex}
use mini_kvm.Os1k.Text.Decimal.{print_decimal-Denotes, Denotes, int_of}
use mini_kvm.Os1k.Text.Hex.{hex_from, print_hex_value}

-- What a caller writes: a byte other than '%', "%%", or a directive with its argument.
pub data Piece : Type 0 where
  plain : ℕ → Piece
  percent : Piece
  string : List ℕ → Piece
  decimal : ℕ → Piece
  hex : ℕ → Piece

unfoldable pub format_of : List Piece → List ℕ
format_of [] = []
format_of (plain c ∷ ps) = c ∷ format_of ps
format_of (percent ∷ ps) = b'%' ∷ b'%' ∷ format_of ps
format_of (string s ∷ ps) = b'%' ∷ b's' ∷ format_of ps
format_of (decimal n ∷ ps) = b'%' ∷ b'd' ∷ format_of ps
format_of (hex n ∷ ps) = b'%' ∷ b'x' ∷ format_of ps

unfoldable pub args_of : List Piece → List Arg
args_of [] = []
args_of (plain c ∷ ps) = args_of ps
args_of (percent ∷ ps) = args_of ps
args_of (string s ∷ ps) = text s ∷ args_of ps
args_of (decimal n ∷ ps) = word n ∷ args_of ps
args_of (hex n ∷ ps) = word n ∷ args_of ps

abbrev pub IsPiece : Piece → Type 0
IsPiece (plain c) = c ≢ b'%'
IsPiece percent = Unit
IsPiece (string s) = Unit
IsPiece (decimal n) = n < 2 ^ 32
IsPiece (hex n) = n < 2 ^ 32

abbrev pub IsHex : ℕ → List ℕ → Type 0
IsHex n cs = (length cs ≡ 8) × (hex_from 0 cs ≡ n)

abbrev pub AllPieces : List Piece → Type 0
AllPieces [] = Unit
AllPieces (p ∷ ps) = IsPiece p × AllPieces ps

-- What is to be read where the piece stands.
abbrev pub Renders : Piece → List ℕ → Type 0
Renders (plain c) out = out ≡ c ∷ []
Renders percent out = out ≡ b'%' ∷ []
Renders (string s) out = out ≡ s
Renders (decimal n) out = Denotes out (int_of n)
Renders (hex n) out = IsHex n out

pub data RendersAll : List Piece → List ℕ → Type 0 where
  done : RendersAll [] []
  then_piece :
      (p : Piece) (ps : List Piece) (out rest : List ℕ)
      → Renders p out
      → RendersAll ps rest
      → RendersAll (p ∷ ps) (out ++ rest)

printf-plain :
    (c : ℕ) (fmt : List ℕ) (args : List Arg)
    → c ≢ b'%'
    → printf (c ∷ fmt) args ≡ prepend c (printf fmt args)
unfolding printf
printf-plain c [] args h = refl
printf-plain c (d ∷ fmt) args h = ground arith

printf-percent :
    (d : ℕ) (fmt : List ℕ) (args rest : List Arg) (out : List ℕ)
    → conversion d args ≡ some (out, rest)
    → printf (b'%' ∷ d ∷ fmt) args ≡ prepend_all out (printf fmt rest)
unfolding printf
printf-percent d fmt args rest out e = rw e refl

conversion-decimal :
    (n : ℕ) (args : List Arg) (out : List ℕ)
    → print_decimal n ≡ some out
    → conversion b'd' (word n ∷ args) ≡ some (out, args)
unfolding conversion
conversion-decimal n args out e = rw e refl

-- A directive in front of pieces that are printed right.
rendered :
    (p : Piece) (ps : List Piece) (d : ℕ) (args : List Arg) (out : List ℕ)
    → conversion d args ≡ some (out, args_of ps)
    → Renders p out
    → (rest : List ℕ) × (printf (format_of ps) (args_of ps) ≡ some rest) × RendersAll ps rest
    → (all : List ℕ) × (printf (b'%' ∷ d ∷ format_of ps) args ≡ some all) × RendersAll (p ∷ ps) all
rendered p ps d args out e r (rest, f, rs) = (
  out ++ rest,
  printf-percent d (format_of ps) args (args_of ps) out e ∙ ap (prepend_all out) f,
  then_piece p ps out rest r rs,
)

-- `printf` with arguments that fit its format ends, and puts out each piece in its place.
pub printf_renders :
    (ps : List Piece)
    → AllPieces ps
    → (out : List ℕ) × (printf (format_of ps) (args_of ps) ≡ some out) × RendersAll ps out
unfolding format_of args_of
printf_renders [] h = ([], unfold printf in refl, done)
printf_renders (plain c ∷ ps) h =
    let (out, e, r) = printf_renders ps h.1 in
    (
      c ∷ out,
      printf-plain c (format_of ps) (args_of ps) h.0 ∙ ap (prepend c) e,
      then_piece (plain c) ps (c ∷ []) out refl r,
    )
printf_renders (percent ∷ ps) h =
    rendered percent ps b'%' (args_of ps) (b'%' ∷ []) (unfold conversion in refl) refl
      (printf_renders ps h.1)
printf_renders (string s ∷ ps) h =
    rendered (string s) ps b's' (text s ∷ args_of ps) s (unfold conversion in refl) refl
      (printf_renders ps h.1)
printf_renders (decimal n ∷ ps) h =
    let (out, e, d) = print_decimal-Denotes n h.0 in
    rendered (decimal n) ps b'd' (word n ∷ args_of ps) out (conversion-decimal n (args_of ps) out e)
      d (printf_renders ps h.1)
printf_renders (hex n ∷ ps) h =
    rendered (hex n) ps b'x' (word n ∷ args_of ps) (print_hex n) (unfold conversion in refl)
      (print_hex_value n h.0) (printf_renders ps h.1)
