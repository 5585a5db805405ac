-- ===== src/Os1k/Shell.antt =====
-- The demos of the shell that compute (kvm-vmm-x86/os-1k/shell.c). An `int` is an integer, and
-- `none` stands for an overflow, where C leaves the result undefined.
pub mod Answers
pub mod Parse
pub mod Arithmetic
use mini_kvm.Base.{ℕ, zero, suc, ◌+◌, ◌-◌, ◌*◌, ◌%◌, ◌^◌, ltb, leb, ◌==◌, if◌then◌else◌}
use mini_kvm.Base.{Bool, true, false, ◌&&◌, ◌||◌, Option, none, some, List, [], ◌∷◌, ◌++◌}
use mini_kvm.Base.Int.{ℤ, pos, negsuc, minus, ◌+ℤ◌, ◌-ℤ◌, ◌*ℤ◌, ◌/ℤ◌, fits_int}

-- `calculator_demo`: a line is the bytes before its NUL.
unfoldable pub skip_spaces : List ℕ → List ℕ
skip_spaces [] = []
skip_spaces (c ∷ line) = if c == b' ' then skip_spaces line else c ∷ line

abbrev pub is_digit : ℕ → Bool
is_digit c = leb b'0' c && leb c b'9'

unfoldable pub parse_digits : ℕ → List ℕ → Option (ℕ × List ℕ)
parse_digits num [] = some (num, [])
parse_digits num (c ∷ line) =
    let next = num * 10 + (c - b'0') in
    let rest = parse_digits next line in
    if is_digit c then (if ltb next (2 ^ 31) then rest else none) else some (num, c ∷ line)

abbrev pub negated : Option (ℕ × List ℕ) → Option (ℤ × List ℕ)
negated none = none
negated (some (num, rest)) = some (minus num, rest)

abbrev pub unsigned : Option (ℕ × List ℕ) → Option (ℤ × List ℕ)
unsigned none = none
unsigned (some (num, rest)) = some (pos num, rest)

unfoldable pub parse_number : List ℕ → Option (ℤ × List ℕ)
unfolding parse_digits
parse_number [] = some (pos 0, [])
parse_number (c ∷ line) =
    if c == b'-' then negated (parse_digits 0 line) else unsigned (parse_digits 0 (c ∷ line))

-- What a round of the loop ends with.
pub data Answer : Type 0 where
  quit invalid_operator division_by_zero : Answer
  result : ℤ → Answer

abbrev pub checked : ℤ → Option Answer
checked r = if fits_int r then some (result r) else none

abbrev pub is_zero : ℤ → Bool
is_zero (pos n) = n == 0
is_zero (negsuc n) = false

unfoldable pub apply_op : ℕ → ℤ → ℤ → Option Answer
apply_op op num1 num2 =
    if op == b'+'
    then checked (num1 +ℤ num2)
    else if op == b'-'
    then checked (num1 -ℤ num2)
    else if op == b'*'
    then checked (num1 *ℤ num2)
    else if is_zero num2
    then some division_by_zero
    else checked (num1 /ℤ num2)

abbrev pub is_operator : ℕ → Bool
is_operator c = c == b'+' || c == b'-' || c == b'*' || c == b'/'

abbrev pub second_number : ℕ → ℤ → Option (ℤ × List ℕ) → Option Answer
second_number op num1 none = none
second_number op num1 (some (num2, rest)) = apply_op op num1 num2

abbrev pub operator : ℤ → List ℕ → Option Answer
operator num1 [] = some invalid_operator
operator num1 (c ∷ line) =
    if is_operator c
    then second_number c num1 (parse_number (skip_spaces line))
    else some invalid_operator

abbrev pub first_number : Option (ℤ × List ℕ) → Option Answer
first_number none = none
first_number (some (num1, rest)) = operator num1 (skip_spaces rest)

abbrev pub is_quit : List ℕ → Bool
is_quit [] = false
is_quit (c ∷ []) = c == b'q'
is_quit (c ∷ d ∷ line) = false

unfoldable pub calculate : List ℕ → Option Answer
calculate line = if is_quit line then some quit else first_number (parse_number (skip_spaces line))

-- `prime_demo`: the loop over `i` with `i * i <= n`; `none` when `i * i` overflows or the fuel runs
-- out.
unfoldable pub trial_division : (fuel n i : ℕ) → Option Bool
trial_division zero n i = none
trial_division (suc fuel) n i =
    let rest = trial_division fuel n (i + 1) in
    if leb (2 ^ 31) (i * i)
    then none
    else if leb (i * i) n
    then (if n % i == 0 then some false else rest)
    else some true

-- `gcd_demo`: Euclid's loop.
unfoldable pub gcd_loop : (fuel a b : ℕ) → Option ℕ
gcd_loop zero a b = none
gcd_loop (suc fuel) a b = let rest = gcd_loop fuel b (a % b) in if b == 0 then some a else rest

-- `factorial_demo`: the values printed for `n` up to `n` + `rounds` - 1, from `total`.
unfoldable pub factorial_loop : (rounds n total : ℕ) → List ℕ
factorial_loop zero n total = []
factorial_loop (suc rounds) n total = (total * n) ∷ factorial_loop rounds (n + 1) (total * n)

-- `fibonacci_demo`: the values of `next` in `rounds` rounds.
unfoldable pub fibonacci_loop : (rounds a b : ℕ) → List ℕ
fibonacci_loop zero a b = []
fibonacci_loop (suc rounds) a b = (a + b) ∷ fibonacci_loop rounds b (a + b)
