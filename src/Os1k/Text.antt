-- ===== src/Os1k/Text.antt =====
-- The C library of the 1K OS (kvm-vmm-x86/os-1k/common.c). A C string is the list of its bytes up
-- to the NUL; its bytes are not 0. What `printf` hands to `putchar` is a list too.
pub mod Compare
pub mod Decimal
pub mod Hex
pub mod Format
use mini_kvm.Base.{ℕ, zero, suc, ◌+◌, ◌-◌, ◌*◌, ◌/◌, ◌%◌, ◌^◌, ltb, leb, ◌==◌, if◌then◌else◌}
use mini_kvm.Base.{Bool, Option, none, some, List, [], ◌∷◌, ◌++◌, get_or, u8, u32, ◌>>>◌, bit_and}
use mini_kvm.Base.Int.{ℤ, sub_ℕ}

-- The loop ends where the bytes differ or one string does; the end of a string is its NUL.
unfoldable pub strcmp : List ℕ → List ℕ → ℤ
strcmp [] [] = sub_ℕ 0 0
strcmp [] (b ∷ t) = sub_ℕ 0 b
strcmp (a ∷ s) [] = sub_ℕ a 0
strcmp (a ∷ s) (b ∷ t) = if a == b then strcmp s t else sub_ℕ a b

-- `while (magnitude / divisor > 9) divisor *= 10;`, `none` when the fuel runs out.
unfoldable pub find_divisor : (fuel magnitude divisor : ℕ) → Option ℕ
find_divisor zero magnitude divisor = none
find_divisor (suc fuel) magnitude divisor =
    let rest = find_divisor fuel magnitude (u32 (divisor * 10)) in
    if ltb 9 (magnitude / divisor) then rest else some divisor

-- What stands behind a byte that is put out first.
abbrev pub prepend : ℕ → Option (List ℕ) → Option (List ℕ)
prepend c none = none
prepend c (some out) = some (c ∷ out)

-- `while (divisor > 0)`, from the highest digit down.
unfoldable pub print_digits : (fuel magnitude divisor : ℕ) → Option (List ℕ)
print_digits zero magnitude divisor = none
print_digits (suc fuel) magnitude divisor =
    let rest =
      prepend (u8 (48 + magnitude / divisor))
        (print_digits fuel (magnitude % divisor) (divisor / 10)) in
    if ltb 0 divisor then rest else some []

-- A 32-bit number has at most ten digits.
abbrev pub digit_fuel : ℕ
digit_fuel = 11

unfoldable pub print_magnitude : ℕ → Option (List ℕ)
print_magnitude magnitude = elim (find_divisor digit_fuel magnitude 1) [
  | none ↦ none
  | some divisor ↦ print_digits digit_fuel magnitude divisor
]

-- "%d" of the `int` whose 32 bits are `word`.
unfoldable pub print_decimal : ℕ → Option (List ℕ)
print_decimal word =
    if leb (2 ^ 31) word
    then prepend b'-' (print_magnitude (u32 (2 ^ 32 - word)))
    else print_magnitude word

-- "0123456789abcdef"
abbrev pub hex_alphabet : List ℕ
hex_alphabet = 48 ∷ 49 ∷ 50 ∷ 51 ∷ 52 ∷ 53 ∷ 54 ∷ 55 ∷ 56 ∷ 57 ∷ 97 ∷ 98 ∷ 99 ∷ 100 ∷ 101 ∷ 102 ∷ []

-- The `i` lowest nibbles, from the highest of them down.
unfoldable pub print_nibbles : (i value : ℕ) → List ℕ
print_nibbles zero value = []
print_nibbles (suc i) value =
    get_or hex_alphabet (bit_and (value >>> (i * 4)) 0xF) 0 ∷ print_nibbles i value

unfoldable pub print_hex : ℕ → List ℕ
print_hex value = print_nibbles 8 value

-- An argument behind the format: the 32 bits of a number, or a string.
pub data Arg : Type 0 where
  word : ℕ → Arg
  text : List ℕ → Arg

abbrev pub print_text : List Arg → Option (List ℕ × List Arg)
print_text (text s ∷ args) = some (s, args)
print_text args = none

abbrev pub with_rest : Option (List ℕ) → List Arg → Option (List ℕ × List Arg)
with_rest none args = none
with_rest (some out) args = some (out, args)

abbrev pub print_int : List Arg → Option (List ℕ × List Arg)
print_int (word value ∷ args) = with_rest (print_decimal value) args
print_int args = none

abbrev pub print_unsigned : List Arg → Option (List ℕ × List Arg)
print_unsigned (word value ∷ args) = some (print_hex value, args)
print_unsigned args = none

-- The `switch` on the byte behind '%': what is put out, and the arguments left. `none` stands for
-- an argument that is missing or of the other kind, where `va_arg` has no defined value. There is
-- no `default`: another byte prints nothing.
unfoldable pub conversion : ℕ → List Arg → Option (List ℕ × List Arg)
conversion d args =
    if d == b'%'
    then some (b'%' ∷ [], args)
    else if d == b's'
    then print_text args
    else if d == b'd'
    then print_int args
    else if d == b'x'
    then print_unsigned args
    else some ([], args)

abbrev pub prepend_all : List ℕ → Option (List ℕ) → Option (List ℕ)
prepend_all out none = none
prepend_all out (some rest) = some (out ++ rest)

-- A '%' at the end is put out as it is, like any other last byte.
unfoldable pub printf : List ℕ → List Arg → Option (List ℕ)
printf [] args = some []
printf (c ∷ []) args = some (c ∷ [])
printf (c ∷ d ∷ fmt) args =
    let converted : Option (List ℕ) = elim (conversion d args) [
      | none ↦ none
      | some (out, rest) ↦ prepend_all out (printf fmt rest)
    ] in
    let plain = prepend c (printf (d ∷ fmt) args) in if c == b'%' then converted else plain
