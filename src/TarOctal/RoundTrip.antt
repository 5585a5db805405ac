-- ===== src/TarOctal/RoundTrip.antt =====
-- A size that is written into a header is read back.
use mini_kvm.Base.{ℕ, zero, suc, ◌+◌, ◌*◌, ◌/◌, ◌%◌, ◌^◌, ◌<◌, ◌≡◌, sym, ap, ◌∙◌, arith}
use mini_kvm.Base.{List, [], ◌∷◌, ◌++◌, append_assoc, append-nil}
use native.Mathlib.Nat.{pow-suc, mul_assoc}
use mini_kvm.TarOctal.{oct_from, oct2int, octal_digits}

-- Reading goes on behind the digits.
oct_from-digits :
    (len filesz dec : ℕ) (cs : List ℕ)
    → filesz < 8 ^ len
    → oct_from dec (octal_digits len filesz ++ cs) ≡ oct_from (dec * 8 ^ len + filesz) cs
unfolding octal_digits
oct_from-digits zero filesz dec cs h = ap (λ d. oct_from d cs) (omega arith)
oct_from-digits (suc len) filesz dec cs h =
    ap (λ l. oct_from dec l)
      (append_assoc (octal_digits len (filesz / 8)) ((filesz % 8 + 48) ∷ []) cs)
    ∙ oct_from-digits len (filesz / 8) dec ((filesz % 8 + 48) ∷ cs) (omega (arith, pow-suc 8 len))
    ∙ one_digit (dec * 8 ^ len + filesz / 8)
    ∙ ap (λ d. oct_from d cs) total
  where
    one_digit : (d : ℕ) → oct_from d ((filesz % 8 + 48) ∷ cs) ≡ oct_from (d * 8 + filesz % 8) cs
    one_digit d = unfold oct_from in ground arith

    total : (dec * 8 ^ len + filesz / 8) * 8 + filesz % 8 ≡ dec * 8 ^ suc len + filesz
    total = omega (arith, ap (λ p. dec * p) (pow-suc 8 len), mul_assoc dec (8 ^ len) 8)

-- A size below 8 to the number of digits is read back from the field that it is written into,
-- whatever stands behind a terminator there.
pub oct2int-octal_digits :
    (len filesz : ℕ) (rest : List ℕ)
    → filesz < 8 ^ len
    → (oct2int (octal_digits len filesz) ≡ filesz)
      × (oct2int (octal_digits len filesz ++ 0 ∷ rest) ≡ filesz)
unfolding oct2int oct_from
oct2int-octal_digits len filesz rest h = (
  ap oct2int (sym (append-nil (octal_digits len filesz)))
      ∙ oct_from-digits len filesz 0 [] h
      ∙ from_zero,
  oct_from-digits len filesz 0 (0 ∷ rest) h ∙ from_zero,
)
  where
    from_zero : 0 * 8 ^ len + filesz ≡ filesz
    from_zero = omega arith
