-- ===== src/Os1k/Text/Hex.antt =====
-- The digits that "%x" puts out.
use mini_kvm.Base.{ℕ, zero, suc, ◌+◌, ◌-◌, ◌*◌, ◌/◌, ◌%◌, ◌^◌, ◌<◌, ltb, ◌≡◌, ◌∙◌}
use mini_kvm.Base.{refl, sym, ap, ap₂, arith, List, [], ◌∷◌, length, get_or}
use mini_kvm.Base.{if◌then◌else◌, bit_and, ◌>>>◌}
use mini_kvm.Base.Bits.{and-low}
use native.Mathlib.Nat.{div-add-mod', div-div-eq-div-mul, mod-one, mod-eq-sub-div-mul}
use native.Mathlib.Numerals.{towards_suc}
use mini_kvm.Os1k.Text.{hex_alphabet, print_nibbles, print_hex}

-- The value of a digit "0" to "9" or "a" to "f".
abbrev pub hex_digit : ℕ → ℕ
hex_digit c = if ltb c 58 then c - 48 else c - 87

abbrev pub hex_from : ℕ → List ℕ → ℕ
hex_from acc [] = acc
hex_from acc (c ∷ cs) = hex_from (acc * 16 + hex_digit c) cs

abbrev digit_of : ℕ → ℕ
digit_of n = get_or hex_alphabet n 0

-- The digits of a list stand for the numbers from `k` on.
abbrev CountsFrom : ℕ → List ℕ → Type 0
CountsFrom k [] = Unit
CountsFrom k (c ∷ cs) = (hex_digit c ≡ k) × CountsFrom (k + 1) cs

nth_digit :
    (k : ℕ) (cs : List ℕ) (i : ℕ)
    → CountsFrom k cs
    → i < length cs
    → hex_digit (get_or cs i 0) ≡ k + i
nth_digit k [] i h l = absurd (omega arith)
nth_digit k (c ∷ cs) zero h l = h.0 ∙ omega arith
nth_digit k (c ∷ cs) (suc i) h l = nth_digit (k + 1) cs i h.1 (omega arith) ∙ omega arith

hex_digit-digit_of : (n : ℕ) → n < 16 → hex_digit (digit_of n) ≡ n
hex_digit-digit_of n h = nth_digit 0 hex_alphabet n alphabet_counts h ∙ omega arith
  where
    alphabet_counts : CountsFrom 0 hex_alphabet
    alphabet_counts = omega arith

nibble : (i value : ℕ) → bit_and (value >>> (i * 4)) 0xF ≡ value / 2 ^ (i * 4) % 16
nibble i value = and-low 4 (value >>> (i * 4))

pow_nibble : (i : ℕ) → 2 ^ (suc i * 4) ≡ 2 ^ (i * 4) * 16
pow_nibble i = ap (λ e. 2 ^ e) four_more ∙ simp towards_suc (omega arith)
  where
    four_more : suc i * 4 ≡ i * 4 + 4
    four_more = omega arith

put_digit : (acc d p r : ℕ) → (acc * 16 + d) * p + r ≡ acc * (p * 16) + (d * p + r)
put_digit acc d p r = grind arith

-- The digit at weight `p` and what is below it.
mod_digit : (v p : ℕ) → v % (p * 16) ≡ v / p % 16 * p + v % p
mod_digit v p =
    mod-eq-sub-div-mul v (p * 16)
    ∙ ap (λ q. v - q * (p * 16)) (sym (div-div-eq-div-mul v p 16))
    ∙ parts (v / p) (v / p / 16) (v / p % 16) (v % p) (div-add-mod' v p) (div-add-mod' (v / p) 16)
  where
    parts : (x a b r : ℕ) → x * p + r ≡ v → a * 16 + b ≡ x → v - a * (p * 16) ≡ b * p + r
    parts x a b r e f =
        let whole = sym (put_digit a b p r) ∙ ap (λ y. y * p + r) f ∙ e in omega (arith, whole)

nibbles_value :
    (i value acc : ℕ)
    → (hex_from acc (print_nibbles i value) ≡ acc * 2 ^ (i * 4) + value % 2 ^ (i * 4))
      × (length (print_nibbles i value) ≡ i)
unfolding print_nibbles
nibbles_value zero value acc = (omega (arith, mod-one value), refl)
nibbles_value (suc i) value acc =
    let (v, l) = nibbles_value i value (acc * 16 + value / 2 ^ (i * 4) % 16) in
    (
      ap (λ d. hex_from (acc * 16 + d) (print_nibbles i value)) (digit i)
          ∙ v
          ∙ put_digit acc (value / 2 ^ (i * 4) % 16) (2 ^ (i * 4)) (value % 2 ^ (i * 4))
          ∙ sym (
              ap₂ (λ a b. acc * a + b) (pow_nibble i)
                (ap (λ m. value % m) (pow_nibble i) ∙ mod_digit value (2 ^ (i * 4)))),
      ap suc l,
    )
  where
    digit :
        (i : ℕ) → hex_digit (digit_of (bit_and (value >>> (i * 4)) 0xF)) ≡ value / 2 ^ (i * 4) % 16
    digit i =
        ap (λ n. hex_digit (digit_of n)) (nibble i value)
        ∙ hex_digit-digit_of (value / 2 ^ (i * 4) % 16) (omega arith)

-- "%x" puts out eight digits, whose value is the number.
pub print_hex_value :
    (value : ℕ)
    → value < 2 ^ 32
    → (length (print_hex value) ≡ 8) × (hex_from 0 (print_hex value) ≡ value)
unfolding print_hex
print_hex_value value h = let (v, l) = nibbles_value 8 value 0 in (l, v ∙ (omega arith))
