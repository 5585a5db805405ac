-- ===== src/Os1k/Text/Decimal.antt =====
-- The digits that "%d" puts out.
use mini_kvm.Base.{ℕ, zero, suc, ◌+◌, ◌-◌, ◌*◌, ◌/◌, ◌%◌, ◌^◌, ◌≤◌, ◌<◌, leb, u8, u32}
use mini_kvm.Base.{
  ◌≡◌, ◌≢◌, ◌⊎◌, refl, sym, ap, ◌∙◌, subst, arith, inl, inr, Bool-cases, length, lt→ltb, le→ltb,
  leb→le, dec_lt, ℕ_discrete,
}
use mini_kvm.Base.Int.{ℤ, pos, negsuc}
use mini_kvm.Base.{Option, none, some, List, [], ◌∷◌, if◌then◌else◌}
use native.Mathlib.Nat.{
  pow-suc, div-lt_iff_lt-mul, div-add-mod', mod-lt, le-div_iff_mul-le, mul-div_cancel,
}
use mini_kvm.Os1k.Text.{
  digit_fuel, find_divisor, print_digits, print_magnitude, print_decimal, prepend,
}

-- The number that a list of digits stands for, behind `acc`.
abbrev pub value_from : ℕ → List ℕ → ℕ
value_from acc [] = acc
value_from acc (c ∷ cs) = value_from (acc * 10 + (c - 48)) cs

abbrev pub AllDigits : List ℕ → Type 0
AllDigits [] = Unit
AllDigits (c ∷ cs) = (48 ≤ c) × (c ≤ 57) × AllDigits cs

-- No zero leads, but in "0" itself; and there is a digit.
abbrev pub NoLeadingZero : List ℕ → Type 0
NoLeadingZero [] = ⊥
NoLeadingZero (c ∷ []) = Unit
NoLeadingZero (c ∷ d ∷ cs) = c ≢ 48

-- The decimal numeral of `n`.
pub record IsNumeral (n : ℕ) (cs : List ℕ) : Type 0 where
  pub digits : AllDigits cs
  pub value : value_from 0 cs ≡ n
  pub canonical : NoLeadingZero cs

digit_byte : (q : ℕ) → q < 10 → u8 (48 + q) ≡ 48 + q
digit_byte q h = omega arith

-- One round of the printing loop, at a positive divisor.
print_digits-suc :
    (fuel m d : ℕ)
    → 0 < d
    → m / d < 10
    → print_digits (suc fuel) m d ≡ prepend (48 + m / d) (print_digits fuel (m % d) (d / 10))
unfolding print_digits
print_digits-suc fuel m d h q = rw (lt→ltb 0 d h) (rw (digit_byte (m / d) q) refl)

pow_pos : (j : ℕ) → 0 < 10 ^ j
pow_pos zero = omega arith
pow_pos (suc j) = omega (arith, pow-suc 10 j, pow_pos j)

quotient-lt : (j m : ℕ) → m < 10 ^ suc j → m / 10 ^ j < 10
quotient-lt j m h = (div-lt_iff_lt-mul (pow_pos j)).1 (omega (arith, pow-suc 10 j))

pow_down : (j : ℕ) → 10 ^ suc j / 10 ≡ 10 ^ j
pow_down j = rw (pow-suc 10 j) (mul-div_cancel (10 ^ j) (omega arith))

weigh : (acc q p r m : ℕ) → q * p + r ≡ m → (acc * 10 + q) * p + r ≡ acc * (p * 10) + m
weigh acc q p r m e = grind arith

-- From 10^j on, the loop prints j + 1 digits.
digits_printed :
    (j fuel m acc : ℕ)
    → m < 10 ^ suc j
    → suc j < fuel
    → (cs : List ℕ) × (print_digits fuel m (10 ^ j) ≡ some ((48 + m / 10 ^ j) ∷ cs))
      × AllDigits ((48 + m / 10 ^ j) ∷ cs)
      × (value_from acc ((48 + m / 10 ^ j) ∷ cs) ≡ acc * 10 ^ suc j + m)
      × (length cs ≡ j)
digits_printed j zero m acc h hf = elim hf [ ]
digits_printed zero (suc zero) m acc h hf = absurd (omega arith)
digits_printed zero (suc (suc fuel)) m acc h hf = (
  [],
  print_digits-suc (suc fuel) m 1 (omega arith) (omega arith) ∙ (unfold print_digits in refl),
  (omega arith, omega arith, tt),
  omega arith,
  refl,
)
digits_printed (suc j) (suc fuel) m acc h hf =
    let q = m / 10 ^ suc j in
    let below = quotient-lt (suc j) m h in
    let (cs, e, ds, v, l) =
      digits_printed j fuel (m % 10 ^ suc j) (acc * 10 + q) (mod-lt m (pow_pos (suc j)))
        (omega arith) in
    let P = 10 ^ suc j in
    (
      (48 + m % 10 ^ suc j / 10 ^ j) ∷ cs,
      print_digits-suc fuel m (10 ^ suc j) (pow_pos (suc j)) below ∙ rw (pow_down j) (rw e refl),
      (omega arith, omega arith, ds),
      ap (λ d. value_from (acc * 10 + d) ((48 + m % P / 10 ^ j) ∷ cs)) (omega arith)
          ∙ v
          ∙ weigh acc q P (m % P) m (div-add-mod' m P)
          ∙ ap (λ x. acc * x + m) (sym (pow-suc 10 (suc j))),
      ap suc l,
    )

below_ten : (j m : ℕ) → m < 2 ^ 32 → j < 10 → 10 ^ suc j ≤ m → suc j < 10
below_ten j m h hj r = elim (ℕ_discrete j 9) [
  | yes e ↦ absurd (no_larger (subst (λ k. 10 ^ suc k ≤ m) e r))
  | no ne ↦ omega (arith, ne)
]
  where
    no_larger : 10 ^ 10 ≤ m → ⊥
    no_larger k = omega arith

-- The divisor that the first loop ends with is the greatest power of ten up to the number.
divisor_found :
    (f j m : ℕ)
    → j + f ≡ digit_fuel
    → j < 10
    → m < 2 ^ 32
    → ((j ≡ 0) ⊎ (10 ^ j ≤ m))
    → (i : ℕ) × (find_divisor f m (10 ^ j) ≡ some (10 ^ i))
      × (i < 10)
      × (m < 10 ^ suc i)
      × ((i ≡ 0) ⊎ (10 ^ i ≤ m))
unfolding find_divisor
divisor_found zero j m e hj hm hi = absurd (omega arith)
divisor_found (suc f) j m e hj hm hi = elim (dec_lt m (10 ^ suc j)) [
  | yes small ↦
      (j, rw (le→ltb 9 (m / 10 ^ j) (omega (arith, quotient-lt j m small))) refl, hj, small, hi)
  | no large ↦
      let reached : 10 ^ suc j ≤ m = omega arith in
      let (i, found, hi', top, first) =
        divisor_found f (suc j) m (omega arith) (below_ten j m hm hj reached) hm (inr reached) in
      (
        i,
        rw (lt→ltb 9 (m / 10 ^ j) ((le-div_iff_mul-le (pow_pos j)).1 (omega (arith, pow-suc 10 j))))
            (ap (λ d. find_divisor f m d) (omega (arith, pow-suc 10 j)) ∙ found),
        hi',
        top,
        first,
      )
]

no_zero_leads :
    (i q : ℕ) (cs : List ℕ) → length cs ≡ i → ((i ≡ 0) ⊎ (0 < q)) → NoLeadingZero ((48 + q) ∷ cs)
no_zero_leads i q [] l h = tt
no_zero_leads i q (c ∷ cs) l (inl z) = absurd (omega arith)
no_zero_leads i q (c ∷ cs) l (inr p) = λ e. omega arith

leading : (i m : ℕ) → ((i ≡ 0) ⊎ (10 ^ i ≤ m)) → (i ≡ 0) ⊎ (0 < m / 10 ^ i)
leading i m (inl z) = inl z
leading i m (inr p) = inr ((le-div_iff_mul-le (pow_pos i)).1 (omega arith))

printed-IsNumeral :
    (i m : ℕ)
    → i < 10
    → m < 10 ^ suc i
    → ((i ≡ 0) ⊎ (10 ^ i ≤ m))
    → (cs : List ℕ) × (print_digits digit_fuel m (10 ^ i) ≡ some cs) × IsNumeral m cs
printed-IsNumeral i m hi top first =
    let (cs, printed, ds, v, l) = digits_printed i digit_fuel m 0 top (omega arith) in
    (
      (48 + m / 10 ^ i) ∷ cs,
      printed,
      record {
        digits = ds;
        value = v ∙ (omega arith);
        canonical = no_zero_leads i (m / 10 ^ i) cs l (leading i m first);
      },
    )

-- Ten rounds of either loop are enough for every `unsigned`: what is printed is its numeral.
pub print_magnitude-IsNumeral :
    (m : ℕ) → m < 2 ^ 32 → (cs : List ℕ) × (print_magnitude m ≡ some cs) × IsNumeral m cs
unfolding print_magnitude
print_magnitude-IsNumeral m h =
    let (i, found, hi, top, first) = divisor_found digit_fuel 0 m refl (omega arith) h (inl refl) in
    let (cs, printed, n) = printed-IsNumeral i m hi top first in
    (cs, continues (find_divisor digit_fuel m 1) found printed, n)
  where
    continues :
        (o : Option ℕ) {d : ℕ} {cs : List ℕ}
        → o ≡ some d
        → print_digits digit_fuel m d ≡ some cs
        → (elim o [ none ↦ none | some divisor ↦ print_digits digit_fuel m divisor ]) ≡ some cs
    continues o e p = rw e p

-- The `int` of a 32-bit word.
abbrev pub int_of : ℕ → ℤ
int_of word = if leb (2 ^ 31) word then negsuc (2 ^ 32 - 1 - word) else pos word

-- A text is the decimal notation of an integer.
abbrev pub Denotes : List ℕ → ℤ → Type 0
Denotes out (pos n) = IsNumeral n out
Denotes out (negsuc n) = (cs : List ℕ) × (out ≡ b'-' ∷ cs) × IsNumeral (suc n) cs

-- "%d" terminates on each of the 2^32 values of an `int`, the least included, and puts out its
-- decimal notation: a minus sign just when it is negative, and no leading zero.
pub print_decimal-Denotes :
    (word : ℕ)
    → word < 2 ^ 32
    → (out : List ℕ) × (print_decimal word ≡ some out) × Denotes out (int_of word)
unfolding print_decimal
print_decimal-Denotes word h = elim (Bool-cases (leb (2 ^ 31) word)) [
  | inl minus ↦
      let large = leb→le (2 ^ 31) word minus in
      let (cs, e, n) = print_magnitude-IsNumeral (u32 (2 ^ 32 - word)) (omega arith) in
      (
        b'-' ∷ cs,
        rw minus (rw e refl),
        rw minus (cs, refl, subst (λ k. IsNumeral k cs) (omega arith) n),
      )
  | inr plus ↦ let (cs, e, n) = print_magnitude-IsNumeral word h in (cs, rw plus e, rw plus n)
]
