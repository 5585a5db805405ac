-- ===== src/Os1k/Shell/Parse.antt =====
-- The calculator reads what a user may type.
use mini_kvm.Os1k.Shell.Answers.{IsAnswer, apply_op-IsAnswer}
use mini_kvm.Base.{subst, sym}
use mini_kvm.Base.{ℕ, zero, suc, ◌+◌, ◌-◌, ◌*◌, ◌^◌, ◌≤◌, ◌<◌, ◌==◌, ◌≡◌, ◌≢◌, refl, ap, ◌∙◌}
use mini_kvm.Base.{arith, lt→ltb, true, false, some}
use mini_kvm.Base.{List, [], ◌∷◌, ◌++◌, replicate}
use mini_kvm.Base.Int.{ℤ, pos, negsuc, pos_part, neg_part}
use mini_kvm.Os1k.Text.Decimal.{AllDigits, IsNumeral, Denotes, value_from}
use mini_kvm.Os1k.Shell.{skip_spaces, parse_digits, parse_number, negated, unsigned, is_digit}
use mini_kvm.Os1k.Shell.{calculate, apply_op, is_operator, is_quit}

-- Nothing, or a byte that does not go on with a number.
abbrev pub NoDigit : List ℕ → Type 0
NoDigit [] = Unit
NoDigit (c ∷ line) = is_digit c ≡ false

value_from-ge : (acc : ℕ) (cs : List ℕ) → acc ≤ value_from acc cs
value_from-ge acc [] = omega arith
value_from-ge acc (c ∷ cs) = omega (arith, value_from-ge (acc * 10 + (c - 48)) cs)

parse_digits-value :
    (cs rest : List ℕ) (acc : ℕ)
    → AllDigits cs
    → NoDigit rest
    → value_from acc cs < 2 ^ 31
    → parse_digits acc (cs ++ rest) ≡ some (value_from acc cs, rest)
unfolding parse_digits
parse_digits-value [] [] acc ds nd h = refl
parse_digits-value [] (c ∷ rest) acc ds nd h = rw nd refl
parse_digits-value (c ∷ cs) rest acc ds nd h =
    rw (digit, lt→ltb (acc * 10 + (c - 48)) (2 ^ 31) small)
      (parse_digits-value cs rest (acc * 10 + (c - 48)) ds.2 nd h)
  where
    digit : is_digit c ≡ true
    digit = ground arith

    small : acc * 10 + (c - 48) < 2 ^ 31
    small = omega (arith, value_from-ge (acc * 10 + (c - 48)) cs)

-- |n|
abbrev pub magnitude : ℤ → ℕ
magnitude n = pos_part n + neg_part n

parse_number-digits :
    (cs rest : List ℕ) (k : ℕ)
    → IsNumeral k cs
    → NoDigit rest
    → k < 2 ^ 31
    → parse_number (cs ++ rest) ≡ some (pos k, rest)
unfolding parse_number
parse_number-digits [] rest k num nd h = elim num.canonical [ ]
parse_number-digits (c ∷ cs) rest k num nd h = rw no_sign (
    ap unsigned (
      parse_digits-value (c ∷ cs) rest 0 num.digits nd (omega (arith, num.value))
      ∙ ap (λ v. some (v, rest)) num.value))
  where
    no_sign : (c == b'-') ≡ false
    no_sign = let d = num.digits in ground arith

-- A decimal number is read, up to the first byte that is no digit.
pub parse_number-Denotes :
    (cs rest : List ℕ) (n : ℤ)
    → Denotes cs n
    → NoDigit rest
    → magnitude n < 2 ^ 31
    → parse_number (cs ++ rest) ≡ some (n, rest)
unfolding parse_number
parse_number-Denotes cs rest (pos k) num nd h = parse_number-digits cs rest k num nd (omega arith)
parse_number-Denotes cs rest (negsuc k) (ds, e, num) nd h = rw e (
    ap negated (
      parse_digits-value ds rest 0 num.digits nd (omega (arith, num.value))
      ∙ ap (λ v. some (v, rest)) num.value))

-- The first byte of a decimal number.
starts_number :
    (cs : List ℕ) (n : ℤ)
    → Denotes cs n
    → (c : ℕ) × (ds : List ℕ) × (cs ≡ c ∷ ds) × (c ≢ b' ') × (c ≢ b'q')
starts_number [] (pos k) num = elim num.canonical [ ]
starts_number (c ∷ cs) (pos k) num =
    let d = num.digits in (c, cs, refl, (λ e. omega arith), (λ e. omega arith))
starts_number cs (negsuc k) (ds, e, num) = (b'-', ds, e, (λ e. omega arith), (λ e. omega arith))

spaces_skipped : (n : ℕ) (line : List ℕ) → skip_spaces (replicate n b' ' ++ line) ≡ skip_spaces line
unfolding skip_spaces
spaces_skipped zero line = refl
spaces_skipped (suc n) line = spaces_skipped n line

skip_spaces-cons : (c : ℕ) (line : List ℕ) → c ≢ b' ' → skip_spaces (c ∷ line) ≡ c ∷ line
unfolding skip_spaces
skip_spaces-cons c line h = ground arith

skip_spaces-number :
    (cs rest : List ℕ) (n : ℤ) → Denotes cs n → skip_spaces (cs ++ rest) ≡ cs ++ rest
skip_spaces-number cs rest n d =
    let (c, ds, e, not_space, not_q) = starts_number cs n d in
    rw e (skip_spaces-cons c (ds ++ rest) not_space)

not_quit :
    (i : ℕ) (cs rest : List ℕ) (n : ℤ)
    → Denotes cs n
    → is_quit (replicate i b' ' ++ (cs ++ rest)) ≡ false
not_quit zero cs rest n d =
    let (c, ds, e, not_space, not_q) = starts_number cs n d in
    rw e (head_not_q c (ds ++ rest) not_q)
  where
    head_not_q : (c : ℕ) (line : List ℕ) → c ≢ b'q' → is_quit (c ∷ line) ≡ false
    head_not_q c [] h = ground arith
    head_not_q c (e ∷ line) h = refl
not_quit (suc zero) [] rest n d = let (c, ds, e, not_space, not_q) = starts_number [] n d in cc
not_quit (suc zero) (c ∷ cs) rest n d = refl
not_quit (suc (suc i)) cs rest n d = refl

operator_ne : (op : ℕ) → is_operator op ≡ true → (is_digit op ≡ false) × (op ≢ b' ')
operator_ne op h = (ground arith, (λ e. ground arith))

after_spaces :
    (j op : ℕ) (rest : List ℕ) → is_operator op ≡ true → NoDigit (replicate j b' ' ++ op ∷ rest)
after_spaces zero op rest h = (operator_ne op h).0
after_spaces (suc j) op rest h = refl

calculate_applies :
    (i j k op : ℕ) (ta tb rest : List ℕ) (a b : ℤ)
    → Denotes ta a
    → Denotes tb b
    → magnitude a < 2 ^ 31
    → magnitude b < 2 ^ 31
    → is_operator op ≡ true
    → NoDigit rest
    → calculate
        (replicate i b' ' ++ (ta ++ (replicate j b' ' ++ op ∷ (replicate k b' ' ++ (tb ++ rest)))))
      ≡ apply_op op a b
unfolding calculate
calculate_applies i j k op ta tb rest a b da db ha hb ho hr =
    let behind_op = replicate k b' ' ++ (tb ++ rest) in
    let behind_a = replicate j b' ' ++ op ∷ behind_op in
    rw
      (
        not_quit i ta behind_a a da,
        spaces_skipped i (ta ++ behind_a),
        skip_spaces-number ta behind_a a da,
        parse_number-Denotes ta behind_a a da (after_spaces j op behind_op ho) ha,
        spaces_skipped j (op ∷ behind_op),
        skip_spaces-cons op behind_op (operator_ne op ho).1,
        ho,
        spaces_skipped k (tb ++ rest),
        skip_spaces-number tb rest b db,
        parse_number-Denotes tb rest b db hr hb,
      )
      refl

-- A line with a number, an operator and a number, with spaces or none before each of them and
-- anything but a digit behind, is answered with the sum, the difference, the product or the
-- quotient of those two numbers, towards zero; for a division by zero it says so, and a value
-- outside an `int` has no answer.
pub calculate-Denotes :
    (i j k op : ℕ) (ta tb rest : List ℕ) (a b : ℤ)
    → Denotes ta a
    → Denotes tb b
    → magnitude a < 2 ^ 31
    → magnitude b < 2 ^ 31
    → is_operator op ≡ true
    → NoDigit rest
    → IsAnswer op a b (
        calculate (
          replicate i b' '
          ++ (ta ++ (replicate j b' ' ++ op ∷ (replicate k b' ' ++ (tb ++ rest))))))
calculate-Denotes i j k op ta tb rest a b da db ha hb ho hr =
    subst (IsAnswer op a b) (sym (calculate_applies i j k op ta tb rest a b da db ha hb ho hr))
      (apply_op-IsAnswer op a b ho)
