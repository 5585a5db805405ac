-- ===== src/Os1k/Shell/Answers.antt =====
-- What the calculator's operators mean, by equations on natural numbers.
use mini_kvm.Base.{ℕ, zero, suc, ◌+◌, ◌*◌, ◌/◌, ◌^◌, ◌≤◌, ◌<◌, ◌≡◌, ◌⊎◌, inl, inr, refl, arith}
use mini_kvm.Base.{true, false, Bool-cases, if◌then◌else◌, ◌==◌, ltb, Option, none, some}
use mini_kvm.Base.Int.{ℤ, pos, negsuc, pos_part, neg_part, is_neg, ◌+ℤ◌, ◌-ℤ◌, ◌*ℤ◌, ◌/ℤ◌, minus}
use mini_kvm.Os1k.Shell.{Answer, result, division_by_zero, checked, is_zero, apply_op, is_operator}

abbrev pub size_of : ℤ → ℕ
size_of (pos n) = n
size_of (negsuc n) = suc n

-- `r` is a + b, a - b, a * b; or a / b rounded towards zero, for b that is not 0.
abbrev pub IsSum : (a b r : ℤ) → Type 0
IsSum a b r = pos_part r + (neg_part a + neg_part b) ≡ neg_part r + (pos_part a + pos_part b)

abbrev pub IsDifference : (a b r : ℤ) → Type 0
IsDifference a b r = IsSum r b a

abbrev pub IsProduct : (a b r : ℤ) → Type 0
IsProduct a b r =
    pos_part r + (pos_part a * neg_part b + neg_part a * pos_part b)
    ≡ neg_part r + (pos_part a * pos_part b + neg_part a * neg_part b)

abbrev pub IsQuotient : (a b r : ℤ) → Type 0
IsQuotient a b r =
    (0 < size_of b)
    × (size_of r ≡ size_of a / size_of b)
    × ((r ≡ pos 0)
        ⊎ (is_neg r ≡ (if is_neg a then (if is_neg b then false else true) else is_neg b)))

abbrev pub IsValue : ℕ → (a b r : ℤ) → Type 0
IsValue op a b r =
    if op == 43
    then IsSum a b r
    else if op == 45
    then IsDifference a b r
    else if op == 42
    then IsProduct a b r
    else IsQuotient a b r

-- '+' is 43, '-' is 45, '*' is 42 and '/' is 47. A value outside an `int` has no answer.
pub data IsAnswer (op : ℕ) (a b : ℤ) (o : Option Answer) : Type 0 where
  value :
      (r : ℤ)
      → IsValue op a b r
      → pos_part r < 2 ^ 31
      → neg_part r ≤ 2 ^ 31
      → o ≡ some (result r)
      → IsAnswer op a b o
  overflow :
      (r : ℤ)
      → IsValue op a b r
      → (2 ^ 31 ≤ pos_part r) ⊎ (2 ^ 31 < neg_part r)
      → o ≡ none
      → IsAnswer op a b o
  by_zero : op ≡ 47 → b ≡ pos 0 → o ≡ some division_by_zero → IsAnswer op a b o

+ℤ-IsSum : (a b : ℤ) → IsSum a b (a +ℤ b)
unfolding ◌+ℤ◌
+ℤ-IsSum a b = ground arith

-ℤ-IsDifference : (a b : ℤ) → IsDifference a b (a -ℤ b)
unfolding ◌-ℤ◌
-ℤ-IsDifference a b = ground arith

minus_parts : (n : ℕ) → (pos_part (minus n) ≡ 0) × (neg_part (minus n) ≡ n)
minus_parts zero = (refl, refl)
minus_parts (suc n) = (refl, refl)

*ℤ-IsProduct : (a b : ℤ) → IsProduct a b (a *ℤ b)
unfolding ◌*ℤ◌
*ℤ-IsProduct (pos a) (pos b) = omega arith
*ℤ-IsProduct (pos a) (negsuc b) = let p = minus_parts (a * suc b) in omega (arith, p.0, p.1)
*ℤ-IsProduct (negsuc a) (pos b) = let p = minus_parts (suc a * b) in omega (arith, p.0, p.1)
*ℤ-IsProduct (negsuc a) (negsuc b) = omega arith

minus-IsQuotient :
    (n : ℕ) → (size_of (minus n) ≡ n) × ((minus n ≡ pos 0) ⊎ (is_neg (minus n) ≡ true))
minus-IsQuotient zero = (refl, inl refl)
minus-IsQuotient (suc n) = (refl, inr refl)

/ℤ-IsQuotient : (a b : ℤ) → 0 < size_of b → IsQuotient a b (a /ℤ b)
unfolding ◌/ℤ◌
/ℤ-IsQuotient (pos a) (pos b) h = (h, refl, inr refl)
/ℤ-IsQuotient (pos a) (negsuc b) h = let q = minus-IsQuotient (a / suc b) in (h, q.0, q.1)
/ℤ-IsQuotient (negsuc a) (pos b) h = let q = minus-IsQuotient (suc a / b) in (h, q.0, q.1)
/ℤ-IsQuotient (negsuc a) (negsuc b) h = (h, refl, inr refl)

checked-IsAnswer : (op : ℕ) (a b r : ℤ) → IsValue op a b r → IsAnswer op a b (checked r)
checked-IsAnswer op a b (pos n) v = elim (Bool-cases (ltb n (2 ^ 31))) [
  | inl e ↦ value (pos n) v (ground arith) (omega arith) (rw e refl)
  | inr e ↦ overflow (pos n) v (inl (ground arith)) (rw e refl)
]
checked-IsAnswer op a b (negsuc n) v = elim (Bool-cases (ltb n (2 ^ 31))) [
  | inl e ↦ value (negsuc n) v (omega arith) (ground arith) (rw e refl)
  | inr e ↦ overflow (negsuc n) v (inr (ground arith)) (rw e refl)
]

pub apply_op-IsAnswer :
    (op : ℕ) (a b : ℤ) → is_operator op ≡ true → IsAnswer op a b (apply_op op a b)
unfolding apply_op
apply_op-IsAnswer op a b h = elim (Bool-cases (op == 43)) [
  | inl sum ↦ rw sum (checked-IsAnswer op a b (a +ℤ b) (rw sum (+ℤ-IsSum a b)))
  | inr e ↦ elim (Bool-cases (op == 45)) [
    | inl diff ↦
        rw (e, diff) (checked-IsAnswer op a b (a -ℤ b) (rw (e, diff) (-ℤ-IsDifference a b)))
    | inr f ↦ elim (Bool-cases (op == 42)) [
      | inl prod ↦
          rw (e, f, prod) (checked-IsAnswer op a b (a *ℤ b) (rw (e, f, prod) (*ℤ-IsProduct a b)))
      | inr g ↦ elim (Bool-cases (is_zero b)) [
        | inl z ↦ rw (e, f, g, z) (by_zero (ground arith) (zero_only b z) refl)
        | inr z ↦
            rw (e, f, g, z)
              (checked-IsAnswer op a b (a /ℤ b) (rw (e, f, g) (/ℤ-IsQuotient a b (not_zero b z))))
      ]
    ]
  ]
]
  where
    zero_only : (c : ℤ) → is_zero c ≡ true → c ≡ pos 0
    zero_only (pos n) k = ground arith
    zero_only (negsuc n) k = cc

    not_zero : (c : ℤ) → is_zero c ≡ false → 0 < size_of c
    not_zero (pos n) k = ground arith
    not_zero (negsuc n) k = omega arith
