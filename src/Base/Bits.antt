-- ===== src/Base/Bits.antt =====
-- `|` and `&` at variables: the bit at an index, disjoint fields, low and high masks.
use Prim.Native.Nat.{ℕ, zero, suc, ◌+◌, ◌-◌, ◌*◌, ◌/◌, ◌%◌, ◌^◌, ◌≤◌, ◌<◌, min, max}
use mathlib.Core.Logic.{◌⊎◌}
use Prim.Native.Nat.{bit_and, bit_or, digits, bit_and-bitwise, bit_or-bitwise}
use mathlib.Core.Path.{◌≡◌, refl, ap, sym, ◌∙◌}
use native.Mathlib.Nat.{
  pow-suc, one-le-pow, mul_comm, div-mul-le_self, mod-eq-sub-div-mul, div-div-eq-div-mul,
}
use native.Mathlib.Omega.{arith}

-- The native operations are a recursion on binary digits with fuel; more fuel changes nothing.
module _ (edge : ℕ → ℕ) (digit : ℕ → ℕ → ℕ) where
  digits_same : (a b p q : ℕ) → a ≤ p → a ≤ q → digits edge digit p a b ≡ digits edge digit q a b
  digits_same zero b zero zero hp hq = refl
  digits_same zero b zero (suc q) hp hq = refl
  digits_same zero b (suc p) zero hp hq = refl
  digits_same zero b (suc p) (suc q) hp hq = refl
  digits_same (suc a) b zero q hp hq = absurd (omega arith)
  digits_same (suc a) b (suc p) zero hp hq = absurd (omega arith)
  digits_same (suc a) b (suc p) (suc q) hp hq =
      rw (digits_same (suc a / 2) (b / 2) p q (omega arith) (omega arith))

pub bit_or_digit : (a b : ℕ) → bit_or a b ≡ bit_or (a / 2) (b / 2) * 2 + max (a % 2) (b % 2)
bit_or_digit zero b = omega (arith, bit_or-bitwise 0 b, bit_or-bitwise 0 (b / 2))
bit_or_digit (suc a) b = omega (
  arith,
  bit_or-bitwise (suc a) b,
  bit_or-bitwise (suc a / 2) (b / 2),
  digits_same (λ y. y) max (suc a / 2) (b / 2) a (suc a / 2) (omega arith) (omega arith),
)

pub bit_and_digit : (a b : ℕ) → bit_and a b ≡ bit_and (a / 2) (b / 2) * 2 + min (a % 2) (b % 2)
bit_and_digit zero b = omega (arith, bit_and-bitwise 0 b, bit_and-bitwise 0 (b / 2))
bit_and_digit (suc a) b = omega (
  arith,
  bit_and-bitwise (suc a) b,
  bit_and-bitwise (suc a / 2) (b / 2),
  digits_same (λ y. zero) min (suc a / 2) (b / 2) a (suc a / 2) (omega arith) (omega arith),
)

-- The bit of `a` at index `k`.
abbrev pub bit : ℕ → ℕ → ℕ
bit a k = a / 2 ^ k % 2

half-pow : (a k : ℕ) → a / 2 ^ suc k ≡ a / 2 / 2 ^ k
half-pow a k = rw (pow-suc, mul_comm (2 ^ k) 2) (sym (div-div-eq-div-mul a 2 (2 ^ k)))

pub bit-or : (k a b : ℕ) → bit (bit_or a b) k ≡ max (bit a k) (bit b k)
bit-or zero a b = omega (arith, bit_or_digit a b)
bit-or (suc k) a b = omega (
  arith,
  half-pow (bit_or a b) k,
  half-pow a k,
  half-pow b k,
  bit-or k (a / 2) (b / 2),
  ap (λ n. bit n k) (half_or a b),
)
  where
    half_or : (x y : ℕ) → bit_or x y / 2 ≡ bit_or (x / 2) (y / 2)
    half_or x y = omega (arith, bit_or_digit x y)

pub bit-and : (k a b : ℕ) → bit (bit_and a b) k ≡ min (bit a k) (bit b k)
bit-and zero a b = omega (arith, bit_and_digit a b)
bit-and (suc k) a b = omega (
  arith,
  half-pow (bit_and a b) k,
  half-pow a k,
  half-pow b k,
  bit-and k (a / 2) (b / 2),
  ap (λ n. bit n k) (half_and a b),
)
  where
    half_and : (x y : ℕ) → bit_and x y / 2 ≡ bit_and (x / 2) (y / 2)
    half_and x y = omega (arith, bit_and_digit x y)

-- A bit operation on two numbers below a bound on `a` has its values from the halves.
or-zero_fuel : (n a : ℕ) → a ≤ n → bit_or a 0 ≡ a
or-zero_fuel zero a h = omega (arith, bit_or-bitwise a 0, ap (λ t. bit_or t 0) none_left)
  where
    none_left : a ≡ 0
    none_left = omega arith
or-zero_fuel (suc n) zero h = refl
or-zero_fuel (suc n) (suc a) h =
    omega (arith, bit_or_digit (suc a) 0, or-zero_fuel n (suc a / 2) (omega arith))

pub or-zero : (a : ℕ) → bit_or a 0 ≡ a
or-zero a = or-zero_fuel a a (omega arith)

and-zero_fuel : (n a : ℕ) → a ≤ n → bit_and a 0 ≡ 0
and-zero_fuel n zero h = refl
and-zero_fuel zero (suc a) h = absurd (omega arith)
and-zero_fuel (suc n) (suc a) h =
    omega (arith, bit_and_digit (suc a) 0, and-zero_fuel n (suc a / 2) (omega arith))

pub and-zero : (a : ℕ) → bit_and a 0 ≡ 0
and-zero a = and-zero_fuel a a (omega arith)

double_pow : (q k : ℕ) → q * 2 ^ suc k ≡ 2 * (q * 2 ^ k)
double_pow q k = omega (arith, ap (λ (t : ℕ). q * t) (pow-suc 2 k))

-- `(q << k) | r` is a sum where `r` has only the low `k` bits.
pub or-fields : (k q r : ℕ) → r < 2 ^ k → bit_or (q * 2 ^ k) r ≡ q * 2 ^ k + r
or-fields zero q r fits = ground (arith, or-zero q)
or-fields (suc k) q r fits =
    ground
      (arith, pow-suc 2 k, double_pow q k, or-fields k q (r / 2), bit_or_digit (q * 2 ^ suc k) r)

-- `a & (m << k)` drops the low `k` bits and masks the rest by `m`.
pub and-high : (k a m : ℕ) → bit_and a (m * 2 ^ k) ≡ bit_and (a / 2 ^ k) m * 2 ^ k
and-high zero a m = ground arith
and-high (suc k) a m = ground (
  arith,
  double_pow m k,
  double_pow (bit_and (a / 2 / 2 ^ k) m) k,
  half-pow a k,
  and-high k (a / 2) m,
  bit_and_digit a (m * 2 ^ suc k),
)

mod-suc_pow : (a k : ℕ) → a % 2 ^ suc k ≡ 2 * (a / 2 % 2 ^ k) + a % 2
mod-suc_pow a k = omega (
  arith,
  half-pow a k,
  double_pow (a / 2 / 2 ^ k) k,
  div-mul-le_self (a / 2) (2 ^ k),
  mod-eq-sub-div-mul a (2 ^ suc k),
  mod-eq-sub-div-mul (a / 2) (2 ^ k),
  ap (λ (t : ℕ). t * 2 ^ suc k) (half-pow a k),
)

-- `a & (2 ^ k - 1)` is the remainder.
pub and-low : (k a : ℕ) → bit_and a (2 ^ k - 1) ≡ a % 2 ^ k
and-low zero a = ground (arith, and-zero a)
and-low (suc k) a = ground (
  arith,
  pow-suc 2 k,
  one-le-pow k 2,
  mod-suc_pow a k,
  and-low k (a / 2),
  bit_and_digit a (2 ^ suc k - 1),
)

-- `a & (1 << k)` is the bit at `k`, in its place.
pub and-single : (k a : ℕ) → bit_and a (2 ^ k) ≡ bit a k * 2 ^ k
and-single k a = ground (arith, and-high k a 1, and-low 1 (a / 2 ^ k))

half-or : (a b : ℕ) → bit_or a b / 2 ≡ bit_or (a / 2) (b / 2)
half-or a b = omega (arith, bit_or_digit a b)

or_assoc_below : (n a b c : ℕ) → a + b + c ≤ n → bit_or (bit_or a b) c ≡ bit_or a (bit_or b c)
or_assoc_below zero a b c h = ground (arith, or-zero 0, no_a, no_b, no_c)
  where
    no_a : a ≡ 0
    no_a = omega arith

    no_b : b ≡ 0
    no_b = omega arith

    no_c : c ≡ 0
    no_c = omega arith
or_assoc_below (suc n) a b c h = ground (
  arith,
  bit_or_digit (bit_or a b) c,
  bit_or_digit a (bit_or b c),
  bit_or_digit a b,
  bit_or_digit b c,
  half-or a b,
  half-or b c,
  or_assoc_below n (a / 2) (b / 2) (c / 2),
)

pub or_assoc : (a b c : ℕ) → bit_or (bit_or a b) c ≡ bit_or a (bit_or b c)
or_assoc a b c = or_assoc_below (a + b + c) a b c (omega arith)

or_comm_below : (n a b : ℕ) → a + b ≤ n → bit_or a b ≡ bit_or b a
or_comm_below zero a b h = ground (arith, no_a, no_b)
  where
    no_a : a ≡ 0
    no_a = omega arith

    no_b : b ≡ 0
    no_b = omega arith
or_comm_below (suc n) a b h =
    ground (arith, bit_or_digit a b, bit_or_digit b a, or_comm_below n (a / 2) (b / 2))

pub or_comm : (a b : ℕ) → bit_or a b ≡ bit_or b a
or_comm a b = or_comm_below (a + b) a b (omega arith)

half_pow : (j : ℕ) → 2 ^ suc j / 2 ≡ 2 ^ j
half_pow j = omega (arith, pow-suc 2 j)

pub bit-pow_self : (j : ℕ) → bit (2 ^ j) j ≡ 1
bit-pow_self zero = refl
bit-pow_self (suc j) =
    ap (λ q. q % 2) (half-pow (2 ^ suc j) j ∙ ap (λ n. n / 2 ^ j) (half_pow j)) ∙ bit-pow_self j

pub bit-pow_ne : (j k : ℕ) → (j < k) ⊎ (k < j) → bit (2 ^ j) k ≡ 0
bit-pow_ne zero zero h = absurd (omega (arith, h))
bit-pow_ne zero (suc k) h = ap (λ q. q % 2) (half-pow 1 k) ∙ zero_bit k
  where
    zero_bit : (n : ℕ) → 1 / 2 / 2 ^ n % 2 ≡ 0
    zero_bit zero = refl
    zero_bit (suc n) = ap (λ q. q % 2) (half-pow (1 / 2) n) ∙ zero_bit n
bit-pow_ne (suc j) zero h = omega (arith, pow-suc 2 j)
bit-pow_ne (suc j) (suc k) h =
    ap (λ q. q % 2) (half-pow (2 ^ suc j) k ∙ ap (λ n. n / 2 ^ k) (half_pow j))
    ∙ bit-pow_ne j k (omega (arith, h))
