-- ===== src/Os1k/Shell/Arithmetic.antt =====
-- The loops of the demos against what they are to compute.
use mini_kvm.Base.{ℕ, zero, suc, ◌+◌, ◌*◌, ◌/◌, ◌%◌, ◌≤◌, ◌<◌, leb, ◌==◌, ◌≡◌, sym, subst, arith}
use mini_kvm.Base.{true, false, Bool, Bool-cases, inl, inr, Option, some, ==_iff, leb→le, dec_lt}
use mini_kvm.Base.{refl}
use native.Mathlib.Nat.{dvd_refl, dvd-zero, dvd-mod_iff, dvd_of_mod-eq-zero, mul-div_cancel'}
use Prim.Native.Nat.{◌∣◌}
use native.Mathlib.Nat.{dvd-mul_left, mod-lt, mod-eq-zero_of_dvd, mul-le-mul}
use mini_kvm.Base.{◌^◌}
use mini_kvm.Os1k.Shell.{gcd_loop, trial_division}

-- A common divisor that every common divisor divides.
pub record IsGcd (a b g : ℕ) : Type 0 where
  pub divides_a : g ∣ a
  pub divides_b : g ∣ b
  pub greatest : (d : ℕ) → d ∣ a → d ∣ b → d ∣ g

IsGcd-step : (a b g : ℕ) → IsGcd b (a % b) g → IsGcd a b g
IsGcd-step a b g h = record {
  divides_a = (dvd-mod_iff g h.divides_a).0 h.divides_b;
  divides_b = h.divides_a;
  greatest = λ d da db. h.greatest d db ((dvd-mod_iff d db).1 da);
}

-- Euclid's loop ends within `b` + 1 rounds, with the greatest common divisor.
pub gcd_loop-IsGcd :
    (fuel a b : ℕ) → b < fuel → (g : ℕ) × (gcd_loop fuel a b ≡ some g) × IsGcd a b g
unfolding gcd_loop
gcd_loop-IsGcd zero a b h = elim h [ ]
gcd_loop-IsGcd (suc fuel) a b h = elim (Bool-cases (b == 0)) [
  | inl done ↦ (
    a,
    rw done refl,
    subst (λ b. IsGcd a b a) (sym ((==_iff b 0).0 done))
        record { divides_a = dvd_refl a; divides_b = dvd-zero a; greatest = λ d da db. da },
  )
  | inr more ↦
      let (g, e, s) = gcd_loop-IsGcd fuel b (a % b) (smaller more) in
      (g, rw more e, IsGcd-step a b g s)
]
  where
    smaller : (b == 0) ≡ false → a % b < fuel
    smaller more = let positive : 0 < b = ground arith in omega (arith, mod-lt a positive)

abbrev pub NoDivisor : ℕ → ℕ → Type 0
NoDivisor n i = (d : ℕ) → 2 ≤ d → d < i → d ∣ n → ⊥

-- What the trial division tells of `n`: no number from 2 on and below `n` divides it, or one does.
pub data Verdict (n : ℕ) (o : Option Bool) : Type 0 where
  prime : o ≡ some true → NoDivisor n n → Verdict n o
  composite : (d : ℕ) → o ≡ some false → 2 ≤ d → d < n → d ∣ n → Verdict n o

NoDivisor-suc : (n i : ℕ) → NoDivisor n i → (i ∣ n → ⊥) → NoDivisor n (i + 1)
NoDivisor-suc n i h ne d two below dn = elim (dec_lt d i) [
  | yes l ↦ h d two l dn
  | no ge ↦ let e : d ≡ i = omega (arith, ge) in ne (subst (λ k. k ∣ n) e dn)
]

-- A number with no divisor up to its root has none at all: of two factors one is that small.
no_large_divisor : (n i : ℕ) → NoDivisor n i → n < i * i → NoDivisor n n
no_large_divisor n i h root d two below dn = elim (dec_lt d i) [
  | yes l ↦ h d two l dn
  | no ge ↦
      let whole = mul-div_cancel' d dn in
      let q = n / d in
      h q (at_least_two q whole) (below_root q whole ge)
        (subst (λ m. q ∣ m) whole (dvd-mul_left q d))
]
  where
    at_least_two : (q : ℕ) → d * q ≡ n → 2 ≤ q
    at_least_two zero e = absurd (omega arith)
    at_least_two (suc zero) e = absurd (omega arith)
    at_least_two (suc (suc q)) e = omega arith

    below_root : (q : ℕ) → d * q ≡ n → (d < i → ⊥) → q < i
    below_root q e ge = grind arith

square_le : (i : ℕ) → i ≤ 46340 → i * i ≤ 46340 * 46340
square_le i h = mul-le-mul h h

small_step : (n i : ℕ) → 2 ≤ i → i * i ≤ n → i < n
small_step n i two h = grind arith

-- From `i` on, with no divisor below `i`, the trials end and tell whether there is one at all.
trial_division-from :
    (fuel n i : ℕ)
    → 2 ≤ i
    → i ≤ 46340
    → n < 46340 * 46340
    → n < i + fuel
    → NoDivisor n i
    → 0 < fuel
    → Verdict n (trial_division fuel n i)
unfolding trial_division
trial_division-from zero n i two few small h nd pos = elim pos [ ]
trial_division-from (suc fuel) n i two few small h nd pos = elim (Bool-cases (leb (i * i) n)) [
  | inr past ↦ prime (rw (no_overflow, past) refl) (no_large_divisor n i nd (ground arith))
  | inl go ↦
      let inside = leb→le (i * i) n go in
      let below = small_step n i two inside in
      elim (Bool-cases (n % i == 0)) [
        | inl divides ↦
            composite i (rw (no_overflow, go, divides) refl) two below
              (dvd_of_mod-eq-zero i ((==_iff (n % i) 0).0 divides))
        | inr not_divides ↦
            rw (no_overflow, go, not_divides)
              (trial_division-from fuel n (i + 1) (omega arith) (in_range inside) small
                (omega arith) (NoDivisor-suc n i nd (not_dividing not_divides)) (omega arith))
      ]
]
  where
    no_overflow : leb (2 ^ 31) (i * i) ≡ false
    no_overflow = let b = square_le i few in ground arith

    beyond : i ≡ 46340 → i * i ≤ n → ⊥
    beyond e h = let h' = subst (λ k. k * k ≤ n) e h in omega (arith, h', small)

    in_range : i * i ≤ n → i + 1 ≤ 46340
    in_range h = elim (dec_lt i 46340) [
      | yes l ↦ omega arith
      | no ge ↦ let e : i ≡ 46340 = omega (arith, ge) in absurd (beyond e h)
    ]

    not_dividing : (n % i == 0) ≡ false → i ∣ n → ⊥
    not_dividing f dn = let z = mod-eq-zero_of_dvd i dn in ground arith

-- For every `n` below 46340 * 46340 = 2147395600 the inner loop of `prime_demo` ends without an
-- overflow of `i * i`, and keeps `is_prime` just when no number from
-- 2 on and below `n` divides it, though it tries those up to the root only.
pub trial_division-Verdict : (n : ℕ) → n < 46340 * 46340 → Verdict n (trial_division (n + 1) n 2)
trial_division-Verdict n small =
    trial_division-from (n + 1) n 2 (omega arith) (omega arith) small (omega arith)
      (λ d two below dn. absurd (omega arith)) (omega arith)
