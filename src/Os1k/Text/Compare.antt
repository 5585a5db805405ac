-- ===== src/Os1k/Text/Compare.antt =====
-- What `strcmp` tells of two strings.
use mini_kvm.Base.{ℕ, ◌<◌, ◌==◌, ◌≡◌, ◌≢◌, ◌↔◌, refl, sym, ap, subst, arith, true, false}
use mini_kvm.Base.{List, [], ◌∷◌, ==_iff, ℕ_discrete, dec_lt}
use mini_kvm.Base.Int.{ℤ, pos, is_neg}
use mini_kvm.Os1k.Text.{strcmp}

-- A string holds no NUL.
abbrev pub IsText : List ℕ → Type 0
IsText [] = Unit
IsText (c ∷ s) = (0 < c) × IsText s

-- The order of a dictionary: a proper prefix first, else the byte where they first differ decides.
pub data Before : List ℕ → List ℕ → Type 0 where
  prefix : (b : ℕ) (t : List ℕ) → Before [] (b ∷ t)
  smaller : (a b : ℕ) (s t : List ℕ) → a < b → Before (a ∷ s) (b ∷ t)
  later : (a : ℕ) (s t : List ℕ) → Before s t → Before (a ∷ s) (a ∷ t)

-- Three outcomes, and which strings give each.
pub data Outcome (s t : List ℕ) (r : ℤ) : Type 0 where
  equal : s ≡ t → r ≡ pos 0 → Outcome s t r
  before : Before s t → is_neg r ≡ true → Outcome s t r
  after : Before t s → is_neg r ≡ false → r ≢ pos 0 → Outcome s t r

Outcome-cons : (a : ℕ) (s t : List ℕ) {r : ℤ} → Outcome s t r → Outcome (a ∷ s) (a ∷ t) r
Outcome-cons a s t (equal e z) = equal (ap (λ l. a ∷ l) e) z
Outcome-cons a s t (before b n) = before (later a s t b) n
Outcome-cons a s t (after b n z) = after (later a t s b) n z

-- `strcmp` answers 0 just for equal strings, and else its sign is their order in a dictionary.
pub strcmp-Outcome : (s t : List ℕ) → IsText s → IsText t → Outcome s t (strcmp s t)
unfolding strcmp
strcmp-Outcome [] [] hs ht = equal refl refl
strcmp-Outcome [] (b ∷ t) hs ht = before (prefix b t) (ground arith)
strcmp-Outcome (a ∷ s) [] hs ht = after (prefix a s) (ground arith) (λ e. ground arith)
strcmp-Outcome (a ∷ s) (b ∷ t) hs ht = elim (ℕ_discrete a b) [
  | yes e ↦ rw (same e) (
      subst (λ b. Outcome (a ∷ s) (b ∷ t) (strcmp s t)) e
        (Outcome-cons a s t (strcmp-Outcome s t hs.1 ht.1)))
  | no ne ↦ elim (dec_lt a b) [
    | yes l ↦ before (smaller a b s t l) (ground arith)
    | no g ↦ after (smaller b a t s (omega (arith, ne))) (ground arith) (λ e. ground arith)
  ]
]
  where
    same : a ≡ b → (a == b) ≡ true
    same e = (==_iff a b).1 e

Before-ne : {s t : List ℕ} → Before s t → s ≢ t
Before-ne (prefix b t) e = cc
Before-ne (smaller a b s t l) e = ground arith
Before-ne (later a s t b) e = Before-ne b (ground arith)

-- The test of the callers, `strcmp(s, t) == 0`.
pub strcmp_zero : (s t : List ℕ) → IsText s → IsText t → (strcmp s t ≡ pos 0) ↔ (s ≡ t)
strcmp_zero s t hs ht = (zero→eq (strcmp-Outcome s t hs ht), eq→zero (strcmp-Outcome s t hs ht))
  where
    zero→eq : Outcome s t (strcmp s t) → strcmp s t ≡ pos 0 → s ≡ t
    zero→eq (equal e z) h = e
    zero→eq (before b n) h = absurd (ground arith)
    zero→eq (after b n z) h = absurd (z h)

    eq→zero : Outcome s t (strcmp s t) → s ≡ t → strcmp s t ≡ pos 0
    eq→zero (equal e z) h = z
    eq→zero (before b n) h = absurd (Before-ne b h)
    eq→zero (after b n z) h = absurd (Before-ne b (sym h))
