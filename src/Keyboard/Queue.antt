-- ===== src/Keyboard/Queue.antt =====
-- What the keyboard buffer promises: a FIFO of at most 255 bytes that drops what does not fit.
use mini_kvm.Base.{ℕ, Bool, true, false, List, [], ◌∷◌, ◌++◌, ◌==◌, if◌then◌else◌, length, take}
use mini_kvm.Base.{
  ◌≡◌, ◌-◌, ◌≤◌, arith, append-nil, append_assoc, length-append, ap, zero, suc, refl,
}
use mini_kvm.Base.Int.{ℤ, pos, negsuc}

abbrev pub Queue : Type 0
Queue = List ℕ

abbrev pub capacity : ℕ
capacity = 255

abbrev pub push : Queue → ℕ → Queue
push q ch = if length q == capacity then q else q ++ (ch ∷ [])

abbrev pub pop : Queue → ℤ × Queue
pop [] = (negsuc 0, [])
pop (ch ∷ q) = (pos ch, q)

abbrev pub has_data : Queue → Bool
has_data [] = false
has_data (ch ∷ q) = true

abbrev pub push_list : Queue → List ℕ → Queue
push_list q [] = q
push_list q (ch ∷ rest) = push_list (push q ch) rest

take-cons : (n x : ℕ) (xs : List ℕ) → 1 ≤ n → take n (x ∷ xs) ≡ x ∷ take (n - 1) xs
take-cons zero x xs h = elim h [ ]
take-cons (suc n) x xs h = ap (λ k. x ∷ take k xs) (omega arith)

take-zero : (n : ℕ) (xs : List ℕ) → n ≡ 0 → take n xs ≡ []
take-zero zero xs h = refl
take-zero (suc n) xs h = absurd (omega arith)

pub take-nil : (n : ℕ) → take {A = ℕ} n [] ≡ []
take-nil zero = refl
take-nil (suc n) = refl

pub push_list-take :
    (q : Queue) (bytes : List ℕ)
    → length q ≤ capacity
    → push_list q bytes ≡ q ++ take (capacity - length q) bytes
push_list-take q [] h = ground (arith, take-nil (capacity - length q), append-nil q)
push_list-take q (ch ∷ rest) h = ground (
  arith,
  push_list-take q rest,
  push_list-take (q ++ (ch ∷ [])) rest,
  length-append q (ch ∷ []),
  take-cons (capacity - length q) ch rest,
  take-zero (capacity - length q) rest,
  take-zero (capacity - length q) (ch ∷ rest),
  append-nil q,
  append_assoc q (ch ∷ []) (take (capacity - length q - 1) rest),
)
