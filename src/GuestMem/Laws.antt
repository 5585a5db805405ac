-- ===== src/GuestMem/Laws.antt =====
-- What is read back after a write: the value where it was written, and what was there elsewhere.
use mini_kvm.Base.{ℕ, zero, suc, ◌+◌, ◌-◌, ◌*◌, ◌/◌, ◌%◌, ◌^◌, ◌≤◌, ◌<◌, ◌≡◌, ◌⊎◌, inl}
use mini_kvm.Base.{refl, ap, ap₂, ◌∙◌, arith, List, length, get_or}
use mini_kvm.GuestMem.{Mem, memset, copy_in, store8, store, load, fill}
use native.Mathlib.Nat.{pow-suc}

-- `x` lies outside the `n` bytes from `a` on.
abbrev pub IsOutside : ℕ → ℕ → ℕ → Type 0
IsOutside a n x = (x < a) ⊎ (a + n ≤ x)

pub memset-IsOutside : (m : Mem) (a c n x : ℕ) → IsOutside a n x → memset m a c n x ≡ m x
unfolding memset
memset-IsOutside m a c n x h = ground arith

pub memset-inside : (m : Mem) (a c n x : ℕ) → a ≤ x → x < a + n → memset m a c n x ≡ c
unfolding memset
memset-inside m a c n x h k = ground arith

pub copy_in-IsOutside :
    (m : Mem) (a : ℕ) (bytes : List ℕ) (x : ℕ)
    → IsOutside a (length bytes) x
    → copy_in m a bytes x ≡ m x
unfolding copy_in
copy_in-IsOutside m a bytes x h = ground arith

pub copy_in-inside :
    (m : Mem) (a : ℕ) (bytes : List ℕ) (i : ℕ)
    → i < length bytes
    → copy_in m a bytes (a + i) ≡ get_or bytes i 0
unfolding copy_in
copy_in-inside m a bytes i h = ground (arith, ap (λ k. get_or bytes k 0) (back_to_index a i))
  where
    back_to_index : (x k : ℕ) → x + k - x ≡ k
    back_to_index x k = omega arith

pub store-IsOutside : (w : ℕ) (m : Mem) (a v x : ℕ) → IsOutside a w x → store w m a v x ≡ m x
unfolding store store8
store-IsOutside zero m a v x h = refl
store-IsOutside (suc w) m a v x h =
    ground (arith, store-IsOutside w (store8 m a v) (a + 1) (v / 256) x)

pub store-byte : (m : Mem) (a v : ℕ) → store 1 m a v a ≡ v % 256
unfolding store store8
store-byte m a v = ground arith

-- A read depends only on the bytes that it reads.
pub load_ext :
    (w : ℕ) (m m' : Mem) (a : ℕ)
    → ((x : ℕ) → a ≤ x → x < a + w → m x ≡ m' x)
    → load w m a ≡ load w m' a
unfolding load
load_ext zero m m' a h = refl
load_ext (suc w) m m' a h =
    ap₂ (λ b r. b + 256 * r) (h a (omega arith) (omega arith))
      (load_ext w m m' (a + 1) (λ x p q. h x (omega arith) (omega arith)))

pub load-store : (w : ℕ) (m : Mem) (a v : ℕ) → v < 256 ^ w → load w (store w m a v) a ≡ v
unfolding load store
load-store zero m a v h = omega arith
load-store (suc w) m a v h = omega (
  arith,
  pow-suc 256 w,
  store-IsOutside w (store8 m a v) (a + 1) (v / 256) a (omega arith),
  first_byte,
  load-store w (store8 m a v) (a + 1) (v / 256) (omega (arith, pow-suc 256 w)),
)
  where
    first_byte : store8 m a v a ≡ v % 256
    first_byte = unfold store8 in ground arith

pub load-store-IsOutside :
    (w w' : ℕ) (m : Mem) (a b v : ℕ)
    → (b + w' ≤ a) ⊎ (a + w ≤ b)
    → load w' (store w m a v) b ≡ load w' m b
load-store-IsOutside w w' m a b v h =
    load_ext w' (store w m a v) m b (λ x p q. store-IsOutside w m a v x (omega arith))

pub load-memset-IsOutside :
    (w : ℕ) (m : Mem) (a c n b : ℕ)
    → (b + w ≤ a) ⊎ (a + n ≤ b)
    → load w (memset m a c n) b ≡ load w m b
load-memset-IsOutside w m a c n b h =
    load_ext w (memset m a c n) m b (λ x p q. memset-IsOutside m a c n x (omega arith))

load-zeros : (w : ℕ) (m : Mem) (b : ℕ) → ((x : ℕ) → b ≤ x → x < b + w → m x ≡ 0) → load w m b ≡ 0
unfolding load
load-zeros zero m b h = refl
load-zeros (suc w) m b h = omega (
  arith,
  h b (omega arith) (omega arith),
  load-zeros w m (b + 1) (λ x p q. h x (omega arith) (omega arith)),
)

pub load-memset_zero :
    (w : ℕ) (m : Mem) (a n b : ℕ) → a ≤ b → b + w ≤ a + n → load w (memset m a 0 n) b ≡ 0
load-memset_zero w m a n b h k =
    load-zeros w (memset m a 0 n) b (λ x p q. memset-inside m a 0 n x (omega arith) (omega arith))

pub fill-IsOutside :
    (w : ℕ) (f : ℕ → ℕ) (n first : ℕ) (m : Mem) (a x : ℕ)
    → IsOutside a (w * n) x
    → fill w f n first m a x ≡ m x
unfolding fill
fill-IsOutside w f zero first m a x h = refl
fill-IsOutside w f (suc n) first m a x h =
    fill-IsOutside w f n (first + 1) (store w m a (f first)) (a + w) x (omega arith)
    ∙ store-IsOutside w m a (f first) x (omega arith)

pub load-fill-IsOutside :
    (w w' : ℕ) (f : ℕ → ℕ) (n first : ℕ) (m : Mem) (a b : ℕ)
    → (b + w' ≤ a) ⊎ (a + w * n ≤ b)
    → load w' (fill w f n first m a) b ≡ load w' m b
load-fill-IsOutside w w' f n first m a b h =
    load_ext w' (fill w f n first m a) m b (λ x p q. fill-IsOutside w f n first m a x (omega arith))

-- Every entry of a filled table reads back.
pub load-fill :
    (w : ℕ) (f : ℕ → ℕ) (n first : ℕ) (m : Mem) (a k : ℕ)
    → ((i : ℕ) → i < first + n → f i < 256 ^ w)
    → k < n
    → load w (fill w f n first m a) (a + w * k) ≡ f (first + k)
unfolding fill
load-fill w f zero first m a k small h = elim h [ ]
load-fill w f (suc n) first m a zero small h =
    let here : a + w * 0 ≡ a = omega arith in
    let same : first + 0 ≡ first = omega arith in
    rw (here, same)
      (load-fill-IsOutside w w f n (first + 1) (store w m a (f first)) (a + w) a (inl (omega arith))
        ∙ load-store w m a (f first) (small first (omega arith)))
load-fill w f (suc n) first m a (suc k) small h =
    let next : a + w * suc k ≡ a + w + w * k = omega arith in
    let same : first + suc k ≡ first + 1 + k = omega arith in
    rw (next, same)
      (load-fill w f n (first + 1) (store w m a (f first)) (a + w) k (λ i p. small i (omega arith))
        (omega arith))

-- Every byte fits a byte.
abbrev pub IsBytes : Mem → Type 0
IsBytes m = (x : ℕ) → m x < 256

pub load-lt : (w : ℕ) (m : Mem) (a : ℕ) → IsBytes m → load w m a < 256 ^ w
unfolding load
load-lt zero m a h = omega arith
load-lt (suc w) m a h = omega (arith, pow-suc 256 w, h a, load-lt w m (a + 1) h)
