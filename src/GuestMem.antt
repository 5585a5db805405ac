-- ===== src/GuestMem.antt =====
-- The memory that the VMM maps for a guest (`ctx->guest_mem`), as a byte for each offset, and the
-- accesses that the C makes through it: `memset`, `memcpy`, and little-endian reads and writes of
-- integers and of packed table entries.
pub mod Laws
use mini_kvm.Base.{ℕ, zero, suc, ◌+◌, ◌-◌, ◌*◌, ◌/◌, ◌%◌, Bool, ◌&&◌, List, [], ◌∷◌}
use mini_kvm.Base.{leb, ltb, ◌==◌, if◌then◌else◌, length, get_or}

abbrev pub Mem : Type 0
Mem = ℕ → ℕ

abbrev pub inside : ℕ → ℕ → ℕ → Bool
inside a n x = leb a x && ltb x (a + n)

unfoldable pub memset : Mem → ℕ → ℕ → ℕ → Mem
memset m a c n x = if inside a n x then c else m x

-- `memcpy(mem + a, bytes, length bytes)`
unfoldable pub copy_in : Mem → ℕ → List ℕ → Mem
copy_in m a bytes x = if inside a (length bytes) x then get_or bytes (x - a) 0 else m x

unfoldable pub store8 : Mem → ℕ → ℕ → Mem
store8 m a v x = if x == a then v % 256 else m x

-- `w` bytes of `v` at `a`, the lowest first.
unfoldable pub store : ℕ → Mem → ℕ → ℕ → Mem
store zero m a v = m
store (suc w) m a v = store w (store8 m a v) (a + 1) (v / 256)

unfoldable pub load : ℕ → Mem → ℕ → ℕ
load zero m a = 0
load (suc w) m a = m a + 256 * load w m (a + 1)

-- `for (i = 0; i < n; i++) table[i] = f(first + i)`, with entries of `w` bytes from `a` on.
unfoldable pub fill : ℕ → (ℕ → ℕ) → ℕ → ℕ → Mem → ℕ → Mem
fill w f zero first m a = m
fill w f (suc n) first m a = fill w f n (first + 1) (store w m a (f first)) (a + w)
