-- ===== src/Os1k/Process/AddressSpace.antt =====
-- The address space of a new process.
use mini_kvm.Base.{ℕ, ◌+◌, ◌-◌, ◌*◌, ◌^◌, ◌≤◌, ◌<◌, ◌≡◌, ◌⊎◌, inl, inr, sym, ◌∙◌}
use mini_kvm.Base.{arith, subst, false, none, some, Bool-cases}
use mini_kvm.Base.{List, [], length, get_or, u32, dec_lt}
use mini_kvm.Paging32.Walk.{walk, is_present}
use mini_kvm.Os1k.Memory.{Ram, phys, page_size, map_user, ◌>>=◌}
use mini_kvm.Os1k.Memory.{table_get}
use mini_kvm.Os1k.Memory.Entries.{frame_bits}
use mini_kvm.Os1k.Memory.Fresh.{IsSpace, cost}
use mini_kvm.Os1k.Memory.Range.{within, Grows, Grows-trans}
use mini_kvm.Os1k.Memory.NewPage.{get_or_past}
use mini_kvm.Os1k.Memory.UserPages.{Holds, Holds-Grows, map_user-Holds}
use mini_kvm.Os1k.Process.{pages_for, code_end, user_base, stack_top}

-- At 0x80000000 and at 0 the low 4MB of memory; from 0x01000000 on `n` pages of the process's own,
-- with the bytes of `image` and zeros behind it; page faults everywhere else.
pub record IsAddressSpace (page_table n : ℕ) (image : List ℕ) (r : Ram) : Type 0 where
  pub kernel : (a : ℕ) → a < 2 ^ 22 → walk r.mem (phys page_table) (0x80000000 + a) ≡ some a
  pub low : (a : ℕ) → a < 2 ^ 22 → walk r.mem (phys page_table) a ≡ some a
  pub user : (i : ℕ) → i < n * 4096 → Holds page_table (user_base + i) (get_or image i 0) r
  pub fault :
      (va : ℕ)
      → va < 2 ^ 32
      → 2 ^ 22 ≤ va
      → (va < user_base) ⊎ (user_base + n * 4096 ≤ va)
      → (va < 0x80000000) ⊎ (0x80000000 + 2 ^ 22 ≤ va)
      → walk r.mem (phys page_table) va ≡ none

pub cost-le : (page_table pd : ℕ) (r : Ram) → cost page_table pd r ≤ 4096
cost-le page_table pd r = elim (Bool-cases (is_present (table_get r.mem page_table pd))) [
  | inl p ↦ rw p (omega arith)
  | inr n ↦ rw n (omega arith)
]

-- The number of user pages: those of the image, and at least up to the top of the stack.
abbrev pub user_pages : ℕ → ℕ
user_pages image_size = pages_for image_size + (4 - pages_for image_size)

code_end-pages : (size : ℕ) → size ≤ 2 ^ 22 → code_end size ≡ user_base + pages_for size * 4096
code_end-pages size h = omega (arith, frame_bits (u32 (size + (page_size - 1))) (omega arith))

stack_pages : (n : ℕ) → pages_for (stack_top - (user_base + n * 4096)) ≡ 4 - n
stack_pages n = omega arith

module _ (lo ram_end page_table : ℕ) (bound : ram_end < 2 ^ 32) (image : List ℕ)
    (size : length image ≤ 2 ^ 22) where
  -- Both user loops.
  pub user_mapped :
      (r : Ram)
      → IsSpace lo page_table r
      → r.next_paddr + user_pages (length image) * 4096 + 8192 ≤ ram_end
      → (r' : Ram) × ((map_user ram_end page_table (pages_for (length image)) user_base image r
            >>= (λ r.
                map_user ram_end page_table
                  (pages_for (stack_top - code_end (length image)))
                  (code_end (length image))
                  []
                  r))
          ≡ some r')
        × Grows lo page_table (user_pages (length image) * 4096 + 8192) r r'
        × ((va : ℕ)
            → va < 2 ^ 32
            → (va < user_base) ⊎ (user_base + user_pages (length image) * 4096 ≤ va)
            → walk r'.mem (phys page_table) va ≡ walk r.mem (phys page_table) va)
        × ((i : ℕ)
            → i < user_pages (length image) * 4096
            → Holds page_table (user_base + i) (get_or image i 0) r')
  user_mapped r space room =
      let n = pages_for (length image) in
      let (s, e, g, other, holds) =
        map_user-Holds lo ram_end page_table 4 n user_base image r space bound
          (omega (arith, cost-le page_table 4 r)) (omega arith) (omega arith) (omega arith)
          (omega arith) in
      let (t, e', g', other', holds') =
        map_user-Holds lo ram_end page_table 4 (4 - n) (user_base + n * 4096) [] s g.space bound
          (omega (arith, g.upto, cost-le page_table 4 r, cost-le page_table 4 s)) (omega arith)
          (omega arith) (omega arith) (omega arith) in
      (
        t,
        rw (e, code_end-pages (length image) size, stack_pages n) e',
        Grows-trans lo page_table (n * 4096 + cost page_table 4 r)
            ((4 - n) * 4096 + cost page_table 4 s) (user_pages (length image) * 4096 + 8192) r s t g
            g' (omega (arith, cost-le page_table 4 r, cost-le page_table 4 s)),
        λ va h out. other' va h (out_second va out) ∙ other va h (out_first va out),
        λ i h. elim (dec_lt i (n * 4096)) [
          | yes l ↦
              Holds-Grows lo page_table ((4 - n) * 4096 + cost page_table 4 s) (user_base + i)
                (get_or image i 0) s t g' (other' (user_base + i) (omega arith) (before i l))
                (holds i l)
          | no ge ↦
              subst (λ b. Holds page_table (user_base + i) b t) (no_image i ge)
                (subst (λ va. Holds page_table va 0 t) (same_place i ge)
                  (holds' (i - n * 4096) (omega (arith, ge))))
        ],
      )
    where
      out_first :
          (va : ℕ)
          → (va < user_base) ⊎ (user_base + user_pages (length image) * 4096 ≤ va)
          → within user_base (pages_for (length image)) va ≡ false
      out_first va out = ground arith

      out_second :
          (va : ℕ)
          → (va < user_base) ⊎ (user_base + user_pages (length image) * 4096 ≤ va)
          → within (user_base + pages_for (length image) * 4096) (4 - pages_for (length image)) va
            ≡ false
      out_second va out = ground arith

      no_image : (i : ℕ) → (i < pages_for (length image) * 4096 → ⊥) → 0 ≡ get_or image i 0
      no_image i ge = sym (get_or_past image i (omega (arith, ge)))

      same_place :
          (i : ℕ)
          → (i < pages_for (length image) * 4096 → ⊥)
          → user_base + pages_for (length image) * 4096 + (i - pages_for (length image) * 4096)
            ≡ user_base + i
      same_place i ge = omega (arith, ge)

      before :
          (i : ℕ)
          → i < pages_for (length image) * 4096
          → within
              (user_base + pages_for (length image) * 4096)
              (4 - pages_for (length image))
              (user_base + i)
            ≡ false
      before i l = ground arith
