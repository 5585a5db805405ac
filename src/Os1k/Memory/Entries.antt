-- ===== src/Os1k/Memory/Entries.antt =====
-- The bits of a table entry.
use mini_kvm.Base.{ℕ, ◌+◌, ◌-◌, ◌*◌, ◌/◌, ◌%◌, ◌^◌, ◌<◌, ◌≡◌, ap, ap₂, ◌∙◌, arith}
use mini_kvm.Base.{bit_and, bit_or}
use mini_kvm.Base.Bits.{and-low, and-high, or-fields, or_assoc, or-zero, bit_or_digit}

-- `x & 0x3FF`
pub index_bits : (x : ℕ) → bit_and x 0x3FF ≡ x % 1024
index_bits x = and-low 10 x

-- `is_aligned`
pub offset_bits : (x : ℕ) → bit_and x (4096 - 1) ≡ x % 4096
offset_bits x = and-low 12 x

pub present_bit : (x : ℕ) → bit_and x 1 ≡ x % 2
present_bit x = and-low 1 x

pub frame_bits : (x : ℕ) → x < 2 ^ 32 → bit_and x 0xFFFFF000 ≡ x / 4096 * 4096
frame_bits x h = and-high 12 x 0xFFFFF ∙ ap (λ q. q * 4096) (and-low 20 (x / 4096) ∙ small)
  where
    small : x / 4096 % 2 ^ 20 ≡ x / 4096
    small = omega arith

-- The entry for a page table.
pub table_entry :
    (p : ℕ)
    → p < 2 ^ 32
    → p % 4096 ≡ 0
    → bit_or (bit_or (bit_or (bit_and p 0xFFFFF000) 1) 2) 4 ≡ p + 7
table_entry p h a =
    or_assoc (bit_or (bit_and p 0xFFFFF000) 1) 2 4
    ∙ or_assoc (bit_and p 0xFFFFF000) 1 6
    ∙ ap (λ x. bit_or x 7) (frame_bits p h)
    ∙ or-fields 12 (p / 4096) 7 (omega arith)
    ∙ omega arith

or_one : (f : ℕ) → bit_or f 1 ≡ f / 2 * 2 + 1
or_one f = bit_or_digit f 1 ∙ ap₂ (λ a b. a * 2 + b) (or-zero (f / 2)) (omega arith)

-- The entry for a page: its address, the flags and PAGE_P.
pub page_entry :
    (p f : ℕ)
    → p < 2 ^ 32
    → p % 4096 ≡ 0
    → f < 4096
    → bit_or (bit_or (bit_and p 0xFFFFF000) f) 1 ≡ p + (f / 2 * 2 + 1)
page_entry p f h a hf =
    or_assoc (bit_and p 0xFFFFF000) f 1
    ∙ ap₂ bit_or (frame_bits p h) (or_one f)
    ∙ or-fields 12 (p / 4096) (f / 2 * 2 + 1) (omega arith)
    ∙ omega arith
