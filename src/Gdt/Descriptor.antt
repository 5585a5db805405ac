-- ===== src/Gdt/Descriptor.antt =====
-- How the processor reads an 8-byte segment descriptor (Intel SDM, vol. 3, 3.4.5), and that it
-- reads back what `create_gdt_entry` was given.
use mini_kvm.Base.{ℕ, ◌+◌, ◌*◌, ◌/◌, ◌%◌, ◌^◌, ◌<◌, ◌≡◌, ◌∙◌, arith, bit_and, bit_or, inl, inr}
use mini_kvm.Base.Bits.{or_comm, or-fields, and-low, and-high}
use mini_kvm.GuestMem.{Mem, load}
use mini_kvm.GuestMem.Laws.{load-store, load-store-IsOutside, IsOutside, store-IsOutside}
use mini_kvm.Gdt.{create_gdt_entry}

pub record Descriptor : Type 0 where
  pub base : ℕ
  pub limit : ℕ
  pub access : ℕ
  pub flags : ℕ

-- The fields of a descriptor as a 64-bit number.
abbrev pub decode : ℕ → Descriptor
decode q = record {
  base = q / 2 ^ 16 % 2 ^ 24 + q / 2 ^ 56 % 2 ^ 8 * 2 ^ 24;
  limit = q % 2 ^ 16 + q / 2 ^ 48 % 2 ^ 4 * 2 ^ 16;
  access = q / 2 ^ 40 % 2 ^ 8;
  flags = q / 2 ^ 52 % 2 ^ 4;
}

load-fields :
    (m : Mem) (a : ℕ)
    → load 8 m a
      ≡ load 2 m a
        + 2 ^ 16 * load 2 m (a + 2)
        + 2 ^ 32 * load 1 m (a + 4)
        + 2 ^ 40 * load 1 m (a + 5)
        + 2 ^ 48 * load 1 m (a + 6)
        + 2 ^ 56 * load 1 m (a + 7)
unfolding load
load-fields m a = ground arith

granular :
    (limit flags : ℕ)
    → flags < 256
    → bit_or (bit_and (limit / 2 ^ 16) 0x0F) (bit_and flags 0xF0)
      ≡ limit / 2 ^ 16 % 16 + flags / 16 * 16
granular limit flags h = ground (
  arith,
  and-low 4 (limit / 2 ^ 16),
  and-high 4 flags 0x0F,
  and-low 4 (flags / 2 ^ 4),
  or_comm (limit / 2 ^ 16 % 16) (flags / 16 * 16),
  or-fields 4 (flags / 16) (limit / 2 ^ 16 % 16),
)

module _ (m : Mem) (a base limit access flags : ℕ) where
  abbrev made : Mem
  made = create_gdt_entry m a base limit access flags

  base_low-made : load 2 made (a + 2) ≡ base % 2 ^ 16
  unfolding create_gdt_entry
  base_low-made =
      load-store-IsOutside 1 2 _ (a + 6) (a + 2) _ (inl (omega arith))
      ∙ load-store-IsOutside 1 2 _ (a + 5) (a + 2) _ (inl (omega arith))
      ∙ load-store-IsOutside 2 2 _ a (a + 2) _ (inr (omega arith))
      ∙ load-store-IsOutside 1 2 _ (a + 7) (a + 2) _ (inl (omega arith))
      ∙ load-store-IsOutside 1 2 _ (a + 4) (a + 2) _ (inl (omega arith))
      ∙ load-store 2 m (a + 2) _ (omega (arith, and-low 16 base))
      ∙ and-low 16 base

  base_mid-made : load 1 made (a + 4) ≡ base / 2 ^ 16 % 2 ^ 8
  unfolding create_gdt_entry
  base_mid-made =
      load-store-IsOutside 1 1 _ (a + 6) (a + 4) _ (inl (omega arith))
      ∙ load-store-IsOutside 1 1 _ (a + 5) (a + 4) _ (inl (omega arith))
      ∙ load-store-IsOutside 2 1 _ a (a + 4) _ (inr (omega arith))
      ∙ load-store-IsOutside 1 1 _ (a + 7) (a + 4) _ (inl (omega arith))
      ∙ load-store 1 _ (a + 4) _ (omega (arith, and-low 8 (base / 2 ^ 16)))
      ∙ and-low 8 (base / 2 ^ 16)

  base_high-made : load 1 made (a + 7) ≡ base / 2 ^ 24 % 2 ^ 8
  unfolding create_gdt_entry
  base_high-made =
      load-store-IsOutside 1 1 _ (a + 6) (a + 7) _ (inr (omega arith))
      ∙ load-store-IsOutside 1 1 _ (a + 5) (a + 7) _ (inr (omega arith))
      ∙ load-store-IsOutside 2 1 _ a (a + 7) _ (inr (omega arith))
      ∙ load-store 1 _ (a + 7) _ (omega (arith, and-low 8 (base / 2 ^ 24)))
      ∙ and-low 8 (base / 2 ^ 24)

  limit_low-made : load 2 made a ≡ limit % 2 ^ 16
  unfolding create_gdt_entry
  limit_low-made =
      load-store-IsOutside 1 2 _ (a + 6) a _ (inl (omega arith))
      ∙ load-store-IsOutside 1 2 _ (a + 5) a _ (inl (omega arith))
      ∙ load-store 2 _ a _ (omega (arith, and-low 16 limit))
      ∙ and-low 16 limit

  access-made : access < 256 → load 1 made (a + 5) ≡ access
  unfolding create_gdt_entry
  access-made access_small =
      load-store-IsOutside 1 1 _ (a + 6) (a + 5) _ (inl (omega arith))
      ∙ load-store 1 _ (a + 5) _ access_small

  limit_granular-made : flags < 256 → load 1 made (a + 6) ≡ limit / 2 ^ 16 % 16 + flags / 16 * 16
  unfolding create_gdt_entry
  limit_granular-made flags_small =
      load-store 1 _ (a + 6) _ (omega (arith, granular limit flags flags_small))
      ∙ granular limit flags flags_small

  made-IsOutside : (x : ℕ) → IsOutside a 8 x → made x ≡ m x
  unfolding create_gdt_entry
  made-IsOutside x out =
      store-IsOutside 1 _ (a + 6) _ x (omega arith)
      ∙ store-IsOutside 1 _ (a + 5) _ x (omega arith)
      ∙ store-IsOutside 2 _ a _ x (omega arith)
      ∙ store-IsOutside 1 _ (a + 7) _ x (omega arith)
      ∙ store-IsOutside 1 _ (a + 4) _ x (omega arith)
      ∙ store-IsOutside 2 _ (a + 2) _ x (omega arith)

descriptor_ext :
    {d e : Descriptor}
    → d.base ≡ e.base
    → d.limit ≡ e.limit
    → d.access ≡ e.access
    → d.flags ≡ e.flags
    → d ≡ e
descriptor_ext p q r s = cc

-- The digits of a number in the six fields' places.
module _ (ll bl bm ac lg bh : ℕ) (hll : ll < 2 ^ 16) (hbl : bl < 2 ^ 16) (hbm : bm < 2 ^ 8)
    (hac : ac < 2 ^ 8) (hlg : lg < 2 ^ 8) (hbh : bh < 2 ^ 8) where
  abbrev packed : ℕ
  packed = ll + 2 ^ 16 * bl + 2 ^ 32 * bm + 2 ^ 40 * ac + 2 ^ 48 * lg + 2 ^ 56 * bh

  base_bits : (decode packed).base ≡ bl + 2 ^ 16 * bm + 2 ^ 24 * bh
  base_bits = omega arith

  limit_bits : (decode packed).limit ≡ ll + lg % 16 * 2 ^ 16
  limit_bits = omega arith

  access_bits : (decode packed).access ≡ ac
  access_bits = omega arith

  flags_bits : (decode packed).flags ≡ lg / 16
  flags_bits = omega arith

-- The processor reads the entry that `create_gdt_entry` wrote as a descriptor of the given base,
-- the low 20 bits of the limit, the access byte and the upper half of the flags byte, if the
-- arguments fit their C types; and the entry's 8 bytes are all that it changed.
pub create_gdt_entry-decode :
    (m : Mem) (a base limit access flags : ℕ)
    → base < 2 ^ 32
    → access < 256
    → flags < 256
    → let m' = create_gdt_entry m a base limit access flags in
      (decode (load 8 m' a)
        ≡ record { base = base; limit = limit % 2 ^ 20; access = access; flags = flags / 16 })
      × ((x : ℕ) → IsOutside a 8 x → m' x ≡ m x)
create_gdt_entry-decode m a base limit access flags hb ha hf = (
  rw
      (
        load-fields (made m a base limit access flags) a,
        base_low-made m a base limit access flags,
        base_mid-made m a base limit access flags,
        base_high-made m a base limit access flags,
        limit_low-made m a base limit access flags,
        access-made m a base limit access flags ha,
        limit_granular-made m a base limit access flags hf,
      )
      (descriptor_ext
        (base_bits (limit % 2 ^ 16) (base % 2 ^ 16) (base / 2 ^ 16 % 2 ^ 8) access
            (limit / 2 ^ 16 % 16 + flags / 16 * 16) (base / 2 ^ 24 % 2 ^ 8) (omega arith)
            (omega arith) (omega arith) (omega arith) (omega arith) (omega arith)
          ∙ omega arith)
        (limit_bits (limit % 2 ^ 16) (base % 2 ^ 16) (base / 2 ^ 16 % 2 ^ 8) access
            (limit / 2 ^ 16 % 16 + flags / 16 * 16) (base / 2 ^ 24 % 2 ^ 8) (omega arith)
            (omega arith) (omega arith) (omega arith) (omega arith) (omega arith)
          ∙ omega arith)
        (access_bits (limit % 2 ^ 16) (base % 2 ^ 16) (base / 2 ^ 16 % 2 ^ 8) access
            (limit / 2 ^ 16 % 16 + flags / 16 * 16) (base / 2 ^ 24 % 2 ^ 8) (omega arith)
            (omega arith) (omega arith) (omega arith) (omega arith) (omega arith)
          ∙ omega arith)
        (flags_bits (limit % 2 ^ 16) (base % 2 ^ 16) (base / 2 ^ 16 % 2 ^ 8) access
            (limit / 2 ^ 16 % 16 + flags / 16 * 16) (base / 2 ^ 24 % 2 ^ 8) (omega arith)
            (omega arith) (omega arith) (omega arith) (omega arith) (omega arith)
          ∙ omega arith)),
  made-IsOutside m a base limit access flags,
)

pub create_gdt_entry-IsOutside :
    (m : Mem) (a base limit access flags x : ℕ)
    → IsOutside a 8 x
    → create_gdt_entry m a base limit access flags x ≡ m x
create_gdt_entry-IsOutside m a base limit access flags x out =
    made-IsOutside m a base limit access flags x out
