-- ===== src/LinuxBoot/E820.antt =====
-- The memory map that the zero page hands to Linux.
use mini_kvm.Base.{length}
use mini_kvm.Base.{ℕ, zero, suc, ◌+◌, ◌^◌, ◌≤◌, ◌<◌, ◌≡◌, ◌⊎◌, inl, inr, refl, ap}
use mini_kvm.Base.{ap₂, ◌∙◌, arith, List, [], ◌∷◌, ◌++◌, ltb, if◌then◌else◌}
use mini_kvm.Base.{dec_lt}
use native.Mathlib.Nat.{zero-add}
use mini_kvm.GuestMem.{Mem, store, load}
use mini_kvm.GuestMem.Laws.{IsOutside, store-IsOutside, load-store, load-store-IsOutside, load_ext}
use mini_kvm.GuestMem.Laws.{store-byte}
use mini_kvm.LinuxBoot.{e820_entries, e820_map, e820_entry, add_e820_entry}
use mini_kvm.LinuxBoot.{}

-- `struct e820_entry`
pub record Range : Type 0 where
  pub addr : ℕ
  pub size : ℕ
  pub type : ℕ

abbrev pub entry_at : Mem → ℕ → Range
entry_at params i = record {
  addr = load 8 params (e820_entry i);
  size = load 8 params (e820_entry i + 8);
  type = load 4 params (e820_entry i + 16);
}

-- `n` entries from index `i` on.
abbrev pub entries : Mem → ℕ → ℕ → List Range
entries params zero i = []
entries params (suc n) i = entry_at params i ∷ entries params n (i + 1)

-- The map as Linux reads it.
unfoldable pub e820_table : Mem → List Range
e820_table params = entries params (params e820_entries) 0

entry_at_ext :
    (p q : Mem) (i : ℕ)
    → ((x : ℕ) → e820_entry i ≤ x → x < e820_entry i + 20 → p x ≡ q x)
    → entry_at p i ≡ entry_at q i
entry_at_ext p q i h =
    range_ext (load_ext 8 p q _ (λ x a b. h x (omega arith) (omega arith)))
      (load_ext 8 p q _ (λ x a b. h x (omega arith) (omega arith)))
      (load_ext 4 p q _ (λ x a b. h x (omega arith) (omega arith)))
  where
    range_ext : {r s : Range} → r.addr ≡ s.addr → r.size ≡ s.size → r.type ≡ s.type → r ≡ s
    range_ext a b c = cc

entries_ext :
    (p q : Mem) (n i : ℕ)
    → ((x : ℕ) → e820_entry i ≤ x → x < e820_entry (i + n) → p x ≡ q x)
    → entries p n i ≡ entries q n i
entries_ext p q zero i h = refl
entries_ext p q (suc n) i h =
    ap₂ ◌∷◌ (entry_at_ext p q i (λ x a b. h x a (omega arith)))
      (entries_ext p q n (i + 1) (λ x a b. h x (omega arith) (omega arith)))

entries-snoc : (p : Mem) (n i : ℕ) → entries p (suc n) i ≡ entries p n i ++ entry_at p (i + n) ∷ []
entries-snoc p zero i = ap (λ k. entry_at p k ∷ []) (omega arith)
entries-snoc p (suc n) i =
    ap (λ r. entry_at p i ∷ r)
      (entries-snoc p n (i + 1) ∙ ap (λ k. entries p n (i + 1) ++ entry_at p k ∷ []) (omega arith))

-- The map depends on the count and on the bytes from its start on.
pub table_ext :
    (p q : Mem)
    → ((x : ℕ) → (x ≡ e820_entries) ⊎ (e820_map ≤ x) → p x ≡ q x)
    → e820_table p ≡ e820_table q
unfolding e820_table
table_ext p q h =
    rw (h e820_entries (inl refl))
      (entries_ext p q (q e820_entries) 0 (λ x a b. h x (inr (omega arith))))

length-entries : (params : Mem) (n i : ℕ) → length (entries params n i) ≡ n
length-entries params zero i = refl
length-entries params (suc n) i = ap suc (length-entries params n (i + 1))

-- The table is read from the zero page alone.
pub table_ext-page :
    (p q : Mem)
    → length (e820_table q) ≤ 128
    → ((x : ℕ) → (x ≡ e820_entries) ⊎ ((e820_map ≤ x) × (x < 4096)) → p x ≡ q x)
    → e820_table p ≡ e820_table q
unfolding e820_table
table_ext-page p q few h = rw (h e820_entries (inl refl)) (
    entries_ext p q (q e820_entries) 0
      (λ x a b. h x (inr (omega arith, omega (arith, length-entries q (q e820_entries) 0)))))

-- Neither the count nor the map.
abbrev pub IsBeside : ℕ → Type 0
IsBeside x = IsOutside e820_entries 1 x × IsOutside e820_map 2560 x

module _ (p : Mem) (addr size type : ℕ) (room : p e820_entries < 128) where
  abbrev entry : ℕ
  entry = e820_entry (p e820_entries)

  abbrev filled : Mem
  filled = store 4 (store 8 (store 8 p entry addr) (entry + 8) size) (entry + 16) type

  filled-IsOutside : (x : ℕ) → IsOutside entry 20 x → filled x ≡ p x
  filled-IsOutside x out =
      store-IsOutside 4 _ (entry + 16) type x (omega arith)
      ∙ store-IsOutside 8 _ (entry + 8) size x (omega arith)
      ∙ store-IsOutside 8 _ entry addr x (omega arith)

  abbrev added : Mem
  added = store 1 filled e820_entries (p e820_entries + 1)

  added-room : add_e820_entry p addr size type ≡ added
  unfolding add_e820_entry
  added-room = ground arith

  added-count : added e820_entries ≡ suc (p e820_entries)
  added-count = store-byte filled e820_entries (p e820_entries + 1) ∙ omega arith

  added-filled : (x : ℕ) → e820_map ≤ x → added x ≡ filled x
  added-filled x h = store-IsOutside 1 filled e820_entries _ x (omega arith)

  added-older : entries added (p e820_entries) 0 ≡ entries p (p e820_entries) 0
  added-older =
      entries_ext added p (p e820_entries) 0
        (λ x a b. added-filled x (omega arith) ∙ filled-IsOutside x (omega arith))

  added-newest :
      addr < 2 ^ 64
      → size < 2 ^ 64
      → type < 2 ^ 32
      → entry_at added (p e820_entries) ≡ record { addr = addr; size = size; type = type }
  added-newest ha hs ht =
      entry_at_ext added filled (p e820_entries) (λ x a b. added-filled x (omega arith))
      ∙ rw (at_addr, at_size, at_type) refl
    where
      at_type : load 4 filled (entry + 16) ≡ type
      at_type = load-store 4 _ (entry + 16) type (omega arith)

      at_size : load 8 filled (entry + 8) ≡ size
      at_size =
          load-store-IsOutside 4 8 _ (entry + 16) (entry + 8) type (inl (omega arith))
          ∙ load-store 8 _ (entry + 8) size (omega arith)

      at_addr : load 8 filled entry ≡ addr
      at_addr =
          load-store-IsOutside 4 8 _ (entry + 16) entry type (inl (omega arith))
          ∙ load-store-IsOutside 8 8 _ (entry + 8) entry size (inl (omega arith))
          ∙ load-store 8 _ entry addr (omega arith)

  added-table :
      addr < 2 ^ 64
      → size < 2 ^ 64
      → type < 2 ^ 32
      → e820_table (add_e820_entry p addr size type)
        ≡ e820_table p ++ record { addr = addr; size = size; type = type } ∷ []
  unfolding e820_table
  added-table ha hs ht =
      rw (added-room, added-count)
        (entries-snoc added (p e820_entries) 0
          ∙ ap₂ (λ older newest. older ++ newest ∷ []) added-older
              (ap (λ k. entry_at added k) (zero-add (p e820_entries)) ∙ added-newest ha hs ht))

  added-beside : (x : ℕ) → IsBeside x → add_e820_entry p addr size type x ≡ p x
  added-beside x (out, beside) =
      ap (λ q. q x) added-room
      ∙ store-IsOutside 1 filled e820_entries _ x out
      ∙ filled-IsOutside x (omega arith)

full : (p : Mem) (addr size type : ℕ) → 128 ≤ p e820_entries → add_e820_entry p addr size type ≡ p
unfolding add_e820_entry
full p addr size type h = ground arith

-- An entry of 64-bit address and size and 32-bit type is added at the end of the map, and nothing
-- but the count and the map is changed; a map of 128 entries or more is left as it is.
pub add_e820_entry_lem :
    (p : Mem) (addr size type : ℕ)
    → addr < 2 ^ 64
    → size < 2 ^ 64
    → type < 2 ^ 32
    → let q = add_e820_entry p addr size type in
      (e820_table q ≡ (
        if ltb (p e820_entries) 128
        then e820_table p ++ record { addr = addr; size = size; type = type } ∷ []
        else e820_table p))
      × (q e820_entries
          ≡ (if ltb (p e820_entries) 128 then suc (p e820_entries) else p e820_entries))
      × ((x : ℕ) → IsBeside x → q x ≡ p x)
add_e820_entry_lem p addr size type ha hs ht = elim (dec_lt (p e820_entries) 128) [
  | yes room ↦ (
    added-table p addr size type room ha hs ht ∙ ground arith,
    ap (λ q. q e820_entries) (added-room p addr size type room)
        ∙ added-count p addr size type room
        ∙ ground arith,
    added-beside p addr size type room,
  )
  | no over ↦
      rw (full p addr size type (omega (arith, over)))
        (ground (arith, over), ground (arith, over), λ x out. refl)
]
