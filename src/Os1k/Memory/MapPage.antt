-- ===== src/Os1k/Memory/MapPage.antt =====
-- `map_page` maps one page, and leaves every other as it is.
use mini_kvm.Base.{ℕ, ◌+◌, ◌-◌, ◌*◌, ◌/◌, ◌%◌, ◌^◌, ◌≤◌, ◌<◌, ◌≡◌, ◌≢◌, ◌⊎◌, inl, inr, refl}
use mini_kvm.Base.{ap, ap₂, ◌∙◌, arith, true, false, none, some, ◌==◌, if◌then◌else◌}
use mini_kvm.Base.{Bool-cases, bit_and, ◌>>>◌, u32, ==_iff, ℕ_discrete}
use mini_kvm.GuestMem.{store}
use mini_kvm.Paging32.Walk.{is_present, frame, walk}
use mini_kvm.Os1k.Memory.{Ram, kernel_base, phys, page_size, set_page, map_page}
use mini_kvm.Os1k.Memory.{table_get}
use mini_kvm.Os1k.Memory.Entries.{index_bits, offset_bits, frame_bits, page_entry}
use mini_kvm.Os1k.Memory.Directory.{pd_index, pt_index, page_of}
use mini_kvm.Os1k.Memory.Directory.{
  written-IsDirectory, written-walk, written-walk_other, written-IsOwned, written-byte,
  written-there,
}
use mini_kvm.Os1k.Memory.Fresh.{IsSpace, cost, Extends, ensure_table-Extends}

-- The entry that is stored.
abbrev value : ℕ → ℕ → ℕ
value paddr flags = paddr + (flags / 2 * 2 + 1)

-- The page is mapped to `paddr`, and all else as before.
abbrev pub Maps : ℕ → ℕ → ℕ → Ram → Ram → Type 0
Maps page_table vaddr paddr r r' =
    (va : ℕ)
    → va < 2 ^ 32
    → walk r'.mem (phys page_table) va ≡ (
        if va / 4096 == vaddr / 4096
        then some (paddr + va % 4096)
        else walk r.mem (phys page_table) va)

module _ (lo page_table vaddr paddr flags : ℕ) (r : Ram) (space : IsSpace lo page_table r)
    (bound : r.next_paddr < 2 ^ 32) (hv : vaddr < 2 ^ 32) (hp : paddr < 2 ^ 32)
    (aligned : paddr % 4096 ≡ 0) (hf : flags < 4096)
    (there : is_present (table_get r.mem page_table (pd_index vaddr)) ≡ true) where
  -- The table is found where its entry says.
  abbrev table : ℕ
  table = frame (table_get r.mem page_table (pd_index vaddr))

  -- Memory afterwards.
  abbrev set : Ram
  set = record r { mem = store 4 r.mem (table + 4 * pt_index vaddr) (value paddr flags) }

  table-lt : table + 4096 ≤ phys r.next_paddr
  table-lt = (space.dir.tables (pd_index vaddr) (omega arith) there).1

  set_page-set : set_page page_table (pd_index vaddr) vaddr paddr flags r ≡ set
  unfolding set_page
  set_page-set =
      ap₂ (λ t v. record r { mem = store 4 r.mem t v }) slot (page_entry paddr flags hp aligned hf)
    where
      e : ℕ
      e = table_get r.mem page_table (pd_index vaddr)

      small : e < 2 ^ 32
      small = omega (arith, table-lt)

      slot :
          phys (u32 (bit_and e 0xFFFFF000 + kernel_base)) + 4 * bit_and (vaddr >>> 12) 0x3FF
          ≡ table + 4 * pt_index vaddr
      slot = omega (arith, frame_bits e small, index_bits (vaddr / 2 ^ 12), table-lt)

  same_page :
      (va : ℕ)
      → va < 2 ^ 32
      → (va / 4096 == vaddr / 4096) ≡ true
      → (pd_index va ≡ pd_index vaddr) × (pt_index va ≡ pt_index vaddr)
  same_page va h e = let s = (==_iff (va / 4096) (vaddr / 4096)).0 e in (omega arith, omega arith)

  other_page :
      (va : ℕ)
      → va < 2 ^ 32
      → (va / 4096 == vaddr / 4096) ≡ false
      → (pd_index va ≢ pd_index vaddr) ⊎ (pt_index va ≢ pt_index vaddr)
  other_page va h e = elim (ℕ_discrete (pd_index va) (pd_index vaddr)) [
    | no ne ↦ inl ne
    | yes same ↦ inr (λ f. differ same f)
  ]
    where
      differ : pd_index va ≡ pd_index vaddr → pt_index va ≡ pt_index vaddr → ⊥
      differ p q = let n : va / 4096 ≡ vaddr / 4096 = omega arith in ground arith

  set-Maps : Maps page_table vaddr paddr r set
  set-Maps va h = elim (Bool-cases (va / 4096 == vaddr / 4096)) [
    | inl same ↦
        let (p, q) = same_page va h same in
        rw same (
          written-walk lo hi r.mem d space.dir (pd_index vaddr) (pt_index vaddr) v hpd hpt small
            there va p q
          ∙ found va)
    | inr other ↦ rw other (
        written-walk_other lo hi r.mem d space.dir (pd_index vaddr) (pt_index vaddr) v hpd hpt small
          there va (other_page va h other))
  ]
    where
      d : ℕ
      d = phys page_table

      hi : ℕ
      hi = phys r.next_paddr

      v : ℕ
      v = value paddr flags

      hpd : pd_index vaddr < 1024
      hpd = omega arith

      hpt : pt_index vaddr < 1024
      hpt = omega arith

      small : v < 256 ^ 4
      small = omega arith

      found : (va : ℕ) → page_of v va ≡ some (paddr + va % 4096)
      found va = rw (odd, whole) refl
        where
          odd : is_present v ≡ true
          odd = ground arith

          whole : frame v ≡ paddr
          whole = omega arith

  set-Extends : Extends lo page_table (pd_index vaddr) r set
  set-Extends = record {
    space = record {
      dir = written-IsDirectory lo hi r.mem d space.dir pd pt v hpd hpt small there;
      page = space.page;
      high = space.high;
    };
    there = written-there lo hi r.mem d space.dir pd pt v hpd hpt small there;
    next = rw there (omega arith);
    pages = written-IsOwned lo hi r.mem d space.dir pd pt v hpd hpt small there;
    bytes = written-byte lo hi r.mem d space.dir pd pt v hpd hpt small there;
  }
    where
      d : ℕ
      d = phys page_table

      hi : ℕ
      hi = phys r.next_paddr

      v : ℕ
      v = value paddr flags

      pd : ℕ
      pd = pd_index vaddr

      pt : ℕ
      pt = pt_index vaddr

      hpd : pd < 1024
      hpd = omega arith

      hpt : pt < 1024
      hpt = omega arith

      small : v < 256 ^ 4
      small = omega arith

-- Two steps that keep the directory, the second with its table at hand.
Extends-trans :
    (lo page_table pd : ℕ) (r s t : Ram)
    → Extends lo page_table pd r s
    → Extends lo page_table pd s t
    → Extends lo page_table pd r t
Extends-trans lo page_table pd r s t f g = record {
  space = g.space;
  there = g.there;
  next = g.next ∙ rw f.there (omega (arith, f.next));
  pages = λ p own. g.pages p (f.pages p own);
  bytes = λ p x own le lt. g.bytes p x (f.pages p own) le lt ∙ f.bytes p x own le lt;
}

-- At aligned addresses, and with a page left if a table is wanted, `map_page` returns: the page is
-- mapped to `paddr`, and every other address of the 32-bit space as before; the directory and its
-- tables stay pages of their own, and no byte of any other page handed out changes.
pub map_page-Maps :
    (lo ram_end page_table vaddr paddr flags : ℕ) (r : Ram)
    → IsSpace lo page_table r
    → ram_end < 2 ^ 32
    → r.next_paddr + cost page_table (pd_index vaddr) r ≤ ram_end
    → vaddr < 2 ^ 32
    → vaddr % 4096 ≡ 0
    → paddr < 2 ^ 32
    → paddr % 4096 ≡ 0
    → flags < 4096
    → (r' : Ram) × (map_page ram_end r page_table vaddr paddr flags ≡ some r')
      × Extends lo page_table (pd_index vaddr) r r'
      × Maps page_table vaddr paddr r r'
unfolding map_page
map_page-Maps lo ram_end page_table vaddr paddr flags r space bound room hv av hp ap' hf =
    let (s, e, ext, same) =
      ensure_table-Extends lo ram_end page_table (pd_index vaddr) r space (omega arith) bound
        room in
    let in_memory : s.next_paddr < 2 ^ 32 = omega (arith, ext.next) in
    (
      set lo page_table vaddr paddr flags s ext.space in_memory hv hp ap' hf ext.there,
      rw (index_bits (vaddr / 2 ^ 22), passes vaddr av, passes paddr ap', e)
          (ap some (
            set_page-set lo page_table vaddr paddr flags s ext.space in_memory hv hp ap' hf
              ext.there)),
      Extends-trans lo page_table (pd_index vaddr) r s _ ext (
          set-Extends lo page_table vaddr paddr flags s ext.space in_memory hv hp ap' hf ext.there),
      λ va h.
          set-Maps lo page_table vaddr paddr flags s ext.space in_memory hv hp ap' hf ext.there va h
          ∙ ap (λ w. if va / 4096 == vaddr / 4096 then some (paddr + va % 4096) else w) (same va),
    )
  where
    passes : (x : ℕ) → x % 4096 ≡ 0 → (bit_and x (page_size - 1) == 0) ≡ true
    passes x h = ground (arith, offset_bits x)

-- An address that is not aligned is a PANIC.
pub map_page_unaligned :
    (ram_end page_table vaddr paddr flags : ℕ) (r : Ram)
    → (vaddr % 4096 ≢ 0) ⊎ (paddr % 4096 ≢ 0)
    → map_page ram_end r page_table vaddr paddr flags ≡ none
unfolding map_page
map_page_unaligned ram_end page_table vaddr paddr flags r h =
    ground (arith, offset_bits vaddr, offset_bits paddr)
