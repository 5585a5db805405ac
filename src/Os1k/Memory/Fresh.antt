-- ===== src/Os1k/Memory/Fresh.antt =====
-- `map_page` makes a page table where there is none, and changes no mapping by that.
use mini_kvm.Base.{ℕ, ◌+◌, ◌*◌, ◌%◌, ◌^◌, ◌≤◌, ◌<◌, ◌≡◌, inl, inr, refl, sym}
use mini_kvm.Base.{arith, subst, true, false, some, ◌==◌, if◌then◌else◌}
use mini_kvm.Base.{Bool-cases, bit_and, u32, le→ltb}
use mini_kvm.GuestMem.{store, memset}
use mini_kvm.Paging32.Walk.{is_present, walk}
use mini_kvm.Os1k.Memory.{Ram, kernel_base, phys, page_size, alloc_pages, ensure_table}
use mini_kvm.Os1k.Memory.{table_get}
use mini_kvm.Os1k.Memory.Entries.{present_bit, table_entry}
use mini_kvm.Os1k.Memory.Directory.{IsDirectory, IsOwned}
use mini_kvm.Os1k.Memory.Directory.{}
use mini_kvm.Os1k.Memory.Tables.{
  linked_self, linked-walk, linked-IsDirectory, linked-IsOwned, linked-byte,
}

-- The directory and its tables lie in the pages handed out so far, from `lo` on.
pub record IsSpace (lo page_table : ℕ) (r : Ram) : Type 0 where
  pub dir : IsDirectory lo (phys r.next_paddr) r.mem (phys page_table)
  pub page : r.next_paddr % 4096 ≡ 0
  pub high : kernel_base ≤ r.next_paddr

abbrev pub Owned : ℕ → Ram → ℕ → Type 0
Owned page_table r p = IsOwned (phys r.next_paddr) r.mem (phys page_table) p

-- The memory that a new table takes, if one is wanted.
abbrev pub cost : ℕ → ℕ → Ram → ℕ
cost page_table pd r = if is_present (table_get r.mem page_table pd) then 0 else 4096

-- What a step leaves: the invariant, a table for `pd`, and the pages in use with their bytes.
pub record Extends (lo page_table pd : ℕ) (r r' : Ram) : Type 0 where
  pub space : IsSpace lo page_table r'
  pub there : is_present (table_get r'.mem page_table pd) ≡ true
  pub next : r'.next_paddr ≡ r.next_paddr + cost page_table pd r
  pub pages : (p : ℕ) → Owned page_table r p → Owned page_table r' p
  pub bytes : (p x : ℕ) → Owned page_table r p → p ≤ x → x < p + 4096 → r'.mem x ≡ r.mem x

test_present : (e : ℕ) → is_present e ≡ true → (bit_and e 1 == 0) ≡ false
test_present e p = ground (arith, present_bit e)

test_absent : (e : ℕ) → is_present e ≡ false → (bit_and e 1 == 0) ≡ true
test_absent e p = ground (arith, present_bit e)

-- Memory and allocator after a table is made.
abbrev fresh : (page_table pd : ℕ) → Ram → Ram
fresh page_table pd r = record {
  mem =
      store 4 (memset r.mem (phys r.next_paddr) 0 4096) (phys page_table + 4 * pd)
        (phys r.next_paddr + 7);
  next_paddr = r.next_paddr + 4096;
}

ensure_table-fresh :
    (lo ram_end page_table pd : ℕ) (r : Ram)
    → IsSpace lo page_table r
    → ram_end < 2 ^ 32
    → r.next_paddr + 4096 ≤ ram_end
    → is_present (table_get r.mem page_table pd) ≡ false
    → ensure_table ram_end r page_table pd ≡ some (fresh page_table pd r)
unfolding ensure_table alloc_pages
ensure_table-fresh lo ram_end page_table pd r space bound room absent =
    rw
      (
        test_absent (table_get r.mem page_table pd) absent,
        no_wrap,
        le→ltb ram_end (r.next_paddr + 4096) room,
        table_entry (phys r.next_paddr) (omega arith) (omega (arith, space.page, space.high)),
      )
      refl
  where
    no_wrap : u32 (r.next_paddr + 1 * page_size) ≡ r.next_paddr + 4096
    no_wrap = omega arith

-- One more page is handed out.
pub hi-next :
    (r : Ram) → kernel_base ≤ r.next_paddr → phys (r.next_paddr + 4096) ≡ phys r.next_paddr + 4096
hi-next r h = omega arith

fresh-Extends :
    (lo page_table pd : ℕ) (r : Ram)
    → IsSpace lo page_table r
    → pd < 1024
    → r.next_paddr + 4096 < 2 ^ 32
    → is_present (table_get r.mem page_table pd) ≡ false
    → Extends lo page_table pd r (fresh page_table pd r)
fresh-Extends lo page_table pd r space hpd bound absent = record {
  space = record {
    dir =
        subst (λ hi. IsDirectory lo hi (fresh page_table pd r).mem d) (sym up)
          (linked-IsDirectory lo hi r.mem d space.dir pd hpd page small absent);
    page = omega (arith, space.page);
    high = omega (arith, space.high);
  };
  there =
      subst (λ e. is_present e ≡ true)
        (sym (linked_self lo hi r.mem d space.dir pd hpd page small absent)) (odd hi page);
  next = rw absent refl;
  pages = λ p own.
      subst (λ hi. IsOwned hi (fresh page_table pd r).mem d p) (sym up)
        (linked-IsOwned lo hi r.mem d space.dir pd hpd page small absent p own);
  bytes = linked-byte lo hi r.mem d space.dir pd hpd page small absent;
}
  where
    d : ℕ
    d = phys page_table

    hi : ℕ
    hi = phys r.next_paddr

    page : hi % 4096 ≡ 0
    page = omega (arith, space.page, space.high)

    small : hi + 4096 ≤ 2 ^ 32
    small = omega arith

    up : phys (r.next_paddr + 4096) ≡ hi + 4096
    up = hi-next r space.high

    odd : (p : ℕ) → p % 4096 ≡ 0 → is_present (p + 7) ≡ true
    odd p a = ground arith

pub ensure_table-Extends :
    (lo ram_end page_table pd : ℕ) (r : Ram)
    → IsSpace lo page_table r
    → pd < 1024
    → ram_end < 2 ^ 32
    → r.next_paddr + cost page_table pd r ≤ ram_end
    → (r' : Ram) × (ensure_table ram_end r page_table pd ≡ some r')
      × Extends lo page_table pd r r'
      × ((va : ℕ) → walk r'.mem (phys page_table) va ≡ walk r.mem (phys page_table) va)
ensure_table-Extends lo ram_end page_table pd r space hpd bound room =
    elim (Bool-cases (is_present (table_get r.mem page_table pd))) [
      | inl there ↦ (
        r,
        kept there,
        record {
          space = space;
          there = there;
          next = rw there (omega arith);
          pages = λ p own. own;
          bytes = λ p x own le lt. refl;
        },
        λ va. refl,
      )
      | inr absent ↦
          let fits : r.next_paddr + 4096 ≤ ram_end = rw absent at room in
          (
            fresh page_table pd r,
            ensure_table-fresh lo ram_end page_table pd r space bound fits absent,
            fresh-Extends lo page_table pd r space hpd (omega arith) absent,
            linked-walk lo (phys r.next_paddr) r.mem (phys page_table) space.dir pd hpd
                (omega (arith, space.page, space.high)) (omega arith) absent,
          )
    ]
  where
    kept :
        is_present (table_get r.mem page_table pd) ≡ true
        → ensure_table ram_end r page_table pd ≡ some r
    kept there = unfold ensure_table in rw (test_present (table_get r.mem page_table pd) there) refl
