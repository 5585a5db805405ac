-- ===== src/Os1k/Memory/NewPage.antt =====
-- A page handed out and filled, before it is mapped.
use mini_kvm.Base.{ℕ, ◌+◌, ◌*◌, ◌^◌, ◌≤◌, ◌<◌, ◌≡◌, ◌≢◌, refl, sym, ◌∙◌, arith, subst, true}
use mini_kvm.Base.{some, List, [], ◌∷◌, zero, suc, length, get_or, inl, inr, dec_lt, u32, le→ltb}
use mini_kvm.GuestMem.{memset, copy_in, load}
use mini_kvm.GuestMem.Laws.{load_ext, copy_in-IsOutside, copy_in-inside, memset-IsOutside}
use mini_kvm.GuestMem.Laws.{memset-inside}
use mini_kvm.Paging32.Walk.{walk, is_present, frame}
use mini_kvm.Os1k.Memory.{Ram, phys, page_size, alloc_pages, table_get}
use mini_kvm.Os1k.Memory.Directory.{entry, IsDirectory-transfer, walk_same, pd_index, pt_index}
use mini_kvm.Os1k.Memory.Fresh.{IsSpace, Owned, hi-next}
use mini_kvm.Os1k.Memory.Range.{Grows}

-- The next page holds `content`.
abbrev pub filled : List ℕ → Ram → Ram
filled content r = record {
  mem = copy_in (memset r.mem (phys r.next_paddr) 0 4096) (phys r.next_paddr) content;
  next_paddr = r.next_paddr + 4096;
}

pub alloc_pages-one :
    (ram_end : ℕ) (r : Ram)
    → ram_end < 2 ^ 32
    → r.next_paddr + 4096 ≤ ram_end
    → alloc_pages ram_end 1 r
      ≡ some (
        r.next_paddr,
        record { mem = memset r.mem (phys r.next_paddr) 0 4096; next_paddr = r.next_paddr + 4096 },
      )
unfolding alloc_pages
alloc_pages-one ram_end r bound room = rw (no_wrap, le→ltb ram_end (r.next_paddr + 4096) room) refl
  where
    no_wrap : u32 (r.next_paddr + 1 * page_size) ≡ r.next_paddr + 4096
    no_wrap = omega arith

pub get_or_past : (bytes : List ℕ) (i : ℕ) → length bytes ≤ i → get_or bytes i 0 ≡ 0
get_or_past [] i h = refl
get_or_past (b ∷ bytes) zero h = absurd (omega arith)
get_or_past (b ∷ bytes) (suc i) h = get_or_past bytes i (omega arith)

module _ (lo page_table : ℕ) (content : List ℕ) (r : Ram) (space : IsSpace lo page_table r)
    (size : length content ≤ 4096) where
  -- Below the new page nothing changes.
  filled-byte : (x : ℕ) → x < phys r.next_paddr → (filled content r).mem x ≡ r.mem x
  filled-byte x h =
      copy_in-IsOutside (memset r.mem (phys r.next_paddr) 0 4096) (phys r.next_paddr) content x
        (inl h)
      ∙ memset-IsOutside r.mem (phys r.next_paddr) 0 4096 x (inl h)

  filled-load :
      (a : ℕ) → a + 4 ≤ phys r.next_paddr → load 4 (filled content r).mem a ≡ load 4 r.mem a
  filled-load a h = load_ext 4 (filled content r).mem r.mem a (λ x p q. filled-byte x (omega arith))

  pub filled-entry :
      (k : ℕ)
      → k < 1024
      → table_get (filled content r).mem page_table k ≡ table_get r.mem page_table k
  filled-entry k h = filled-load (phys page_table + 4 * k) (omega (arith, space.dir.below))

  pub filled-walk :
      (va : ℕ) → walk (filled content r).mem (phys page_table) va ≡ walk r.mem (phys page_table) va
  filled-walk va =
      walk_same r.mem (filled content r).mem (phys page_table) va space.dir.aligned
        (filled-entry (pd_index va) (omega arith))
        (λ p.
          let (low, high, ne) = space.dir.tables (pd_index va) (omega arith) p in
          filled-load (frame (entry r.mem (phys page_table) (pd_index va)) + 4 * pt_index va)
            (omega arith))

  pub filled-content :
      (i : ℕ) → i < 4096 → (filled content r).mem (phys r.next_paddr + i) ≡ get_or content i 0
  filled-content i h = elim (dec_lt i (length content)) [
    | yes l ↦
        copy_in-inside (memset r.mem (phys r.next_paddr) 0 4096) (phys r.next_paddr) content i l
    | no g ↦
        copy_in-IsOutside (memset r.mem (phys r.next_paddr) 0 4096) (phys r.next_paddr) content
          (phys r.next_paddr + i) (inr (omega (arith, g)))
        ∙ memset-inside r.mem (phys r.next_paddr) 0 4096 (phys r.next_paddr + i) (omega arith)
            (omega arith)
        ∙ sym (get_or_past content i (omega (arith, g)))
  ]

  pub filled-IsSpace : IsSpace lo page_table (filled content r)
  filled-IsSpace = record {
    dir =
        IsDirectory-transfer lo (phys r.next_paddr) (phys (r.next_paddr + 4096)) r.mem
          (filled content r).mem (phys page_table) space.dir (omega arith) filled-entry;
    page = omega (arith, space.page);
    high = omega (arith, space.high);
  }

  pub filled-Owned : Owned page_table (filled content r) (phys r.next_paddr)
  filled-Owned = record {
    page = omega (arith, space.page, space.high);
    within = omega (arith, hi-next r space.high);
    not_dir = λ e. omega (arith, space.dir.below);
    not_table = λ k hk p.
        subst (λ e. frame e ≢ phys r.next_paddr) (sym (filled-entry k hk))
          (λ e. omega (
            arith,
            e,
            (space.dir.tables k hk (subst (λ e. is_present e ≡ true) (filled-entry k hk) p)).1,
          ));
  }

  pub filled-Grows : Grows lo page_table 4096 r (filled content r)
  filled-Grows = record {
    space = filled-IsSpace;
    from = omega arith;
    upto = omega arith;
    pages = λ p own. record {
      page = own.page;
      within = omega (arith, own.within, hi-next r space.high);
      not_dir = own.not_dir;
      not_table = λ k hk q.
          subst (λ e. frame e ≢ p) (sym (filled-entry k hk))
            (own.not_table k hk (subst (λ e. is_present e ≡ true) (filled-entry k hk) q));
    };
    bytes = λ p x own le lt. filled-byte x (omega (arith, own.within));
  }
