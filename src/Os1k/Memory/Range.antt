-- ===== src/Os1k/Memory/Range.antt =====
-- The loops that map a range of addresses to a range of memory.
use mini_kvm.Base.{Bool, ℕ, zero, suc, ◌+◌, ◌-◌, ◌*◌, ◌/◌, ◌%◌, ◌^◌, ◌≤◌, ◌<◌, ◌≡◌, refl, sym}
use mini_kvm.Base.{ap, ◌∙◌, arith, subst, true, false, Option, some, ◌==◌, if◌then◌else◌}
use mini_kvm.Base.{◌&&◌, leb, ltb}
use mini_kvm.Paging32.Walk.{walk, is_present}
use mini_kvm.Os1k.Memory.{Ram, phys, map_range, table_get}
use mini_kvm.Os1k.Memory.Directory.{pd_index}
use mini_kvm.Os1k.Memory.Fresh.{IsSpace, Owned, cost, Extends}
use mini_kvm.Os1k.Memory.MapPage.{map_page-Maps}

-- The pages in use and their bytes are kept, and at most `limit` bytes are handed out.
pub record Grows (lo page_table limit : ℕ) (r r' : Ram) : Type 0 where
  pub space : IsSpace lo page_table r'
  pub from : r.next_paddr ≤ r'.next_paddr
  pub upto : r'.next_paddr ≤ r.next_paddr + limit
  pub pages : (p : ℕ) → Owned page_table r p → Owned page_table r' p
  pub bytes : (p x : ℕ) → Owned page_table r p → p ≤ x → x < p + 4096 → r'.mem x ≡ r.mem x

pub Grows-refl :
    (lo page_table limit : ℕ) (r : Ram) → IsSpace lo page_table r → Grows lo page_table limit r r
Grows-refl lo page_table limit r space = record {
  space = space;
  from = omega arith;
  upto = omega arith;
  pages = λ p own. own;
  bytes = λ p x own le lt. refl;
}

pub Grows-trans :
    (lo page_table a b c : ℕ) (r s t : Ram)
    → Grows lo page_table a r s
    → Grows lo page_table b s t
    → a + b ≤ c
    → Grows lo page_table c r t
Grows-trans lo page_table a b c r s t f g le = record {
  space = g.space;
  from = omega (arith, f.from, g.from);
  upto = omega (arith, f.upto, g.upto);
  pages = λ p own. g.pages p (f.pages p own);
  bytes = λ p x own le lt. g.bytes p x (f.pages p own) le lt ∙ f.bytes p x own le lt;
}

pub Extends-Grows :
    (lo page_table pd : ℕ) (r r' : Ram)
    → Extends lo page_table pd r r'
    → Grows lo page_table (cost page_table pd r) r r'
Extends-Grows lo page_table pd r r' e = record {
  space = e.space;
  from = omega (arith, e.next);
  upto = omega (arith, e.next);
  pages = e.pages;
  bytes = e.bytes;
}

abbrev pub within : ℕ → ℕ → ℕ → Bool
within start n va = leb start va && ltb va (start + n * 4096)

-- The range is mapped in order, and all else as before.
abbrev pub MapsRange : (page_table n vaddr paddr : ℕ) → Ram → Ram → Type 0
MapsRange page_table n vaddr paddr r r' =
    (va : ℕ)
    → va < 2 ^ 32
    → walk r'.mem (phys page_table) va
      ≡ (if within vaddr n va then some (paddr + (va - vaddr)) else walk r.mem (phys page_table) va)

join_range :
    (n vaddr paddr va : ℕ) (w : Option ℕ)
    → vaddr % 4096 ≡ 0
    → (if within (vaddr + 4096) n va
        then some (paddr + 4096 + (va - (vaddr + 4096)))
        else if va / 4096 == vaddr / 4096
        then some (paddr + va % 4096)
        else w)
      ≡ (if within vaddr (suc n) va then some (paddr + (va - vaddr)) else w)
join_range n vaddr paddr va w a = ground arith

empty_range : (vaddr va : ℕ) → within vaddr 0 va ≡ false
empty_range vaddr va = ground arith

pub no_cost :
    (page_table pd : ℕ) (r : Ram)
    → is_present (table_get r.mem page_table pd) ≡ true
    → cost page_table pd r ≡ 0
no_cost page_table pd r e = rw e refl

-- A range within the 4MB of one page table is mapped with at most one page handed out.
pub map_range-Maps :
    (lo ram_end page_table flags pd n vaddr paddr : ℕ) (r : Ram)
    → IsSpace lo page_table r
    → ram_end < 2 ^ 32
    → r.next_paddr + cost page_table pd r ≤ ram_end
    → pd < 1024
    → pd * 2 ^ 22 ≤ vaddr
    → vaddr + n * 4096 ≤ (pd + 1) * 2 ^ 22
    → vaddr % 4096 ≡ 0
    → paddr + n * 4096 ≤ 2 ^ 32
    → paddr % 4096 ≡ 0
    → flags < 4096
    → (r' : Ram) × (map_range ram_end page_table flags n vaddr paddr r ≡ some r')
      × Grows lo page_table (cost page_table pd r) r r'
      × MapsRange page_table n vaddr paddr r r'
unfolding map_range
map_range-Maps lo ram_end page_table flags pd zero vaddr paddr r space bound room hpd lv uv av up
      ap' hf =
    (
      r,
      refl,
      Grows-refl lo page_table (cost page_table pd r) r space,
      λ va h. rw (empty_range vaddr va) refl,
    )
map_range-Maps lo ram_end page_table flags pd (suc n) vaddr paddr r space bound room hpd lv uv av up
      ap' hf =
    let here : pd_index vaddr ≡ pd = omega arith in
    let (s, e, ext, maps) =
      map_page-Maps lo ram_end page_table vaddr paddr flags r space bound
        (subst (λ k. r.next_paddr + cost page_table k r ≤ ram_end) (sym here) room) (omega arith) av
        (omega arith) ap' hf in
    let ext' = subst (λ k. Extends lo page_table k r s) here ext in
    let free = no_cost page_table pd s ext'.there in
    let (t, e', grows, maps') =
      map_range-Maps lo ram_end page_table flags pd n (vaddr + 4096) (paddr + 4096) s ext'.space
        bound (omega (arith, ext'.next)) hpd (omega arith) (omega arith) (omega arith) (omega arith)
        (omega arith) hf in
    (
      t,
      rw e e',
      Grows-trans lo page_table (cost page_table pd r) (cost page_table pd s) (cost page_table pd r)
          r s t (Extends-Grows lo page_table pd r s ext') grows (omega arith),
      λ va h.
          maps' va h
          ∙ ap
              (λ w.
                if within (vaddr + 4096) n va
                then some (paddr + 4096 + (va - (vaddr + 4096)))
                else w)
              (maps va h)
          ∙ join_range n vaddr paddr va (walk r.mem (phys page_table) va) av,
    )
