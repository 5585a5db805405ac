-- ===== src/Os1k/Memory/UserPages.antt =====
-- The loops that give a process its own pages.
use mini_kvm.Base.{
  ℕ, zero, suc, ◌+◌, ◌-◌, ◌*◌, ◌/◌, ◌%◌, ◌^◌, ◌≤◌, ◌<◌, ◌≡◌, ◌∙◌, refl, sym, ap, arith,
}
use mini_kvm.Base.{subst, false, some, List, take, drop, get_or, length, length-take}
use mini_kvm.Base.{get_or-take, get_or-drop, if◌then◌else◌, ◌==◌, true, dec_lt, ==_iff}
use mini_kvm.Paging32.Walk.{walk, is_present}
use mini_kvm.Os1k.Memory.{Ram, phys, page_size, map_user, user_page, alloc_pages}
use mini_kvm.Os1k.Memory.{table_get}
use mini_kvm.Os1k.Memory.Directory.{pd_index}
use mini_kvm.Os1k.Memory.Fresh.{IsSpace, Owned, cost, Extends}
use mini_kvm.Os1k.Memory.MapPage.{map_page-Maps, Maps}
use mini_kvm.Os1k.Memory.Range.{Grows, Grows-refl, Grows-trans, Extends-Grows, within, no_cost}
use mini_kvm.Os1k.Memory.NewPage.{filled, alloc_pages-one, filled-entry, filled-walk}
use mini_kvm.Os1k.Memory.NewPage.{filled-content, filled-IsSpace, filled-Owned, filled-Grows}

-- The address `va` is mapped into a page of the process, where the byte `b` stands.
abbrev pub Holds : (page_table va b : ℕ) → Ram → Type 0
Holds page_table va b r =
    (p a : ℕ) × (walk r.mem (phys page_table) va ≡ some a)
    × (r.mem a ≡ b)
    × Owned page_table r p
    × (p ≤ a)
    × (a < p + 4096)

pub Holds-Grows :
    (lo page_table limit va b : ℕ) (r r' : Ram)
    → Grows lo page_table limit r r'
    → walk r'.mem (phys page_table) va ≡ walk r.mem (phys page_table) va
    → Holds page_table va b r
    → Holds page_table va b r'
Holds-Grows lo page_table limit va b r r' g same (p, a, w, e, own, le, lt) =
    (p, a, same ∙ w, g.bytes p a own le lt ∙ e, g.pages p own, le, lt)

-- One round: a page is handed out, filled and mapped.
first_page :
    (lo ram_end page_table pd vaddr : ℕ) (image : List ℕ) (r : Ram)
    → IsSpace lo page_table r
    → ram_end < 2 ^ 32
    → r.next_paddr + 4096 + cost page_table pd r ≤ ram_end
    → pd < 1024
    → vaddr < 2 ^ 32
    → pd_index vaddr ≡ pd
    → vaddr % 4096 ≡ 0
    → (s : Ram) × (user_page ram_end page_table vaddr
          (take page_size image)
          (alloc_pages ram_end 1 r)
        ≡ some s)
      × Grows lo page_table (4096 + cost page_table pd r) r s
      × (is_present (table_get s.mem page_table pd) ≡ true)
      × ((va : ℕ)
          → va < 2 ^ 32
          → (va / 4096 == vaddr / 4096) ≡ false
          → walk s.mem (phys page_table) va ≡ walk r.mem (phys page_table) va)
      × ((i : ℕ) → i < 4096 → Holds page_table (vaddr + i) (get_or image i 0) s)
first_page lo ram_end page_table pd vaddr image r space bound room hpd hv here av =
    let same_cost : cost page_table pd f ≡ cost page_table pd r =
      ap (λ e. if is_present e then 0 else 4096)
        (filled-entry lo page_table part r space size pd hpd) in
    let (s, e, ext, maps) =
      map_page-Maps lo ram_end page_table vaddr (phys r.next_paddr) 6 f
        (filled-IsSpace lo page_table part r space size) bound
        (subst (λ k. f.next_paddr + cost page_table k f ≤ ram_end) (sym here) (omega arith)) hv av
        (omega arith) (omega (arith, space.page, space.high)) (omega arith) in
    let ext' = subst (λ k. Extends lo page_table k f s) here ext in
    (
      s,
      rw (alloc_pages-one ram_end r bound (omega arith)) e,
      Grows-trans lo page_table 4096 (cost page_table pd f) (4096 + cost page_table pd r) r f s
          (filled-Grows lo page_table part r space size) (Extends-Grows lo page_table pd f s ext')
          (omega arith),
      ext'.there,
      λ va h ne. maps va h ∙ rw ne (filled-walk lo page_table part r space size va),
      holds s ext' maps,
    )
  where
    part : List ℕ
    part = take page_size image

    f : Ram
    f = filled part r

    size : length part ≤ 4096
    size = omega (arith, length-take page_size image)

    holds :
        (s : Ram)
        → Extends lo page_table pd f s
        → Maps page_table vaddr (phys r.next_paddr) f s
        → (i : ℕ) → i < 4096
        → Holds page_table (vaddr + i) (get_or image i 0) s
    holds s ext maps i h = (
      phys r.next_paddr,
      phys r.next_paddr + i,
      maps (vaddr + i) (omega arith)
          ∙ rw (inside i h) (ap (λ k. some (phys r.next_paddr + k)) (offset i h)),
      ext.bytes (phys r.next_paddr) (phys r.next_paddr + i) own (omega arith) (omega arith)
          ∙ filled-content lo page_table part r space size i h
          ∙ get_or-take page_size image i 0 h,
      ext.pages (phys r.next_paddr) own,
      omega arith,
      omega arith,
    )
      where
        own : Owned page_table f (phys r.next_paddr)
        own = filled-Owned lo page_table part r space size

        inside : (i : ℕ) → i < 4096 → ((vaddr + i) / 4096 == vaddr / 4096) ≡ true
        inside i h = (==_iff ((vaddr + i) / 4096) (vaddr / 4096)).1 (omega arith)

        offset : (i : ℕ) → i < 4096 → (vaddr + i) % 4096 ≡ i
        offset i h = omega arith

-- The pages are mapped in order, each to a page of its own that is part of the process; they hold
-- the image from its start and zeros behind it, and every other address is mapped as before.
pub map_user-Holds :
    (lo ram_end page_table pd n vaddr : ℕ) (image : List ℕ) (r : Ram)
    → IsSpace lo page_table r
    → ram_end < 2 ^ 32
    → r.next_paddr + n * 4096 + cost page_table pd r ≤ ram_end
    → pd < 1024
    → pd * 2 ^ 22 ≤ vaddr
    → vaddr + n * 4096 ≤ (pd + 1) * 2 ^ 22
    → vaddr % 4096 ≡ 0
    → (r' : Ram) × (map_user ram_end page_table n vaddr image r ≡ some r')
      × Grows lo page_table (n * 4096 + cost page_table pd r) r r'
      × ((va : ℕ)
          → va < 2 ^ 32
          → within vaddr n va ≡ false
          → walk r'.mem (phys page_table) va ≡ walk r.mem (phys page_table) va)
      × ((i : ℕ) → i < n * 4096 → Holds page_table (vaddr + i) (get_or image i 0) r')
unfolding map_user
map_user-Holds lo ram_end page_table pd zero vaddr image r space bound room hpd lv uv av = (
  r,
  refl,
  Grows-refl lo page_table (0 * 4096 + cost page_table pd r) r space,
  λ va h out. refl,
  λ i h. absurd (omega arith),
)
map_user-Holds lo ram_end page_table pd (suc n) vaddr image r space bound room hpd lv uv av =
    let (s, e, g, there, other, holds) =
      first_page lo ram_end page_table pd vaddr image r space bound (omega arith) hpd (omega arith)
        (omega arith) av in
    let free = no_cost page_table pd s there in
    let (t, e', g', other', holds') =
      map_user-Holds lo ram_end page_table pd n (vaddr + 4096) (drop page_size image) s g.space
        bound (omega (arith, g.upto)) hpd (omega arith) (omega arith) (omega arith) in
    (
      t,
      rw e e',
      Grows-trans lo page_table (4096 + cost page_table pd r) (n * 4096 + cost page_table pd s)
          (suc n * 4096 + cost page_table pd r) r s t g g' (omega arith),
      λ va h out. other' va h (still_out va out) ∙ other va h (not_first va out),
      λ i h. elim (dec_lt i 4096) [
        | yes l ↦
            Holds-Grows lo page_table (n * 4096 + cost page_table pd s) (vaddr + i)
              (get_or image i 0) s t g' (other' (vaddr + i) (omega arith) (before_rest i l))
              (holds i l)
        | no ge ↦
            subst (λ va. Holds page_table va (get_or image i 0) t) (there_again i ge)
              (subst (λ b. Holds page_table (vaddr + 4096 + (i - 4096)) b t)
                (get_or-drop page_size image (i - 4096) i 0 (omega (arith, ge)))
                (holds' (i - 4096) (omega (arith, ge))))
      ],
    )
  where
    still_out : (va : ℕ) → within vaddr (suc n) va ≡ false → within (vaddr + 4096) n va ≡ false
    still_out va out = ground arith

    not_first : (va : ℕ) → within vaddr (suc n) va ≡ false → (va / 4096 == vaddr / 4096) ≡ false
    not_first va out = ground arith

    before_rest : (i : ℕ) → i < 4096 → within (vaddr + 4096) n (vaddr + i) ≡ false
    before_rest i l = ground arith

    there_again : (i : ℕ) → (i < 4096 → ⊥) → vaddr + 4096 + (i - 4096) ≡ vaddr + i
    there_again i ge = omega (arith, ge)
