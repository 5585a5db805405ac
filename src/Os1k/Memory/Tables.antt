-- ===== src/Os1k/Memory/Tables.antt =====
-- A new page table, empty, behind all pages in use.
use mini_kvm.Base.{ℕ, ◌+◌, ◌*◌, ◌%◌, ◌^◌, ◌≤◌, ◌<◌, ◌≡◌, ◌≢◌, ◌⊎◌, inl, inr, sym}
use mini_kvm.Base.{ap, ◌∙◌, arith, subst, true, false, ℕ_discrete, dec_lt}
use mini_kvm.GuestMem.{Mem, store, memset}
use mini_kvm.GuestMem.Laws.{load-store, load-store-IsOutside, load-memset-IsOutside}
use mini_kvm.GuestMem.Laws.{load-memset_zero, store-IsOutside, memset-IsOutside}
use mini_kvm.Paging32.Walk.{is_present, frame, walk}
use mini_kvm.Os1k.Memory.Directory.{entry, IsDirectory, IsOwned, pd_index, pt_index}
use mini_kvm.Os1k.Memory.Directory.{byte_apart}
use mini_kvm.Os1k.Memory.Directory.{walk_found, walk_missing, walk_same, pages_apart, frame_aligned}

module _ (lo hi : ℕ) (m : Mem) (d : ℕ) (dir : IsDirectory lo hi m d) (pd : ℕ) (hpd : pd < 1024)
    (page : hi % 4096 ≡ 0) (small : hi + 4096 ≤ 2 ^ 32)
    (absent : is_present (entry m d pd) ≡ false) where
  -- The page at `hi` is cleared and entered for `pd`.
  abbrev pub linked : Mem
  linked = store 4 (memset m hi 0 4096) (d + 4 * pd) (hi + 7)

  pub linked_self : entry linked d pd ≡ hi + 7
  linked_self = load-store 4 (memset m hi 0 4096) (d + 4 * pd) (hi + 7) (omega arith)

  linked-other : (k : ℕ) → k < 1024 → k ≢ pd → entry linked d k ≡ entry m d k
  linked-other k hk ne =
      load-store-IsOutside 4 4 (memset m hi 0 4096) (d + 4 * pd) (d + 4 * k) (hi + 7) away
      ∙ load-memset-IsOutside 4 m hi 0 4096 (d + 4 * k) (inl (omega (arith, dir.below)))
    where
      away : (d + 4 * k + 4 ≤ d + 4 * pd) ⊎ (d + 4 * pd + 4 ≤ d + 4 * k)
      away = elim (dec_lt k pd) [ yes l ↦ inl (omega arith) | no g ↦ inr (omega (arith, ne)) ]

  -- The tables in use are as they were.
  linked-table :
      (k i : ℕ)
      → k < 1024
      → i < 1024
      → is_present (entry m d k) ≡ true
      → entry linked (frame (entry m d k)) i ≡ entry m (frame (entry m d k)) i
  linked-table k i hk hi' p =
      let (low, high, ne) = dir.tables k hk p in
      load-store-IsOutside 4 4 (memset m hi 0 4096) (d + 4 * pd) (frame (entry m d k) + 4 * i)
        (hi + 7)
        (pages_apart d (frame (entry m d k)) pd i dir.aligned (frame_aligned (entry m d k))
          (λ e. ne (sym e)) hpd hi')
      ∙ load-memset-IsOutside 4 m hi 0 4096 (frame (entry m d k) + 4 * i) (inl (omega arith))

  linked-empty : (i : ℕ) → i < 1024 → entry linked hi i ≡ 0
  linked-empty i h =
      load-store-IsOutside 4 4 (memset m hi 0 4096) (d + 4 * pd) (hi + 4 * i) (hi + 7)
        (inr (omega (arith, dir.below)))
      ∙ load-memset_zero 4 m hi 4096 (hi + 4 * i) (omega arith) (omega arith)

  new_frame : frame (hi + 7) ≡ hi
  new_frame = omega arith

  new_present : is_present (hi + 7) ≡ true
  new_present = ground arith

  pub linked-walk : (va : ℕ) → walk linked d va ≡ walk m d va
  linked-walk va = elim (ℕ_discrete (pd_index va) pd) [
    | yes e ↦
        walk_found linked d va 0 dir.aligned
          (ap (λ k. is_present (entry linked d k)) e ∙ ap is_present linked_self ∙ new_present)
          (ap (λ k. entry linked (frame (entry linked d k)) (pt_index va)) e
            ∙ ap (λ x. entry linked (frame x) (pt_index va)) linked_self
            ∙ ap (λ x. entry linked x (pt_index va)) new_frame
            ∙ linked-empty (pt_index va) (omega arith))
        ∙ sym (walk_missing m d va dir.aligned (ap (λ k. is_present (entry m d k)) e ∙ absent))
    | no ne ↦
        walk_same m linked d va dir.aligned (linked-other (pd_index va) (omega arith) ne)
          (λ p. linked-table (pd_index va) (pt_index va) (omega arith) (omega arith) p)
  ]

  abbrev IsNew : ℕ → Type 0
  IsNew e = (lo ≤ frame e) × (frame e + 4096 ≤ hi + 4096) × (frame e ≢ d)

  pub linked-IsDirectory : IsDirectory lo (hi + 4096) linked d
  linked-IsDirectory = record {
    aligned = dir.aligned;
    above = dir.above;
    below = omega (arith, dir.below);
    tables = tables;
    apart = apart;
  }
    where
      present_before :
          (k : ℕ)
          → k < 1024
          → k ≢ pd
          → is_present (entry linked d k) ≡ true
          → is_present (entry m d k) ≡ true
      present_before k hk ne p = subst (λ e. is_present e ≡ true) (linked-other k hk ne) p

      tables : (k : ℕ) → k < 1024 → is_present (entry linked d k) ≡ true → IsNew (entry linked d k)
      tables k hk p = elim (ℕ_discrete k pd) [
        | yes e ↦
            subst IsNew (sym (ap (entry linked d) e ∙ linked_self))
              (omega (arith, dir.above, dir.below), omega arith, λ f. omega (arith, dir.below))
        | no ne ↦
            let (low, high, other) = dir.tables k hk (present_before k hk ne p) in
            subst IsNew (sym (linked-other k hk ne)) (low, omega arith, other)
      ]

      -- A table in use lies below the new one.
      older :
          (k : ℕ)
          → k < 1024
          → k ≢ pd
          → is_present (entry linked d k) ≡ true
          → frame (entry linked d k) < hi
      older k hk ne p =
          let (low, high, other) = dir.tables k hk (present_before k hk ne p) in
          subst (λ e. frame e < hi) (sym (linked-other k hk ne)) (omega arith)

      new : (k : ℕ) → k ≡ pd → frame (entry linked d k) ≡ hi
      new k e = ap (λ k. frame (entry linked d k)) e ∙ ap frame linked_self ∙ new_frame

      apart :
          (j k : ℕ)
          → j < 1024
          → k < 1024
          → j ≢ k
          → is_present (entry linked d j) ≡ true
          → is_present (entry linked d k) ≡ true
          → frame (entry linked d j) ≢ frame (entry linked d k)
      apart j k hj hk ne p q = elim (ℕ_discrete j pd) [
        | yes e ↦ λ f. omega (arith, new j e, older k hk (λ e'. ne (e ∙ sym e')) q)
        | no nj ↦ elim (ℕ_discrete k pd) [
          | yes e ↦ λ f. omega (arith, new k e, older j hj nj p)
          | no nk ↦ λ f.
              dir.apart j k hj hk ne (present_before j hj nj p) (present_before k hk nk q)
                (sym (ap frame (linked-other j hj nj)) ∙ f ∙ ap frame (linked-other k hk nk))
        ]
      ]

  -- A page that is in use otherwise stays so, with its bytes.
  pub linked-IsOwned : (p : ℕ) → IsOwned hi m d p → IsOwned (hi + 4096) linked d p
  linked-IsOwned p own = record {
    page = own.page;
    within = omega (arith, own.within);
    not_dir = own.not_dir;
    not_table = λ k hk q. elim (ℕ_discrete k pd) [
      | yes e ↦ λ f. omega (
        arith,
        own.within,
        new_frame,
        ap (λ k. frame (entry linked d k)) e ∙ ap frame linked_self ∙ new_frame,
      )
      | no ne ↦
          subst (λ e. frame e ≢ p) (sym (linked-other k hk ne))
            (own.not_table k hk (subst (λ e. is_present e ≡ true) (linked-other k hk ne) q))
    ];
  }

  pub linked-byte : (p x : ℕ) → IsOwned hi m d p → p ≤ x → x < p + 4096 → linked x ≡ m x
  linked-byte p x own le lt =
      store-IsOutside 4 (memset m hi 0 4096) (d + 4 * pd) (hi + 7) x
        (byte_apart d p pd x dir.aligned own.page (λ e. own.not_dir (sym e)) hpd le lt)
      ∙ memset-IsOutside m hi 0 4096 x (omega (arith, own.within))
