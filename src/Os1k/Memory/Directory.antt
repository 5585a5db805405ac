-- ===== src/Os1k/Memory/Directory.antt =====
-- A page directory with its tables, and what the processor reads from them.
use mini_kvm.Base.{ℕ, ◌+◌, ◌*◌, ◌/◌, ◌%◌, ◌^◌, ◌≤◌, ◌<◌, ◌≡◌, ◌≢◌, ◌⊎◌, inl, inr, refl, sym}
use mini_kvm.Base.{ap, ap₂, ◌∙◌, arith, subst, true, false, Option, none, some, if◌then◌else◌}
use mini_kvm.Base.{Bool-cases, ℕ_discrete, dec_lt}
use mini_kvm.GuestMem.{Mem, load, store}
use mini_kvm.GuestMem.Laws.{load-store, load-store-IsOutside}
use mini_kvm.GuestMem.Laws.{store-IsOutside, IsOutside}
use mini_kvm.Paging32.Walk.{is_present, frame, walk, walk_table}

-- The `i`th entry of the table at the physical address `t`.
abbrev pub entry : Mem → ℕ → ℕ → ℕ
entry m t i = load 4 m (t + 4 * i)

-- A directory at `d` and its tables are pages of their own between `lo` and `hi`.
pub record IsDirectory (lo hi : ℕ) (m : Mem) (d : ℕ) : Type 0 where
  pub aligned : d % 4096 ≡ 0
  pub above : lo ≤ d
  pub below : d + 4096 ≤ hi
  pub tables :
      (k : ℕ)
      → k < 1024
      → is_present (entry m d k) ≡ true
      → (lo ≤ frame (entry m d k)) × (frame (entry m d k) + 4096 ≤ hi) × (frame (entry m d k) ≢ d)
  pub apart :
      (j k : ℕ)
      → j < 1024
      → k < 1024
      → j ≢ k
      → is_present (entry m d j) ≡ true
      → is_present (entry m d k) ≡ true
      → frame (entry m d j) ≢ frame (entry m d k)

-- A page below `hi` that is neither the directory nor one of its tables.
pub record IsOwned (hi : ℕ) (m : Mem) (d p : ℕ) : Type 0 where
  pub page : p % 4096 ≡ 0
  pub within : p + 4096 ≤ hi
  pub not_dir : p ≢ d
  pub not_table : (k : ℕ) → k < 1024 → is_present (entry m d k) ≡ true → frame (entry m d k) ≢ p

abbrev pub pd_index : ℕ → ℕ
pd_index va = va / 2 ^ 22 % 1024

abbrev pub pt_index : ℕ → ℕ
pt_index va = va / 4096 % 1024

abbrev pub page_of : ℕ → ℕ → Option ℕ
page_of pte va = if is_present pte then some (frame pte + va % 4096) else none

walk_at :
    (m : Mem) (d va : ℕ)
    → d % 4096 ≡ 0
    → walk m d va ≡ (
        if is_present (entry m d (pd_index va))
        then page_of (entry m (frame (entry m d (pd_index va))) (pt_index va)) va
        else none)
unfolding walk
walk_at m d va a =
    ap
      (λ t.
        if is_present (load 4 m (t + 4 * pd_index va))
        then walk_table m (load 4 m (t + 4 * pd_index va)) va
        else none)
      frame_self
  where
    frame_self : frame d ≡ d
    frame_self = omega arith

-- A directory is read as it was, where the entries on the way are.
pub walk_same :
    (m m' : Mem) (d va : ℕ)
    → d % 4096 ≡ 0
    → entry m' d (pd_index va) ≡ entry m d (pd_index va)
    → (is_present (entry m d (pd_index va)) ≡ true
        → entry m' (frame (entry m d (pd_index va))) (pt_index va)
          ≡ entry m (frame (entry m d (pd_index va))) (pt_index va))
    → walk m' d va ≡ walk m d va
walk_same m m' d va a same table =
    walk_at m' d va a
    ∙ ap (λ e. if is_present e then page_of (entry m' (frame e) (pt_index va)) va else none) same
    ∙ (elim (Bool-cases (is_present (entry m d (pd_index va)))) [
      | inl p ↦ rw p (ap (λ pte. page_of pte va) (table p))
      | inr n ↦ rw n refl
    ])
    ∙ sym (walk_at m d va a)

-- What the two entries on the way give.
pub walk_found :
    (m : Mem) (d va pte : ℕ)
    → d % 4096 ≡ 0
    → is_present (entry m d (pd_index va)) ≡ true
    → entry m (frame (entry m d (pd_index va))) (pt_index va) ≡ pte
    → walk m d va ≡ page_of pte va
walk_found m d va pte a p e = walk_at m d va a ∙ rw p (ap (λ pte. page_of pte va) e)

pub walk_missing :
    (m : Mem) (d va : ℕ)
    → d % 4096 ≡ 0
    → is_present (entry m d (pd_index va)) ≡ false
    → walk m d va ≡ none
walk_missing m d va a n = walk_at m d va a ∙ rw n refl

-- The invariant is about the directory's own entries.
pub IsDirectory-transfer :
    (lo hi hi' : ℕ) (m m' : Mem) (d : ℕ)
    → IsDirectory lo hi m d
    → hi ≤ hi'
    → ((k : ℕ) → k < 1024 → entry m' d k ≡ entry m d k)
    → IsDirectory lo hi' m' d
IsDirectory-transfer lo hi hi' m m' d dir le same = record {
  aligned = dir.aligned;
  above = dir.above;
  below = omega (arith, dir.below);
  tables = λ k hk p.
      let (low, high, ne) = dir.tables k hk (present k hk p) in
      subst (λ e. (lo ≤ frame e) × (frame e + 4096 ≤ hi') × (frame e ≢ d)) (sym (same k hk))
        (low, omega arith, ne);
  apart = λ j k hj hk ne p q.
      subst (λ e. frame e ≢ frame (entry m' d k)) (sym (same j hj))
        (subst (λ e. frame (entry m d j) ≢ frame e) (sym (same k hk))
          (dir.apart j k hj hk ne (present j hj p) (present k hk q)));
}
  where
    present :
        (k : ℕ) → k < 1024 → is_present (entry m' d k) ≡ true → is_present (entry m d k) ≡ true
    present k hk p = subst (λ e. is_present e ≡ true) (same k hk) p

-- Two pages that differ have no byte in common.
pub pages_apart :
    (a b i j : ℕ)
    → a % 4096 ≡ 0
    → b % 4096 ≡ 0
    → a ≢ b
    → i < 1024
    → j < 1024
    → (b + 4 * j + 4 ≤ a + 4 * i) ⊎ (a + 4 * i + 4 ≤ b + 4 * j)
pages_apart a b i j ha hb ne hi hj = elim (dec_lt a b) [
  | yes l ↦ inr (omega arith)
  | no g ↦ inl (omega (arith, ne))
]

pub byte_apart :
    (a p i x : ℕ)
    → a % 4096 ≡ 0
    → p % 4096 ≡ 0
    → a ≢ p
    → i < 1024
    → p ≤ x
    → x < p + 4096
    → IsOutside (a + 4 * i) 4 x
byte_apart a p i x ha hp ne hi le lt = elim (dec_lt a p) [
  | yes l ↦ inr (omega arith)
  | no g ↦ inl (omega (arith, ne))
]

pub frame_aligned : (e : ℕ) → frame e % 4096 ≡ 0
frame_aligned e = omega arith

module _ (lo hi : ℕ) (m : Mem) (d : ℕ) (dir : IsDirectory lo hi m d) (pd pt v : ℕ) (hpd : pd < 1024)
    (hpt : pt < 1024) (hv : v < 256 ^ 4) (there : is_present (entry m d pd) ≡ true) where
  -- An entry of the table for `pd` is written.
  abbrev pub written : Mem
  written = store 4 m (frame (entry m d pd) + 4 * pt) v

  written-directory : (k : ℕ) → k < 1024 → entry written d k ≡ entry m d k
  written-directory k hk =
      load-store-IsOutside 4 4 m (frame (entry m d pd) + 4 * pt) (d + 4 * k) v (
        pages_apart (frame (entry m d pd)) d pt k (frame_aligned (entry m d pd)) dir.aligned
          (dir.tables pd hpd there).2 hpt hk)

  written-other :
      (k i : ℕ)
      → k < 1024
      → i < 1024
      → is_present (entry m d k) ≡ true
      → (k ≢ pd) ⊎ (i ≢ pt)
      → entry written (frame (entry m d k)) i ≡ entry m (frame (entry m d k)) i
  written-other k i hk hi' p ne = elim (ℕ_discrete pd k) [
    | no differ ↦
        load-store-IsOutside 4 4 m (frame (entry m d pd) + 4 * pt) (frame (entry m d k) + 4 * i) v (
          pages_apart (frame (entry m d pd)) (frame (entry m d k)) pt i
            (frame_aligned (entry m d pd)) (frame_aligned (entry m d k))
            (dir.apart pd k hpd hk differ there p) hpt hi')
    | yes same ↦
        load-store-IsOutside 4 4 m (frame (entry m d pd) + 4 * pt) (frame (entry m d k) + 4 * i) v (
          one_page (frame (entry m d pd)) (frame (entry m d k)) (ap (λ k. frame (entry m d k)) same)
            (index_differs same ne))
  ]
    where
      index_differs : pd ≡ k → (k ≢ pd) ⊎ (i ≢ pt) → i ≢ pt
      index_differs e (inl ne) = absurd (ne (sym e))
      index_differs e (inr ne) = ne

      one_page :
          (a b : ℕ) → a ≡ b → i ≢ pt → (b + 4 * i + 4 ≤ a + 4 * pt) ⊎ (a + 4 * pt + 4 ≤ b + 4 * i)
      one_page a b e ne = elim (dec_lt i pt) [
        | yes l ↦ inl (omega arith)
        | no g ↦ inr (omega (arith, ne))
      ]

  written_self : entry written (frame (entry m d pd)) pt ≡ v
  written_self = load-store 4 m (frame (entry m d pd) + 4 * pt) v hv

  pub written-IsDirectory : IsDirectory lo hi written d
  written-IsDirectory =
      IsDirectory-transfer lo hi hi m written d dir (omega arith) written-directory

  -- The page of the written entry is the one it names.
  pub written-walk :
      (va : ℕ) → pd_index va ≡ pd → pt_index va ≡ pt → walk written d va ≡ page_of v va
  written-walk va epd ept =
      walk_found written d va v dir.aligned (subst (λ e. is_present e ≡ true) (sym at_pd) there)
        (ap₂ (λ e i. entry written (frame e) i) at_pd ept ∙ written_self)
    where
      at_pd : entry written d (pd_index va) ≡ entry m d pd
      at_pd = written-directory (pd_index va) (omega arith) ∙ ap (entry m d) epd

  -- Every other page is mapped as before.
  pub written-walk_other :
      (va : ℕ) → (pd_index va ≢ pd) ⊎ (pt_index va ≢ pt) → walk written d va ≡ walk m d va
  written-walk_other va ne =
      walk_same m written d va dir.aligned (written-directory (pd_index va) (omega arith))
        (λ p. written-other (pd_index va) (pt_index va) (omega arith) (omega arith) p ne)

  pub written-IsOwned : (p : ℕ) → IsOwned hi m d p → IsOwned hi written d p
  written-IsOwned p own = record {
    page = own.page;
    within = own.within;
    not_dir = own.not_dir;
    not_table = λ k hk q.
        subst (λ e. frame e ≢ p) (sym (written-directory k hk))
          (own.not_table k hk (subst (λ e. is_present e ≡ true) (written-directory k hk) q));
  }

  pub written-byte : (p x : ℕ) → IsOwned hi m d p → p ≤ x → x < p + 4096 → written x ≡ m x
  written-byte p x own le lt = store-IsOutside 4 m (frame (entry m d pd) + 4 * pt) v x (
      byte_apart (frame (entry m d pd)) p pt x (frame_aligned (entry m d pd)) own.page
        (own.not_table pd hpd there) hpt le lt)

  pub written-there : is_present (entry written d pd) ≡ true
  written-there = subst (λ e. is_present e ≡ true) (sym (written-directory pd hpd)) there
