-- ===== src/Os1k/Process/EmptyDirectory.antt =====
-- A page directory just handed out maps nothing.
use mini_kvm.Base.{ℕ, ◌+◌, ◌*◌, ◌/◌, ◌%◌, ◌≤◌, ◌<◌, ◌≡◌, ap, arith, none, true, false, inl, ◌∙◌}
use mini_kvm.GuestMem.{memset}
use mini_kvm.GuestMem.Laws.{load-memset_zero, memset-IsOutside}
use mini_kvm.Paging32.Walk.{walk, is_present}
use mini_kvm.Os1k.Memory.{Ram, phys, kernel_base}
use mini_kvm.Os1k.Memory.Directory.{entry, pd_index, walk_missing}
use mini_kvm.Os1k.Memory.Range.{Grows}
use mini_kvm.Os1k.Memory.Fresh.{IsSpace, hi-next}

-- Memory after `alloc_pages(1)`.
abbrev pub cleared : Ram → Ram
cleared r = record {
  mem = memset r.mem (phys r.next_paddr) 0 4096;
  next_paddr = r.next_paddr + 4096;
}

module _ (r : Ram) (page : r.next_paddr % 4096 ≡ 0) (high : kernel_base ≤ r.next_paddr) where
  empty_entry : (k : ℕ) → k < 1024 → entry (cleared r).mem (phys r.next_paddr) k ≡ 0
  empty_entry k h =
      load-memset_zero 4 r.mem (phys r.next_paddr) 4096 (phys r.next_paddr + 4 * k) (omega arith)
        (omega arith)

  absent : (k : ℕ) → k < 1024 → is_present (entry (cleared r).mem (phys r.next_paddr) k) ≡ false
  absent k h = ap is_present (empty_entry k h)

  clash : (k : ℕ) → k < 1024 → is_present (entry (cleared r).mem (phys r.next_paddr) k) ≡ true → ⊥
  clash k hk p = let a = absent k hk in cc

  pub cleared-IsSpace : IsSpace (phys r.next_paddr) r.next_paddr (cleared r)
  cleared-IsSpace = record {
    dir = record {
      aligned = omega (arith, page, high);
      above = omega arith;
      below = omega (arith, hi-next r high);
      tables = λ k hk p. absurd (clash k hk p);
      apart = λ j k hj hk ne p q. absurd (clash k hk q);
    };
    page = omega (arith, page);
    high = omega (arith, high);
  }

  pub cleared-walk : (va : ℕ) → walk (cleared r).mem (phys r.next_paddr) va ≡ none
  cleared-walk va =
      walk_missing (cleared r).mem (phys r.next_paddr) va (omega (arith, page, high))
        (absent (pd_index va) (omega arith))

  -- Whatever is handed out and written from then on, the bytes below are as before.
  pub Grows-below :
      (limit : ℕ) (r' : Ram)
      → Grows (phys r.next_paddr) r.next_paddr limit (cleared r) r'
      → (x : ℕ) → x < phys r.next_paddr
      → r'.mem x ≡ r.mem x
  Grows-below limit r' grows x h =
      grows.bytes (x / 4096 * 4096) x
        (record {
          page = omega arith;
          within = omega (arith, hi-next r high, page, high);
          not_dir = λ e. absurd (omega (arith, e));
          not_table = λ k hk p. absurd (clash k hk p);
        })
        (omega arith) (omega arith)
      ∙ memset-IsOutside r.mem (phys r.next_paddr) 0 4096 x (inl h)
