-- ===== src/Os1k/Process/Frame.antt =====
-- The frame that `create_process` puts on a new stack.
use mini_kvm.Base.{
  ℕ, zero, suc, refl, ap, ℕ_discrete, ◌+◌, ◌-◌, ◌*◌, ◌^◌, ◌≤◌, ◌<◌, ◌≡◌, ◌∙◌, arith, inr,
}
use mini_kvm.GuestMem.{Mem, store, load}
use mini_kvm.GuestMem.Laws.{IsOutside, store-IsOutside, load-store, load-store-IsOutside, load_ext}
use mini_kvm.Os1k.Memory.{phys, kernel_base}
use mini_kvm.Os1k.Process.{push_frame}

-- The address of `user_entry`, and four zeros above it.
pub record IsFrame (user_entry sp : ℕ) (m : Mem) : Type 0 where
  pub entry : load 4 m sp ≡ user_entry
  pub zeros : (i : ℕ) → i < 4 → load 4 m (sp + 4 + 4 * i) ≡ 0

pub IsFrame_ext :
    (user_entry sp : ℕ) (m m' : Mem)
    → ((x : ℕ) → x < sp + 20 → m' x ≡ m x)
    → IsFrame user_entry sp m
    → IsFrame user_entry sp m'
IsFrame_ext user_entry sp m m' same f = record {
  entry = load_ext 4 m' m sp (λ x p q. same x (omega arith)) ∙ f.entry;
  zeros = λ i h. load_ext 4 m' m (sp + 4 + 4 * i) (λ x p q. same x (omega arith)) ∙ f.zeros i h;
}

module _ (m : Mem) (stack_end user_entry : ℕ) where
  -- Memory after the first of the five words, and so on.
  abbrev pushed : ℕ → Mem
  pushed zero = m
  pushed (suc n) = store 4 (pushed n) (phys (stack_end - 4 * suc n)) 0

  pushed-IsOutside :
      (n x : ℕ)
      → kernel_base + 4 * n ≤ stack_end
      → IsOutside (phys (stack_end - 4 * n)) (4 * n) x
      → pushed n x ≡ m x
  pushed-IsOutside zero x h out = refl
  pushed-IsOutside (suc n) x h out =
      store-IsOutside 4 (pushed n) (phys (stack_end - 4 * suc n)) 0 x (omega arith)
      ∙ pushed-IsOutside n x (omega arith) (omega arith)

  pushed-zero :
      (n i a : ℕ)
      → kernel_base + 4 * n ≤ stack_end
      → i < n
      → a ≡ phys (stack_end - 4 * suc i)
      → load 4 (pushed n) a ≡ 0
  pushed-zero zero i a h l e = elim l [ ]
  pushed-zero (suc n) i a h l e = elim (ℕ_discrete i n) [
    | yes last ↦
        ap (load 4 (pushed (suc n))) (e ∙ ap (λ k. phys (stack_end - 4 * suc k)) last)
        ∙ load-store 4 (pushed n) (phys (stack_end - 4 * suc n)) 0 (omega arith)
    | no ne ↦
        load-store-IsOutside 4 4 (pushed n) (phys (stack_end - 4 * suc n)) a 0
          (omega (arith, e, ne))
        ∙ pushed-zero n i a (omega arith) (omega (arith, ne)) e
  ]

  push_frame-pushed :
      push_frame m stack_end user_entry ≡ store 4 (pushed 4) (phys (stack_end - 20)) user_entry
  unfolding push_frame
  push_frame-pushed = refl

  pub push_frame-IsOutside :
      (x : ℕ)
      → kernel_base + 20 ≤ stack_end
      → IsOutside (phys (stack_end - 20)) 20 x
      → push_frame m stack_end user_entry x ≡ m x
  push_frame-IsOutside x h out =
      ap (λ n. n x) push_frame-pushed
      ∙ store-IsOutside 4 (pushed 4) (phys (stack_end - 20)) user_entry x (omega arith)
      ∙ pushed-IsOutside 4 x (omega arith) (omega arith)

  pub push_frame-IsFrame :
      user_entry < 2 ^ 32
      → kernel_base + 20 ≤ stack_end
      → IsFrame user_entry (phys (stack_end - 20)) (push_frame m stack_end user_entry)
  push_frame-IsFrame small h = record {
    entry =
        ap (λ n. load 4 n (phys (stack_end - 20))) push_frame-pushed
        ∙ load-store 4 (pushed 4) (phys (stack_end - 20)) user_entry (omega arith);
    zeros = λ i l.
        ap (λ n. load 4 n (phys (stack_end - 20) + 4 + 4 * i)) push_frame-pushed
        ∙ load-store-IsOutside 4 4 (pushed 4) (phys (stack_end - 20))
            (phys (stack_end - 20) + 4 + 4 * i) user_entry (inr (omega arith))
        ∙ pushed-zero 4 (3 - i) (phys (stack_end - 20) + 4 + 4 * i) (omega arith) (omega arith)
            (omega arith);
  }
