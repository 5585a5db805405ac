-- ===== src/Os1k/Boot/Gate.antt =====
-- The gate that `setup_idt_entry` writes, as the processor reads it.
use mini_kvm.Base.{ℕ, ◌+◌, ◌*◌, ◌/◌, ◌%◌, ◌^◌, ◌≤◌, ◌<◌, ◌≡◌, ap, ap₂, ◌∙◌, arith, inl}
use mini_kvm.Base.{bit_and, bit_or, ◌<<<◌}
use mini_kvm.Base.Bits.{or-fields, and-low, and-high}
use mini_kvm.GuestMem.{Mem, load}
use mini_kvm.GuestMem.Laws.{load-store, load-store-IsOutside, load_ext}
use mini_kvm.Os1k.Boot.{idt, setup_idt_entry}

-- A present 32-bit interrupt gate of ring 0 for `vector`, through the kernel's code segment to
-- `handler`.
pub record IsGate (vector handler : ℕ) (m : Mem) : Type 0 where
  pub selector : load 4 m (idt + 8 * vector) % 2 ^ 16 ≡ 0x08
  pub kind : load 4 m (idt + 8 * vector + 4) % 2 ^ 16 ≡ 0x8E00
  pub target :
      load 4 m (idt + 8 * vector) / 2 ^ 16 + load 4 m (idt + 8 * vector + 4) / 2 ^ 16 * 2 ^ 16
      ≡ handler

pub IsGate-ext :
    (vector handler : ℕ) (m m' : Mem)
    → ((x : ℕ) → idt + 8 * vector ≤ x → x < idt + 8 * vector + 8 → m' x ≡ m x)
    → IsGate vector handler m
    → IsGate vector handler m'
IsGate-ext vector handler m m' same g = record {
  selector = ap (λ w. w % 2 ^ 16) low ∙ g.selector;
  kind = ap (λ w. w % 2 ^ 16) high ∙ g.kind;
  target = ap₂ (λ v w. v / 2 ^ 16 + w / 2 ^ 16 * 2 ^ 16) low high ∙ g.target;
}
  where
    low : load 4 m' (idt + 8 * vector) ≡ load 4 m (idt + 8 * vector)
    low = load_ext 4 m' m (idt + 8 * vector) (λ x p q. same x (omega arith) (omega arith))

    high : load 4 m' (idt + 8 * vector + 4) ≡ load 4 m (idt + 8 * vector + 4)
    high = load_ext 4 m' m (idt + 8 * vector + 4) (λ x p q. same x (omega arith) (omega arith))

module _ (m : Mem) (vector handler : ℕ) (small : handler < 2 ^ 32) where
  low_word : bit_or (bit_and handler 0xFFFF <<< 16) 0x0008 ≡ handler % 2 ^ 16 * 2 ^ 16 + 8
  low_word =
      or-fields 16 (bit_and handler 0xFFFF) 8 (omega arith)
      ∙ ap (λ k. k * 2 ^ 16 + 8) (and-low 16 handler)

  high_word : bit_or (bit_and handler 0xFFFF0000) 0x8E00 ≡ handler / 2 ^ 16 * 2 ^ 16 + 0x8E00
  high_word =
      ap (λ k. bit_or k 0x8E00)
        (and-high 16 handler 0xFFFF
          ∙ ap (λ k. k * 2 ^ 16) (and-low 16 (handler / 2 ^ 16) ∙ omega arith))
      ∙ or-fields 16 (handler / 2 ^ 16) 0x8E00 (omega arith)

  written : Mem
  written = setup_idt_entry m vector handler 0

  low_read :
      load 4 (setup_idt_entry m vector handler 0) (idt + 8 * vector) ≡ handler % 2 ^ 16 * 2 ^ 16 + 8
  unfolding setup_idt_entry
  low_read =
      ap (load 4 (setup_idt_entry m vector handler 0)) (omega arith)
      ∙ load-store-IsOutside 4 4 _ (idt + 4 * (vector * 2 + 1)) (idt + 4 * (vector * 2 + 0)) _
          (inl (omega arith))
      ∙ load-store 4 m (idt + 4 * (vector * 2 + 0)) _ (omega (arith, low_word))
      ∙ low_word

  high_read :
      load 4 (setup_idt_entry m vector handler 0) (idt + 8 * vector + 4)
      ≡ handler / 2 ^ 16 * 2 ^ 16 + 0x8E00
  unfolding setup_idt_entry
  high_read =
      ap (load 4 (setup_idt_entry m vector handler 0)) (omega arith)
      ∙ load-store 4 _ (idt + 4 * (vector * 2 + 1)) _ (omega (arith, high_word))
      ∙ high_word

  pub setup_idt_entry-IsGate : IsGate vector handler (setup_idt_entry m vector handler 0)
  setup_idt_entry-IsGate = record {
    selector = omega (arith, low_read);
    kind = omega (arith, high_read);
    target = omega (arith, low_read, high_read);
  }
