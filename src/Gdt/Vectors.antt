-- ===== src/Gdt/Vectors.antt =====
-- The interrupt tables of a Linux guest: `setup_linux_ivt` for the real-mode set-up code and
-- `setup_linux_prot_idt` for the 32-bit entry.
use mini_kvm.Base.{ℕ, ◌+◌, ◌*◌, ◌/◌, ◌%◌, ◌^◌, ◌<◌, ◌≡◌, inl, inr, ◌∙◌, arith, refl, ap, sym}
use mini_kvm.Base.{List, [], ◌∷◌, length, get_or, ◌==◌, ◌||◌, if◌then◌else◌, bit_and, ◌>>>◌}
use mini_kvm.GuestMem.{Mem, store, load, fill, copy_in}
use mini_kvm.GuestMem.Laws.{
  IsOutside, load-fill, fill-IsOutside, copy_in-IsOutside, copy_in-inside, load-store,
}
use native.Mathlib.Nat.{zero-add}
use mini_kvm.Gdt.{gdt_addr, gdt_total_size, linux_boot_cs}

-- push bp; mov bp, sp; and word [bp+6], 0xfffe; xor ax, ax; pop bp; iret
abbrev pub int_success_stub : List ℕ
int_success_stub =
    0x55 ∷ 0x89 ∷ 0xE5 ∷ 0x81 ∷ 0x66 ∷ 0x06 ∷ 0xFE ∷ 0xFF ∷ 0x31 ∷ 0xC0 ∷ 0x5D ∷ 0xCF ∷ []

-- The same with `or word [bp+6], 0x0001`.
abbrev pub int_fail_stub : List ℕ
int_fail_stub =
    0x55 ∷ 0x89 ∷ 0xE5 ∷ 0x81 ∷ 0x4E ∷ 0x06 ∷ 0x01 ∷ 0x00 ∷ 0x31 ∷ 0xC0 ∷ 0x5D ∷ 0xCF ∷ []

-- The offset that the loop of `setup_linux_ivt` picks for a vector.
abbrev pub ivt_offset : ℕ → ℕ
ivt_offset vec =
    if vec == 0x15 || vec == 0x10 || vec == 0x16 || vec == 0x1a
    then 0x1100
    else if vec == 0x13
    then 0x1200
    else 0x1000

-- Its four byte writes are the little-endian offset, then segment 0.
pub setup_linux_ivt : Mem → Mem
setup_linux_ivt m =
    let iret = store 1 m 0x1000 0xCF in
    let success = copy_in iret 0x1100 int_success_stub in
    let fail = copy_in success 0x1200 int_fail_stub in fill 4 ivt_offset 256 0 fail 0

-- push eax; push edx; mov edx, 0x3f8; mov al, 'E'; out dx, al; pop edx; pop eax; hlt; jmp $
abbrev pub handler_code : List ℕ
handler_code =
    0x50 ∷ 0x52 ∷ 0xBA ∷ 0xF8 ∷ 0x03 ∷ 0x00 ∷ 0x00 ∷ 0xB0 ∷ 0x45 ∷ 0xEE ∷ 0x5A ∷ 0x58 ∷ 0xF4 ∷ 0xEB
    ∷ 0xFE ∷ []

abbrev pub handler_addr : ℕ
handler_addr = 0x7000

-- The packed `idt_entry_t` of a handler at `off`.
abbrev pub idt_entry : ℕ → ℕ
idt_entry off =
    bit_and off 0xFFFF
    + 2 ^ 16 * linux_boot_cs
    + 2 ^ 32 * 0
    + 2 ^ 40 * 0x8E
    + 2 ^ 48 * bit_and (off >>> 16) 0xFFFF

pub setup_linux_prot_idt : Mem → Mem
setup_linux_prot_idt m =
    fill 8 (λ vec. idt_entry handler_addr) 256 0 (copy_in m handler_addr handler_code)
      (gdt_addr + gdt_total_size)

-- The stub that each vector must reach: success for the video, system, keyboard and clock
-- services, failure for the disk, a bare `iret` for all else.
abbrev pub stub : ℕ → List ℕ
stub vec =
    if vec == 0x10 || vec == 0x15 || vec == 0x16 || vec == 0x1a
    then int_success_stub
    else if vec == 0x13
    then int_fail_stub
    else 0xCF ∷ []

-- The bytes of `code` stand in memory from `a` on.
abbrev pub HasCode : Mem → ℕ → List ℕ → Type 0
HasCode m a code = (i : ℕ) → i < length code → m (a + i) ≡ get_or code i 0

module _ (m : Mem) where
  vector-ivt : (vec : ℕ) → vec < 256 → load 4 (setup_linux_ivt m) (4 * vec) ≡ ivt_offset vec
  unfolding setup_linux_ivt
  vector-ivt vec h =
      ap (λ b. load 4 (setup_linux_ivt m) b) (sym (zero-add (4 * vec)))
      ∙ load-fill 4 ivt_offset 256 0 _ 0 vec (λ i p. ground arith) h
      ∙ ap ivt_offset (zero-add vec)

  success_code : HasCode (setup_linux_ivt m) 0x1100 int_success_stub
  unfolding setup_linux_ivt
  success_code i h =
      fill-IsOutside 4 ivt_offset 256 0 _ 0 (0x1100 + i) (inr (omega arith))
      ∙ copy_in-IsOutside _ 0x1200 int_fail_stub (0x1100 + i) (inl (omega arith))
      ∙ copy_in-inside _ 0x1100 int_success_stub i h

  fail_code : HasCode (setup_linux_ivt m) 0x1200 int_fail_stub
  unfolding setup_linux_ivt
  fail_code i h =
      fill-IsOutside 4 ivt_offset 256 0 _ 0 (0x1200 + i) (inr (omega arith))
      ∙ copy_in-inside _ 0x1200 int_fail_stub i h

  iret_code : setup_linux_ivt m 0x1000 ≡ 0xCF
  unfolding setup_linux_ivt
  iret_code =
      fill-IsOutside 4 ivt_offset 256 0 _ 0 0x1000 (inr (omega arith))
      ∙ copy_in-IsOutside _ 0x1200 int_fail_stub 0x1000 (inl (omega arith))
      ∙ copy_in-IsOutside _ 0x1100 int_success_stub 0x1000 (inl (omega arith))
      ∙ omega (arith, load-store 1 m 0x1000 0xCF (omega arith), one_byte (store 1 m 0x1000 0xCF))
    where
      one_byte : (m' : Mem) → load 1 m' 0x1000 ≡ m' 0x1000
      one_byte m' = unfold load in omega arith

  stub_code : (vec : ℕ) → HasCode (setup_linux_ivt m) (ivt_offset vec) (stub vec)
  stub_code vec i h = ground (arith, success_code i, fail_code i, iret_code, only_byte i)
    where
      only_byte : (k : ℕ) → k < 1 → k ≡ 0
      only_byte k p = omega arith

-- Every one of the 256 real-mode vectors that the VMM writes is a far pointer in segment 0 to the
-- code of the stub that its service needs, and those bytes stand there.
pub setup_linux_ivt-reaches_stub :
    (m : Mem) (vec : ℕ)
    → vec < 256
    → let m' = setup_linux_ivt m in
      let vector = load 4 m' (4 * vec) in
      (vector / 2 ^ 16 ≡ 0) × HasCode m' (vector % 2 ^ 16) (stub vec)
setup_linux_ivt-reaches_stub m vec h = rw (vector-ivt m vec h) (ground arith, at_offset)
  where
    in_segment : ivt_offset vec % 2 ^ 16 ≡ ivt_offset vec
    in_segment = ground arith

    at_offset : HasCode (setup_linux_ivt m) (ivt_offset vec % 2 ^ 16) (stub vec)
    at_offset = rw in_segment (stub_code m vec)

-- Every one of the 256 gates that the VMM writes for the 32-bit Linux entry is a present 32-bit
-- interrupt gate of ring 0 through __BOOT_CS, to the address where the handler's code stands.
pub setup_linux_prot_idt-gate :
    (m : Mem) (vec : ℕ)
    → vec < 256
    → let m' = setup_linux_prot_idt m in
      let gate = load 8 m' (gdt_addr + gdt_total_size + 8 * vec) in
      (gate / 2 ^ 40 % 2 ^ 8 ≡ 0x8E)
      × (gate / 2 ^ 16 % 2 ^ 16 ≡ linux_boot_cs)
      × HasCode m' (gate % 2 ^ 16 + gate / 2 ^ 48 * 2 ^ 16) handler_code
unfolding setup_linux_prot_idt
setup_linux_prot_idt-gate m vec h = rw gate (refl, refl, code)
  where
    gate :
        load 8 (setup_linux_prot_idt m) (gdt_addr + gdt_total_size + 8 * vec)
        ≡ idt_entry handler_addr
    gate =
        load-fill 8 (λ v. idt_entry handler_addr) 256 0 _ (gdt_addr + gdt_total_size) vec
          (λ i p. omega arith) h

    code : HasCode (setup_linux_prot_idt m) handler_addr handler_code
    code i p =
        fill-IsOutside 8 (λ v. idt_entry handler_addr) 256 0 _ (gdt_addr + gdt_total_size)
          (handler_addr + i) (inr (omega arith))
        ∙ copy_in-inside m handler_addr handler_code i p

pub setup_linux_prot_idt-IsOutside :
    (m : Mem) (x : ℕ)
    → IsOutside (gdt_addr + gdt_total_size) (8 * 256) x
    → IsOutside handler_addr 15 x
    → setup_linux_prot_idt m x ≡ m x
unfolding setup_linux_prot_idt
setup_linux_prot_idt-IsOutside m x out away =
    fill-IsOutside 8 (λ v. idt_entry handler_addr) 256 0 _ (gdt_addr + gdt_total_size) x out
    ∙ copy_in-IsOutside m handler_addr handler_code x away
