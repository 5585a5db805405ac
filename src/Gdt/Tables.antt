-- ===== src/Gdt/Tables.antt =====
-- The descriptors that the GDTs hold at the selectors the VMM uses.
use mini_kvm.Base.{ℕ, ◌+◌, ◌^◌, ◌<◌, ◌≤◌, ◌≡◌, ◌⊎◌, inl, ap, ◌∙◌, refl, arith}
use mini_kvm.GuestMem.{Mem, load, store, store8, memset}
use mini_kvm.GuestMem.Laws.{load_ext}
use mini_kvm.Gdt.{create_gdt_entry, setup_gdt, setup_linux_boot_gdt, setup_gdt_64bit, gdt_addr}
use mini_kvm.Gdt.{access_code_r, access_data_w, limit_gran}
use mini_kvm.Gdt.Descriptor.{Descriptor, decode, create_gdt_entry-decode}

load-entry_outside :
    (m : Mem) (e base limit access flags b : ℕ)
    → base < 2 ^ 32
    → access < 256
    → flags < 256
    → (b + 8 ≤ e) ⊎ (e + 8 ≤ b)
    → load 8 (create_gdt_entry m e base limit access flags) b ≡ load 8 m b
load-entry_outside m e base limit access flags b hb ha hf out =
    load_ext 8 _ m b
      (λ x p q. (create_gdt_entry-decode m e base limit access flags hb ha hf).1 x (omega arith))

-- The flat 32-bit segments, as descriptors.
abbrev pub flat : ℕ → Descriptor
flat access = record { base = 0; limit = 0xFFFFF; access = access; flags = 0xC }

flat-entry :
    (m : Mem) (e access : ℕ)
    → access < 256
    → decode (load 8 (create_gdt_entry m e 0 0xFFFFF access limit_gran) e) ≡ flat access
flat-entry m e access h =
    (create_gdt_entry-decode m e 0 0xFFFFF access limit_gran (omega arith) h (omega arith)).0

module _ (m : Mem) where
  pub setup_gdt-code : decode (load 8 (setup_gdt m) (gdt_addr + 8)) ≡ flat access_code_r
  unfolding setup_gdt
  setup_gdt-code =
      ap decode (
        load-entry_outside _ (gdt_addr + 32) 0 0xFFFFF 0xF2 limit_gran (gdt_addr + 8) (omega arith)
          (omega arith) (omega arith) (inl (omega arith))
        ∙ load-entry_outside _ (gdt_addr + 24) 0 0xFFFFF 0xFA limit_gran (gdt_addr + 8)
            (omega arith) (omega arith) (omega arith) (inl (omega arith))
        ∙ load-entry_outside _ (gdt_addr + 16) 0 0xFFFFF access_data_w limit_gran (gdt_addr + 8)
            (omega arith) (omega arith) (omega arith) (inl (omega arith)))
      ∙ flat-entry _ (gdt_addr + 8) access_code_r (omega arith)

  pub setup_gdt-data : decode (load 8 (setup_gdt m) (gdt_addr + 16)) ≡ flat access_data_w
  unfolding setup_gdt
  setup_gdt-data =
      ap decode (
        load-entry_outside _ (gdt_addr + 32) 0 0xFFFFF 0xF2 limit_gran (gdt_addr + 16) (omega arith)
          (omega arith) (omega arith) (inl (omega arith))
        ∙ load-entry_outside _ (gdt_addr + 24) 0 0xFFFFF 0xFA limit_gran (gdt_addr + 16)
            (omega arith) (omega arith) (omega arith) (inl (omega arith)))
      ∙ flat-entry _ (gdt_addr + 16) access_data_w (omega arith)

  pub linux_gdt-code : decode (load 8 (setup_linux_boot_gdt m) (gdt_addr + 16)) ≡ flat access_code_r
  unfolding setup_linux_boot_gdt
  linux_gdt-code =
      ap decode (
        load-entry_outside _ (gdt_addr + 32) 0 0 0 0 (gdt_addr + 16) (omega arith) (omega arith)
          (omega arith) (inl (omega arith))
        ∙ load-entry_outside _ (gdt_addr + 24) 0 0xFFFFF access_data_w limit_gran (gdt_addr + 16)
            (omega arith) (omega arith) (omega arith) (inl (omega arith)))
      ∙ flat-entry _ (gdt_addr + 16) access_code_r (omega arith)

  pub linux_gdt-data : decode (load 8 (setup_linux_boot_gdt m) (gdt_addr + 24)) ≡ flat access_data_w
  unfolding setup_linux_boot_gdt
  linux_gdt-data =
      ap decode (
        load-entry_outside _ (gdt_addr + 32) 0 0 0 0 (gdt_addr + 24) (omega arith) (omega arith)
          (omega arith) (inl (omega arith)))
      ∙ flat-entry _ (gdt_addr + 24) access_data_w (omega arith)

-- A present code segment of the kernel with the L bit.
abbrev pub code_64 : Descriptor
code_64 = record { base = 0; limit = 0; access = 0x9A; flags = 2 }

pub setup_gdt_64bit-code : (m : Mem) → decode (load 8 (setup_gdt_64bit m 0x5000) 0x5008) ≡ code_64
unfolding setup_gdt_64bit load store store8 memset
setup_gdt_64bit-code m = refl
