-- ===== src/Gdt/Kept.antt =====
-- Where the GDTs are written in guest memory.
use mini_kvm.Base.{ℕ, ◌+◌, ◌*◌, ◌≡◌, ◌∙◌, arith}
use mini_kvm.GuestMem.{Mem}
use mini_kvm.GuestMem.Laws.{IsOutside, store-IsOutside, memset-IsOutside}
use mini_kvm.Gdt.{setup_gdt, setup_linux_boot_gdt, setup_gdt_64bit, gdt_addr, gdt_total_size}
use mini_kvm.Gdt.{setup_linux_boot_gdt_64bit}
use mini_kvm.Gdt.Descriptor.{create_gdt_entry-IsOutside}

pub setup_gdt-IsOutside :
    (m : Mem) (x : ℕ) → IsOutside gdt_addr gdt_total_size x → setup_gdt m x ≡ m x
unfolding setup_gdt
setup_gdt-IsOutside m x h =
    create_gdt_entry-IsOutside _ (gdt_addr + 32) _ _ _ _ x (omega arith)
    ∙ create_gdt_entry-IsOutside _ (gdt_addr + 24) _ _ _ _ x (omega arith)
    ∙ create_gdt_entry-IsOutside _ (gdt_addr + 16) _ _ _ _ x (omega arith)
    ∙ create_gdt_entry-IsOutside _ (gdt_addr + 8) _ _ _ _ x (omega arith)
    ∙ create_gdt_entry-IsOutside m gdt_addr _ _ _ _ x (omega arith)

pub setup_linux_boot_gdt-IsOutside :
    (m : Mem) (x : ℕ) → IsOutside gdt_addr gdt_total_size x → setup_linux_boot_gdt m x ≡ m x
unfolding setup_linux_boot_gdt
setup_linux_boot_gdt-IsOutside m x h =
    create_gdt_entry-IsOutside _ (gdt_addr + 32) _ _ _ _ x (omega arith)
    ∙ create_gdt_entry-IsOutside _ (gdt_addr + 24) _ _ _ _ x (omega arith)
    ∙ create_gdt_entry-IsOutside _ (gdt_addr + 16) _ _ _ _ x (omega arith)
    ∙ create_gdt_entry-IsOutside _ (gdt_addr + 8) _ _ _ _ x (omega arith)
    ∙ create_gdt_entry-IsOutside _ gdt_addr _ _ _ _ x (omega arith)
    ∙ memset-IsOutside m gdt_addr 0 gdt_total_size x (omega arith)

pub setup_gdt_64bit-IsOutside :
    (m : Mem) (x : ℕ) → IsOutside 0x5000 40 x → setup_gdt_64bit m 0x5000 x ≡ m x
unfolding setup_gdt_64bit
setup_gdt_64bit-IsOutside m x h =
    store-IsOutside 1 _ 0x5017 _ x (omega arith)
    ∙ store-IsOutside 1 _ 0x5016 _ x (omega arith)
    ∙ store-IsOutside 1 _ 0x5015 _ x (omega arith)
    ∙ store-IsOutside 1 _ 0x5014 _ x (omega arith)
    ∙ store-IsOutside 2 _ 0x5012 _ x (omega arith)
    ∙ store-IsOutside 2 _ 0x5010 _ x (omega arith)
    ∙ store-IsOutside 1 _ 0x500f _ x (omega arith)
    ∙ store-IsOutside 1 _ 0x500e _ x (omega arith)
    ∙ store-IsOutside 1 _ 0x500d _ x (omega arith)
    ∙ store-IsOutside 1 _ 0x500c _ x (omega arith)
    ∙ store-IsOutside 2 _ 0x500a _ x (omega arith)
    ∙ store-IsOutside 2 _ 0x5008 _ x (omega arith)
    ∙ memset-IsOutside _ 0x5000 0 8 x (omega arith)
    ∙ memset-IsOutside m 0x5000 0 (5 * 8) x (omega arith)

pub setup_linux_boot_gdt_64bit-IsOutside :
    (m : Mem) (x : ℕ) → IsOutside 0x5000 40 x → setup_linux_boot_gdt_64bit m 0x5000 x ≡ m x
unfolding setup_linux_boot_gdt_64bit
setup_linux_boot_gdt_64bit-IsOutside m x h =
    store-IsOutside 1 _ 0x501e _ x (omega arith)
    ∙ store-IsOutside 1 _ 0x501d _ x (omega arith)
    ∙ store-IsOutside 1 _ 0x5016 _ x (omega arith)
    ∙ store-IsOutside 1 _ 0x5015 _ x (omega arith)
    ∙ memset-IsOutside m 0x5000 0 (5 * 8) x (omega arith)
