-- ===== src/Tests/Linux.antt =====
-- A small bzImage with its RAM disk, and the zero page that is made for them.
use mini_kvm.Base.{ℕ, ◌+◌, ◌<◌, ◌≤◌, ◌≡◌, refl, arith}
use mini_kvm.Base.{true, if◌then◌else◌}
use mini_kvm.Base.{some, List, [], ◌∷◌, ◌++◌, length, replicate}
use mini_kvm.GuestMem.{Mem, inside, copy_in, store, load}
use mini_kvm.GuestMem.Laws.{IsOutside}
use mini_kvm.LinuxBoot.{setup_linux_boot_params, load_initrd}
use mini_kvm.LinuxBoot.{InitrdFile, BzImage}
use mini_kvm.LinuxBoot.{initrd_addr_max, hdr, hdr_size, ramdisk_image, ramdisk_size}
use mini_kvm.LinuxBoot.E820.{e820_table}
use mini_kvm.LinuxBoot.ZeroPage.{memory_map, IsKept, setup_linux_boot_params-memory_map}
use mini_kvm.LinuxBoot.Placement.{IsPlaced, load_initrd-IsPlaced}

abbrev pub zeros : Mem
zeros = λ x. 0

setup_linux_boot_params-memory_map_example :
    let p = setup_linux_boot_params (λ x. 7) 0x10000000 true in
    (e820_table p ≡ memory_map 0x10000000)
    × (load 4 p initrd_addr_max ≡ 0x37FFFFFF)
    × ((x : ℕ) → hdr ≤ x → x < hdr + hdr_size → IsKept x → p x ≡ 7)
setup_linux_boot_params-memory_map_example =
    setup_linux_boot_params-memory_map (λ x. 7) 0x10000000 true (omega arith)

-- A zero page that allows any 32-bit address.
abbrev pub params : Mem
params x = if inside initrd_addr_max 4 x then 0xff else 0

abbrev pub disk : List ℕ
disk = 1 ∷ 2 ∷ 3 ∷ 4 ∷ 5 ∷ []

abbrev pub disk_file : InitrdFile
disk_file = record { st_size = some 5; buf = true; bytes = some disk }

abbrev with_disk : Mem
with_disk =
    store 4 (store 4 (store 4 params ramdisk_image 0x3ff000) ramdisk_size 5) initrd_addr_max
      0x37FFFFFF

load_initrd-IsPlaced_example :
    (start : ℕ) × (image : List ℕ) × (some disk ≡ some image)
    × (some 5 ≡ some (length image))
    × IsPlaced 0x400000
        (load 4 params initrd_addr_max)
        (0x100000 + load 4 params 0x260)
        (length image)
        start
    × (copy_in zeros start image ≡ copy_in zeros 0x3ff000 disk)
    × (load 4 with_disk ramdisk_image ≡ start)
    × (load 4 with_disk ramdisk_size ≡ length image)
    × ((x : ℕ)
        → IsOutside ramdisk_image 8 x
        → IsOutside initrd_addr_max 4 x
        → with_disk x ≡ params x)
unfolding load_initrd load
load_initrd-IsPlaced_example =
    load_initrd-IsPlaced disk_file zeros 0x400000 params (copy_in zeros 0x3ff000 disk) with_disk
      (omega arith) refl

abbrev pub setup_code : List ℕ
setup_code = replicate 2048 9

abbrev pub kernel_code : List ℕ
kernel_code = 7 ∷ 8 ∷ 9 ∷ []

-- No sector count, so four sectors of setup code; 0xAA55, "HdrS" and LOADED_HIGH.
abbrev pub sectors : List ℕ
sectors =
    replicate 510 0 ++ 0x55 ∷ 0xAA ∷ 0 ∷ 0 ∷ 0x48 ∷ 0x64 ∷ 0x72 ∷ 0x53 ∷ replicate 11 0 ++ 1 ∷ []

abbrev pub image : BzImage
image = record {
  st_size = some 2051;
  first_buf = some zeros;
  first = some sectors;
  setup_buf = true;
  setup = some setup_code;
  kernel_buf = true;
  kernel = some kernel_code;
}

abbrev pub first : Mem
first = copy_in zeros 0 sectors
