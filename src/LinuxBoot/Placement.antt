-- ===== src/LinuxBoot/Placement.antt =====
-- Where `load_initrd` puts the initial RAM disk.
use mini_kvm.Base.{
  ℕ, ◌+◌, ◌-◌, ◌*◌, ◌/◌, ◌%◌, ◌^◌, ◌≤◌, ◌<◌, ◌≡◌, refl, ap, ◌∙◌, arith, Bool, true, not, ◌||◌, ◌==◌,
}
use mini_kvm.Base.{Option, none, some, List, length, if◌then◌else◌, ltb, u32, inl, inr, sym}
use mini_kvm.Base.{Option-cases}
use mini_kvm.Base.Bits.{and-high, and-low}
use mini_kvm.GuestMem.{Mem, copy_in, store, load}
use mini_kvm.GuestMem.Laws.{load-store, load-store-IsOutside, IsOutside, store-IsOutside}
use mini_kvm.LinuxBoot.{InitrdFile, file, load_initrd, load_initrd_file, place_initrd, with_size}
use mini_kvm.LinuxBoot.{
  max_end, initrd_start, initrd_addr_max, init_size, ramdisk_image, ramdisk_size,
}
use mini_kvm.LinuxBoot.{kernel_load_addr, highest_initrd_addr}

-- The start is the highest page boundary that leaves room for the image.
initrd_start-page :
    (last size : ℕ) → last < 2 ^ 63 → initrd_start last size ≡ (last + 1 - size) / 4096 * 4096
initrd_start-page last size h =
    and-high 12 (last + 1 - size) (2 ^ 52 - 1)
    ∙ ap (λ q. q * 2 ^ 12) (and-low 52 ((last + 1 - size) / 2 ^ 12))
    ∙ omega arith

abbrev set_ramdisk : Mem → ℕ → ℕ → Mem
set_ramdisk params start size =
    store 4 (store 4 (store 4 params ramdisk_image (u32 start)) ramdisk_size (u32 size))
      initrd_addr_max highest_initrd_addr

placed :
    (mem params : Mem) (start size : ℕ) (o : Option (List ℕ)) (mem' params' : Mem)
    → place_initrd mem params start size o ≡ some (mem', params')
    → (bytes : List ℕ) × (o ≡ some bytes)
      × (length bytes ≡ size)
      × (copy_in mem start bytes ≡ mem')
      × (set_ramdisk params start size ≡ params')
placed mem params start size none mem' params' h = absurd (ground arith)
placed mem params start size (some bytes) mem' params' h =
    (bytes, refl, ground arith, ground arith, ground arith)

-- What the zero page then says.
ramdisk-set :
    (params : Mem) (start size : ℕ)
    → start < 2 ^ 32
    → size < 2 ^ 32
    → (load 4 (set_ramdisk params start size) ramdisk_image ≡ start)
      × (load 4 (set_ramdisk params start size) ramdisk_size ≡ size)
ramdisk-set params start size hs hz = (
  load-store-IsOutside 4 4 _ initrd_addr_max ramdisk_image _ (inl (omega arith))
      ∙ load-store-IsOutside 4 4 _ ramdisk_size ramdisk_image _ (inl (omega arith))
      ∙ load-store 4 params ramdisk_image (u32 start) (omega arith)
      ∙ omega arith,
  load-store-IsOutside 4 4 _ initrd_addr_max ramdisk_size _ (inl (omega arith))
      ∙ load-store 4 _ ramdisk_size (u32 size) (omega arith)
      ∙ omega arith,
)

pub record IsPlaced (mem_size addr_max kernel_end size start : ℕ) : Type 0 where
  pub aligned : start % 4096 ≡ 0
  pub above_kernel : kernel_end ≤ start
  pub in_memory : start + size ≤ mem_size
  pub below_limit : start + size ≤ addr_max + 1

module _ (f : InitrdFile) (mem : Mem) (mem_size : ℕ) (params : Mem) (size : ℕ)
    (bounded : load 4 params initrd_addr_max < 2 ^ 32) where
  abbrev last : ℕ
  last = max_end (load 4 params initrd_addr_max) mem_size

  abbrev start : ℕ
  start = initrd_start last size

  abbrev kernel_end : ℕ
  kernel_end = kernel_load_addr + load 4 params init_size

  last-lt : last < 2 ^ 32
  last-lt = ground arith

  start-page : start ≡ (last + 1 - size) / 4096 * 4096
  start-page = initrd_start-page last size (omega (arith, last-lt))

  -- The image passes every check of its size and place, and there is a buffer for it.
  abbrev pub passes : Bool
  passes =
      not
        (size == 0 || ltb mem_size size || ltb (last + 1) size || ltb start kernel_end || not f.buf)

  passes-IsPlaced :
      passes ≡ true → IsPlaced mem_size (load 4 params initrd_addr_max) kernel_end size start
  passes-IsPlaced h = record {
    aligned = omega (arith, start-page);
    above_kernel = ground arith;
    in_memory = ground (arith, start-page);
    below_limit = ground (arith, start-page);
  }

  file_load :
      load_initrd_file mem mem_size params f size
      ≡ (if passes then place_initrd mem params start size f.bytes else none)
  file_load = ground arith

  file_placed :
      (mem' params' : Mem)
      → load_initrd_file mem mem_size params f size ≡ some (mem', params')
      → (passes ≡ true) × (place_initrd mem params start size f.bytes ≡ some (mem', params'))
  file_placed mem' params' h = ground (arith, file_load)

  passes-lt : passes ≡ true → (start < 2 ^ 32) × (size < 2 ^ 32)
  passes-lt h = ground (arith, start-page)

  passes-room :
      0 < size
      → f.buf ≡ true
      → kernel_end + size + 4095 ≤ mem_size
      → kernel_end + size + 4095 ≤ load 4 params initrd_addr_max + 1
      → passes ≡ true
  passes-room pos ready room limit = ground (arith, start-page)

with_stat :
    (mem : Mem) (mem_size : ℕ) (params : Mem) (f : InitrdFile) (mem' params' : Mem)
    → load_initrd (file f) mem mem_size params ≡ some (mem', params')
    → (size : ℕ) × (f.st_size ≡ some size)
      × (load_initrd_file mem mem_size params f size ≡ some (mem', params'))
unfolding load_initrd
with_stat mem mem_size params f mem' params' h = elim (Option-cases f.st_size) [
  | inl e ↦ absurd (ground arith)
  | inr (size, e) ↦ (size, e, ap (with_size mem mem_size params f) (sym e) ∙ h)
]

-- A file that is loaded stands whole in guest memory, from a page boundary behind the kernel's
-- initial area to an end inside the memory and not above the highest address that the kernel's
-- header allows; the header names that place and size, and nothing else in memory is changed, nor
-- in the zero page but the header's highest address.
pub load_initrd-IsPlaced :
    (f : InitrdFile) (mem : Mem) (mem_size : ℕ) (params mem' params' : Mem)
    → load 4 params initrd_addr_max < 2 ^ 32
    → load_initrd (file f) mem mem_size params ≡ some (mem', params')
    → (start : ℕ) × (image : List ℕ) × (f.bytes ≡ some image)
      × (f.st_size ≡ some (length image))
      × IsPlaced mem_size
          (load 4 params initrd_addr_max)
          (kernel_load_addr + load 4 params init_size)
          (length image)
          start
      × (copy_in mem start image ≡ mem')
      × (load 4 params' ramdisk_image ≡ start)
      × (load 4 params' ramdisk_size ≡ length image)
      × ((x : ℕ)
          → IsOutside ramdisk_image 8 x
          → IsOutside initrd_addr_max 4 x
          → params' x ≡ params x)
load_initrd-IsPlaced f mem mem_size params mem' params' b h =
    let (size, stat, loaded) = with_stat mem mem_size params f mem' params' h in
    let (ok, place) = file_placed f mem mem_size params size b mem' params' loaded in
    let (image, e, whole, mem_eq, params_eq) =
      placed mem params (start f mem mem_size params size b) size f.bytes mem' params' place in
    let (small, short) = passes-lt f mem mem_size params size b ok in
    let (at, long) = ramdisk-set params (start f mem mem_size params size b) size small short in
    (
      start f mem mem_size params size b,
      image,
      e,
      stat ∙ ap (λ n. some n) (sym whole),
      rw whole (passes-IsPlaced f mem mem_size params size b ok),
      mem_eq,
      ap (λ p. load 4 p ramdisk_image) (sym params_eq) ∙ at,
      ap (λ p. load 4 p ramdisk_size) (sym params_eq) ∙ long ∙ sym whole,
      λ x out away.
          ap (λ p. p x) (sym params_eq)
          ∙ store-IsOutside 4 _ initrd_addr_max highest_initrd_addr x away
          ∙ store-IsOutside 4 _ ramdisk_size _ x (omega arith)
          ∙ store-IsOutside 4 params ramdisk_image _ x (omega arith),
    )

-- Where a page of slack is left between the kernel's initial area and both limits, a non-empty
-- file that is read whole is loaded.
pub load_initrd-room :
    (f : InitrdFile) (mem : Mem) (mem_size : ℕ) (params : Mem) (image : List ℕ)
    → load 4 params initrd_addr_max < 2 ^ 32
    → f.st_size ≡ some (length image)
    → f.bytes ≡ some image
    → f.buf ≡ true
    → 0 < length image
    → kernel_load_addr + load 4 params init_size + length image + 4095 ≤ mem_size
    → kernel_load_addr + load 4 params init_size + length image + 4095
      ≤ load 4 params initrd_addr_max + 1
    → (params' : Mem) × (start : ℕ) × (load_initrd (file f) mem mem_size params
        ≡ some (copy_in mem start image, params'))
unfolding load_initrd
load_initrd-room f mem mem_size params image b stat e ready pos room limit = (
  set_ramdisk params at (length image),
  at,
  ap (with_size mem mem_size params f) stat
      ∙ file_load f mem mem_size params (length image) b
      ∙ ground (
        arith,
        passes-room f mem mem_size params (length image) b pos ready room limit,
        ap (place_initrd mem params at (length image)) e,
      ),
)
  where
    at : ℕ
    at = start f mem mem_size params (length image) b
