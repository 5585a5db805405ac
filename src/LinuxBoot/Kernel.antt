-- ===== src/LinuxBoot/Kernel.antt =====
-- What `load_linux_kernel` leaves in guest memory and in the zero page.
use mini_kvm.Base.{
  ℕ, ◌+◌, ◌-◌, ◌^◌, ◌≤◌, ◌<◌, ◌≡◌, refl, ap, ◌∙◌, sym, arith, Bool, true, false, not, ◌||◌,
}
use mini_kvm.Base.{◌==◌, none, some, List, length, get_or, if◌then◌else◌, ltb, u64, inl}
use mini_kvm.GuestMem.{Mem, copy_in, load}
use mini_kvm.GuestMem.Laws.{IsOutside, copy_in-IsOutside, copy_in-inside, load-store, load_ext}
use mini_kvm.LinuxBoot.{BzImage, load_linux_kernel, load_image, with_first, with_stat, is_bz_image}
use mini_kvm.LinuxBoot.{is_short, read_into, setup_bytes, kernel_bytes, default_entry}
use mini_kvm.LinuxBoot.{copy_header, hdr, code32_start, kernel_load_addr, real_mode_kernel_addr}

-- The image as the reads give it: the buffer of the first read before and after it, the setup
-- code, and the kernel.
module _ (image : BzImage) (mem : Mem) (mem_size : ℕ) (params : Mem) (n : ℕ) (first : Mem)
    (setup kernel : List ℕ) (setup_eq : image.setup ≡ some setup)
    (kernel_eq : image.kernel ≡ some kernel) where
  abbrev setup_size : ℕ
  setup_size = setup_bytes (first hdr)

  abbrev kernel_size : ℕ
  kernel_size = kernel_bytes n setup_size

  abbrev fails : Bool
  fails =
      is_short image.first 512
      || not (is_bz_image first)
      || not image.setup_buf
      || is_short (some setup) setup_size
      || ltb mem_size (real_mode_kernel_addr + setup_size)
      || not image.kernel_buf
      || is_short (some kernel) kernel_size
      || ltb mem_size (u64 (kernel_load_addr + kernel_size))

  abbrev loaded : Mem
  loaded = copy_in (copy_in mem real_mode_kernel_addr setup) kernel_load_addr kernel

  open_image :
      load_image image mem mem_size params n first
      ≡ (if fails then none else some (loaded, default_entry (copy_header params first)))
  open_image = rw (setup_eq, kernel_eq) refl

  from_success :
      (mem' params' : Mem)
      → load_image image mem mem_size params n first ≡ some (mem', params')
      → (fails ≡ false) × (loaded ≡ mem') × (default_entry (copy_header params first) ≡ params')
  from_success mem' params' h = ground (arith, open_image)

  setup_size-le : first hdr < 256 → setup_size ≤ 0x20000
  setup_size-le h = ground arith

  passed :
      fails ≡ false
      → (is_bz_image first ≡ true)
        × (is_short (some setup) setup_size ≡ false)
        × (ltb mem_size (real_mode_kernel_addr + setup_size) ≡ false)
        × (is_short (some kernel) kernel_size ≡ false)
        × (ltb mem_size (u64 (kernel_load_addr + kernel_size)) ≡ false)
  passed h = ground arith

  long_enough : (xs : List ℕ) (k : ℕ) → k < 2 ^ 63 → is_short (some xs) k ≡ false → k ≤ length xs
  long_enough xs k small h = ground arith

  not_below : (a b : ℕ) → ltb a b ≡ false → b ≤ a
  not_below a b h = ground arith

  -- What the checks that were passed say of the sizes.
  sizes :
      first hdr < 256
      → n < 2 ^ 63
      → mem_size < 2 ^ 63
      → length setup ≤ n
      → length setup ≤ setup_size
      → length kernel ≤ n - length setup
      → fails ≡ false
      → (length setup ≡ setup_size)
        × (length setup + length kernel ≡ n)
        × (real_mode_kernel_addr + length setup ≤ mem_size)
        × (kernel_load_addr + length kernel ≤ mem_size)
        × (is_bz_image first ≡ true)
  sizes hb hn hm hs hz hk ok =
      let (magic, whole_setup, setup_fits, whole_kernel, kernel_fits) = passed ok in
      let a = long_enough setup setup_size (omega (arith, setup_size-le hb)) whole_setup in
      let b = long_enough kernel kernel_size (omega (arith, a)) whole_kernel in
      (
        omega (arith, a),
        omega (arith, a, b),
        omega (arith, a, not_below mem_size (real_mode_kernel_addr + setup_size) setup_fits),
        omega (arith, a, b, not_below mem_size (u64 (kernel_load_addr + kernel_size)) kernel_fits),
        magic,
      )

default_entry-start :
    (params first : Mem)
    → load 4 (default_entry (copy_header params first)) code32_start
      ≡ (if load 4 first code32_start == 0 then kernel_load_addr else load 4 first code32_start)
default_entry-start params first = ground (
  arith,
  copied,
  load-store 4 (copy_header params first) code32_start kernel_load_addr (omega arith),
)
  where
    copied : load 4 (copy_header params first) code32_start ≡ load 4 first code32_start
    copied = load_ext 4 _ _ code32_start (λ x p q. ground arith)

-- Of a bzImage whose reads give no more bytes than were asked for and than the file has, a
-- successful load takes every byte: the setup code stands at 0x10000 and the kernel at 0x100000,
-- both inside the memory and with nothing else changed. The image has the boot signatures, and
-- the 32-bit entry point is the header's, or 0x100000 where it has none.
pub load_linux_kernel-loaded :
    (image : BzImage) (mem : Mem) (mem_size : ℕ) (params mem' params' : Mem) (n : ℕ) (buf : Mem)
    (setup kernel : List ℕ)
    → image.st_size ≡ some n
    → image.first_buf ≡ some buf
    → image.setup ≡ some setup
    → image.kernel ≡ some kernel
    → read_into buf image.first hdr < 256
    → n < 2 ^ 63
    → mem_size < 2 ^ 63
    → length setup ≤ n
    → length setup ≤ setup_bytes (read_into buf image.first hdr)
    → length kernel ≤ n - length setup
    → load_linux_kernel (some image) mem mem_size params ≡ some (mem', params')
    → let first = read_into buf image.first in
      (is_bz_image first ≡ true)
      × (length setup + length kernel ≡ n)
      × (0x10000 + length setup ≤ mem_size)
      × (0x100000 + length kernel ≤ mem_size)
      × ((i : ℕ) → i < length setup → mem' (0x10000 + i) ≡ get_or setup i 0)
      × ((i : ℕ) → i < length kernel → mem' (0x100000 + i) ≡ get_or kernel i 0)
      × ((x : ℕ)
          → IsOutside 0x10000 (length setup) x
          → IsOutside 0x100000 (length kernel) x
          → mem' x ≡ mem x)
      × (load 4 params' code32_start ≡ (
          if load 4 first code32_start == 0 then kernel_load_addr else load 4 first code32_start))
unfolding load_linux_kernel
load_linux_kernel-loaded image mem mem_size params mem' params' n buf setup kernel en eb es ek hb hn
      hm hs hz hk h =
    let first = read_into buf image.first in
    let (ok, mem_eq, params_eq) =
      from_success image mem mem_size params n first setup kernel es ek mem' params'
        (sym opened ∙ h) in
    let (whole, all, setup_fits, kernel_fits, magic) =
      sizes image mem mem_size params n first setup kernel es ek hb hn hm hs hz hk ok in
    let small = setup_size-le image mem mem_size params n first setup kernel es ek hb in
    (
      magic,
      all,
      setup_fits,
      kernel_fits,
      λ i p.
          ap (λ m. m (0x10000 + i)) (sym mem_eq)
          ∙ copy_in-IsOutside _ kernel_load_addr kernel (0x10000 + i)
              (inl (omega (arith, whole, small)))
          ∙ copy_in-inside mem real_mode_kernel_addr setup i p,
      λ i p. ap (λ m. m (0x100000 + i)) (sym mem_eq) ∙ copy_in-inside _ kernel_load_addr kernel i p,
      λ x p q.
          ap (λ m. m x) (sym mem_eq)
          ∙ copy_in-IsOutside _ kernel_load_addr kernel x q
          ∙ copy_in-IsOutside mem real_mode_kernel_addr setup x p,
      ap (λ p. load 4 p code32_start) (sym params_eq) ∙ default_entry-start params first,
    )
  where
    opened :
        with_stat image mem mem_size params image.st_size
        ≡ load_image image mem mem_size params n (read_into buf image.first)
    opened =
        ap (with_stat image mem mem_size params) en ∙ ap (with_first image mem mem_size params n) eb
