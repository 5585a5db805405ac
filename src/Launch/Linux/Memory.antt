-- ===== src/Launch/Linux/Memory.antt =====
-- What each step of the start of a kernel leaves of memory and of the zero page.
use mini_kvm.Base.{ℕ, ◌+◌, ◌-◌, ◌^◌, ◌≤◌, ◌<◌, ◌≡◌, inl, inr, ◌≢◌, refl, sym, ap, ◌∙◌, arith}
use mini_kvm.Base.{Option, none, some, List, [], ◌∷◌, ◌++◌, take, length, get_or}
use mini_kvm.Base.{length-take}
use mini_kvm.GuestMem.{Mem, load, copy_in}
use mini_kvm.GuestMem.Laws.{IsOutside, load_ext, copy_in-IsOutside, copy_in-inside}
use mini_kvm.LinuxBoot.{
  Initrd, absent, unopened, file, InitrdFile, load_initrd, init_size, ramdisk_image, ramdisk_size,
  initrd_addr_max, kernel_load_addr, command_line_addr,
}
use mini_kvm.LinuxBoot.Placement.{IsPlaced, load_initrd-IsPlaced}
use mini_kvm.VcpuSetup.{linux_boot_params_addr}
use mini_kvm.Launch.Linux.{zero_page, with_zero_page, put, add_initrd}
use mini_kvm.Launch.Linux.{copy_cmdline}

pub with_zero_page-IsOutside :
    (mem params : Mem) (x : ℕ)
    → IsOutside linux_boot_params_addr 4096 x
    → with_zero_page mem params x ≡ mem x
unfolding with_zero_page
with_zero_page-IsOutside mem params x out = ground arith

pub zero_page-with :
    (mem params : Mem) (x : ℕ) → x < 4096 → zero_page (with_zero_page mem params) x ≡ params x
unfolding with_zero_page
zero_page-with mem params x h = ground (arith, ap params (back x))
  where
    back : (x : ℕ) → linux_boot_params_addr + x - linux_boot_params_addr ≡ x
    back x = omega arith

pub load-zero_page-with :
    (w : ℕ) (mem params : Mem) (a : ℕ)
    → a + w ≤ 4096
    → load w (zero_page (with_zero_page mem params)) a ≡ load w params a
load-zero_page-with w mem params a h =
    load_ext w _ params a (λ x p q. zero_page-with mem params x (omega arith))

-- Whether there is a RAM disk or none: memory below 0x90000 and the kernel's initial area stay, and
-- of the zero page all but the fields that name the disk; a disk that is read stands whole where
-- they say, behind that area and inside the memory.
pub record IsAdded (mem_size : ℕ) (initrd : Option Initrd) (mem mem' : Mem) : Type 0 where
  pub low : (x : ℕ) → x < linux_boot_params_addr → mem' x ≡ mem x
  pub kernel :
      (x : ℕ)
      → kernel_load_addr ≤ x
      → x < kernel_load_addr + load 4 (zero_page mem) init_size
      → mem' x ≡ mem x
  pub page :
      (x : ℕ)
      → x < 4096
      → IsOutside ramdisk_image 8 x
      → IsOutside initrd_addr_max 4 x
      → zero_page mem' x ≡ zero_page mem x
  pub disk :
      (f : InitrdFile)
      → initrd ≡ some (file f)
      → (start : ℕ) × (bytes : List ℕ) × (f.bytes ≡ some bytes)
        × (load 4 (zero_page mem') ramdisk_image ≡ start)
        × (load 4 (zero_page mem') ramdisk_size ≡ length bytes)
        × (kernel_load_addr + load 4 (zero_page mem) init_size ≤ start)
        × (start + length bytes ≤ mem_size)
        × ((k : ℕ) → k < length bytes → mem' (start + k) ≡ get_or bytes k 0)

pub put-some :
    (o : Option (Mem × Mem)) (mem' : Mem)
    → put o ≡ some mem'
    → (mem : Mem) × (params : Mem) × (o ≡ some (mem, params)) × (with_zero_page mem params ≡ mem')
put-some none mem' h = cc
put-some (some (mem, params)) mem' h = (mem, params, refl, ground arith)

-- With no disk the memory is as it was.
same-IsAdded :
    (mem_size : ℕ) (initrd : Option Initrd) (mem mem' : Mem)
    → ((f : InitrdFile) → initrd ≢ some (file f))
    → ((x : ℕ) → mem' x ≡ mem x)
    → IsAdded mem_size initrd mem mem'
same-IsAdded mem_size initrd mem mem' no_file same = record {
  low = λ x h. same x;
  kernel = λ x h k. same x;
  page = λ x h out away. same (linux_boot_params_addr + x);
  disk = λ f e. absurd (no_file f e);
}

with_own_page : (mem : Mem) (x : ℕ) → with_zero_page mem (zero_page mem) x ≡ mem x
unfolding with_zero_page
with_own_page mem x = ground (arith, there x)
  where
    there :
        (x : ℕ)
        → linux_boot_params_addr ≤ x
        → mem (linux_boot_params_addr + (x - linux_boot_params_addr)) ≡ mem x
    there x h = ap mem (omega arith)

file-IsAdded :
    (mem_size : ℕ) (f : InitrdFile) (mem mem' : Mem)
    → load 4 (zero_page mem) initrd_addr_max < 2 ^ 32
    → put (load_initrd (file f) mem mem_size (zero_page mem)) ≡ some mem'
    → IsAdded mem_size (some (file f)) mem mem'
file-IsAdded mem_size f mem mem' bound h =
    let (loaded, params, e, whole) = put-some _ mem' h in
    let (start, image, read, stat, placed, copied, at, long, kept) =
      load_initrd-IsPlaced f mem mem_size (zero_page mem) loaded params bound e in
    from_parts loaded params whole start image read placed copied at long kept
  where
    from_parts :
        (loaded params : Mem)
        → with_zero_page loaded params ≡ mem'
        → (start : ℕ) (image : List ℕ) → f.bytes ≡ some image
        → IsPlaced mem_size
            (load 4 (zero_page mem) initrd_addr_max)
            (kernel_load_addr + load 4 (zero_page mem) init_size)
            (length image)
            start
        → copy_in mem start image ≡ loaded
        → load 4 params ramdisk_image ≡ start
        → load 4 params ramdisk_size ≡ length image
        → ((x : ℕ)
            → IsOutside ramdisk_image 8 x
            → IsOutside initrd_addr_max 4 x
            → params x ≡ zero_page mem x)
        → IsAdded mem_size (some (file f)) mem mem'
    from_parts loaded params whole start image read placed copied at long kept = record {
      low = λ x h. below x (inl h) (omega (arith, placed.above_kernel));
      kernel = λ x lo hi. below x (inr (omega arith)) (omega (arith, placed.above_kernel));
      page = λ x h out away.
          ap (λ m. m (linux_boot_params_addr + x)) (sym whole)
          ∙ zero_page-with loaded params x h
          ∙ kept x out away;
      disk = λ g e. (
        start,
        image,
        ap (λ o. with_bytes o) (sym e) ∙ read,
        ap (λ m. load 4 (zero_page m) ramdisk_image) (sym whole)
            ∙ load-zero_page-with 4 loaded params ramdisk_image (omega arith)
            ∙ at,
        ap (λ m. load 4 (zero_page m) ramdisk_size) (sym whole)
            ∙ load-zero_page-with 4 loaded params ramdisk_size (omega arith)
            ∙ long,
        placed.above_kernel,
        placed.in_memory,
        λ k h.
            ap (λ m. m (start + k)) (sym whole)
            ∙ with_zero_page-IsOutside loaded params (start + k)
                (inr (omega (arith, placed.above_kernel)))
            ∙ ap (λ m. m (start + k)) (sym copied)
            ∙ copy_in-inside mem start image k h,
      );
    }
      where
        with_bytes : Option Initrd → Option (List ℕ)
        with_bytes none = none
        with_bytes (some absent) = none
        with_bytes (some unopened) = none
        with_bytes (some (file g)) = g.bytes

        below : (x : ℕ) → IsOutside linux_boot_params_addr 4096 x → x < start → mem' x ≡ mem x
        below x out h =
            ap (λ m. m x) (sym whole)
            ∙ with_zero_page-IsOutside loaded params x out
            ∙ ap (λ m. m x) (sym copied)
            ∙ copy_in-IsOutside mem start image x (inl h)

pub add_initrd-IsAdded :
    (mem_size : ℕ) (initrd : Option Initrd) (mem mem' : Mem)
    → load 4 (zero_page mem) initrd_addr_max < 2 ^ 32
    → add_initrd mem_size initrd mem ≡ some mem'
    → IsAdded mem_size initrd mem mem'
unfolding add_initrd load_initrd
add_initrd-IsAdded mem_size none mem mem' bound h =
    same-IsAdded mem_size none mem mem' (λ f e. cc) (λ x. ap (λ o. byte_of o x) (sym h))
  where
    byte_of : Option Mem → ℕ → ℕ
    byte_of none x = 0
    byte_of (some m) x = m x
add_initrd-IsAdded mem_size (some absent) mem mem' bound h =
    same-IsAdded mem_size (some absent) mem mem' (λ f e. cc)
      (λ x. ap (λ o. byte_of o x) (sym h) ∙ with_own_page mem x)
  where
    byte_of : Option Mem → ℕ → ℕ
    byte_of none x = 0
    byte_of (some m) x = m x
add_initrd-IsAdded mem_size (some unopened) mem mem' bound h = cc
add_initrd-IsAdded mem_size (some (file f)) mem mem' bound h =
    file-IsAdded mem_size f mem mem' bound h

-- The command line with its NUL, where there is one, and nothing else.
pub copy_cmdline-IsOutside :
    (cmdline : Option (List ℕ)) (mem : Mem) (x : ℕ)
    → IsOutside command_line_addr 256 x
    → copy_cmdline cmdline mem x ≡ mem x
unfolding copy_cmdline
copy_cmdline-IsOutside none mem x out = refl
copy_cmdline-IsOutside (some line) mem x out =
    copy_in-IsOutside mem command_line_addr (take 256 (line ++ 0 ∷ [])) x
      (omega (arith, length-take 256 (line ++ 0 ∷ [])))

pub copy_cmdline-inside :
    (line : List ℕ) (mem : Mem) (k : ℕ)
    → k < length (take 256 (line ++ 0 ∷ []))
    → copy_cmdline (some line) mem (command_line_addr + k) ≡ get_or (take 256 (line ++ 0 ∷ [])) k 0
unfolding copy_cmdline
copy_cmdline-inside line mem k h = copy_in-inside mem command_line_addr _ k h
