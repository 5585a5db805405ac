-- ===== src/Options/Valid.antt =====
-- What the program runs with once the command line is accepted.
use mini_kvm.Base.{
  ℕ, ◌≤◌, ◌≡◌, ◌≢◌, refl, sym, subst, inl, inr, arith, Bool, true, false, Option, none, some,
}
use mini_kvm.Base.{List, [], ◌∷◌, length, if◌then◌else◌, Bool-cases, ltb, ◌||◌}
use mini_kvm.Base.{◌==◌ as nat_eq}
use mini_kvm.Base.Int.{ℤ, pos, negsuc}
use mini_kvm.VcpuSetup.{LinuxEntryMode, LinuxRsiMode}
use Prim.Native.String.{String}
use text.Mathlib.Text.{◌==◌}
use mini_kvm.Options.{Options, Flag, sets, takes, unknown, flag_of, parse_flags, configure, is_flag}
use mini_kvm.Options.{entry_mode, rsi_mode, debug_mode, defaults, count_guests, checked}

-- Long Mode comes with paging, a Linux boot with a kernel, and the debug level is one of the four.
pub record IsValid (o : Options) : Type 0 where
  pub paged : o.enable_long_mode ≡ true → o.enable_paging ≡ true
  pub kernel : o.linux_boot ≡ true → o.bzimage_path ≢ none
  pub level : o.debug_level ≤ 3

abbrev SomeIsValid : Option Options → Type 0
SomeIsValid none = Unit
SomeIsValid (some o) = IsValid o

abbrev FlagIsValid : Flag → Type 0
FlagIsValid (sets o) = IsValid o
FlagIsValid (takes f) = (v : String) → SomeIsValid (f v)
FlagIsValid unknown = Unit

abbrev ParsedIsValid : Option (Options × List String) → Type 0
ParsedIsValid none = Unit
ParsedIsValid (some (o, guests)) = IsValid o

-- A chain of tests, by what holds in each branch.
chosen {ℓ κ} :
    {A : Type ℓ} (P : A → Type κ) (b : Bool) (x y : A) → P x → P y → P (if b then x else y)
chosen P true x y p q = p
chosen P false x y p q = q

defaults-IsValid : IsValid defaults
defaults-IsValid = record { paged = λ e. cc; kernel = λ e. cc; level = omega arith }

entry_mode-IsValid : (o : Options) (v : String) → IsValid o → SomeIsValid (entry_mode o v)
entry_mode-IsValid o v h =
    chosen SomeIsValid (v == "setup") _ _ same
      (chosen SomeIsValid (v == "code32") _ _ same (chosen SomeIsValid (v == "boot64") _ _ same tt))
  where
    same : {e : LinuxEntryMode} → IsValid (record o { linux_entry = e })
    same = record { paged = h.paged; kernel = h.kernel; level = h.level }

rsi_mode-IsValid : (o : Options) (v : String) → IsValid o → SomeIsValid (rsi_mode o v)
rsi_mode-IsValid o v h =
    chosen SomeIsValid (v == "base") _ _ same (chosen SomeIsValid (v == "hdr") _ _ same tt)
  where
    same : {r : LinuxRsiMode} → IsValid (record o { linux_rsi = r })
    same = record { paged = h.paged; kernel = h.kernel; level = h.level }

debug_mode-IsValid : (o : Options) (l : ℤ) → IsValid o → SomeIsValid (debug_mode o l)
debug_mode-IsValid o (pos l) h = elim (Bool-cases (ltb 3 l)) [
  | inl high ↦ rw high tt
  | inr low ↦ rw low (record { paged = h.paged; kernel = h.kernel; level = ground arith })
]
debug_mode-IsValid o (negsuc l) h = tt

module _ (strtoul : String → ℕ) (atoi : String → ℤ) where
  flag_of-IsValid :
      (o : Options) (arg : String) → IsValid o → FlagIsValid (flag_of strtoul atoi o arg)
  unfolding flag_of
  flag_of-IsValid o arg h =
      chosen FlagIsValid (arg == "--paging") _ _
        (record { paged = λ e. refl; kernel = h.kernel; level = h.level })
        (chosen FlagIsValid (arg == "--long-mode") _ _
          (record { paged = λ e. refl; kernel = h.kernel; level = h.level })
          (chosen FlagIsValid (arg == "--linux") _ _
            (λ v. record { paged = h.paged; kernel = λ e z. cc; level = h.level })
            (chosen FlagIsValid (arg == "--linux-entry") _ _ (λ v. entry_mode-IsValid o v h)
              (chosen FlagIsValid (arg == "--linux-rsi") _ _ (λ v. rsi_mode-IsValid o v h)
                (chosen FlagIsValid (arg == "--cmdline") _ _
                  (λ v. record { paged = h.paged; kernel = h.kernel; level = h.level })
                  (chosen FlagIsValid (arg == "--initrd") _ _
                    (λ v. record { paged = h.paged; kernel = h.kernel; level = h.level })
                    (chosen FlagIsValid (arg == "--entry") _ _
                      (λ v. record { paged = h.paged; kernel = h.kernel; level = h.level })
                      (chosen FlagIsValid (arg == "--load") _ _
                        (λ v. record { paged = h.paged; kernel = h.kernel; level = h.level })
                        (chosen FlagIsValid (arg == "--verbose" || arg == "-v") _ _
                          (record { paged = h.paged; kernel = h.kernel; level = omega arith })
                          (chosen FlagIsValid (arg == "--debug") _ _
                            (λ v. debug_mode-IsValid o (atoi v) h)
                            (chosen FlagIsValid (arg == "--dump-regs") _ _ h
                              (chosen FlagIsValid (arg == "--dump-mem") _ _ (λ v. h) tt))))))))))))

  parse_flags-IsValid :
      (args : List String) (o : Options)
      → IsValid o
      → ParsedIsValid (parse_flags strtoul atoi args o)
  unfolding parse_flags
  parse_flags-IsValid [] o h = h
  parse_flags-IsValid (arg ∷ []) o h =
      chosen ParsedIsValid (is_flag arg) _ _
        (last (flag_of strtoul atoi o arg) (flag_of-IsValid o arg h)) h
    where
      last :
          (f : Flag)
          → FlagIsValid f
          → ParsedIsValid (elim f [ sets o' ↦ some (o', []) | takes g ↦ none | unknown ↦ none ])
      last (sets o') v = v
      last (takes g) v = tt
      last unknown v = tt
  parse_flags-IsValid (arg ∷ v ∷ rest) o h =
      chosen ParsedIsValid (is_flag arg) _ _
        (next (flag_of strtoul atoi o arg) (flag_of-IsValid o arg h)
          (parse_flags-IsValid (v ∷ rest)) (parse_flags-IsValid rest))
        h
    where
      next :
          (f : Flag)
          → FlagIsValid f
          → ((o : Options) → IsValid o → ParsedIsValid (parse_flags strtoul atoi (v ∷ rest) o))
          → ((o : Options) → IsValid o → ParsedIsValid (parse_flags strtoul atoi rest o))
          → ParsedIsValid (elim f [
            | sets o' ↦ parse_flags strtoul atoi (v ∷ rest) o'
            | takes g ↦ elim (g v) [ none ↦ none | some o' ↦ parse_flags strtoul atoi rest o' ]
            | unknown ↦ none
          ])
      next (sets o') w one two = one o' w
      next (takes g) w one two = taken (g v) (w v) two
        where
          taken :
              (p : Option Options)
              → SomeIsValid p
              → ((o : Options) → IsValid o → ParsedIsValid (parse_flags strtoul atoi rest o))
              → ParsedIsValid (elim p [ none ↦ none | some o' ↦ parse_flags strtoul atoi rest o' ])
          taken none q two = tt
          taken (some o') q two = two o' q
      next unknown w one two = tt

-- The guests: one vCPU for each binary, one for a Linux kernel.
pub record IsConfig (o : Options) (guests : List String) (num_vcpus : ℕ) : Type 0 where
  pub valid : IsValid o
  pub at_least : 1 ≤ num_vcpus
  pub at_most : num_vcpus ≤ 4
  pub linux : o.linux_boot ≡ true → num_vcpus ≡ 1
  pub binaries : o.linux_boot ≡ false → num_vcpus ≡ length guests

abbrev ConfigIsValid : Option (Options × List String × ℕ) → Type 0
ConfigIsValid none = Unit
ConfigIsValid (some (o, guests, n)) = IsConfig o guests n

count_guests-IsValid :
    (o : Options) (guests : List String) → IsValid o → ConfigIsValid (count_guests (o, guests))
count_guests-IsValid o guests h = elim (Bool-cases o.linux_boot) [
  | inl linux ↦
      subst (λ b. ConfigIsValid (boot b)) (sym linux)
        (with_kernel linux o.bzimage_path (h.kernel linux))
  | inr guest ↦
      subst (λ b. ConfigIsValid (boot b)) (sym guest)
        (elim (Bool-cases (nat_eq (length guests) 0)) [
          | inl nothing ↦ rw nothing tt
          | inr some_guest ↦ rw some_guest (elim (Bool-cases (ltb 4 (length guests))) [
            | inl many ↦ rw many tt
            | inr few ↦ rw few record {
              valid = h;
              at_least = ground arith;
              at_most = ground arith;
              linux = λ e. cc;
              binaries = λ e. refl;
            }
          ])
        ])
]
  where
    kernel_or_none : Option String → Option (Options × List String × ℕ)
    kernel_or_none p = elim p [ none ↦ none | some path ↦ some (o, guests, 1) ]

    boot : Bool → Option (Options × List String × ℕ)
    boot b =
        if b
        then kernel_or_none o.bzimage_path
        else if nat_eq (length guests) 0
        then none
        else if ltb 4 (length guests)
        then none
        else some (o, guests, length guests)

    with_kernel :
        o.linux_boot ≡ true → (p : Option String) → p ≢ none → ConfigIsValid (kernel_or_none p)
    with_kernel e none ne = absurd (ne refl)
    with_kernel e (some path) ne = record {
      valid = h;
      at_least = omega arith;
      at_most = omega arith;
      linux = λ f. refl;
      binaries = λ f. cc;
    }

module _ (strtoul : String → ℕ) (atoi : String → ℤ) where
  configure-all : (args : List String) → ConfigIsValid (configure strtoul atoi args)
  unfolding configure
  configure-all [] = tt
  configure-all (arg ∷ args) =
      counted (parse_flags strtoul atoi (arg ∷ args) defaults)
        (parse_flags-IsValid strtoul atoi (arg ∷ args) defaults defaults-IsValid)
    where
      counted : (p : Option (Options × List String)) → ParsedIsValid p → ConfigIsValid (checked p)
      counted none v = tt
      counted (some (o, guests)) v = count_guests-IsValid o guests v

  -- Whatever the arguments are and however numbers are read from them: when the program goes on, it
  -- has one to four vCPUs, one for each guest binary or one for a Linux kernel, which is then named;
  -- Long Mode has paging with it, and the debug level is at most 3.
  pub configure-IsConfig :
      (args : List String) {o : Options} {guests : List String} {n : ℕ}
      → configure strtoul atoi args ≡ some (o, guests, n)
      → IsConfig o guests n
  configure-IsConfig args e = subst ConfigIsValid e (configure-all args)
