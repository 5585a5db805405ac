-- ===== src/Options.antt =====
-- The command line of the VMM (the first half of `main`, kvm-vmm-x86/src/main.c). `strtoul` with
-- base 0 and `atoi` are the C library's, and so are parameters; `none` is the exit status 1.
pub mod Valid
use mini_kvm.Base.{ℕ, ◌+◌, ◌-◌, ◌<◌, ltb, leb, if◌then◌else◌, Bool, true, false, ◌&&◌, ◌||◌, not}
use mini_kvm.Base.{◌==◌ as nat_eq}
use mini_kvm.Base.{Option, none, some, List, [], ◌∷◌, length, u32}
use mini_kvm.Base.Int.{ℤ, pos, negsuc}
use mini_kvm.VcpuSetup.{LinuxEntryMode, setup, code32, boot64, LinuxRsiMode, base, hdr}
use Prim.Native.Char.{code}
use Prim.Native.String.{String}
use text.Mathlib.Text.{◌==◌}

-- The variables that the flags set.
pub record Options : Type 0 where
  pub enable_paging : Bool
  pub enable_long_mode : Bool
  pub linux_boot : Bool
  pub linux_entry : LinuxEntryMode
  pub linux_rsi : LinuxRsiMode
  pub linux_cmdline : Option String
  pub initrd_path : Option String
  pub bzimage_path : Option String
  pub entry_point : ℕ
  pub load_offset : ℕ
  pub verbose : Bool
  pub debug_level : ℕ

abbrev pub defaults : Options
defaults = record {
  enable_paging = false;
  enable_long_mode = false;
  linux_boot = false;
  linux_entry = code32;
  linux_rsi = base;
  linux_cmdline = none;
  initrd_path = none;
  bzimage_path = none;
  entry_point = 0x80001000;
  load_offset = 0x1000;
  verbose = false;
  debug_level = 0;
}

-- What a flag does: set something, take the next argument, or nothing that is known.
pub data Flag : Type 0 where
  sets : Options → Flag
  takes : (String → Option Options) → Flag
  unknown : Flag

abbrev pub entry_mode : Options → String → Option Options
entry_mode o v =
    if v == "setup"
    then some (record o { linux_entry = setup })
    else if v == "code32"
    then some (record o { linux_entry = code32 })
    else if v == "boot64"
    then some (record o { linux_entry = boot64 })
    else none

abbrev pub rsi_mode : Options → String → Option Options
rsi_mode o v =
    if v == "base"
    then some (record o { linux_rsi = base })
    else if v == "hdr"
    then some (record o { linux_rsi = hdr })
    else none

abbrev pub debug_mode : Options → ℤ → Option Options
debug_mode o (pos level) =
    if ltb 3 level then none else some (record o { debug_level = level; verbose = ltb 0 level })
debug_mode o (negsuc level) = none

-- MAX_VCPUS is 4.
abbrev pub count_guests : Options × List String → Option (Options × List String × ℕ)
count_guests (o, guests) =
    if o.linux_boot
    then (elim o.bzimage_path [ none ↦ none | some path ↦ some (o, guests, 1) ])
    else if nat_eq (length guests) 0
    then none
    else if ltb 4 (length guests)
    then none
    else some (o, guests, length guests)

abbrev pub checked : Option (Options × List String) → Option (Options × List String × ℕ)
checked none = none
checked (some parsed) = count_guests parsed

-- `argv[i][0] == '-'`
abbrev pub is_flag : String → Bool
is_flag String.[] = false
is_flag (String.◌∷◌ c s) = nat_eq (code c) b'-'

module _ (strtoul : String → ℕ) (atoi : String → ℤ) where
  -- The chain of `strcmp` on a flag.
  unfoldable pub flag_of : Options → String → Flag
  flag_of o arg =
      if arg == "--paging"
      then sets (record o { enable_paging = true })
      else if arg == "--long-mode"
      then sets (record o { enable_long_mode = true; enable_paging = true })
      else if arg == "--linux"
      then takes (λ v. some (record o { bzimage_path = some v; linux_boot = true }))
      else if arg == "--linux-entry"
      then takes (entry_mode o)
      else if arg == "--linux-rsi"
      then takes (rsi_mode o)
      else if arg == "--cmdline"
      then takes (λ v. some (record o { linux_cmdline = some v }))
      else if arg == "--initrd"
      then takes (λ v. some (record o { initrd_path = some v }))
      else if arg == "--entry"
      then takes (λ v. some (record o { entry_point = u32 (strtoul v) }))
      else if arg == "--load"
      then takes (λ v. some (record o { load_offset = u32 (strtoul v) }))
      else if arg == "--verbose" || arg == "-v"
      then sets (record o { verbose = true; debug_level = 1 })
      else if arg == "--debug"
      then takes (λ v. debug_mode o (atoi v))
      else if arg == "--dump-regs"
      then sets o
      else if arg == "--dump-mem"
      then takes (λ v. some o)
      else unknown

  -- The loop over the flags, up to the first argument that is none.
  unfoldable pub parse_flags : List String → Options → Option (Options × List String)
  unfolding flag_of
  parse_flags [] o = some (o, [])
  parse_flags (arg ∷ []) o =
      if is_flag arg
      then (elim (flag_of o arg) [ sets o' ↦ some (o', []) | takes f ↦ none | unknown ↦ none ])
      else some (o, arg ∷ [])
  parse_flags (arg ∷ v ∷ rest) o =
      let flagged : Option (Options × List String) = elim (flag_of o arg) [
        | sets o' ↦ parse_flags (v ∷ rest) o'
        | takes f ↦ elim (f v) [ none ↦ none | some o' ↦ parse_flags rest o' ]
        | unknown ↦ none
      ] in
      if is_flag arg then flagged else some (o, arg ∷ v ∷ rest)

  -- The options, the guest binaries and the number of vCPUs, from the arguments behind the name of
  -- the program.
  unfoldable pub configure : List String → Option (Options × List String × ℕ)
  unfolding parse_flags
  configure [] = none
  configure (arg ∷ args) = checked (parse_flags (arg ∷ args) defaults)
