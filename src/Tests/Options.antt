-- ===== src/Tests/Options.antt =====
-- Command lines of the VMM.
use mini_kvm.Base.{ℕ, ◌≡◌, refl, true, some, none, List, [], ◌∷◌}
use mini_kvm.Base.Int.{ℤ, pos}
use Prim.Native.String.{String}
use mini_kvm.Options.{Options, defaults, configure, flag_of, parse_flags}
use mini_kvm.Options.Valid.{IsConfig, configure-IsConfig}

-- No number is read in these.
abbrev strtoul : String → ℕ
strtoul v = 0

abbrev atoi : String → ℤ
atoi v = pos 2

abbrev long_mode_guests : List String
long_mode_guests = "--long-mode" ∷ "--debug" ∷ "2" ∷ "a.bin" ∷ "b.bin" ∷ []

abbrev long_mode : Options
long_mode = record defaults {
  enable_paging = true;
  enable_long_mode = true;
  verbose = true;
  debug_level = 2;
}

accepted : configure strtoul atoi long_mode_guests ≡ some (long_mode, "a.bin" ∷ "b.bin" ∷ [], 2)
unfolding configure parse_flags flag_of
accepted = refl

five_guests : configure strtoul atoi ("a" ∷ "b" ∷ "c" ∷ "d" ∷ "e" ∷ []) ≡ none
unfolding configure parse_flags flag_of
five_guests = refl

configure-IsConfig_example : IsConfig long_mode ("a.bin" ∷ "b.bin" ∷ []) 2
configure-IsConfig_example = configure-IsConfig strtoul atoi long_mode_guests accepted
