-- ===== src/Launch/Colors.antt =====
-- The colors that the lines of the vCPUs are printed in (`hue_to_ansi256` and `init_vcpu_colors`,
-- kvm-vmm-x86/src/main.c).
use mini_kvm.Base.{ℕ, ◌+◌, ◌-◌, ◌*◌, ◌/◌, ◌%◌, ◌≤◌, ◌==◌, arith}
use mini_kvm.Base.{if◌then◌else◌}
use mini_kvm.Base.Int.{ℤ, pos, negsuc}

-- `hue % 360` with the sign of `hue`, and 360 more where that is negative.
abbrev pub degrees : ℤ → ℕ
degrees (pos hue) = hue % 360
degrees (negsuc n) = if (n + 1) % 360 == 0 then 0 else 360 - (n + 1) % 360

-- The color of the 6x6x6 cube.
abbrev pub cube : (r g b : ℕ) → ℕ
cube r g b = 16 + 36 * r + 6 * g + b

abbrev pub in_sector : (sector up : ℕ) → ℕ
in_sector sector up =
    if sector == 0
    then cube 5 up 0
    else if sector == 1
    then cube (5 - up) 5 0
    else if sector == 2
    then cube 0 5 up
    else if sector == 3
    then cube 0 (5 - up) 5
    else if sector == 4
    then cube up 0 5
    else cube 5 0 (5 - up)

unfoldable pub hue_to_ansi256 : ℤ → ℕ
hue_to_ansi256 hue = in_sector (degrees hue / 60) (degrees hue % 60 * 5 / 60)

-- `vcpu_colors[i]` when there are `n` vCPUs.
unfoldable pub vcpu_color : (n i : ℕ) → ℕ
unfolding hue_to_ansi256
vcpu_color n i = hue_to_ansi256 (pos (120 + i * 300 / n))

in_sector-bounds :
    (sector up : ℕ) → up ≤ 5 → (16 ≤ in_sector sector up) × (in_sector sector up ≤ 231)
in_sector-bounds sector up h = ground arith

-- Every hue, also a negative one, gives a color of the cube.
pub hue_to_ansi256_bounds : (hue : ℤ) → (16 ≤ hue_to_ansi256 hue) × (hue_to_ansi256 hue ≤ 231)
unfolding hue_to_ansi256
hue_to_ansi256_bounds hue = in_sector-bounds (degrees hue / 60) _ (omega arith)
