-- ===== src/Clock/Tests.antt =====
-- Runs of the clock source's functions at concrete inputs.
use rf.Prelude.{ℕ, ◌+◌, ◌*◌, ◌<◌, ◌≡◌, refl, arith}
use rf.FixedPoint.{fixed_point}
use rf.Clock.Defs.{divider_bytes, pll_parameters, output_parameters, choose_r_divider}
use rf.Clock.Registers.{decoded, r_field, pll_bytes_lem, output_bytes_lem}
use rf.Clock.Choice.{Least, choose_r_divider_lem}

pll_bytes_example :
    ((decoded (divider_bytes 0 (pll_parameters 33 1 3))).p1 + 512) * 3
        + (decoded (divider_bytes 0 (pll_parameters 33 1 3))).p2
      ≡ 128 * (33 * 3 + 1)
    × (decoded (divider_bytes 0 (pll_parameters 33 1 3))).p2 < 3
    × (decoded (divider_bytes 0 (pll_parameters 33 1 3))).p3 ≡ 3
pll_bytes_example =
    pll_bytes_lem 33 1 3 (omega arith) (omega arith) (omega arith) (omega arith) (omega arith)

output_bytes_example :
    ((decoded (divider_bytes 8 (output_parameters 878))).p1 + 512 ≡ 128 * 878)
    × ((decoded (divider_bytes 8 (output_parameters 878))).p2 ≡ 0)
    × ((decoded (divider_bytes 8 (output_parameters 878))).p3 ≡ 1)
    × (r_field (divider_bytes 8 (output_parameters 878)) ≡ 0)
output_bytes_example = output_bytes_lem 878 8 (omega arith) (omega arith)

-- 4 kHz needs eight doublings.
choose_r_divider_example :
    Least fixed_point (4000 * 131072) (choose_r_divider fixed_point (4000 * 131072))
choose_r_divider_example = choose_r_divider_lem fixed_point (4000 * 131072)

eight_doublings : (choose_r_divider fixed_point (4000 * 131072)).rdiv ≡ 8
unfolding choose_r_divider
eight_doublings = refl

-- 33 + 2 / 3.
abbrev value : ℕ
value = 33 * 131072 + 87381
