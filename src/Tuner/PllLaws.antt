-- ===== src/Tuner/PllLaws.antt =====
-- The divider that `tuner_compute_pll_parameters` programs.
use rf.Prelude.{ℕ, ◌+◌, ◌*◌, ◌≤◌, ◌≡◌, ◌⊎◌, arith}
use rf.Prelude.{◌==◌, if◌then◌else◌}
use rf.Tuner.Pll.{PllParameters, prevent_spurs, divider_fields}

-- The divider that the fields stand for, in units of 1 / 65536.
abbrev pub programmed : PllParameters → ℕ
programmed p = (p.ni2c * 4 + p.si2c + 13) * 65536 + p.sdm

-- Two numbers apart by at most `d`.
abbrev pub Within : ℕ → ℕ → ℕ → Type 0
Within d x y = (x ≤ y + d) × (y ≤ x + d)

-- A fraction that makes no boundary spur: none at all, one half, or away from both and from one.
abbrev pub SpurFree : ℕ → Type 0
SpurFree frac =
    (frac ≡ 0)
    ⊎ (frac ≡ 32768)
    ⊎ ((512 ≤ frac) × (frac ≤ 32512))
    ⊎ ((33024 ≤ frac) × (frac ≤ 65024))

-- The fields stand for a divider within 512 / 65536 of the one asked for, with a spur free
-- fraction that is switched off exactly when it is zero, and fit their bits.
abbrev pub Programs : ℕ → PllParameters → Type 0
Programs mult_scaled p =
    Within 512 (programmed p) mult_scaled
    × SpurFree p.sdm
    × (p.pw_sdm ≡ (if p.sdm == 0 then 1 else 0))
    × (p.ni2c ≤ 32)
    × (p.si2c ≤ 3)

-- For a scaled multiplier from 13 up to 141, the fields stand for a divider within 512 / 65536 of
-- it, the fraction is spur free and switched off exactly when it is zero, `ni2c` is at most 32 and
-- `si2c` at most 3.
pub divider_fields_lem :
    (refdiv sel_div mult_scaled : ℕ)
    → 13 * 65536 ≤ mult_scaled
    → mult_scaled ≤ 141 * 65536
    → Programs mult_scaled (divider_fields refdiv sel_div mult_scaled)
unfolding divider_fields prevent_spurs
divider_fields_lem refdiv sel_div mult_scaled lo hi = ground arith
