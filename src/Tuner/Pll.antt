-- ===== src/Tuner/Pll.antt =====
-- src/tuner.c: `tuner_compute_pll_parameters` and `tuner_apply_pll_parameters`, as configured by
-- TUNER_PARAMS_BBRF103 and TUNER_BOUNDARY_SPUR_PREVENTION.
use rf.Prelude.{
  ℕ, zero, suc, ◌+◌, ◌-◌, ◌*◌, ◌/◌, ◌%◌, ◌^◌, bit_and, Bool, true, false, ◌&&◌, ltb, leb,
}
use rf.Prelude.{◌==◌, if◌then◌else◌, Option, none, some, Cmd, pure, fail, gets, ◌>>=◌, ◌>>◌}
use rf.Double.{Doubles}
use rf.Usb.{Libusb}
use rf.Tuner.Fields
use rf.Tuner.Defs.{Session, set_field, write_value, write_dirty, read_value}

pub record PllParameters : Type 0 where
  pub refdiv : ℕ
  pub sel_div : ℕ
  pub ni2c : ℕ
  pub si2c : ℕ
  pub pw_sdm : ℕ
  pub sdm : ℕ

abbrev pub max_sel_div : ℕ
max_sel_div = 5

abbrev pub sdm_frac_precision : ℕ
sdm_frac_precision = 65536

abbrev pub boundary_margin : ℕ
boundary_margin = sdm_frac_precision / 128

abbrev pub lower_half_margin : ℕ
lower_half_margin = sdm_frac_precision / 2 - boundary_margin / 2

abbrev pub upper_half_margin : ℕ
upper_half_margin = sdm_frac_precision / 2 + boundary_margin / 2

-- The integer and the fraction of the feedback divider.
pub record Divider : Type 0 where
  pub int : ℕ
  pub frac : ℕ

-- The boundary spur prevention.
unfoldable pub prevent_spurs : Divider → Divider
prevent_spurs d =
    if ltb d.frac boundary_margin
    then record d { frac = 0 }
    else if ltb (sdm_frac_precision - boundary_margin) d.frac
    then record { int = (d.int + 1) % 2 ^ 32; frac = 0 }
    else if ltb d.frac (sdm_frac_precision / 2) && ltb lower_half_margin d.frac
    then record d { frac = lower_half_margin }
    else if ltb (sdm_frac_precision / 2) d.frac && ltb d.frac upper_half_margin
    then record d { frac = upper_half_margin }
    else d

-- The divider split into the fields of the chip, from `multiplier * 65536 + 0.5` cut to an integer.
unfoldable pub divider_fields : ℕ → ℕ → ℕ → PllParameters
unfolding prevent_spurs
divider_fields refdiv sel_div mult_scaled =
    let d = prevent_spurs (record {
      int = mult_scaled / sdm_frac_precision;
      frac = mult_scaled % sdm_frac_precision;
    }) in
    let offset = (d.int + 2 ^ 32 - 13) % 2 ^ 32 in
    record {
      refdiv = refdiv;
      sel_div = sel_div;
      ni2c = offset / 4 % 2 ^ 8;
      si2c = offset % 4 % 2 ^ 8;
      pw_sdm = if d.frac == 0 then 1 else 0;
      sdm = d.frac % 2 ^ 16;
    }

module _ (doubles : Doubles) where
  open doubles use {Double, of_int, half, add, mul, div, lt, ge, to_u32}

  abbrev pub min_vco_frequency : Double
  min_vco_frequency = of_int 1_770_000_000

  abbrev pub min_multiplier : Double
  min_multiplier = of_int 13

  abbrev pub max_multiplier : Double
  max_multiplier = of_int 141

  -- The divider of the VCO and its frequency.
  pub record Vco : Type 0 where
    pub sel_div : ℕ
    pub frequency : Double

  -- The loop doubles the frequency while it is below the VCO's range. With `6 - sel_div` rounds
  -- the test on `sel_div` ends it.
  unfoldable pub vco_loop : ℕ → Vco → Vco
  vco_loop zero v = v
  vco_loop (suc rounds) v =
      let rest =
        vco_loop rounds
          (record { sel_div = v.sel_div + 1; frequency = mul v.frequency (of_int 2) }) in
      if leb v.sel_div max_sel_div && lt v.frequency min_vco_frequency then rest else v

  unfoldable pub choose_vco : Double → Vco
  unfolding vco_loop
  choose_vco frequency = vco_loop 6 (record { sel_div = 0; frequency = mul frequency (of_int 2) })

  unfoldable pub feedback_multiplier : ℕ → ℕ → Double → Double
  feedback_multiplier refdiv xtal_frequency vco_frequency =
      if refdiv == 0
      then div vco_frequency (of_int (2 * xtal_frequency % 2 ^ 32))
      else div vco_frequency (of_int xtal_frequency)

  unfoldable pub scale_multiplier : Double → ℕ
  scale_multiplier multiplier = to_u32 (add (mul multiplier (of_int sdm_frac_precision)) half)

  -- `none` is the -1 of a frequency that is too low or too high.
  unfoldable pub compute_pll_parameters : ℕ → Double → Option PllParameters
  compute_pll_parameters xtal_frequency frequency =
      let vco = choose_vco frequency in
      let multiplier = feedback_multiplier 1 xtal_frequency vco.frequency in
      if ltb max_sel_div vco.sel_div
      then none
      else if lt multiplier min_multiplier
      then none
      else if ge multiplier max_multiplier
      then none
      else some (divider_fields 1 vco.sel_div (scale_multiplier multiplier))

module _ (respond : Libusb) where
  -- A PLL that is not locked gets more current.
  unfoldable pub raise_current : Bool → Cmd Session (Unit {0})
  raise_current true = pure tt
  raise_current false = do
    write_value respond Fields.vco_current 3
    vco_indicator ← read_value respond Fields.vco_indicator
    pure tt

  unfoldable pub apply_pll_parameters : PllParameters → Cmd Session (Unit {0})
  apply_pll_parameters p = do
    write_value respond Fields.pll_auto_clk 0
    write_value respond Fields.vco_current 4
    set_field Fields.refdiv p.refdiv
    set_field Fields.sel_div p.sel_div
    set_field Fields.pw_sdm p.pw_sdm
    set_field Fields.si2c p.si2c
    set_field Fields.ni2c p.ni2c
    set_field Fields.sdm_inl (bit_and p.sdm 0xff)
    set_field Fields.sdm_inh (bit_and (p.sdm / 2 ^ 8) 0xff)
    write_dirty respond
    vco_indicator ← read_value respond Fields.vco_indicator
    raise_current (ltb 0 (bit_and vco_indicator 0x40))
    write_value respond Fields.pll_auto_clk 2

  unfoldable pub apply_pll : Option PllParameters → Cmd Session (Unit {0})
  apply_pll none = fail
  apply_pll (some p) = apply_pll_parameters p

  unfoldable pub set_pll : (doubles : Doubles) → doubles.Double → Cmd Session (Unit {0})
  set_pll doubles frequency = do
    xtal_frequency ← gets (λ s. s.tuner.xtal_frequency)
    apply_pll (compute_pll_parameters doubles xtal_frequency frequency)
