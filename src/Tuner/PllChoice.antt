-- ===== src/Tuner/PllChoice.antt =====
-- `tuner_compute_pll_parameters` as a whole: the divider of the VCO is the least that reaches its
-- range, and the feedback divider is the one asked for up to the margin of the spur prevention.
use rf.Prelude.{ℕ, zero, suc, ◌+◌, ◌^◌, ◌≤◌, ◌<◌, ◌≡◌, ◌⊎◌, inl, inr, refl, ap, ◌∙◌, arith, sym}
use rf.Prelude.{true, false, ltb, leb, ◌==◌, if◌then◌else◌, Bool-cases, Option, some, none}
use native.Mathlib.Numerals.{add-one}
use rf.Double.{Doubles, Ieee}
use rf.Tuner.Pll.{PllParameters, divider_fields, Vco, vco_loop, choose_vco, min_vco_frequency}
use rf.Tuner.Pll.{feedback_multiplier, scale_multiplier, compute_pll_parameters}
use rf.Tuner.PllLaws.{programmed, Within, SpurFree, Programs, divider_fields_lem}

module _ (doubles : Doubles) where
  open doubles use {Double, of_int, half, add, mul, div, lt, ge, to_u32}

  -- The frequency of the VCO whose output is divided by 2 ^ (k + 1).
  abbrev pub doubled : ℕ → Double → Double
  doubled zero f = mul f (of_int 2)
  doubled (suc k) f = mul (doubled k f) (of_int 2)

  -- `k` is the least divider that brings the VCO to its range, if any up to 5 does.
  pub record Reaches (f : Double) (k : ℕ) : Type 0 where
    pub room : k ≤ 6
    pub too_low : (j : ℕ) → j < k → lt (doubled j f) (min_vco_frequency doubles) ≡ true
    pub reached : (k ≡ 6) ⊎ (lt (doubled k f) (min_vco_frequency doubles) ≡ false)

  abbrev ChoosesVco : Double → Vco doubles → Type 0
  ChoosesVco f v = (v.frequency ≡ doubled v.sel_div f) × Reaches f v.sel_div

  module _ (f : Double) where
    doubled-add_one : (k : ℕ) → doubled (k + 1) f ≡ mul (doubled k f) (of_int 2)
    doubled-add_one k = rw add-one

    vco_loop_lem :
        (rounds : ℕ) (v : Vco doubles)
        → v.sel_div + rounds ≡ 6
        → v.frequency ≡ doubled v.sel_div f
        → ((j : ℕ) → j < v.sel_div → lt (doubled j f) (min_vco_frequency doubles) ≡ true)
        → ChoosesVco f (vco_loop doubles rounds v)
    unfolding vco_loop
    vco_loop_lem zero v e same low =
        (same, record { room = omega arith; too_low = low; reached = inl (omega arith) })
    vco_loop_lem (suc rounds) v e same low =
        let below : leb v.sel_div 5 ≡ true = ground arith in
        elim (Bool-cases (lt v.frequency (min_vco_frequency doubles))) [
          | inl more ↦
              rw (below, more)
                (vco_loop_lem rounds _ (omega arith)
                  (ap (λ (x : Double). mul x (of_int 2)) same ∙ sym (doubled-add_one v.sel_div))
                  λ j h. elim (Bool-cases (ltb j v.sel_div)) [
                    | inl old ↦ low j (ground arith)
                    | inr new ↦ let last : j ≡ v.sel_div = ground arith in rw (last, ← same) more
                  ])
          | inr done ↦
              rw (below, done)
                (
                  same,
                  record { room = omega arith; too_low = low; reached = inr (rw (← same) done) },
                )
        ]

    none_below : (j : ℕ) → j < 0 → lt (doubled j f) (min_vco_frequency doubles) ≡ true
    none_below j h = absurd (omega arith)

    choose_vco_lem : ChoosesVco f (choose_vco doubles f)
    unfolding choose_vco
    choose_vco_lem = vco_loop_lem 6 _ refl refl λ j h. none_below j h

  module _ (ieee : Ieee doubles) where
    open ieee use {IsNumber}

    doubled_number : (k : ℕ) (f : Double) → IsNumber f → IsNumber (doubled k f)
    doubled_number zero f h = ieee.mul_number f 2 h (omega arith)
    doubled_number (suc k) f h =
        ieee.mul_number (doubled k f) 2 (doubled_number k f h) (omega arith)

    -- A multiplier from 13 up to 141 is scaled without overflow.
    module _ (m : Double) (number : IsNumber m) (low : lt m (of_int 13) ≡ false)
        (high : lt m (of_int 141) ≡ true) where
      abbrev scaled : Double
      scaled = add (mul m (of_int 65536)) half

      scaled_number : IsNumber scaled
      scaled_number = ieee.add_number _ (ieee.mul_number m 65536 number (omega arith))

      bottom : lt scaled (of_int 851968) ≡ false
      bottom =
          ieee.le_of_le_of_le scaled (add (mul (of_int 13) (of_int 65536)) half) (of_int 851968)
            (ieee.add_number _ (ieee.mul_number _ 65536 (ieee.of_int_number 13) (omega arith)))
            (ieee.add_mono _ _ (ieee.mul_mono m (of_int 13) 65536 (omega arith) low))
            (rw (ieee.mul_exact 13 65536 (omega arith)) (ieee.half_above 851968 (omega arith)))

      top : lt scaled (of_int 9240577) ≡ true
      top =
          ieee.lt_of_le_of_lt scaled (add (mul (of_int 141) (of_int 65536)) half) (of_int 9240577)
            scaled_number
            (ieee.add_mono _ _
              (ieee.mul_mono (of_int 141) m 65536 (omega arith) (ieee.lt_asymm _ _ high)))
            (rw (ieee.mul_exact 141 65536 (omega arith)) (ieee.half_below 9240576 (omega arith)))

      scale_bounds : (851968 ≤ scale_multiplier doubles m) × (scale_multiplier doubles m ≤ 9240576)
      unfolding scale_multiplier
      scale_bounds = (
        ieee.cast_ge scaled 851968 bottom (
            ieee.lt_of_le_of_lt scaled (of_int 9240577) (of_int (2 ^ 32)) scaled_number
              (ieee.lt_asymm _ _ top)
              (ieee.of_int_lt 9240577 (2 ^ 32) (omega arith) (omega arith))),
        omega (
          arith,
          ieee.cast_lt scaled 9240577
              (ieee.le_of_le_of_le scaled (of_int 851968) (of_int 0) (ieee.of_int_number 851968)
                bottom (ieee.lt_asymm _ _ (ieee.of_int_lt 0 851968 (omega arith) (omega arith))))
              top (omega arith),
        ),
      )

  abbrev pub multiplier : ℕ → Double → ℕ → Double
  multiplier xtal_frequency f k = div (doubled k f) (of_int xtal_frequency)

  -- The parameters of a frequency that the PLL reaches.
  pub record Plan (xtal_frequency : ℕ) (f : Double) (p : PllParameters) : Type 0 where
    pub refdiv : p.refdiv ≡ 1
    pub sel_div : p.sel_div ≤ 5
    pub vco : Reaches f p.sel_div
    pub divider :
        Within 512 (programmed p) (scale_multiplier doubles (multiplier xtal_frequency f p.sel_div))
    pub spur_free : SpurFree p.sdm
    pub sdm_switch : p.pw_sdm ≡ (if p.sdm == 0 then 1 else 0)
    pub ni2c : p.ni2c ≤ 32
    pub si2c : p.si2c ≤ 3

  -- A frequency that it does not reach: the VCO stays too low, or the divider is out of range.
  pub record OutOfReach (xtal_frequency : ℕ) (f : Double) : Type 0 where
    pub sel_div : ℕ
    pub vco : Reaches f sel_div
    pub why :
        (sel_div ≡ 6)
        ⊎ (lt (multiplier xtal_frequency f sel_div) (of_int 13) ≡ true)
        ⊎ (ge (multiplier xtal_frequency f sel_div) (of_int 141) ≡ true)

  abbrev pub Decided : ℕ → Double → Option PllParameters → Type 0
  Decided xtal_frequency f none = OutOfReach xtal_frequency f
  Decided xtal_frequency f (some p) = Plan xtal_frequency f p

  module _ (ieee : Ieee doubles) (xtal_frequency : ℕ) (f : Double) (pos : 0 < xtal_frequency)
      (number : ieee.IsNumber f) where
    abbrev parameters : ℕ → Double → Option PllParameters
    parameters k m =
        if ltb 5 k
        then none
        else if lt m (of_int 13)
        then none
        else if ge m (of_int 141)
        then none
        else some (divider_fields 1 k (scale_multiplier doubles m))

    planned :
        (k : ℕ)
        → Reaches f k
        → k ≤ 5
        → lt (multiplier xtal_frequency f k) (of_int 13) ≡ false
        → ge (multiplier xtal_frequency f k) (of_int 141) ≡ false
        → Plan xtal_frequency f
            (divider_fields 1 k (scale_multiplier doubles (multiplier xtal_frequency f k)))
    unfolding divider_fields
    planned k reaches small low high = record {
      refdiv = refl;
      sel_div = small;
      vco = reaches;
      divider = fields.0;
      spur_free = fields.1;
      sdm_switch = fields.2;
      ni2c = fields.3;
      si2c = fields.4;
    }
      where
        m : Double
        m = multiplier xtal_frequency f k

        m_number : ieee.IsNumber m
        m_number = ieee.div_number _ xtal_frequency (doubled_number ieee k f number) pos

        below : lt m (of_int 141) ≡ true
        below = ground (arith, ieee.lt_or_ge m (of_int 141) m_number (ieee.of_int_number 141))

        bounds : (851968 ≤ scale_multiplier doubles m) × (scale_multiplier doubles m ≤ 9240576)
        bounds = scale_bounds ieee m m_number low below

        fields :
            Programs (scale_multiplier doubles m) (divider_fields 1 k (scale_multiplier doubles m))
        fields = divider_fields_lem 1 k (scale_multiplier doubles m) bounds.0 bounds.1

    decided :
        (k : ℕ)
        → Reaches f k
        → Decided xtal_frequency f (parameters k (multiplier xtal_frequency f k))
    decided k reaches = elim (Bool-cases (ltb 5 k)) [
      | inl big ↦
          rw big (record { sel_div = k; vco = reaches; why = inl (ground (arith, reaches.room)) })
      | inr small ↦ elim (Bool-cases (lt (multiplier xtal_frequency f k) (of_int 13))) [
        | inl low ↦ rw (small, low) (record { sel_div = k; vco = reaches; why = inr (inl low) })
        | inr fits ↦ elim (Bool-cases (ge (multiplier xtal_frequency f k) (of_int 141))) [
          | inl high ↦
              rw (small, fits, high) (record { sel_div = k; vco = reaches; why = inr (inr high) })
          | inr below ↦ rw (small, fits, below) (planned k reaches (ground arith) fits below)
        ]
      ]
    ]

  -- Of a frequency that is a number, with a crystal frequency that is not zero, the function
  -- either gives parameters or fails. Parameters divide the VCO by the least power of two that
  -- brings it to 1.77 GHz, and stand for a feedback divider within 512 / 65536 of the scaled
  -- ratio of VCO and crystal, with a spur free fraction, and each fits its bits. It fails only if
  -- no divider brings the VCO to its range or the ratio is below 13 or not below 141.
  pub compute_pll_parameters_lem :
      (ieee : Ieee doubles) (xtal_frequency : ℕ) (f : Double)
      → 0 < xtal_frequency
      → ieee.IsNumber f
      → Decided xtal_frequency f (compute_pll_parameters doubles xtal_frequency f)
  unfolding compute_pll_parameters feedback_multiplier
  compute_pll_parameters_lem ieee xtal_frequency f pos number =
      let chosen = choose_vco_lem f in
      rw chosen.0 (decided ieee xtal_frequency f pos number _ chosen.1)
