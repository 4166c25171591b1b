-- ===== src/Tuner/Operations.antt =====
-- Every operation on an open tuner keeps the shadow registers coherent, also when it fails.
use rf.Prelude.{ℕ, ◌^◌, ◌≡◌, refl, arith, Bool, true, false, ltb, leb, Option, none, some}
use rf.Prelude.{◌&&◌, Keeps, Keeps-bind, Keeps-fail}
use rf.Prelude.{Keeps-pure, Keeps-gets, Keeps-if, ◌▹◌}
use rf.Double.{Doubles}
use rf.Usb.{Libusb}
use rf.Tuner.Fields
use rf.Tuner.Fields.{Field}
use rf.Tuner.Defs.{fits, set_field, write_value}
use rf.Tuner.Coherence.{Coherent, set_field-Coherent, write_value-Coherent, write_dirty-Coherent}
use rf.Tuner.Reads.{read_value-Coherent}
use rf.Tuner.Mux.{set_mux, apply_mux_parameters}
use rf.Tuner.Control.{set_frequency, set_harmonic_frequency}
use rf.Tuner.Pll.{PllParameters, raise_current, apply_pll_parameters, apply_pll, set_pll}

pub set_known : (f : Field) (v : ℕ) → ltb f.reg 32 ≡ true → Keeps Coherent (set_field f v)
set_known f v h = set_field-Coherent f v (ground arith)

module _ (respond : Libusb) where
  pub write_known :
      (f : Field) (v : ℕ)
      → (ltb f.reg 32 && fits f v && leb (2 ^ f.shift) f.mask) ≡ true
      → Keeps Coherent (write_value respond f v)
  write_known f v h = write_value-Coherent respond f v (ground arith, ground arith, ground arith)

  raise_current-Coherent : (b : Bool) → Keeps Coherent (raise_current respond b)
  unfolding raise_current fits
  raise_current-Coherent true = Keeps-pure tt
  raise_current-Coherent false =
      write_known Fields.vco_current 3 refl
      ▹ Keeps-bind _ _ (read_value-Coherent respond Fields.vco_indicator (omega arith))
          λ _. Keeps-pure tt

  apply_pll_parameters-Coherent :
      (p : PllParameters) → Keeps Coherent (apply_pll_parameters respond p)
  unfolding apply_pll_parameters fits
  apply_pll_parameters-Coherent p =
      write_known Fields.pll_auto_clk 0 refl
      ▹ write_known Fields.vco_current 4 refl
      ▹ set_known Fields.refdiv _ refl
      ▹ set_known Fields.sel_div _ refl
      ▹ set_known Fields.pw_sdm _ refl
      ▹ set_known Fields.si2c _ refl
      ▹ set_known Fields.ni2c _ refl
      ▹ set_known Fields.sdm_inl _ refl
      ▹ set_known Fields.sdm_inh _ refl
      ▹ write_dirty-Coherent respond
      ▹ Keeps-bind _ _ (read_value-Coherent respond Fields.vco_indicator (omega arith))
          λ v. raise_current-Coherent _ ▹ write_known Fields.pll_auto_clk 2 refl

  apply_pll-Coherent : (p : Option PllParameters) → Keeps Coherent (apply_pll respond p)
  unfolding apply_pll
  apply_pll-Coherent none = Keeps-fail
  apply_pll-Coherent (some p) = apply_pll_parameters-Coherent p

  -- Tuning the PLL.
  pub set_pll-Coherent :
      (doubles : Doubles) (f : doubles.Double) → Keeps Coherent (set_pll respond doubles f)
  unfolding set_pll
  set_pll-Coherent doubles f = Keeps-bind _ _ (Keeps-gets _) λ x. apply_pll-Coherent _

  pub set_mux-Coherent :
      (doubles : Doubles) (f : doubles.Double) → Keeps Coherent (set_mux respond doubles f)
  unfolding set_mux apply_mux_parameters
  set_mux-Coherent doubles f =
      set_known Fields.open_d _ refl
      ▹ set_known Fields.rfmux _ refl
      ▹ set_known Fields.rffilt _ refl
      ▹ set_known Fields.tf_nch _ refl
      ▹ set_known Fields.tf_lp _ refl
      ▹ set_known Fields.xtal_drive _ refl
      ▹ set_known Fields.capx _ refl
      ▹ set_known Fields.pwd_amp _ refl
      ▹ set_known Fields.pw0_amp _ refl
      ▹ set_known Fields.imr_g _ refl
      ▹ set_known Fields.pwd_iffilt _ refl
      ▹ set_known Fields.pw1_iffilt _ refl
      ▹ set_known Fields.imr_p _ refl
      ▹ write_dirty-Coherent respond

  pub set_frequency-Coherent :
      (doubles : Doubles) (f : doubles.Double) → Keeps Coherent (set_frequency respond doubles f)
  unfolding set_frequency
  set_frequency-Coherent doubles f =
      set_mux-Coherent doubles f ▹ Keeps-bind _ _ (Keeps-gets _) λ x. set_pll-Coherent doubles _

  pub set_harmonic_frequency-Coherent :
      (doubles : Doubles) (f : doubles.Double) (harmonic : ℕ)
      → Keeps Coherent (set_harmonic_frequency respond doubles f harmonic)
  unfolding set_harmonic_frequency
  set_harmonic_frequency-Coherent doubles f harmonic =
      Keeps-if _ _ _ Keeps-fail
        (set_mux-Coherent doubles f ▹ Keeps-bind _ _ (Keeps-gets _) λ x. set_pll-Coherent doubles _)
