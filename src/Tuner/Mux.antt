-- ===== src/Tuner/Mux.antt =====
-- src/tuner.c: `tuner_compute_mux_parameters` and `tuner_apply_mux_parameters`.
use rf.Prelude.{ℕ, ◌/◌, ◌^◌, bit_and, List, [], ◌∷◌, if◌then◌else◌, Cmd, ◌>>◌}
use rf.Double.{Doubles}
use rf.Usb.{Libusb}
use rf.Tuner.Fields
use rf.Tuner.Defs.{Session, set_field, write_dirty}

pub record MuxParameters : Type 0 where
  pub open_d : ℕ
  pub rfmux : ℕ
  pub rffilt : ℕ
  pub tf_nch : ℕ
  pub tf_lp : ℕ

-- A row of the table, with its frequency in Hz.
pub record Row : Type 0 where
  pub lower_frequency : ℕ
  pub open_d : ℕ
  pub rf_mux_ploy : ℕ
  pub tf_c : ℕ

abbrev pub row : ℕ → ℕ → ℕ → ℕ → Row
row f o r t = record { lower_frequency = f; open_d = o; rf_mux_ploy = r; tf_c = t }

-- The first row, from 0 Hz on, and those after it.
abbrev pub first_row : Row
first_row = row 0 0x08 0x02 0xdf

abbrev pub later_rows : List Row
later_rows =
    row 50_000_000 0x08 0x02 0xbe
    ∷ row 55_000_000 0x08 0x02 0x8b
    ∷ row 60_000_000 0x08 0x02 0x7b
    ∷ row 65_000_000 0x08 0x02 0x69
    ∷ row 70_000_000 0x08 0x02 0x58
    ∷ row 75_000_000 0x00 0x02 0x44
    ∷ row 80_000_000 0x00 0x02 0x44
    ∷ row 90_000_000 0x00 0x02 0x34
    ∷ row 100_000_000 0x00 0x02 0x34
    ∷ row 110_000_000 0x00 0x02 0x24
    ∷ row 120_000_000 0x00 0x02 0x24
    ∷ row 140_000_000 0x00 0x02 0x14
    ∷ row 180_000_000 0x00 0x02 0x13
    ∷ row 220_000_000 0x00 0x02 0x13
    ∷ row 250_000_000 0x00 0x02 0x11
    ∷ row 280_000_000 0x00 0x02 0x00
    ∷ row 310_000_000 0x00 0x41 0x00
    ∷ row 450_000_000 0x00 0x41 0x00
    ∷ row 588_000_000 0x00 0x40 0x00
    ∷ row 650_000_000 0x00 0x40 0x00
    ∷ []

unfoldable pub row_parameters : Row → MuxParameters
row_parameters r = record {
  open_d = r.open_d / 2 ^ 3;
  rfmux = bit_and r.rf_mux_ploy 0xc0 / 2 ^ 6;
  rffilt = bit_and r.rf_mux_ploy 0x03;
  tf_nch = bit_and r.tf_c 0xf0 / 2 ^ 4;
  tf_lp = bit_and r.tf_c 0x0f;
}

module _ (doubles : Doubles) where
  open doubles use {Double, of_int, lt}

  -- The loop stops at the row before the first one that begins above the frequency.
  unfoldable pub find_row : Double → Row → List Row → Row
  find_row frequency current [] = current
  find_row frequency current (next ∷ rest) =
      if lt frequency (of_int next.lower_frequency) then current else find_row frequency next rest

  unfoldable pub compute_mux_parameters : Double → MuxParameters
  unfolding find_row row_parameters
  compute_mux_parameters frequency = row_parameters (find_row frequency first_row later_rows)

module _ (respond : Libusb) where
  unfoldable pub apply_mux_parameters : MuxParameters → Cmd Session (Unit {0})
  apply_mux_parameters p = do
    set_field Fields.open_d p.open_d
    set_field Fields.rfmux p.rfmux
    set_field Fields.rffilt p.rffilt
    set_field Fields.tf_nch p.tf_nch
    set_field Fields.tf_lp p.tf_lp
    set_field Fields.xtal_drive 0
    set_field Fields.capx 0
    set_field Fields.pwd_amp 1
    set_field Fields.pw0_amp 0
    set_field Fields.imr_g 0
    set_field Fields.pwd_iffilt 0
    set_field Fields.pw1_iffilt 0
    set_field Fields.imr_p 0
    write_dirty respond

  unfoldable pub set_mux : (doubles : Doubles) → doubles.Double → Cmd Session (Unit {0})
  set_mux doubles frequency = apply_mux_parameters (compute_mux_parameters doubles frequency)
