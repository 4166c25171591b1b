-- ===== src/Tuner/Startup.antt =====
-- src/tuner.c: `has_tuner`, `tuner_open`, `tuner_init_registers` and `tuner_calibrate`.
use rf.Prelude.{ℕ, zero, suc, Bool, false, ◌&&◌, not, ◌==◌, if◌then◌else◌, get_or, replicate}
use rf.Prelude.{List, [], ◌∷◌, Cmd, ok, pure, fail, modify, ◌>>=◌, ◌>>◌}
use rf.Double.{Doubles}
use rf.Usb.{Libusb, Log, control, testfx3}
use rf.Tuner.Fields
use rf.Tuner.Defs.{Tuner, Session, write_value, read_value, write_registers, read_registers}
use rf.Tuner.Defs.{r820t2_registers, registers_write_mask}
use rf.Tuner.Pll.{set_pll}

abbrev pub init_registers_table : List ℕ
init_registers_table =
    0x00 ∷ 0x00 ∷ 0x00 ∷ 0x00 ∷ 0x00 ∷ 0x90 ∷ 0x80 ∷ 0x60 ∷ 0x80 ∷ 0x40 ∷ 0xa0 ∷ 0x6f ∷ 0x40 ∷ 0x63
    ∷ 0x75 ∷ 0xf8 ∷ 0x7c ∷ 0x83 ∷ 0x80 ∷ 0x00 ∷ 0x0f ∷ 0x00 ∷ 0xc0 ∷ 0x30 ∷ 0x48 ∷ 0xcc ∷ 0x62
    ∷ 0x00 ∷ 0x54 ∷ 0xae ∷ 0x0a ∷ 0xc0 ∷ []

-- The tuner that `tuner_open` allocates.
abbrev pub new_tuner : Tuner
new_tuner = record {
  xtal_frequency = 32_000_000;
  if_frequency = 7_000_000;
  registers = replicate r820t2_registers 0;
  dirty = 0;
}

module _ (respond : Libusb) where
  -- `stack` is what the uninitialised buffer holds. An error means that there is no tuner.
  unfoldable pub has_tuner : List ℕ → Cmd Log Bool
  unfolding control
  has_tuner stack log =
      let a = control respond testfx3 0 0 stack log in
      ok (if a.failed then false else get_or a.buffer 0 0 == 0) a.log

  unfoldable pub init_registers : Cmd Session (Unit {0})
  init_registers = do
    modify (λ s. record s { tuner = record s.tuner { registers = init_registers_table } })
    write_registers respond registers_write_mask

  module _ (doubles : Doubles) where
    open doubles use {of_int}

    -- Calibration with the attempts that are left.
    unfoldable pub calibrate_attempts : ℕ → Cmd Session (Unit {0})
    calibrate_attempts zero = fail
    calibrate_attempts (suc attempts) =
        let again = calibrate_attempts attempts in
        do
          write_value respond Fields.filt_cap 0
          write_value respond Fields.cali_clk 1
          write_value respond Fields.capx 1
          set_pll respond doubles (of_int 88_000_000)
          write_value respond Fields.cal_trigger 1
          write_value respond Fields.cal_trigger 0
          write_value respond Fields.cali_clk 0
          cal_code ← read_value respond Fields.fil_cal_code
          if not (cal_code == 0) && not (cal_code == 0x0f) then pure tt else again

    unfoldable pub calibrate : Cmd Session (Unit {0})
    unfolding calibrate_attempts
    calibrate = calibrate_attempts 5

    -- The session starts from the new tuner and the transfers made before.
    unfoldable pub open_tuner : Cmd Session (Unit {0})
    open_tuner = do
      modify (λ s. record s { tuner = new_tuner })
      init_registers
      calibrate
      read_registers respond 0xffff_ffff
