-- ===== src/Tuner/Control.antt =====
-- src/tuner.c: the public operations on an open tuner.
use rf.Prelude.{ℕ, suc, ◌-◌, ◌/◌, ◌%◌, ◌^◌, bit_and, bit_or, List, [], ◌∷◌, ◌||◌, ltb}
use rf.Prelude.{
  Bool, ◌==◌, if◌then◌else◌, Cmd, fail, gets, modify, ◌>>=◌, ◌>>◌, length, get_or, set,
}
use rf.Double.{Doubles}
use rf.Usb.{Libusb}
use rf.Tuner.Fields
use rf.Tuner.Fields.{Field}
use rf.Tuner.Defs.{Tuner, Session, set_field, write_value, write_dirty}
use rf.Tuner.Pll.{set_pll}
use rf.Tuner.Mux.{set_mux}

-- A C `int` is its bit pattern below 2 ^ 32.
abbrev pub is_negative : ℕ → Bool
is_negative n = ltb (2 ^ 31 - 1) n

unfoldable pub set_xtal_frequency : ℕ → Tuner → Tuner
set_xtal_frequency xtal_frequency t = record t { xtal_frequency = xtal_frequency }

unfoldable pub set_if_frequency : ℕ → Tuner → Tuner
set_if_frequency if_frequency t = record t { if_frequency = if_frequency }

abbrev pub lna_gains : List ℕ
lna_gains = 0 ∷ 2 ∷ 4 ∷ 6 ∷ 8 ∷ 10 ∷ 12 ∷ 14 ∷ 16 ∷ 18 ∷ 20 ∷ 22 ∷ 24 ∷ 26 ∷ 28 ∷ 30 ∷ []

abbrev pub mixer_gains : List ℕ
mixer_gains = 0 ∷ 1 ∷ 2 ∷ 3 ∷ 4 ∷ 5 ∷ 6 ∷ 7 ∷ 8 ∷ 9 ∷ 10 ∷ 11 ∷ 12 ∷ 13 ∷ 14 ∷ 15 ∷ []

abbrev pub vga_gains : List ℕ
vga_gains = 0 ∷ 1 ∷ 2 ∷ 3 ∷ 4 ∷ 5 ∷ 6 ∷ 7 ∷ 8 ∷ 9 ∷ 10 ∷ 11 ∷ 12 ∷ 13 ∷ 14 ∷ 15 ∷ []

-- The search loop of the four setters: the first index of the value, or the size of the table.
unfoldable pub find_index : ℕ → List ℕ → ℕ
find_index v [] = 0
find_index v (x ∷ xs) = if v == x then 0 else suc (find_index v xs)

pub record Bandwidth : Type 0 where
  pub bandwidth : ℕ
  pub reg0x0a : ℕ
  pub reg0x0b : ℕ

abbrev pub bandwidth_row : ℕ → ℕ → ℕ → Bandwidth
bandwidth_row b x y = record { bandwidth = b; reg0x0a = x; reg0x0b = y }

abbrev pub if_bandwidth_table : List Bandwidth
if_bandwidth_table =
    bandwidth_row 300000 0x0f 0xe8
    ∷ bandwidth_row 450000 0x0f 0xe9
    ∷ bandwidth_row 600000 0x0f 0xea
    ∷ bandwidth_row 900000 0x0f 0xeb
    ∷ bandwidth_row 1100000 0x0f 0xec
    ∷ bandwidth_row 1200000 0x0f 0xed
    ∷ bandwidth_row 1300000 0x0f 0xee
    ∷ bandwidth_row 1500000 0x0e 0xef
    ∷ bandwidth_row 1800000 0x0f 0xaf
    ∷ bandwidth_row 2200000 0x0f 0x8f
    ∷ bandwidth_row 3000000 0x04 0x8f
    ∷ bandwidth_row 5000000 0x0b 0x6b
    ∷ bandwidth_row 6000000 0x10 0x6b
    ∷ bandwidth_row 7000000 0x10 0x2a
    ∷ bandwidth_row 8000000 0x10 0x0b
    ∷ []

unfoldable pub if_bandwidths : List Bandwidth → List ℕ
if_bandwidths [] = []
if_bandwidths (b ∷ bs) = b.bandwidth ∷ if_bandwidths bs

-- The registers of `tuner_standby`.
pub record Setting : Type 0 where
  pub reg : ℕ
  pub value : ℕ

abbrev pub setting : ℕ → ℕ → Setting
setting r v = record { reg = r; value = v }

abbrev pub standby_registers : List Setting
standby_registers =
    setting 0x06 0xb1
    ∷ setting 0x05 0xa0
    ∷ setting 0x07 0x3a
    ∷ setting 0x08 0x40
    ∷ setting 0x09 0xc0
    ∷ setting 0x0a 0x36
    ∷ setting 0x0c 0x35
    ∷ setting 0x0f 0x68
    ∷ setting 0x11 0x03
    ∷ setting 0x17 0xf4
    ∷ setting 0x19 0x0c
    ∷ []

unfoldable pub store_settings : List Setting → Tuner → Tuner
store_settings [] t = t
store_settings (x ∷ xs) t =
    store_settings xs
      (record t { registers = set t.registers x.reg x.value; dirty = bit_or t.dirty (2 ^ x.reg) })

module _ (respond : Libusb) where
  unfoldable pub set_gain : List ℕ → Field → ℕ → Cmd Session (Unit {0})
  unfolding find_index
  set_gain table field gain =
      let idx = find_index gain table in
      if idx == length table then fail else write_value respond field (idx % 2 ^ 8)

  unfoldable pub set_lna_gain : ℕ → Cmd Session (Unit {0})
  unfolding set_gain
  set_lna_gain gain = set_gain lna_gains Fields.lna_gain gain

  unfoldable pub set_mixer_gain : ℕ → Cmd Session (Unit {0})
  unfolding set_gain
  set_mixer_gain gain = set_gain mixer_gains Fields.mix_gain gain

  unfoldable pub set_vga_gain : ℕ → Cmd Session (Unit {0})
  unfolding set_gain
  set_vga_gain gain = set_gain vga_gains Fields.vga_code gain

  unfoldable pub set_lna_agc : ℕ → Cmd Session (Unit {0})
  set_lna_agc agc = write_value respond Fields.lna_gain_mode (if agc == 0 then 1 else 0)

  unfoldable pub set_mixer_agc : ℕ → Cmd Session (Unit {0})
  set_mixer_agc agc = write_value respond Fields.mixgain_mode (if agc == 0 then 0 else 1)

  unfoldable pub apply_bandwidth : Bandwidth → Cmd Session (Unit {0})
  apply_bandwidth b = do
    set_field Fields.filt_code (bit_and b.reg0x0a 0x0f)
    set_field Fields.filt_bw (bit_and b.reg0x0b 0xe0 / 2 ^ 5)
    set_field Fields.hpf (bit_and b.reg0x0b 0x0f)
    write_dirty respond

  unfoldable pub set_if_bandwidth : ℕ → Cmd Session (Unit {0})
  unfolding find_index if_bandwidths
  set_if_bandwidth bandwidth =
      let idx = find_index bandwidth (if_bandwidths if_bandwidth_table) in
      if idx == length if_bandwidth_table
      then fail
      else apply_bandwidth (get_or if_bandwidth_table idx (bandwidth_row 0 0 0))

  unfoldable pub standby : Cmd Session (Unit {0})
  standby = do
    modify (λ s. record s { tuner = store_settings standby_registers s.tuner })
    write_dirty respond

  module _ (doubles : Doubles) where
    open doubles use {Double, of_int, add, div}

    unfoldable pub set_frequency : Double → Cmd Session (Unit {0})
    set_frequency frequency = do
      set_mux respond doubles frequency
      if_frequency ← gets (λ s. s.tuner.if_frequency)
      set_pll respond doubles (add frequency (of_int if_frequency))

    unfoldable pub set_harmonic_frequency : Double → ℕ → Cmd Session (Unit {0})
    set_harmonic_frequency frequency harmonic =
        if is_negative harmonic || harmonic % 2 == 0 then fail else do
          set_mux respond doubles frequency
          if_frequency ← gets (λ s. s.tuner.if_frequency)
          set_pll respond doubles (div (add frequency (of_int if_frequency)) (of_int harmonic))
