-- ===== src/Tuner/History.antt =====
-- Any sequence of operations on an open tuner, each of which may fail.
use rf.Prelude.{ℕ, ◌%◌, ◌^◌, ◌<◌, Bool, ltb, leb, ◌&&◌}
use rf.Prelude.{Option, none, some, List, [], ◌∷◌}
use rf.Prelude.{all_below, Outcome, ok, err, aborted, Cmd, modify}
use rf.Double.{Doubles}
use rf.Usb.{Libusb}
use rf.Tuner.Fields
use rf.Tuner.Fields.{Field}
use rf.Tuner.Defs.{Session, fits}
use rf.Tuner.Control.{Setting}
use rf.Tuner.Control.{
  set_lna_gain, set_mixer_gain, set_vga_gain, set_lna_agc, set_mixer_agc, set_if_bandwidth,
}
use rf.Tuner.Control.{
  standby, set_frequency, set_harmonic_frequency, set_xtal_frequency, set_if_frequency,
}

-- Each index of a table of sixteen gains passes the assertions.
abbrev fits_sixteen : Field → Bool
fits_sixteen f =
    all_below 16 (λ i. fits f (i % 2 ^ 8)) && (leb (2 ^ f.shift) f.mask && ltb f.reg 32)

abbrev InRange : List Setting → Type 0
InRange [] = Unit {0}
InRange (x ∷ xs) = (x.reg < 32) × InRange xs

-- What a client may do with an open tuner.
module _ (doubles : Doubles) where
  open doubles use {Double}

  pub data Operation : Type 0 where
    xtal_frequency if_frequency : ℕ → Operation
    lna_gain mixer_gain vga_gain lna_agc mixer_agc if_bandwidth : ℕ → Operation
    frequency : Double → Operation
    harmonic_frequency : Double → ℕ → Operation
    go_standby : Operation

  module _ (respond : Libusb) where
    pub perform : Operation → Cmd Session (Unit {0})
    perform (xtal_frequency x) = modify (λ s. record s { tuner = set_xtal_frequency x s.tuner })
    perform (if_frequency x) = modify (λ s. record s { tuner = set_if_frequency x s.tuner })
    perform (lna_gain g) = set_lna_gain respond g
    perform (mixer_gain g) = set_mixer_gain respond g
    perform (vga_gain g) = set_vga_gain respond g
    perform (lna_agc b) = set_lna_agc respond b
    perform (mixer_agc b) = set_mixer_agc respond b
    perform (if_bandwidth b) = set_if_bandwidth respond b
    perform (frequency f) = set_frequency respond doubles f
    perform (harmonic_frequency f h) = set_harmonic_frequency respond doubles f h
    perform go_standby = standby respond

    -- The client goes on after an error; `none` is a failed assertion.
    pub continue : Outcome Session (Unit {0}) → Option Session
    continue (ok a s) = some s
    continue (err s) = some s
    continue aborted = none

    pub run : List Operation → Session → Option Session
    unfolding perform continue
    run [] s = some s
    run (op ∷ ops) s = elim (continue (perform op s)) [ none ↦ none | some t ↦ run ops t ]
