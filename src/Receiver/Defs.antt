-- ===== src/Receiver/Defs.antt =====
-- src/librf103.c: `struct rf103` and its operations, but for those on the GPIO register.
use rf.Prelude.{
  ℕ, bit_or, Bool, true, false, not, ◌&&◌, if◌then◌else◌, Option, none, some, List, [],
}
use rf.Prelude.{Cmd, ok, err, aborted, pure, gets, modify, ◌>>=◌, ◌>>◌}
use rf.Double.{Doubles}
use rf.Usb.{Log, Libusb, control, startfx3, stopfx3}
use rf.Gpio.Defs.{Board, gpio_set, gpio_sel0, gpio_sel1}
use rf.Clock.Defs.{ClockSource, set_clock, start_clock, stop_clock}
use rf.Tuner.Defs.{Tuner, Session}
use rf.Tuner.Startup.{new_tuner, open_tuner}
use rf.Tuner.Control.{
  set_if_frequency, set_lna_gain, set_lna_agc, set_mixer_gain, set_mixer_agc, set_vga_gain,
}
use rf.Tuner.Control.{set_if_bandwidth, set_frequency, set_harmonic_frequency}
use rf.Adc.Frames.{Adc, BulkEndpoint, MemoryCall, open_async}
use rf.Adc.Stream.{Stream, Event, Host, set_sample_rate, start, stop, reset_status, read_sync}

-- `enum RFMode`, and its other values.
pub data RfMode : Type 0 where
  hf_mode vhf_mode other_mode : RfMode

abbrev pub is_vhf : RfMode → Bool
is_vhf vhf_mode = true
is_vhf _ = false

abbrev pub adc_clock : ℕ
adc_clock = 0

abbrev pub tuner_clock : ℕ
tuner_clock = 1

-- A command on a part of the state.
unfoldable pub focus : {S R A : Type 0} → (R → S) → (S → R → R) → Cmd S A → Cmd R A
focus get put m r = elim (m (get r)) [
  | ok a s ↦ ok a (put s r)
  | err s ↦ err (put s r)
  | aborted ↦ aborted
]

-- What the receiver is built on.
pub record World : Type 0 where
  pub respond : Libusb
  pub host : Host
  pub alloc : List MemoryCall → ℕ → Option ℕ
  pub endpoint : BulkEndpoint

module _ (doubles : Doubles) where
  open doubles use {Double, of_int, to_u32}

  -- `struct rf103`, with the parts of the USB device and of the clock source that it points to.
  -- A null pointer is none; the transfers of the control endpoint are in one history.
  pub record Receiver : Type 0 where
    pub rf_mode : RfMode
    pub gpio_register : ℕ
    pub crystal_frequency : Double
    pub frequency_correction : Double
    pub adc : Option Adc
    pub has_tuner : Bool
    pub tuner : Option Tuner
    pub sample_rate : Double
    pub log : Log
    pub events : List Event
    pub memory : List MemoryCall

  abbrev pub clock_of : Receiver → ClockSource doubles
  clock_of r = record {
    crystal_frequency = r.crystal_frequency;
    frequency_correction = r.frequency_correction;
    log = r.log;
  }

  abbrev pub with_clock : ClockSource doubles → Receiver → Receiver
  with_clock s r = record r {
    crystal_frequency = s.crystal_frequency;
    frequency_correction = s.frequency_correction;
    log = s.log;
  }

  unfoldable pub on_clock : {A : Type 0} → Cmd (ClockSource doubles) A → Cmd Receiver A
  unfolding focus
  on_clock m = focus clock_of with_clock m

  unfoldable pub on_board : {A : Type 0} → Cmd Board A → Cmd Receiver A
  unfolding focus
  on_board m =
      focus (λ r. record { gpio_register = r.gpio_register; log = r.log })
        (λ s r. record r { gpio_register = s.gpio_register; log = s.log }) m

  abbrev pub with_session : Session → Receiver → Receiver
  with_session s r = record r { tuner = some s.tuner; log = s.log }

  -- A null pointer is not to be followed.
  unfoldable pub on_tuner : {A : Type 0} → Cmd Session A → Cmd Receiver A
  unfolding focus
  on_tuner m r = elim r.tuner [
    | none ↦ aborted
    | some tuner ↦ focus (λ r. record { tuner = tuner; log = r.log }) with_session m r
  ]

  abbrev pub with_stream : Stream → Receiver → Receiver
  with_stream s r = record r { adc = some s.adc; events = s.log }

  unfoldable pub on_adc : {A : Type 0} → Cmd Stream A → Cmd Receiver A
  unfolding focus
  on_adc m r = elim r.adc [
    | none ↦ aborted
    | some adc ↦ focus (λ r. record { adc = adc; log = r.events }) with_stream m r
  ]

  -- `rf103_set_sample_rate`.
  abbrev pub set_receiver_sample_rate : Double → Receiver → Receiver
  set_receiver_sample_rate sample_rate r = record r { sample_rate = sample_rate }

  abbrev pub is_vhf_mode_on : Receiver → Bool
  is_vhf_mode_on r = is_vhf r.rf_mode && elim r.tuner [ none ↦ false | some t ↦ true ]

  module _ (world : World) where
    -- A failed `tuner_open` leaves a null pointer and the mode as it was.
    unfoldable pub enter_vhf : Cmd Receiver (Unit {0})
    enter_vhf r =
        elim (open_tuner world.respond doubles (record { tuner = new_tuner; log = r.log })) [
          | ok a s ↦ ok tt (record (with_session s r) { rf_mode = vhf_mode })
          | err s ↦ err (record r { tuner = none; log = s.log })
          | aborted ↦ aborted
        ]

    unfoldable pub set_rf_mode : RfMode → Cmd Receiver (Unit {0})
    set_rf_mode hf_mode r = ok tt (record r { tuner = none; rf_mode = hf_mode })
    set_rf_mode vhf_mode r = if not r.has_tuner then err r else enter_vhf r
    set_rf_mode other_mode r = err r

    unfoldable pub set_async_params : ℕ → ℕ → Bool → Cmd Receiver (Unit {0})
    set_async_params frame_size num_frames has_callback r = elim r.adc [
      | some adc ↦ err r
      | none ↦
          elim (open_async world.alloc world.endpoint frame_size num_frames has_callback r.memory) [
            | ok adc memory ↦ ok tt (record r { adc = some adc; memory = memory })
            | err memory ↦ err (record r { memory = memory })
            | aborted ↦ aborted
          ]
    ]

    -- A request without data.
    unfoldable pub command : ℕ → Cmd Receiver (Unit {0})
    unfolding control
    command request r =
        let a = control world.respond request 0 0 [] r.log in
        if a.failed then err (record r { log = a.log }) else ok tt (record r { log = a.log })

    unfoldable pub start_tuner_clock : Cmd Receiver (Unit {0})
    start_tuner_clock r = elim r.tuner [
      | none ↦ aborted
      | some tuner ↦
          on_clock (set_clock doubles world.respond tuner_clock (of_int tuner.xtal_frequency)) r
    ]

    -- The part of `rf103_start_streaming` for the VHF mode; `tuner_start` does nothing.
    unfoldable pub start_vhf : Cmd Receiver (Unit {0})
    start_vhf = do
      start_tuner_clock
      on_clock (start_clock doubles world.respond tuner_clock)
      on_board (gpio_set world.respond 0 (bit_or gpio_sel0 gpio_sel1))

    unfoldable pub start_adc : Cmd Receiver (Unit {0})
    start_adc = do
      sample_rate ← gets (λ r. r.sample_rate)
      on_adc (modify (set_sample_rate (to_u32 sample_rate)))
      on_adc (start world.host)

    unfoldable pub start_streaming : Cmd Receiver (Unit {0})
    start_streaming = do
      sample_rate ← gets (λ r. r.sample_rate)
      on_clock (set_clock doubles world.respond adc_clock sample_rate)
      on_clock (start_clock doubles world.respond adc_clock)
      vhf ← gets is_vhf_mode_on
      if vhf then start_vhf else pure tt
      start_adc
      command startfx3

    unfoldable pub stop_streaming : Cmd Receiver (Unit {0})
    stop_streaming = do
      command stopfx3
      on_adc (stop world.host)
      on_clock (stop_clock doubles world.respond adc_clock)

    unfoldable pub reset_receiver_status : Cmd Receiver (Unit {0})
    reset_receiver_status = on_adc reset_status

    unfoldable pub read_receiver_sync : ℕ → Cmd Receiver (List ℕ)
    read_receiver_sync length = on_adc (read_sync world.host length)

    -- The guard of the VHF functions.
    unfoldable pub when_vhf : Cmd Session (Unit {0}) → Cmd Receiver (Unit {0})
    unfolding on_tuner
    when_vhf m r = if not (is_vhf_mode_on r) then err r else on_tuner m r

    unfoldable pub set_vhf_frequency : Double → Cmd Receiver (Unit {0})
    set_vhf_frequency frequency = when_vhf (set_frequency world.respond doubles frequency)

    unfoldable pub set_vhf_harmonic_frequency : Double → ℕ → Cmd Receiver (Unit {0})
    set_vhf_harmonic_frequency frequency harmonic =
        when_vhf (set_harmonic_frequency world.respond doubles frequency harmonic)

    unfoldable pub set_vhf_if_frequency : ℕ → Cmd Receiver (Unit {0})
    set_vhf_if_frequency if_frequency =
        when_vhf (modify (λ s. record s { tuner = set_if_frequency if_frequency s.tuner }))

    unfoldable pub set_vhf_lna_gain : ℕ → Cmd Receiver (Unit {0})
    set_vhf_lna_gain gain = when_vhf (set_lna_gain world.respond gain)

    unfoldable pub set_vhf_lna_agc : ℕ → Cmd Receiver (Unit {0})
    set_vhf_lna_agc agc = when_vhf (set_lna_agc world.respond agc)

    unfoldable pub set_vhf_mixer_gain : ℕ → Cmd Receiver (Unit {0})
    set_vhf_mixer_gain gain = when_vhf (set_mixer_gain world.respond gain)

    unfoldable pub set_vhf_mixer_agc : ℕ → Cmd Receiver (Unit {0})
    set_vhf_mixer_agc agc = when_vhf (set_mixer_agc world.respond agc)

    unfoldable pub set_vhf_vga_gain : ℕ → Cmd Receiver (Unit {0})
    set_vhf_vga_gain gain = when_vhf (set_vga_gain world.respond gain)

    unfoldable pub set_vhf_if_bandwidth : ℕ → Cmd Receiver (Unit {0})
    set_vhf_if_bandwidth bandwidth = when_vhf (set_if_bandwidth world.respond bandwidth)
