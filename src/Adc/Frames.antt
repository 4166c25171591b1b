-- ===== src/Adc/Frames.antt =====
-- src/adc.c: the `adc` structure and its frames of device memory, `adc_open_sync`,
-- `adc_open_async` and `adc_close`. `libusb_dev_mem_alloc` is a parameter: a pointer, or nothing,
-- for a size after a history of calls.
use rf.Prelude.{
  ℕ, zero, suc, ◌+◌, ◌-◌, ◌*◌, ◌/◌, ◌%◌, ◌^◌, Bool, false, not, ltb, ◌==◌, if◌then◌else◌,
}
use rf.Prelude.{Option, none, some, List, [], ◌∷◌, ◌++◌, take, Cmd, ok, err, pure, fail, ◌>>=◌}

-- `enum ADCStatus`.
pub data Status : Type 0 where
  status_off status_ready status_streaming status_cancelled status_failed : Status

-- `struct adc`; a number is the bit pattern of the C value. `frames` is none for a null pointer,
-- which goes with a null `transfers`.
pub record Adc : Type 0 where
  pub status : Status
  pub random : ℕ
  pub sample_rate : ℕ
  pub frame_size : ℕ
  pub num_frames : ℕ
  pub has_callback : Bool
  pub frames : Option (List ℕ)
  pub active_transfers : ℕ

-- The part of `struct usb_device` that the ADC reads.
pub record BulkEndpoint : Type 0 where
  pub address : ℕ
  pub max_packet_size : ℕ
  pub max_burst : ℕ

-- What was done with device memory, newest first: a pointer and a size.
pub data MemoryCall : Type 0 where
  allocated released : ℕ → ℕ → MemoryCall
  exhausted : ℕ → MemoryCall

abbrev pub default_sample_rate : ℕ
default_sample_rate = 64_000_000

abbrev pub default_frame_size : ℕ
default_frame_size = 2 * default_sample_rate / 1000

abbrev pub default_num_frames : ℕ
default_num_frames = 96

abbrev pub or_default : ℕ → ℕ → ℕ
or_default x d = if ltb 0 x then x else d

-- The frame size rounded up to a multiple of the largest transfer.
unfoldable pub round_up : ℕ → ℕ → ℕ
round_up max_xfer_size frame_size =
    max_xfer_size * ((frame_size + max_xfer_size - 1) % 2 ^ 32 / max_xfer_size) % 2 ^ 32

unfoldable pub release_frames : ℕ → List ℕ → List MemoryCall → List MemoryCall
release_frames size [] memory = memory
release_frames size (p ∷ ps) memory = release_frames size ps (released p size ∷ memory)

unfoldable pub open_sync : BulkEndpoint → Option Adc
open_sync endpoint =
    if endpoint.address == 0
    then none
    else some (record {
      status = status_ready;
      random = 0;
      sample_rate = default_sample_rate;
      frame_size = 0;
      num_frames = 0;
      has_callback = false;
      frames = none;
      active_transfers = 0;
    })

unfoldable pub close : Adc → List MemoryCall → List MemoryCall
unfolding release_frames
close adc memory = elim adc.frames [
  | none ↦ memory
  | some frames ↦ release_frames adc.frame_size (take adc.num_frames frames) memory
]

module _ (alloc : List MemoryCall → ℕ → Option ℕ) where
  -- The loop with `n` frames left and those allocated so far; on a failure it releases them.
  unfoldable pub allocate_frames : ℕ → ℕ → List ℕ → Cmd (List MemoryCall) (List ℕ)
  unfolding release_frames
  allocate_frames size zero frames memory = ok frames memory
  allocate_frames size (suc n) frames memory = elim (alloc memory size) [
    | none ↦ err (release_frames size frames (exhausted size ∷ memory))
    | some p ↦ allocate_frames size n (frames ++ (p ∷ [])) (allocated p size ∷ memory)
  ]

  unfoldable pub open_async : BulkEndpoint → ℕ → ℕ → Bool → Cmd (List MemoryCall) Adc
  unfolding round_up allocate_frames
  open_async endpoint frame_size num_frames has_callback =
      let max_xfer_size = endpoint.max_packet_size * endpoint.max_burst in
      let n = or_default num_frames default_num_frames in
      let size = round_up max_xfer_size (or_default frame_size default_frame_size) in
      if endpoint.address == 0
      then fail
      else if max_xfer_size == 0
      then fail
      else if not (size % max_xfer_size == 0)
      then fail
      else do
        frames ← allocate_frames size n []
        pure (record {
          status = status_ready;
          random = 0;
          sample_rate = default_sample_rate;
          frame_size = or_default size default_frame_size;
          num_frames = or_default n default_num_frames;
          has_callback = has_callback;
          frames = some frames;
          active_transfers = 0;
        })
