-- ===== src/Adc/Stream.antt =====
-- src/adc.c: the status of the ADC, its transfers and the callback of a transfer that ends.
-- libusb is a parameter, which answers a call after a history of events; a client's callback is
-- seen as the data that it is given.
use rf.Prelude.{
  ℕ, zero, suc, ◌+◌, ◌-◌, ◌%◌, ◌^◌, Bool, true, false, not, ◌&&◌, ltb, ◌==◌, if◌then◌else◌,
}
use rf.Prelude.{List, [], ◌∷◌, Cmd, ok, err, modify, ◌>>◌}
use rf.Adc.Frames.{Adc, Status}
use rf.Adc.Frames.Status.{
  status_off, status_ready, status_streaming, status_cancelled, status_failed,
}
use rf.Adc.Samples.{derandomize}

-- `enum libusb_transfer_status`.
pub data TransferStatus : Type 0 where
  transfer_completed transfer_error transfer_timed_out transfer_cancelled : TransferStatus
  transfer_stall transfer_no_device transfer_overflow : TransferStatus

-- 0, LIBUSB_ERROR_NOT_FOUND, or another negative value.
pub data Result : Type 0 where
  accepted not_found refused : Result

-- A transfer that has ended: its index, and its `actual_length` bytes.
pub record Completion : Type 0 where
  pub index : ℕ
  pub status : TransferStatus
  pub buffer : List ℕ

-- `zeroed` is the reset of the counter in `adc_start`.
pub data Event : Type 0 where
  zeroed : Event
  submitted cancelled : ℕ → Result → Event
  ended : Completion → Event
  delivered : List ℕ → Event

-- `pending` are the transfers whose callback one call of libusb's event handler makes, in the
-- context of the device; `default_pending` those of a call in libusb's default context.
pub record Host : Type 0 where
  pub submit : List Event → ℕ → Result
  pub cancel : List Event → ℕ → Result
  pub pending : List Event → List Completion
  pub handling_fails : List Event → Bool
  pub default_pending : List Event → List Completion
  pub default_handling_fails : List Event → Bool
  pub bulk_fails : List Event → ℕ → Bool
  pub bulk_bytes : List Event → ℕ → List ℕ

-- Events newest first.
pub record Stream : Type 0 where
  pub adc : Adc
  pub log : List Event

abbrev pub set_status : Status → Stream → Stream
set_status x s = record s { adc = record s.adc { status = x } }

abbrev pub record_event : Event → Stream → Stream
record_event e s = record s { log = e ∷ s.log }

abbrev pub is_ready : Status → Bool
is_ready status_ready = true
is_ready _ = false

abbrev pub is_streaming : Status → Bool
is_streaming status_streaming = true
is_streaming _ = false

-- `active_transfers > 0`, of an `int`.
abbrev pub some_active : ℕ → Bool
some_active n = ltb 0 n && ltb n (2 ^ 31)

abbrev pub set_random : ℕ → Stream → Stream
set_random random s = record s { adc = record s.adc { random = random } }

abbrev pub set_sample_rate : ℕ → Stream → Stream
set_sample_rate sample_rate s = record s { adc = record s.adc { sample_rate = sample_rate } }

unfoldable pub reset_status : Cmd Stream (Unit {0})
reset_status s = elim s.adc.status [
  | status_ready ↦ ok tt s
  | status_cancelled ↦
      if some_active s.adc.active_transfers then err s else ok tt (set_status status_ready s)
  | status_failed ↦
      if some_active s.adc.active_transfers then err s else ok tt (set_status status_ready s)
  | status_off ↦ err s
  | status_streaming ↦ err s
]

module _ (host : Host) where
  -- Submission of the transfers from `i` on, `n` of them.
  unfoldable pub submit_transfers : ℕ → ℕ → Cmd Stream (Unit {0})
  submit_transfers zero i s = ok tt s
  submit_transfers (suc n) i s = elim (host.submit s.log i) [
    | accepted ↦ submit_transfers n (i + 1) (record {
      adc = record s.adc { active_transfers = (s.adc.active_transfers + 1) % 2 ^ 32 };
      log = submitted i accepted ∷ s.log;
    })
    | not_found ↦ err (set_status status_failed (record_event (submitted i not_found) s))
    | refused ↦ err (set_status status_failed (record_event (submitted i refused) s))
  ]

  unfoldable pub start : Cmd Stream (Unit {0})
  unfolding submit_transfers
  start s =
      if not (is_ready s.adc.status)
      then err s
      else if not s.adc.has_callback
      then ok tt (set_status status_streaming s)
      else (submit_transfers s.adc.num_frames 0 >> modify (set_status status_streaming))
          (record { adc = record s.adc { active_transfers = 0 }; log = zeroed ∷ s.log })

  -- Cancellation of the transfers from `i` on, in `adc_stop`.
  unfoldable pub cancel_transfers : ℕ → ℕ → Stream → Stream
  cancel_transfers zero i s = s
  cancel_transfers (suc n) i s =
      let r = host.cancel s.log i in
      let t = record_event (cancelled i r) s in
      cancel_transfers n (i + 1)
        (elim r [ accepted ↦ t | not_found ↦ t | refused ↦ set_status status_failed t ])

  -- The cancellations of the callback, which are all of the transfer that has ended.
  unfoldable pub cancel_again : ℕ → ℕ → Stream → Stream
  cancel_again zero i s = s
  cancel_again (suc n) i s = cancel_again n i (record_event (cancelled i (host.cancel s.log i)) s)

  unfoldable pub transfer_failed : Completion → Stream → Stream
  unfolding cancel_again
  transfer_failed c s = cancel_again s.adc.num_frames c.index (record s {
    adc = record s.adc {
      status = status_failed;
      active_transfers = (s.adc.active_transfers + 2 ^ 32 - 1) % 2 ^ 32;
    };
  })

  -- The client gets the data, and the transfer is submitted again.
  unfoldable pub deliver : Completion → Stream → Stream
  unfolding transfer_failed derandomize
  deliver c s =
      let bytes = if s.adc.random == 0 then c.buffer else derandomize c.buffer in
      let t = record_event (delivered bytes) s in
      elim (host.submit t.log c.index) [
        | accepted ↦ record_event (submitted c.index accepted) t
        | not_found ↦ transfer_failed c (record_event (submitted c.index not_found) t)
        | refused ↦ transfer_failed c (record_event (submitted c.index refused) t)
      ]

  unfoldable pub read_async_callback : Completion → Stream → Stream
  unfolding deliver transfer_failed
  read_async_callback c s =
      let t = record_event (ended c) s in
      elim c.status [
        | transfer_completed ↦
            if is_streaming s.adc.status then deliver c t else transfer_failed c t
        | transfer_cancelled ↦ t
        | transfer_error ↦ transfer_failed c t
        | transfer_timed_out ↦ transfer_failed c t
        | transfer_stall ↦ transfer_failed c t
        | transfer_no_device ↦ transfer_failed c t
        | transfer_overflow ↦ transfer_failed c t
      ]

  -- The callbacks of one call of libusb's event handler.
  unfoldable pub call_back : List Completion → Stream → Stream
  unfolding read_async_callback
  call_back [] s = s
  call_back (c ∷ cs) s = call_back cs (read_async_callback c s)

  -- `usb_device_handle_events`.
  unfoldable pub handle_events : Cmd Stream (Unit {0})
  unfolding call_back
  handle_events s =
      let t = call_back (host.pending s.log) s in
      if host.handling_fails s.log then err t else ok tt t

  -- The events are handled in the default context.
  unfoldable pub stop : Cmd Stream (Unit {0})
  unfolding cancel_transfers call_back
  stop s =
      if not s.adc.has_callback
      then ok tt (if is_streaming s.adc.status then set_status status_ready s else s)
      else let t = cancel_transfers s.adc.num_frames 0 (set_status status_cancelled s) in
        let u = call_back (host.default_pending t.log) t in
        ok tt (if host.default_handling_fails t.log then set_status status_failed u else u)

  -- A synchronous read of at most `length` bytes; the result is what was transferred.
  unfoldable pub read_sync : ℕ → Cmd Stream (List ℕ)
  unfolding derandomize
  read_sync length s =
      let bytes = host.bulk_bytes s.log length in
      if host.bulk_fails s.log length
      then err s
      else ok (if s.adc.random == 0 then bytes else derandomize bytes) s
