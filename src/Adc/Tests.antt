-- ===== src/Adc/Tests.antt =====
-- Runs of the ADC's functions at concrete inputs.
use rf.Prelude.{ℕ, ◌≡◌, refl, arith, true, false, List, [], ◌∷◌, Option, some, Ends, err, length}
use rf.Adc.Frames.{Adc, BulkEndpoint, MemoryCall, open_async}
use rf.Adc.Frames.Status.{status_ready, status_cancelled}
use rf.Adc.Memory.{Opened, Refused, open_async_lem}
use rf.Adc.Samples.{derandomize, sample_digit, with_lowest, derandomize_lem, derandomize_twice}
use rf.Adc.Starting.{StartsWell, StartFails, start_lem}
use rf.Adc.Machine.{Moves, is_down}
use rf.Adc.Statuses.{act_all-Moves, act_all-down}
use rf.Adc.Stream.{start, Stream, Host, reset_status}
use rf.Adc.Stream.Event.{zeroed, submitted, ended}
use rf.Adc.Stream.Result.{accepted}
use rf.Adc.Stream.TransferStatus.{transfer_completed, transfer_cancelled}
use rf.Adc.Accounting.{Counted, Action, act_all, act_all-Counted, reset_status_lem, taken, ended_as}
use rf.Adc.Accounting.Action.{do_start, do_stop, do_reset_status, do_handle_events, do_set_random}

abbrev endpoint : BulkEndpoint
endpoint = record { address = 0x81; max_packet_size = 1024; max_burst = 16 }

-- Memory that never runs out.
abbrev plenty : List MemoryCall → ℕ → Option ℕ
plenty log size = some (length log)

open_async_example :
    Ends
      (Opened 16384 100_000 2 true [])
      (Refused plenty endpoint [])
      (open_async plenty endpoint 100_000 2 true [])
open_async_example = open_async_lem plenty endpoint 100_000 2 true [] (omega arith)

-- An ADC of two frames whose transfer 0 was taken and then ended as cancelled.
abbrev adc_with : ℕ → Adc
adc_with active = record {
  status = status_cancelled;
  random = 1;
  sample_rate = 64_000_000;
  frame_size = 16384;
  num_frames = 2;
  has_callback = true;
  frames = some (0 ∷ 1 ∷ []);
  active_transfers = active;
}

abbrev one_cancelled : Stream
one_cancelled = record {
  adc = adc_with 1;
  log =
      ended (record { index = 0; status = transfer_cancelled; buffer = [] })
      ∷ submitted 0 accepted
      ∷ zeroed
      ∷ [];
}

one_cancelled-Counted : Counted one_cancelled
unfolding taken ended_as
one_cancelled-Counted = record { word = omega arith; count = refl }

reset_status_example : reset_status one_cancelled ≡ err one_cancelled
unfolding taken ended_as
reset_status_example = reset_status_lem one_cancelled one_cancelled-Counted refl (omega arith)

-- libusb takes every call, and each run of the event handler ends transfer 1 with four bytes.
abbrev host : Host
host = record {
  submit = λ log i. accepted;
  cancel = λ log i. accepted;
  pending = λ log.
      record { index = 1; status = transfer_completed; buffer = 0x01 ∷ 0x02 ∷ 0x03 ∷ 0x04 ∷ [] }
      ∷ [];
  handling_fails = λ log. false;
  default_pending = λ log. [];
  default_handling_fails = λ log. false;
  bulk_fails = λ log n. false;
  bulk_bytes = λ log n. [];
}

abbrev idle : Stream
idle = record { adc = record (adc_with 0) { status = status_ready }; log = [] }

idle-Counted : Counted idle
unfolding taken ended_as
idle-Counted = record { word = omega arith; count = refl }

abbrev actions : List Action
actions = do_set_random 0 ∷ do_start ∷ do_handle_events ∷ do_stop ∷ do_reset_status ∷ []

act_all_example : Counted (act_all host actions idle)
act_all_example = act_all-Counted host actions idle idle-Counted

derandomize_example :
    sample_digit (derandomize (0x01 ∷ 0x02 ∷ 0x03 ∷ [])) 0 9
    ≡ with_lowest
        (sample_digit (0x01 ∷ 0x02 ∷ 0x03 ∷ []) 0 0)
        9
        (sample_digit (0x01 ∷ 0x02 ∷ 0x03 ∷ []) 0 9)
derandomize_example = derandomize_lem (0x01 ∷ 0x02 ∷ 0x03 ∷ []) 0 9 (omega arith)

derandomize_twice_example :
    derandomize (derandomize (0x01 ∷ 0x02 ∷ 0x03 ∷ [])) ≡ 0x01 ∷ 0x02 ∷ 0x03 ∷ []
derandomize_twice_example = derandomize_twice (0x01 ∷ 0x02 ∷ 0x03 ∷ [])

start_example : Ends (λ _. StartsWell host idle) (StartFails host idle) (start host idle)
start_example = start_lem host idle (omega arith)

act_all-Moves_example : Moves true actions status_ready (act_all host actions idle).adc.status
act_all-Moves_example = act_all-Moves host actions idle

abbrev no_reset : List Action
no_reset = do_start ∷ do_handle_events ∷ do_set_random 1 ∷ do_start ∷ []

act_all-down_example : is_down (act_all host no_reset one_cancelled).adc.status ≡ true
act_all-down_example =
    act_all-down host no_reset one_cancelled refl (refl, (refl, (refl, (refl, tt)))) refl
