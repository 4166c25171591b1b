-- ===== src/Adc/Accounting.antt =====
-- src/adc.c: `active_transfers` against the transfers that were submitted and that ended.
use rf.Prelude.{ℕ, zero, suc, ◌+◌, ◌%◌, ◌^◌, ◌<◌, ◌≡◌, refl, arith, inl, inr, ap, ◌∙◌}
use rf.Prelude.{Bool, true, false, not, ◌&&◌, ◌==◌, if◌then◌else◌, Bool-cases, List, [], ◌∷◌}
use rf.Prelude.{Cmd, Outcome, ok, err, aborted, Ends, Keeps, keeps, modify, Ends-bind, Ends-if}
use rf.Adc.Frames.{Status}
use rf.Adc.Frames.Status.{
  status_ready, status_streaming, status_cancelled, status_failed, status_off,
}
use rf.Adc.Samples.{derandomize}
use rf.Adc.Stream.{
  Stream, Host, Event, Completion, TransferStatus, Result, set_status, record_event, is_ready,
}
use rf.Adc.Stream.{
  is_streaming, some_active, set_random, set_sample_rate, reset_status, submit_transfers,
}
use rf.Adc.Stream.{
  start, stop, cancel_transfers, cancel_again, transfer_failed, deliver, read_async_callback,
}
use rf.Adc.Stream.{call_back, handle_events}
use rf.Adc.Stream.Event.{zeroed, submitted, cancelled, ended, delivered}
use rf.Adc.Stream.Result.{accepted, not_found, refused}
use rf.Adc.Stream.TransferStatus.{transfer_completed, transfer_error, transfer_timed_out}
use rf.Adc.Stream.TransferStatus.{
  transfer_cancelled, transfer_stall, transfer_no_device, transfer_overflow,
}

-- The transfers that libusb took since the counter was last set to zero.
unfoldable pub taken : List Event → ℕ
taken [] = 0
taken (zeroed ∷ log) = 0
taken (submitted i accepted ∷ log) = taken log + 1
taken (submitted i not_found ∷ log) = taken log
taken (submitted i refused ∷ log) = taken log
taken (cancelled i r ∷ log) = taken log
taken (ended c ∷ log) = taken log
taken (delivered bytes ∷ log) = taken log

abbrev is_cancelled : TransferStatus → Bool
is_cancelled transfer_cancelled = true
is_cancelled _ = false

-- The transfers that ended since then, cancelled or not.
unfoldable pub ended_as : Bool → List Event → ℕ
ended_as b [] = 0
ended_as b (zeroed ∷ log) = 0
ended_as b (submitted i r ∷ log) = ended_as b log
ended_as b (cancelled i r ∷ log) = ended_as b log
ended_as true (ended c ∷ log) = (if is_cancelled c.status then 1 else 0) + ended_as true log
ended_as false (ended c ∷ log) = (if is_cancelled c.status then 0 else 1) + ended_as false log
ended_as b (delivered bytes ∷ log) = ended_as b log

-- The counter is the number of transfers taken less those that ended without being cancelled.
pub record Counted (s : Stream) : Type 0 where
  pub word : s.adc.active_transfers < 2 ^ 32
  pub count : (s.adc.active_transfers + ended_as false s.log) % 2 ^ 32 ≡ taken s.log % 2 ^ 32

-- The counter is one too high: a transfer ended, or could not be submitted again.
record Ahead (s : Stream) : Type 0 where
  word : s.adc.active_transfers < 2 ^ 32
  count : (s.adc.active_transfers + ended_as false s.log) % 2 ^ 32 ≡ (taken s.log + 1) % 2 ^ 32

set_status-Counted : (x : Status) (s : Stream) → Counted s → Counted (set_status x s)
set_status-Counted x s c = record { word = c.word; count = c.count }

module _ (host : Host) where
  cancel_transfers-Counted :
      (n i : ℕ) (s : Stream) → Counted s → Counted (cancel_transfers host n i s)
  unfolding cancel_transfers taken ended_as
  cancel_transfers-Counted zero i s c = c
  cancel_transfers-Counted (suc n) i s c =
      cancel_transfers-Counted n (i + 1) _ (after (host.cancel s.log i))
    where
      after :
          (r : Result)
          → Counted (elim r [
            | accepted ↦ record_event (cancelled i (host.cancel s.log i)) s
            | not_found ↦ record_event (cancelled i (host.cancel s.log i)) s
            | refused ↦
                set_status status_failed (record_event (cancelled i (host.cancel s.log i)) s)
          ])
      after accepted = record { word = c.word; count = c.count }
      after not_found = record { word = c.word; count = c.count }
      after refused = record { word = c.word; count = c.count }

  cancel_again-Counted : (n i : ℕ) (s : Stream) → Counted s → Counted (cancel_again host n i s)
  unfolding cancel_again taken ended_as
  cancel_again-Counted zero i s c = c
  cancel_again-Counted (suc n) i s c =
      cancel_again-Counted n i _ (record { word = c.word; count = c.count })

  transfer_failed-Counted :
      (e : Completion) (s : Stream) → Ahead s → Counted (transfer_failed host e s)
  unfolding transfer_failed
  transfer_failed-Counted e s a =
      cancel_again-Counted s.adc.num_frames e.index _
        (record { word = omega arith; count = omega (arith, a.word, a.count) })

  deliver-Counted : (e : Completion) (s : Stream) → Ahead s → Counted (deliver host e s)
  unfolding deliver taken ended_as
  deliver-Counted e s a = after (host.submit given.log e.index)
    where
      given : Stream
      given =
          record_event (delivered (if s.adc.random == 0 then e.buffer else derandomize e.buffer)) s

      still_ahead :
          (r : Result)
          → taken (submitted e.index r ∷ given.log) ≡ taken s.log
          → Ahead (record_event (submitted e.index r) given)
      still_ahead r same = record { word = a.word; count = omega (arith, a.count, same) }

      after :
          (r : Result)
          → Counted (elim r [
            | accepted ↦ record_event (submitted e.index accepted) given
            | not_found ↦ transfer_failed host e (record_event (submitted e.index not_found) given)
            | refused ↦ transfer_failed host e (record_event (submitted e.index refused) given)
          ])
      after accepted = record { word = a.word; count = a.count }
      after not_found = transfer_failed-Counted e _ (still_ahead not_found refl)
      after refused = transfer_failed-Counted e _ (still_ahead refused refl)

  read_async_callback-Counted :
      (e : Completion) (s : Stream) → Counted s → Counted (read_async_callback host e s)
  unfolding read_async_callback taken ended_as
  read_async_callback-Counted e s c = by_status e.status refl
    where
      now : Stream
      now = record_event (ended e) s

      ahead : is_cancelled e.status ≡ false → Ahead now
      ahead counts = record { word = c.word; count = rw counts (omega (arith, c.count)) }

      failed :
          (x : TransferStatus)
          → e.status ≡ x
          → is_cancelled x ≡ false
          → Counted (transfer_failed host e now)
      failed x same counts = transfer_failed-Counted e now (ahead (ap is_cancelled same ∙ counts))

      by_status :
          (x : TransferStatus)
          → e.status ≡ x
          → Counted (elim x [
            | transfer_completed ↦
                if is_streaming s.adc.status then deliver host e now else transfer_failed host e now
            | transfer_cancelled ↦ now
            | transfer_error ↦ transfer_failed host e now
            | transfer_timed_out ↦ transfer_failed host e now
            | transfer_stall ↦ transfer_failed host e now
            | transfer_no_device ↦ transfer_failed host e now
            | transfer_overflow ↦ transfer_failed host e now
          ])
      by_status transfer_completed same = elim (Bool-cases (is_streaming s.adc.status)) [
        | inl streaming ↦ rw streaming (deliver-Counted e now (ahead (ap is_cancelled same)))
        | inr idle ↦ rw idle (failed transfer_completed same refl)
      ]
      by_status transfer_cancelled same = record {
        word = c.word;
        count = rw (ap is_cancelled same) (omega (arith, c.count));
      }
      by_status transfer_error same = failed transfer_error same refl
      by_status transfer_timed_out same = failed transfer_timed_out same refl
      by_status transfer_stall same = failed transfer_stall same refl
      by_status transfer_no_device same = failed transfer_no_device same refl
      by_status transfer_overflow same = failed transfer_overflow same refl

  call_back-Counted :
      (es : List Completion) (s : Stream) → Counted s → Counted (call_back host es s)
  unfolding call_back
  call_back-Counted [] s c = c
  call_back-Counted (e ∷ es) s c =
      call_back-Counted es (read_async_callback host e s) (read_async_callback-Counted e s c)

  if-Counted : (b : Bool) (s t : Stream) → Counted s → Counted t → Counted (if b then s else t)
  if-Counted true s t c d = c
  if-Counted false s t c d = d

  pub handle_events-Counted : Keeps Counted (handle_events host)
  unfolding handle_events
  handle_events-Counted = keeps λ s c.
      let d = call_back-Counted (host.pending s.log) s c in
      Ends-if (λ _. Counted) Counted (host.handling_fails s.log) _ _ d d

  stopped-Counted :
      (s : Stream)
      → Counted s
      → Ends
          (λ _. Counted)
          Counted
          (ok tt (
            if host.default_handling_fails s.log
            then set_status status_failed (call_back host (host.default_pending s.log) s)
            else call_back host (host.default_pending s.log) s))
  stopped-Counted s c =
      let d = call_back-Counted (host.default_pending s.log) s c in
      if-Counted (host.default_handling_fails s.log) _ _ (set_status-Counted status_failed _ d) d

  pub stop-Counted : Keeps Counted (stop host)
  unfolding stop
  stop-Counted = keeps λ s c.
      Ends-if (λ _. Counted) Counted (not s.adc.has_callback) _ _
        (if-Counted (is_streaming s.adc.status) _ _ (set_status-Counted status_ready s c) c)
        (stopped-Counted _
          (cancel_transfers-Counted s.adc.num_frames 0 _ (set_status-Counted status_cancelled s c)))

  submitted-Counted :
      (n i : ℕ) (s : Stream)
      → Keeps Counted (submit_transfers host n (i + 1))
      → Counted s
      → (r : Result)
      → Ends
          (λ _. Counted)
          Counted
          (elim r [
            | accepted ↦ submit_transfers host n (i + 1) (record {
              adc = record s.adc { active_transfers = (s.adc.active_transfers + 1) % 2 ^ 32 };
              log = submitted i accepted ∷ s.log;
            })
            | not_found ↦ err (set_status status_failed (record_event (submitted i not_found) s))
            | refused ↦ err (set_status status_failed (record_event (submitted i refused) s))
          ])
  unfolding taken ended_as
  submitted-Counted n i s rest c accepted =
      rest.triple.at _ (record { word = omega arith; count = omega (arith, c.count, c.word) })
  submitted-Counted n i s rest c not_found = record { word = c.word; count = c.count }
  submitted-Counted n i s rest c refused = record { word = c.word; count = c.count }

  submit_transfers-Counted : (n i : ℕ) → Keeps Counted (submit_transfers host n i)
  unfolding submit_transfers
  submit_transfers-Counted zero i = keeps λ s c. c
  submit_transfers-Counted (suc n) i =
      let rest = submit_transfers-Counted n (i + 1) in
      keeps λ s c. submitted-Counted n i s rest c (host.submit s.log i)

  pub start-Counted : Keeps Counted (start host)
  unfolding start modify taken ended_as
  start-Counted = keeps λ s c.
      Ends-if (λ _. Counted) Counted (not (is_ready s.adc.status)) _ _ c
        (Ends-if (λ _. Counted) Counted (not s.adc.has_callback) _ _
          (set_status-Counted status_streaming s c)
          (Ends-bind (λ _. Counted) (λ _. Counted) Counted
            (submit_transfers host s.adc.num_frames 0) _ _
            ((submit_transfers-Counted s.adc.num_frames 0).triple.at _
              (record { word = omega arith; count = refl }))
            λ _ t d. set_status-Counted status_streaming t d))

reset_status-Counted : Keeps Counted reset_status
unfolding reset_status
reset_status-Counted = keeps λ s c. by_status s c s.adc.status
  where
    stopped :
        (s : Stream)
        → Counted s
        → Ends
            (λ _. Counted)
            Counted
            (if some_active s.adc.active_transfers
              then err s
              else ok tt (set_status status_ready s))
    stopped s c =
        Ends-if (λ _. Counted) Counted (some_active s.adc.active_transfers) _ _ c
          (set_status-Counted status_ready s c)

    by_status :
        (s : Stream)
        → Counted s
        → (x : Status)
        → Ends
            (λ _. Counted)
            Counted
            (elim x [
              | status_ready ↦ ok tt s
              | status_cancelled ↦
                  if some_active s.adc.active_transfers
                  then err s
                  else ok tt (set_status status_ready s)
              | status_failed ↦
                  if some_active s.adc.active_transfers
                  then err s
                  else ok tt (set_status status_ready s)
              | status_off ↦ err s
              | status_streaming ↦ err s
            ])
    by_status s c status_off = c
    by_status s c status_ready = c
    by_status s c status_streaming = c
    by_status s c status_cancelled = stopped s c
    by_status s c status_failed = stopped s c

-- What is done with an ADC that is open.
pub data Action : Type 0 where
  do_start do_stop do_reset_status do_handle_events : Action
  do_set_random do_set_sample_rate : ℕ → Action

module _ (host : Host) where
  unfoldable pub act : Action → Cmd Stream (Unit {0})
  act do_start = start host
  act do_stop = stop host
  act do_reset_status = reset_status
  act do_handle_events = handle_events host
  act (do_set_random x) = modify (set_random x)
  act (do_set_sample_rate x) = modify (set_sample_rate x)

  -- The client goes on after an error.
  abbrev pub state_after : Stream → Outcome Stream (Unit {0}) → Stream
  state_after s (ok a t) = t
  state_after s (err t) = t
  state_after s aborted = s

  unfoldable pub act_all : List Action → Stream → Stream
  unfolding act
  act_all [] s = s
  act_all (a ∷ actions) s = act_all actions (state_after s (act a s))

  act-Counted : (a : Action) → Keeps Counted (act a)
  unfolding act modify
  act-Counted do_start = start-Counted host
  act-Counted do_stop = stop-Counted host
  act-Counted do_reset_status = reset_status-Counted
  act-Counted do_handle_events = handle_events-Counted host
  act-Counted (do_set_random x) = keeps λ s c. record { word = c.word; count = c.count }
  act-Counted (do_set_sample_rate x) = keeps λ s c. record { word = c.word; count = c.count }

  state_after-Counted :
      (s : Stream) (o : Outcome Stream (Unit {0}))
      → Ends (λ _. Counted) Counted o
      → Counted (state_after s o)
  state_after-Counted s (ok a t) c = c
  state_after-Counted s (err t) c = c
  state_after-Counted s aborted c = absurd c

  -- Whatever is done with an ADC, and whatever libusb answers, `active_transfers` stays, as a
  -- number of 32 bits, the number of transfers that libusb took since the last `adc_start` less
  -- those that ended since then with another status than cancelled.
  pub act_all-Counted :
      (actions : List Action) (s : Stream) → Counted s → Counted (act_all actions s)
  unfolding act_all
  act_all-Counted [] s c = c
  act_all-Counted (a ∷ actions) s c =
      act_all-Counted actions _ (state_after-Counted s _ ((act-Counted a).triple.at s c))

abbrev pub is_stopped : Status → Bool
is_stopped status_cancelled = true
is_stopped status_failed = true
is_stopped _ = false

-- When every transfer taken has ended, `adc_reset_status` of an ADC that was stopped or failed
-- succeeds, and makes it ready, only if none of the transfers ended as cancelled; if one did it
-- fails, and so it does on any other status but ready.
pub reset_status_lem :
    (s : Stream)
    → Counted s
    → taken s.log ≡ ended_as false s.log + ended_as true s.log
    → ended_as true s.log < 2 ^ 31
    → reset_status s ≡ (
        if is_ready s.adc.status
        then ok tt s
        else if is_stopped s.adc.status && ended_as true s.log == 0
        then ok tt (set_status status_ready s)
        else err s)
unfolding reset_status
reset_status_lem s c all_ended few = by_status s.adc.status
  where
    active : s.adc.active_transfers ≡ ended_as true s.log
    active = omega (arith, c.count, c.word)

    stopped :
        (if some_active s.adc.active_transfers then err s else ok tt (set_status status_ready s))
        ≡ (if ended_as true s.log == 0 then ok tt (set_status status_ready s) else err s)
    stopped = elim (Bool-cases (ended_as true s.log == 0)) [
      | inl none_left ↦
          let idle : some_active s.adc.active_transfers ≡ false = ground (arith, active) in
          rw (none_left, idle)
      | inr some_left ↦
          let busy : some_active s.adc.active_transfers ≡ true = ground (arith, active) in
          rw (some_left, busy)
    ]

    by_status :
        (x : Status)
        → elim x as (λ y. Outcome Stream (Unit {0})) [
          | status_ready ↦ ok tt s
          | status_cancelled ↦
              if some_active s.adc.active_transfers
              then err s
              else ok tt (set_status status_ready s)
          | status_failed ↦
              if some_active s.adc.active_transfers
              then err s
              else ok tt (set_status status_ready s)
          | status_off ↦ err s
          | status_streaming ↦ err s
        ]
          ≡ (if is_ready x
              then ok tt s
              else if is_stopped x && ended_as true s.log == 0
              then ok tt (set_status status_ready s)
              else err s)
    by_status status_off = refl
    by_status status_ready = refl
    by_status status_streaming = refl
    by_status status_cancelled = stopped
    by_status status_failed = stopped
