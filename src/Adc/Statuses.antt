-- ===== src/Adc/Statuses.antt =====
-- src/adc.c: the functions of the ADC refine the machine of its status.
use rf.Prelude.{ℕ, zero, suc, ◌+◌, ◌%◌, ◌^◌, ◌≡◌, refl, inl, inr, sym, subst, ap}
use rf.Prelude.{Bool, true, false, not, if◌then◌else◌, List, [], ◌∷◌}
use rf.Prelude.{Outcome, ok, err, aborted, Ends, modify, Ends-bind, Ends-mono, Ends-if, Ends-split}
use rf.Adc.Frames.{Status}
use rf.Adc.Frames.Status.{
  status_ready, status_streaming, status_cancelled, status_failed, status_off,
}
use rf.Adc.Stream.{
  Stream, Host, Result, set_status, record_event, is_ready, some_active, is_streaming, reset_status,
  submit_transfers,
}
use rf.Adc.Stream.{start, stop, cancel_transfers, handle_events}
use rf.Adc.Stream.Event.{submitted}
use rf.Adc.Stream.Result.{accepted, not_found, refused}
use rf.Adc.Accounting.{
  Action, do_start, do_stop, do_reset_status, do_handle_events, do_set_random, do_set_sample_rate,
  act, state_after, act_all, is_stopped,
}
use rf.Adc.Machine.{
  Move, Moves, start_refused, resets, reset_ignored, handles, breaks, sets_random, sets_rate, done,
  moves, is_streaming_sound, is_ready_sound, ready_starts, ready_fails, async_stops,
  async_stop_fails, streaming_stops, nothing_stops, is_down, HasNoReset, Moves-down,
}
use rf.Adc.Callbacks.{Kept, Stands, cancel_transfers-Kept, call_back-Kept}

-- Where an action may lead.
record Moved (callback : Bool) (a : Action) (x : Status) (t : Stream) : Type 0 where
  same : t.adc.has_callback ≡ callback
  move : Move callback a x t.adc.status

-- What is left is given by a status.
lands :
    {callback : Bool} {a : Action} {x y : Status} {t : Stream}
    → Stands callback y t
    → Move callback a x y
    → Moved callback a x t
lands {callback} {a} {x} k m = record {
  same = k.same;
  move = subst (λ (y : Status). Move callback a x y) (sym k.status) m;
}

lands_or_fails :
    {callback : Bool} {a : Action} {x y : Status} {t : Stream}
    → Kept callback y t
    → Move callback a x y
    → Move callback a x status_failed
    → Moved callback a x t
lands_or_fails {callback} {a} {x} k m f = elim k.status [
  | inl e ↦ lands (record { same = k.same; status = e }) m
  | inr e ↦ lands (record { same = k.same; status = e }) f
]

-- How an action ends.
abbrev MovesOn : Action → Stream → Outcome Stream (Unit {0}) → Type 0
MovesOn a s o =
    Ends (λ _. Moved s.adc.has_callback a s.adc.status) (Moved s.adc.has_callback a s.adc.status) o

module _ (host : Host) where
  handle_events-MovesOn : (s : Stream) → MovesOn do_handle_events s (handle_events host s)
  unfolding handle_events
  handle_events-MovesOn s =
      let k =
        call_back-Kept host (host.pending s.log) s (record { same = refl; status = inl refl }) in
      let m = lands_or_fails k (handles _ _) (breaks _ _) in
      Ends-if _ _ (host.handling_fails s.log) _ _ m m

reset_status-MovesOn : (s : Stream) → MovesOn do_reset_status s (reset_status s)
unfolding reset_status
reset_status-MovesOn s = by_status s.adc.status refl
  where
    ignored : Moved s.adc.has_callback do_reset_status s.adc.status s
    ignored = record { same = refl; move = reset_ignored _ _ }

    stopped :
        is_stopped s.adc.status ≡ true
        → MovesOn do_reset_status s (
            if some_active s.adc.active_transfers then err s else ok tt (set_status status_ready s))
    stopped h =
        Ends-if _ _ (some_active s.adc.active_transfers) _ _ ignored
          (record { same = refl; move = resets _ _ h })

    by_status :
        (x : Status)
        → s.adc.status ≡ x
        → MovesOn do_reset_status s (elim x [
          | status_ready ↦ ok tt s
          | status_cancelled ↦
              if some_active s.adc.active_transfers
              then err s
              else ok tt (set_status status_ready s)
          | status_failed ↦
              if some_active s.adc.active_transfers
              then err s
              else ok tt (set_status status_ready s)
          | status_off ↦ err s
          | status_streaming ↦ err s
        ])
    by_status status_off e = ignored
    by_status status_ready e = ignored
    by_status status_streaming e = ignored
    by_status status_cancelled e = stopped (ap is_stopped e)
    by_status status_failed e = stopped (ap is_stopped e)

denied : (b : Bool) → not b ≡ true → b ≡ false
denied true h = sym h
denied false h = refl

granted : (b : Bool) → not b ≡ false → b ≡ true
granted true h = refl
granted false h = sym h

-- Either branch leads on, given the test.
if-Moved :
    {callback : Bool} {a : Action} {x : Status} (b : Bool) (s t : Stream)
    → (b ≡ true → Moved callback a x s)
    → (b ≡ false → Moved callback a x t)
    → Moved callback a x (if b then s else t)
if-Moved true s t k l = k refl
if-Moved false s t k l = l refl

module _ (host : Host) where
  stop-MovesOn : (s : Stream) → MovesOn do_stop s (stop host s)
  unfolding stop
  stop-MovesOn s =
      Ends-split _ _ (not s.adc.has_callback) _ _
        (λ h.
          let b = denied s.adc.has_callback h in
          if-Moved (is_streaming s.adc.status) _ _
            (λ e. record {
              same = refl;
              move = streaming_stops b (is_streaming_sound s.adc.status e);
            })
            (λ n. record { same = refl; move = nothing_stops b n }))
        (λ h.
          let b = granted s.adc.has_callback h in
          let t = cancel_transfers host s.adc.num_frames 0 (set_status status_cancelled s) in
          let k : Kept s.adc.has_callback status_cancelled t =
            cancel_transfers-Kept host s.adc.num_frames 0 (set_status status_cancelled s)
              (record { same = refl; status = inl refl }) in
          let l = call_back-Kept host (host.default_pending t.log) t k in
          if-Moved (host.default_handling_fails t.log) _ _
            (λ e. record { same = l.same; move = async_stop_fails b })
            (λ e. lands_or_fails l (async_stops b) (async_stop_fails b)))

  submit_transfers-Ends :
      (n i : ℕ) (s : Stream)
      → Ends
          (λ _ t. Stands s.adc.has_callback s.adc.status t)
          (Stands s.adc.has_callback status_failed)
          (submit_transfers host n i s)
  unfolding submit_transfers
  submit_transfers-Ends zero i s = record { same = refl; status = refl }
  submit_transfers-Ends (suc n) i s =
      by_result (submit_transfers-Ends n (i + 1) taken_on) (host.submit s.log i)
    where
      taken_on : Stream
      taken_on = record {
        adc = record s.adc { active_transfers = (s.adc.active_transfers + 1) % 2 ^ 32 };
        log = submitted i accepted ∷ s.log;
      }

      by_result :
          Ends
            (λ _ t. Stands s.adc.has_callback s.adc.status t)
            (Stands s.adc.has_callback status_failed)
            (submit_transfers host n (i + 1) taken_on)
          → (r : Result)
          → Ends
              (λ _ t. Stands s.adc.has_callback s.adc.status t)
              (Stands s.adc.has_callback status_failed)
              (elim r [
                | accepted ↦ submit_transfers host n (i + 1) taken_on
                | not_found ↦
                    err (set_status status_failed (record_event (submitted i not_found) s))
                | refused ↦ err (set_status status_failed (record_event (submitted i refused) s))
              ])
      by_result rest accepted = rest
      by_result rest not_found = record { same = refl; status = refl }
      by_result rest refused = record { same = refl; status = refl }

  start-MovesOn : (s : Stream) → MovesOn do_start s (start host s)
  unfolding start modify
  start-MovesOn s =
      Ends-split _ _ (not (is_ready s.adc.status)) _ _
        (λ h. record { same = refl; move = start_refused _ _ (denied _ h) })
        (λ h.
          let e = is_ready_sound s.adc.status (granted _ h) in
          Ends-split _ _ (not s.adc.has_callback) _ _
            (λ h. record { same = refl; move = ready_starts e })
            (λ h.
              Ends-bind (λ _. Stands s.adc.has_callback s.adc.status)
                (λ _. Moved s.adc.has_callback do_start s.adc.status)
                (Moved s.adc.has_callback do_start s.adc.status)
                (submit_transfers host s.adc.num_frames 0) _ _
                (Ends-mono (λ _. Stands s.adc.has_callback s.adc.status)
                  (λ _. Stands s.adc.has_callback s.adc.status)
                  (Stands s.adc.has_callback status_failed)
                  (Moved s.adc.has_callback do_start s.adc.status) _ (λ _ t k. k)
                  (λ t k. lands k (ready_fails (granted _ h) e))
                  (submit_transfers-Ends s.adc.num_frames 0 _))
                (λ _ t k. record { same = k.same; move = ready_starts e })))

  act-MovesOn : (a : Action) (s : Stream) → MovesOn a s (act host a s)
  unfolding act modify
  act-MovesOn do_start s = start-MovesOn s
  act-MovesOn do_stop s = stop-MovesOn s
  act-MovesOn do_reset_status s = reset_status-MovesOn s
  act-MovesOn do_handle_events s = handle_events-MovesOn host s
  act-MovesOn (do_set_random x) s = record { same = refl; move = sets_random _ _ x }
  act-MovesOn (do_set_sample_rate x) s = record { same = refl; move = sets_rate _ _ x }

  state_after-Moved :
      (a : Action) (s : Stream) (o : Outcome Stream (Unit {0}))
      → MovesOn a s o
      → Moved s.adc.has_callback a s.adc.status (state_after host s o)
  state_after-Moved a s (ok u t) m = m
  state_after-Moved a s (err t) m = m
  state_after-Moved a s aborted m = absurd m

  -- The functions refine the machine: whatever is done with an ADC, and whatever libusb answers,
  -- the machine can take the status that it began with through the same actions to the status that
  -- it has then.
  pub act_all-Moves :
      (actions : List Action) (s : Stream)
      → Moves s.adc.has_callback actions s.adc.status (act_all host actions s).adc.status
  unfolding act_all
  act_all-Moves [] s = done _
  act_all-Moves (a ∷ actions) s =
      let t = state_after host s (act host a s) in
      let m = state_after-Moved a s _ (act-MovesOn a s) in
      moves a actions _ t.adc.status _ m.move (
        subst (λ (c : Bool). Moves c actions t.adc.status (act_all host actions t).adc.status)
          m.same (act_all-Moves actions t))

-- An ADC with a callback that is off, cancelled or failed remains one of these three, so that it
-- does not stream, through all actions but `adc_reset_status`, whatever libusb answers.
pub act_all-down :
    (host : Host) (actions : List Action) (s : Stream)
    → s.adc.has_callback ≡ true
    → HasNoReset actions
    → is_down s.adc.status ≡ true
    → is_down (act_all host actions s).adc.status ≡ true
act_all-down host actions s b n d =
    Moves-down
      (subst (λ (c : Bool). Moves c actions s.adc.status (act_all host actions s).adc.status) b
        (act_all-Moves host actions s))
      n d
