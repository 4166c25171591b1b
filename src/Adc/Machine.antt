-- ===== src/Adc/Machine.antt =====
-- The status of an ADC as an abstract machine, for src/adc.c.
use rf.Prelude.{ℕ, ◌≡◌, refl, sym, subst}
use rf.Prelude.{Bool, true, false, List, [], ◌∷◌}
use rf.Adc.Frames.{Status}
use rf.Adc.Frames.Status.{
  status_ready, status_streaming, status_cancelled, status_failed, status_off,
}
use rf.Adc.Stream.{is_ready, is_streaming}
use rf.Adc.Accounting.{
  Action, do_start, do_stop, do_reset_status, do_handle_events, do_set_random, do_set_sample_rate,
  is_stopped,
}

-- The machine: what an action may make of the status, with a callback and without one.
pub data Move : Bool → Action → Status → Status → Type 0 where
  starts : (callback : Bool) → Move callback do_start status_ready status_streaming
  start_fails : Move true do_start status_ready status_failed
  start_refused : (callback : Bool) (x : Status) → is_ready x ≡ false → Move callback do_start x x
  stops : (x : Status) → Move true do_stop x status_cancelled
  stop_fails : (x : Status) → Move true do_stop x status_failed
  sync_stops : Move false do_stop status_streaming status_ready
  stop_ignored : (x : Status) → is_streaming x ≡ false → Move false do_stop x x
  resets :
      (callback : Bool) (x : Status)
      → is_stopped x ≡ true
      → Move callback do_reset_status x status_ready
  reset_ignored : (callback : Bool) (x : Status) → Move callback do_reset_status x x
  handles : (callback : Bool) (x : Status) → Move callback do_handle_events x x
  breaks : (callback : Bool) (x : Status) → Move callback do_handle_events x status_failed
  sets_random : (callback : Bool) (x : Status) (n : ℕ) → Move callback (do_set_random n) x x
  sets_rate : (callback : Bool) (x : Status) (n : ℕ) → Move callback (do_set_sample_rate n) x x

pub data Moves (callback : Bool) : List Action → Status → Status → Type 0 where
  done : (x : Status) → Moves callback [] x x
  moves :
      (a : Action) (actions : List Action) (x y z : Status)
      → Move callback a x y
      → Moves callback actions y z
      → Moves callback (a ∷ actions) x z

pub is_streaming_sound : (x : Status) → is_streaming x ≡ true → x ≡ status_streaming
is_streaming_sound status_off h = cc
is_streaming_sound status_ready h = cc
is_streaming_sound status_streaming h = refl
is_streaming_sound status_cancelled h = cc
is_streaming_sound status_failed h = cc

pub is_ready_sound : (x : Status) → is_ready x ≡ true → x ≡ status_ready
is_ready_sound status_off h = cc
is_ready_sound status_ready h = refl
is_ready_sound status_streaming h = cc
is_ready_sound status_cancelled h = cc
is_ready_sound status_failed h = cc

module _ {callback : Bool} {x : Status} where
  pub ready_starts : x ≡ status_ready → Move callback do_start x status_streaming
  ready_starts e =
      subst (λ (y : Status). Move callback do_start y status_streaming) (sym e) (starts callback)

  pub ready_fails : callback ≡ true → x ≡ status_ready → Move callback do_start x status_failed
  ready_fails b e =
      subst (λ (y : Status). Move callback do_start y status_failed) (sym e)
        (subst (λ (c : Bool). Move c do_start status_ready status_failed) (sym b) start_fails)

  pub async_stops : callback ≡ true → Move callback do_stop x status_cancelled
  async_stops b = subst (λ (c : Bool). Move c do_stop x status_cancelled) (sym b) (stops x)

  pub async_stop_fails : callback ≡ true → Move callback do_stop x status_failed
  async_stop_fails b = subst (λ (c : Bool). Move c do_stop x status_failed) (sym b) (stop_fails x)

  pub streaming_stops :
      callback ≡ false → x ≡ status_streaming → Move callback do_stop x status_ready
  streaming_stops b e =
      subst (λ (y : Status). Move callback do_stop y status_ready) (sym e)
        (subst (λ (c : Bool). Move c do_stop status_streaming status_ready) (sym b) sync_stops)

  pub nothing_stops : callback ≡ false → is_streaming x ≡ false → Move callback do_stop x x
  nothing_stops b n = subst (λ (c : Bool). Move c do_stop x x) (sym b) (stop_ignored x n)

-- Neither ready nor streaming.
abbrev pub is_down : Status → Bool
is_down status_ready = false
is_down status_streaming = false
is_down _ = true

abbrev pub is_reset : Action → Bool
is_reset do_reset_status = true
is_reset _ = false

abbrev pub HasNoReset : List Action → Type 0
HasNoReset [] = Unit
HasNoReset (a ∷ actions) = (is_reset a ≡ false) × HasNoReset actions

pub move-down :
    {a : Action} {x y : Status}
    → Move true a x y
    → is_reset a ≡ false
    → is_down x ≡ true
    → is_down y ≡ true
move-down (starts callback) n d = cc
move-down start_fails n d = refl
move-down (start_refused callback x r) n d = d
move-down (stops x) n d = refl
move-down (stop_fails x) n d = refl
move-down (resets callback x r) n d = cc
move-down (reset_ignored callback x) n d = d
move-down (handles callback x) n d = d
move-down (breaks callback x) n d = refl
move-down (sets_random callback x k) n d = d
move-down (sets_rate callback x k) n d = d

pub Moves-down :
    {actions : List Action} {x y : Status}
    → Moves true actions x y
    → HasNoReset actions
    → is_down x ≡ true
    → is_down y ≡ true
Moves-down (done x) n d = d
Moves-down (moves a actions x y z m ms) (n, ns) d = Moves-down ms ns (move-down m n d)
