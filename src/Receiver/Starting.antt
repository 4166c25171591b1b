-- ===== src/Receiver/Starting.antt =====
-- src/librf103.c: what `rf103_start_streaming` has done when it returns.
use rf.Prelude.{
  ℕ, zero, suc, ◌+◌, ◌≡◌, refl, ap, ◌∙◌, sym, arith, Bool, true, false, not, ◌&&◌, ◌==◌,
  if◌then◌else◌, Bool-cases, Option-cases, inl, inr,
}
use rf.Prelude.{
  Option, none, some, List, [], ◌∷◌, Cmd, Outcome, ok, err, aborted, pure, gets, modify, ◌>>=◌,
  ◌>>◌,
}
use rf.Prelude.{
  Ends, Ends-if, Ends-bind, Ends-mono, Keeps, keeps, Keeps-bind, Keeps-if, Keeps-fail, Keeps-gets,
  Keeps-pure, ◌▹◌,
}
use rf.Double.{Doubles}
use rf.Usb.{
  Log, Libusb, Transfer, Reply, write_request_type, control, startfx3, i2c_write, i2c_write_byte,
}
use rf.Gpio.Defs.{Board, send, gpio_set, gpio_sel0, gpio_sel1}
use rf.Prelude.{◌⊎◌, ◌%◌, ◌^◌, bit_and, bit_or, ◌||◌, ltb}
use rf.Bits.{not32}
use rf.Usb.{si5351_addr, gpiofx3}
use rf.Adc.Frames.Status.{status_failed}
use rf.Adc.Stream.{record_event}
use rf.Adc.Stream.Event.{submitted}
use rf.Clock.Defs.{
  choose_r_divider, feedback_ratio, msn_register, ms_register, divider_bytes, pll_parameters,
  output_parameters, register_clk_base, register_pll_reset, value_clk_on,
}
use rf.Clock.Defs.{
  ClockSource, send_bytes, send_byte, set_clock, start_clock, configure_clock_input_and_pll,
  configure_clock_output,
}
use rf.Tuner.Defs.{Tuner}
use rf.Adc.Frames.{Adc}
use rf.Adc.Frames.Status.{status_streaming}
use rf.Adc.Stream.{Stream, Host, start, submit_transfers, set_sample_rate, set_status, is_ready}
use rf.Adc.Stream.Result.{accepted, not_found, refused}
use rf.Receiver.Defs.{
  Receiver, World, focus, with_stream, with_clock, clock_of, on_clock, on_board, on_adc,
  is_vhf_mode_on, command,
}
use rf.Receiver.Defs.{
  start_tuner_clock, start_vhf, start_adc, start_streaming, adc_clock, tuner_clock,
}

-- How often the firmware was told to start.
unfoldable pub starts : Log → ℕ
starts [] = 0
starts (e ∷ log) = (if e.transfer.request == startfx3 then 1 else 0) + starts log

-- The newest transfer told it to, and failed or not.
abbrev pub newest_start : Bool → Log → Bool
newest_start failed [] = false
newest_start failed (e ∷ log) =
    e.transfer.request == startfx3 && (if failed then e.reply.failed else not e.reply.failed)

module _ {S R A : Type 0} (P : S → Type 0) (Q : R → Type 0) (get : R → S) (put : S → R → R) where
  focus-Keeps :
      (m : Cmd S A)
      → ((r : R) → Q r → P (get r))
      → ((s : S) (r : R) → Q r → P s → Q (put s r))
      → Keeps P m
      → Keeps Q (focus get put m)
  unfolding focus
  focus-Keeps m into back h = keeps λ r q. go r q (m (get r)) (h.triple.at (get r) (into r q))
    where
      go :
          (r : R)
          → Q r
          → (o : Outcome S A) → Ends (λ _. P) P o
          → Ends
              (λ _. Q)
              Q
              (elim o [ ok a s ↦ ok a (put s r) | err s ↦ err (put s r) | aborted ↦ aborted ])
      go r q (ok a s) p = back s r q p
      go r q (err s) p = back s r q p
      go r q aborted p = p

module _ (n : ℕ) where
  module _ (doubles : Doubles) (respond : Libusb) where
    abbrev Quiet : ClockSource doubles → Type 0
    Quiet s = starts s.log ≡ n

    send_bytes-Quiet :
        (register : ℕ) (bytes : List ℕ) → Keeps Quiet (send_bytes doubles respond register bytes)
    unfolding send_bytes i2c_write control starts
    send_bytes-Quiet register bytes = keeps λ s h.
        Ends-if (λ _. Quiet) Quiet (i2c_write respond si5351_addr register bytes s.log).failed _ _
          (omega (arith, h)) (omega (arith, h))

    send_byte-Quiet : (register value : ℕ) → Keeps Quiet (send_byte doubles respond register value)
    unfolding send_byte i2c_write_byte control starts
    send_byte-Quiet register value = keeps λ s h.
        Ends-if (λ _. Quiet) Quiet (i2c_write_byte respond si5351_addr register value s.log).failed
          _ _ (omega (arith, h)) (omega (arith, h))

    set_clock-Quiet :
        (index : ℕ) (f : doubles.Double) → Keeps Quiet (set_clock doubles respond index f)
    unfolding set_clock configure_clock_input_and_pll configure_clock_output
    set_clock-Quiet index f =
        let r = choose_r_divider doubles f in
        let output_ms =
          bit_and (doubles.to_u32 (doubles.div (doubles.of_int 900_000_000) r.r_frequency))
            (not32 1) in
        Keeps-if (not (index == 0 || index == 1)) _ _ Keeps-fail (
          Keeps-if (doubles.lt r.r_frequency (doubles.of_int 1_000_000)) _ _ Keeps-fail (
            Keeps-if (ltb output_ms 4 || ltb 2048 output_ms) _ _ Keeps-fail (
              Keeps-bind (gets (feedback_ratio doubles r.r_frequency output_ms)) _ (Keeps-gets _)
                λ ratio.
                  send_bytes-Quiet (msn_register index)
                    (divider_bytes 0 (pll_parameters ratio.a ratio.b ratio.c))
                  ▹ send_bytes-Quiet (ms_register index)
                      (divider_bytes r.rdiv (output_parameters output_ms)))))

    start_clock-Quiet : (index : ℕ) → Keeps Quiet (start_clock doubles respond index)
    unfolding start_clock
    start_clock-Quiet index =
        send_byte-Quiet register_pll_reset
          (if index == 0 then 0x20 else if index == 1 then 0x80 else 0)
        ▹ send_byte-Quiet ((register_clk_base + index) % 2 ^ 8)
            (bit_or value_clk_on (if index == 1 then 0x20 else 0))

  gpio_set-Quiet :
      (respond : Libusb) (p m : ℕ) → Keeps (λ (s : Board). starts s.log ≡ n) (gpio_set respond p m)
  unfolding gpio_set send control starts
  gpio_set-Quiet respond p m = keeps λ s h.
      let g : ℕ = bit_or (bit_and s.gpio_register (not32 m)) p % 2 ^ 8 in
      Ends-if (λ _ (t : Board). starts t.log ≡ n) (λ (t : Board). starts t.log ≡ n)
        (control respond gpiofx3 si5351_addr 0 (g ∷ []) s.log).failed _ _ (omega (arith, h))
        (omega (arith, h))

-- A start of the ADC that succeeds leaves it streaming.
module _ (host : Host) where
  Anyhow : Outcome Stream (Unit {0}) → Type 0
  Anyhow o = Ends (λ _ _. Unit {0}) (λ _. Unit {0}) o

  submits : (n i : ℕ) (s : Stream) → Anyhow (submit_transfers host n i s)
  unfolding submit_transfers Anyhow
  submits zero i s = tt
  submits (suc n) i s =
      let rest = submits n (i + 1) in
      elim (host.submit s.log i)
        as (λ r. Anyhow (elim r [
          | accepted ↦ submit_transfers host n (i + 1) (record {
            adc = record s.adc { active_transfers = (s.adc.active_transfers + 1) % 2 ^ 32 };
            log = submitted i accepted ∷ s.log;
          })
          | not_found ↦ err (set_status status_failed (record_event (submitted i not_found) s))
          | refused ↦ err (set_status status_failed (record_event (submitted i refused) s))
        ])) [ accepted ↦ rest _ | not_found ↦ tt | refused ↦ tt ]

  abbrev Streams : Stream → Type 0
  Streams s = s.adc.status ≡ status_streaming

  start-Streams : (s : Stream) → Ends (λ _. Streams) (λ _. Unit {0}) (start host s)
  unfolding start modify Anyhow
  start-Streams s =
      Ends-if (λ _. Streams) (λ _. Unit {0}) (not (is_ready s.adc.status)) _ _ tt
        (Ends-if (λ _. Streams) (λ _. Unit {0}) (not s.adc.has_callback) _ _ refl
          (Ends-bind (λ _ _. Unit {0}) (λ _. Streams) (λ _. Unit {0})
            (submit_transfers host s.adc.num_frames 0) _ _ (submits s.adc.num_frames 0 _)
            λ _ t u. refl))

module _ (doubles : Doubles) where
  -- A command on the ADC that is there.
  on_adc_lem :
      (P E : Stream → Type 0) (m : Cmd Stream (Unit {0})) (a : Adc) (r : Receiver doubles)
      → r.adc ≡ some a
      → Ends (λ _. P) E (m (record { adc = a; log = r.events }))
      → Ends
          (λ _ u. (s : Stream) × P s × (u ≡ with_stream doubles s r))
          (λ u. (s : Stream) × E s × (u ≡ with_stream doubles s r))
          (on_adc doubles m r)
  unfolding on_adc focus
  on_adc_lem P E m a r here h = rw here (go (m (record { adc = a; log = r.events })) h)
    where
      go :
          (o : Outcome Stream (Unit {0}))
          → Ends (λ _. P) E o
          → Ends
              (λ _ u. (s : Stream) × P s × (u ≡ with_stream doubles s r))
              (λ u. (s : Stream) × E s × (u ≡ with_stream doubles s r))
              (elim o [
                | ok a s ↦ ok a (with_stream doubles s r)
                | err s ↦ err (with_stream doubles s r)
                | aborted ↦ aborted
              ])
      go (ok a s) p = (s, p, refl)
      go (err s) p = (s, p, refl)
      go aborted p = p

  module _ (world : World) (n : ℕ) where
    -- The ADC is streaming, after one more start that libusb took.
    pub record Started (t : Receiver doubles) : Type 0 where
      pub streaming : (a : Adc) × (t.adc ≡ some a) × (a.status ≡ status_streaming)
      pub once : starts t.log ≡ n + 1
      pub newest : newest_start false t.log ≡ true

    -- The firmware was not told to start, or the last transfer told it to and failed.
    abbrev pub NotStarted : Receiver doubles → Type 0
    NotStarted t = (starts t.log ≡ n) ⊎ ((starts t.log ≡ n + 1) × (newest_start true t.log ≡ true))

    abbrev Streaming : Receiver doubles → Type 0
    Streaming t =
        ((a : Adc) × (t.adc ≡ some a) × (a.status ≡ status_streaming)) × (starts t.log ≡ n)

    tell :
        (t : Receiver doubles)
        → Streaming t
        → Ends (λ _. Started) NotStarted (command doubles world startfx3 t)
    unfolding command control starts
    tell t h = told reply.failed refl
      where
        request : Transfer
        request = record {
          request_type = write_request_type;
          request = startfx3;
          value = 0;
          index = 0;
          bytes = 0 ∷ [];
        }

        reply : Reply
        reply = world.respond t.log request

        after : Receiver doubles
        after = record t { log = record { transfer = request; reply = reply } ∷ t.log }

        told :
            (failed : Bool)
            → reply.failed ≡ failed
            → Ends (λ _. Started) NotStarted (if failed then err after else ok tt after)
        told true e = inr (omega (arith, h.1), e)
        told false e = record { streaming = h.0; once = omega (arith, h.1); newest = ap not e }

    start_adc_lem :
        (t : Receiver doubles)
        → ((a : Adc) × (t.adc ≡ some a))
        → starts t.log ≡ n
        → Ends (λ _. Streaming) (λ u. starts u.log ≡ n) (start_adc doubles world t)
    unfolding start_adc gets modify ◌>>=◌
    start_adc_lem t has quiet =
        let rate = λ (s : Stream). set_sample_rate (doubles.to_u32 t.sample_rate) s in
        Ends-bind (λ _ u. (s : Stream) × (Unit {0}) × (u ≡ with_stream doubles s t))
          (λ _. Streaming) (λ u. starts u.log ≡ n) (on_adc doubles (modify rate))
          (λ _. on_adc doubles (start world.host)) t
          (Ends-mono _ _ _ _ (on_adc doubles (modify rate) t) (λ _ u p. p)
            (λ u p. ap (λ (r : Receiver doubles). starts r.log) p.2 ∙ quiet)
            (on_adc_lem (λ _. Unit {0}) (λ _. Unit {0}) (modify rate) has.0 t has.1 tt))
          λ _ u p.
            let same : starts u.log ≡ n = ap (λ (r : Receiver doubles). starts r.log) p.2 ∙ quiet in
            Ends-mono _ _ _ _ (on_adc doubles (start world.host) u)
              (λ _ v q. (
                (q.0.adc, ap (λ (r : Receiver doubles). r.adc) q.2, q.1),
                ap (λ (r : Receiver doubles). starts r.log) q.2 ∙ same,
              ))
              (λ v q. ap (λ (r : Receiver doubles). starts r.log) q.2 ∙ same)
              (on_adc_lem (Streams world.host) (λ _. Unit {0}) (start world.host) p.0.adc u
                (ap (λ (r : Receiver doubles). r.adc) p.2)
                (start-Streams world.host (record { adc = p.0.adc; log = u.events })))

    module _ (tuner : Option Tuner) where
      -- What the clocks and the GPIO register leave as it is.
      abbrev Kept : Receiver doubles → Type 0
      Kept r = ((a : Adc) × (r.adc ≡ some a)) × (starts r.log ≡ n) × (r.tuner ≡ tuner)

      on_clock-Kept :
          (m : Cmd (ClockSource doubles) (Unit {0}))
          → Keeps (λ s. starts s.log ≡ n) m
          → Keeps Kept (on_clock doubles m)
      unfolding on_clock
      on_clock-Kept m h =
          focus-Keeps (λ s. starts s.log ≡ n) Kept (clock_of doubles) (with_clock doubles) m
            (λ r q. q.1) (λ s r q p. (q.0, p, q.2)) h

      on_board-Kept :
          (m : Cmd Board (Unit {0}))
          → Keeps (λ (s : Board). starts s.log ≡ n) m
          → Keeps Kept (on_board doubles m)
      unfolding on_board
      on_board-Kept m h =
          focus-Keeps (λ (s : Board). starts s.log ≡ n) Kept
            (λ r. record { gpio_register = r.gpio_register; log = r.log })
            (λ s r. record r { gpio_register = s.gpio_register; log = s.log }) m (λ r q. q.1)
            (λ s r q p. (q.0, p, q.2)) h

      start_tuner_clock-Kept :
          (t : Tuner) → tuner ≡ some t → Keeps Kept (start_tuner_clock doubles world)
      unfolding start_tuner_clock
      start_tuner_clock-Kept t here = keeps λ r q. go r q r.tuner (q.2 ∙ here)
        where
          go :
              (r : Receiver doubles)
              → Kept r
              → (o : Option Tuner) → o ≡ some t
              → Ends
                  (λ _. Kept)
                  Kept
                  (elim o [
                    | none ↦ aborted
                    | some t ↦
                        on_clock doubles
                          (set_clock doubles world.respond tuner_clock
                            (doubles.of_int t.xtal_frequency))
                          r
                  ])
          go r q none e = cc
          go r q (some x) e =
              (on_clock-Kept _ (
                  set_clock-Quiet n doubles world.respond tuner_clock
                    (doubles.of_int x.xtal_frequency))).triple.at
                r q

      start_vhf-Kept : (t : Tuner) → tuner ≡ some t → Keeps Kept (start_vhf doubles world)
      unfolding start_vhf
      start_vhf-Kept t here =
          start_tuner_clock-Kept t here
          ▹ on_clock-Kept _ (start_clock-Quiet n doubles world.respond tuner_clock)
          ▹ on_board-Kept _ (gpio_set-Quiet n world.respond 0 (bit_or gpio_sel0 gpio_sel1))

      -- A command that keeps it, then the rest.
      and_then :
          (m k : Cmd (Receiver doubles) (Unit {0}))
          → Keeps Kept m
          → ((t : Receiver doubles) → Kept t → Ends (λ _. Started) NotStarted (k t))
          → (r : Receiver doubles) → Kept r
          → Ends (λ _. Started) NotStarted ((m >> k) r)
      and_then m k h rest r q =
          Ends-bind (λ _. Kept) (λ _. Started) NotStarted m (λ _. k) r
            (Ends-mono _ _ _ _ (m r) (λ _ t p. p) (λ t p. inl p.1) (h.triple.at r q))
            λ _ t p. rest t p

      finish :
          (t : Receiver doubles)
          → Kept t
          → Ends
              (λ _. Started)
              NotStarted
              ((start_adc doubles world >> command doubles world startfx3) t)
      finish t q =
          Ends-bind (λ _. Streaming) (λ _. Started) NotStarted (start_adc doubles world)
            (λ _. command doubles world startfx3) t
            (Ends-mono _ _ _ _ (start_adc doubles world t) (λ _ u p. p) (λ u p. inl p)
              (start_adc_lem t q.0 q.1))
            λ _ u p. tell u p

      the_tuner :
          (t : Receiver doubles)
          → Kept t
          → is_vhf_mode_on doubles t ≡ true
          → (x : Tuner) × (tuner ≡ some x)
      the_tuner t q on = elim (Option-cases t.tuner) [
        | inl missing ↦ absurd (ground (arith, on, missing))
        | inr (x, e) ↦ (x, sym q.2 ∙ e)
      ]

      vhf_part :
          (t : Receiver doubles)
          → Kept t
          → Ends
              (λ _. Started)
              NotStarted
              (((if is_vhf_mode_on doubles t then start_vhf doubles world else pure tt)
                  >> (start_adc doubles world >> command doubles world startfx3))
                t)
      vhf_part t q = elim (Bool-cases (is_vhf_mode_on doubles t)) [
        | inl on ↦
            rw on
              (and_then _ _ (start_vhf-Kept (the_tuner t q on).0 (the_tuner t q on).1) finish t q)
        | inr off ↦ rw off (and_then _ _ (Keeps-pure tt) finish t q)
      ]

  -- With an ADC that was opened, `rf103_start_streaming` returns without a null pointer followed.
  -- If it succeeds, the ADC is streaming, and the firmware was told to start once, by the last
  -- transfer, which succeeded. If it fails, the firmware was not told, or the last transfer told
  -- it to and failed.
  pub start_streaming_lem :
      (world : World) (r : Receiver doubles)
      → ((a : Adc) × (r.adc ≡ some a))
      → Ends
          (λ _. Started world (starts r.log))
          (NotStarted world (starts r.log))
          (start_streaming doubles world r)
  unfolding start_streaming gets on_clock ◌>>=◌
  start_streaming_lem world r has =
      and_then world n r.tuner _ _
        (on_clock-Kept world n r.tuner _
          (set_clock-Quiet n doubles world.respond adc_clock r.sample_rate))
        (and_then world n r.tuner _ _
          (on_clock-Kept world n r.tuner _ (start_clock-Quiet n doubles world.respond adc_clock))
          (vhf_part world n r.tuner))
        r (has, refl, refl)
    where
      n : ℕ
      n = starts r.log
