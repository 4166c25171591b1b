-- ===== src/Adc/Starting.antt =====
-- src/adc.c: what `adc_start` leaves, on every branch.
use rf.Prelude.{ℕ, zero, suc, ◌+◌, ◌%◌, ◌^◌, ◌<◌, ◌≡◌, ◌⊎◌, inl, inr, refl, arith, true, false, not}
use rf.Prelude.{◌∷◌, err, Ends, Ends-bind, Ends-mono, Ends-split, modify}
use rf.Adc.Frames.Status.{status_streaming, status_failed}
use rf.Adc.Stream.{Stream, Host, start, submit_transfers, set_status, record_event, is_ready}
use rf.Adc.Stream.Event.{submitted, zeroed}
use rf.Adc.Stream.Result.{accepted, not_found, refused}
use rf.Adc.Accounting.{taken}

-- The counter is the number of transfers taken since it was zeroed, here `n`.
abbrev pub Active : ℕ → Stream → Type 0
Active n t = (t.adc.active_transfers ≡ n) × (taken t.log ≡ n)

-- A transfer was refused after fewer than `n` were taken.
abbrev pub CutShort : ℕ → Stream → Type 0
CutShort n t = (t.adc.status ≡ status_failed) × ((k : ℕ) × (k < n) × Active k t)

module _ (host : Host) where
  submit_transfers_lem :
      (n i k : ℕ) (s : Stream)
      → k + n < 2 ^ 32
      → Active k s
      → Ends (λ _. Active (k + n)) (CutShort (k + n)) (submit_transfers host n i s)
  unfolding submit_transfers taken
  submit_transfers_lem zero i k s h a = (omega (arith, a.0), omega (arith, a.1))
  submit_transfers_lem (suc n) i k s h a =
      let next : Stream = record {
        adc = record s.adc { active_transfers = (s.adc.active_transfers + 1) % 2 ^ 32 };
        log = submitted i accepted ∷ s.log;
      } in
      let rest =
        submit_transfers_lem n (i + 1) (k + 1) next (omega arith)
          (omega (arith, a.0), omega (arith, a.1)) in
      elim (host.submit s.log i)
        as (λ r.
          Ends (λ _. Active (k + suc n)) (CutShort (k + suc n))
            (elim r [
              | accepted ↦ submit_transfers host n (i + 1) next
              | not_found ↦ err (set_status status_failed (record_event (submitted i not_found) s))
              | refused ↦ err (set_status status_failed (record_event (submitted i refused) s))
            ])) [
              | accepted ↦
                  Ends-mono _ _ _ _ (submit_transfers host n (i + 1) next)
                    (λ _ t p. (omega (arith, p.0), omega (arith, p.1)))
                    (λ t p. (p.0, (p.1.0, omega (arith, p.1.1), p.1.2))) rest
              | not_found ↦ (refl, (k, omega arith, a))
              | refused ↦ (refl, (k, omega arith, a))
            ]

  -- What a start leaves: an ADC that is not ready, as it was; one without a callback, streaming;
  -- one with a callback, streaming with every transfer active, or failed with fewer.
  abbrev pub StartsWell : Stream → Stream → Type 0
  StartsWell s t =
      (t.adc.status ≡ status_streaming)
      × ((s.adc.has_callback ≡ false) × (t.log ≡ s.log)
          ⊎ (s.adc.has_callback ≡ true) × Active s.adc.num_frames t)

  abbrev pub StartFails : Stream → Stream → Type 0
  StartFails s t =
      ((is_ready s.adc.status ≡ false) × (t ≡ s))
      ⊎ ((s.adc.has_callback ≡ true) × CutShort s.adc.num_frames t)

  -- A start that succeeds leaves the ADC streaming: without a callback nothing is submitted, with
  -- one every transfer is active. It fails on an ADC that is not ready, which it leaves as it was,
  -- or on a refused transfer; then the ADC has failed and the fewer transfers taken are active.
  pub start_lem :
      (s : Stream)
      → s.adc.num_frames < 2 ^ 32
      → Ends (λ _. StartsWell s) (StartFails s) (start host s)
  unfolding start modify taken
  start_lem s small =
      Ends-split (λ _. StartsWell s) (StartFails s) (not (is_ready s.adc.status)) _ _
        (λ e. inl (ground (arith, e), refl))
        λ _.
          Ends-split (λ _. StartsWell s) (StartFails s) (not s.adc.has_callback) _ _
            (λ e. (refl, inl (ground (arith, e), refl)))
            λ e.
              Ends-bind (λ _. Active s.adc.num_frames) (λ _. StartsWell s) (StartFails s)
                (submit_transfers host s.adc.num_frames 0) _ _
                (Ends-mono _ _ _ _ (submit_transfers host s.adc.num_frames 0 zeroed_stream)
                  (λ _ t p. (omega (arith, p.0), omega (arith, p.1)))
                  (λ t p. inr (ground (arith, e), (p.0, (p.1.0, omega (arith, p.1.1), p.1.2))))
                  (submit_transfers_lem s.adc.num_frames 0 0 zeroed_stream (omega arith)
                    (refl, refl)))
                λ _ t p. (refl, inr (ground (arith, e), p))
    where
      zeroed_stream : Stream
      zeroed_stream = record { adc = record s.adc { active_transfers = 0 }; log = zeroed ∷ s.log }
