-- ===== src/Adc/Callbacks.antt =====
-- src/adc.c: what the cancellations and callbacks leave of the status.
use rf.Prelude.{ℕ, zero, suc, ◌+◌, ◌≡◌, refl, inl, inr, ◌⊎◌}
use rf.Prelude.{Bool, true, false, ◌==◌, if◌then◌else◌, List, [], ◌∷◌}
use rf.Adc.Frames.{Status}
use rf.Adc.Frames.Status.{status_failed}
use rf.Adc.Samples.{derandomize}
use rf.Adc.Stream.{
  Stream, Host, Completion, TransferStatus, Result, set_status, record_event, is_streaming,
}
use rf.Adc.Stream.{
  cancel_transfers, cancel_again, transfer_failed, deliver, read_async_callback, call_back,
}
use rf.Adc.Stream.Event.{submitted, ended, delivered}
use rf.Adc.Stream.Result.{accepted, not_found, refused}
use rf.Adc.Stream.TransferStatus.{
  transfer_completed, transfer_error, transfer_timed_out, transfer_cancelled, transfer_stall,
  transfer_no_device, transfer_overflow,
}

-- The status is still the one given, or the ADC has failed.
pub record Kept (callback : Bool) (x : Status) (s : Stream) : Type 0 where
  pub same : s.adc.has_callback ≡ callback
  pub status : (s.adc.status ≡ x) ⊎ (s.adc.status ≡ status_failed)

-- The status is the one given.
pub record Stands (callback : Bool) (x : Status) (s : Stream) : Type 0 where
  pub same : s.adc.has_callback ≡ callback
  pub status : s.adc.status ≡ x

pub Stands-Kept :
    {callback : Bool} {x : Status} {s : Stream} → Stands callback x s → Kept callback x s
Stands-Kept k = record { same = k.same; status = inl k.status }

pub failed-Kept :
    {callback : Bool} {x : Status} {s : Stream}
    → Stands callback status_failed s
    → Kept callback x s
failed-Kept k = record { same = k.same; status = inr k.status }

module _ (host : Host) {callback : Bool} {x : Status} where
  pub cancelled-Kept :
      (r : Result) (s : Stream)
      → Kept callback x s
      → Kept callback x
          (elim r [ accepted ↦ s | not_found ↦ s | refused ↦ set_status status_failed s ])
  cancelled-Kept accepted s k = k
  cancelled-Kept not_found s k = k
  cancelled-Kept refused s k = record { same = k.same; status = inr refl }

  pub cancel_transfers-Kept :
      (n i : ℕ) (s : Stream) → Kept callback x s → Kept callback x (cancel_transfers host n i s)
  unfolding cancel_transfers
  cancel_transfers-Kept zero i s k = k
  cancel_transfers-Kept (suc n) i s k =
      cancel_transfers-Kept n (i + 1) _
        (cancelled-Kept (host.cancel s.log i) _ (record { same = k.same; status = k.status }))

  pub cancel_again-Stands :
      (n i : ℕ) (s : Stream) → Stands callback x s → Stands callback x (cancel_again host n i s)
  unfolding cancel_again
  cancel_again-Stands zero i s k = k
  cancel_again-Stands (suc n) i s k =
      cancel_again-Stands n i _ (record { same = k.same; status = k.status })

module _ (host : Host) {callback : Bool} where
  pub transfer_failed-Stands :
      (e : Completion) (s : Stream)
      → s.adc.has_callback ≡ callback
      → Stands callback status_failed (transfer_failed host e s)
  unfolding transfer_failed
  transfer_failed-Stands e s same =
      cancel_again-Stands host s.adc.num_frames e.index _ (record { same = same; status = refl })

  pub transfer_failed-Kept :
      {x : Status} (e : Completion) (s : Stream)
      → Kept callback x s
      → Kept callback x (transfer_failed host e s)
  transfer_failed-Kept e s k = failed-Kept (transfer_failed-Stands e s k.same)

  pub deliver-Kept :
      {x : Status} (e : Completion) (s : Stream)
      → Kept callback x s
      → Kept callback x (deliver host e s)
  unfolding deliver
  deliver-Kept {x} e s k = after (host.submit given.log e.index)
    where
      given : Stream
      given =
          record_event (delivered (if s.adc.random == 0 then e.buffer else derandomize e.buffer)) s

      after :
          (r : Result)
          → Kept callback x (elim r [
            | accepted ↦ record_event (submitted e.index accepted) given
            | not_found ↦ transfer_failed host e (record_event (submitted e.index not_found) given)
            | refused ↦ transfer_failed host e (record_event (submitted e.index refused) given)
          ])
      after accepted = record { same = k.same; status = k.status }
      after not_found =
          failed-Kept
            (transfer_failed-Stands e (record_event (submitted e.index not_found) given) k.same)
      after refused =
          failed-Kept
            (transfer_failed-Stands e (record_event (submitted e.index refused) given) k.same)

  pub if-Kept :
      {x : Status} (b : Bool) (s t : Stream)
      → Kept callback x s
      → Kept callback x t
      → Kept callback x (if b then s else t)
  if-Kept true s t k l = k
  if-Kept false s t k l = l

  pub read_async_callback-Kept :
      {x : Status} (e : Completion) (s : Stream)
      → Kept callback x s
      → Kept callback x (read_async_callback host e s)
  unfolding read_async_callback
  read_async_callback-Kept {x} e s k = by_status e.status
    where
      now : Stream
      now = record_event (ended e) s

      now-Kept : Kept callback x now
      now-Kept = record { same = k.same; status = k.status }

      failed : Kept callback x (transfer_failed host e now)
      failed = transfer_failed-Kept e now now-Kept

      by_status :
          (y : TransferStatus)
          → Kept callback x (elim y [
            | transfer_completed ↦
                if is_streaming s.adc.status then deliver host e now else transfer_failed host e now
            | transfer_cancelled ↦ now
            | transfer_error ↦ transfer_failed host e now
            | transfer_timed_out ↦ transfer_failed host e now
            | transfer_stall ↦ transfer_failed host e now
            | transfer_no_device ↦ transfer_failed host e now
            | transfer_overflow ↦ transfer_failed host e now
          ])
      by_status transfer_completed =
          if-Kept (is_streaming s.adc.status) _ _ (deliver-Kept e now now-Kept) failed
      by_status transfer_cancelled = now-Kept
      by_status transfer_error = failed
      by_status transfer_timed_out = failed
      by_status transfer_stall = failed
      by_status transfer_no_device = failed
      by_status transfer_overflow = failed

  pub call_back-Kept :
      {x : Status} (es : List Completion) (s : Stream)
      → Kept callback x s
      → Kept callback x (call_back host es s)
  unfolding call_back
  call_back-Kept [] s k = k
  call_back-Kept (e ∷ es) s k =
      call_back-Kept es (read_async_callback host e s) (read_async_callback-Kept e s k)
