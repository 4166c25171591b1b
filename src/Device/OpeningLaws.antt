-- ===== src/Device/OpeningLaws.antt =====
-- What `usb_device_open` and `usb_device_close` hold and give back.
use rf.Prelude.{
  ℕ, ◌≤◌, ◌≡◌, refl, ap, subst, inl, inr, ◌⊎◌, Bool, true, false, some, List, [], ◌∷◌, length, ◌==◌,
  if◌then◌else◌, arith,
}
use rf.Prelude.{Cmd, pure, fail, ◌>>=◌, Ends, Ends-mono, Ends-bind}
use rf.Prelude.{Triple, Triple-bind, Triple-if, Triple-gets}
use rf.Device.Calls.{Device, Calls, Bus, Call, own, default, call, init_context, on_error}
use rf.Device.Search.{Found, find_usb_device}
use rf.Device.Candidates.{IsStreamer}
use rf.Device.Renewal.{FoundOver, find_usb_device-over, renew-over}
use rf.Device.Ledger.{Resource, handle, context, configuration, held, release}
use rf.Device.Rules.{Triple-attempt, Triple-answer, Triple-on_error}
use rf.Device.Endpoints.{Entry, Scan, more, full, broken, scan_configuration, find_bulk_in}
use rf.Device.EndpointLaws.{listed, length-listed}
use rf.Device.BulkIn.{FirstBulkIn, find_bulk_in_lem}
use rf.Device.Opening.{
  UsbDevice, renew, scanned, list_endpoints, make_device, inspect, is_slow, open_device,
  close_device,
}

-- An open device as `usb_device_open` returns it.
pub record IsReady (gpio_register : ℕ) (d : UsbDevice) : Type 0 where
  pub streamer : IsStreamer d.dev
  pub own_context : d.context ≡ own
  pub counted : d.nendpoints ≡ length d.endpoints
  pub at_most : d.nendpoints ≤ 16
  pub first_bulk_in : FirstBulkIn d.endpoints d.bulk_in
  pub register : d.gpio_register ≡ gpio_register

module _ (bus : Bus) (rs : List Resource) where
  -- The configuration may have been read, and is not freed.
  abbrev Inspected : ℕ → Calls → Type 0
  Inspected h t = (held t ≡ handle h ∷ rs) ⊎ (held t ≡ configuration ∷ handle h ∷ rs)

  scanned_lem :
      (h : ℕ) (s : Scan)
      → ((xs : List Entry) → listed s ≡ some xs → length xs ≤ 16)
      → Triple
          (λ t. held t ≡ configuration ∷ handle h ∷ rs)
          (λ xs t. (held t ≡ configuration ∷ handle h ∷ rs) × (length xs ≤ 16))
          (Inspected h)
          (scanned s)
  unfolding pure fail
  scanned_lem h (more xs) k = record { at = λ t e. (e, k xs refl) }
  scanned_lem h (full xs) k = record { at = λ t e. (e, k xs refl) }
  scanned_lem h broken k = record { at = λ t e. inr e }

  list_endpoints_lem :
      (h : ℕ) (d : Device)
      → Triple
          (λ t. held t ≡ handle h ∷ rs)
          (λ xs t. (held t ≡ configuration ∷ handle h ∷ rs) × (length xs ≤ 16))
          (Inspected h)
          (list_endpoints bus d)
  unfolding list_endpoints held
  list_endpoints_lem h d =
      Triple-bind _ _
        (Triple-answer (λ t. bus.active_config t d) (Call.get_active_config_descriptor d)
          (λ t e. inl e) (λ t c e f. ap (λ u. configuration ∷ u) e))
        (λ c. scanned_lem h (scan_configuration bus.companion c []) (length-listed bus.companion c))

  made :
      (gpio_register : ℕ) (f : Found) (xs : List Entry) (bit : Bool)
      → ((find_bulk_in xs).bulk_address == 0) ≡ bit
      → f.needs_firmware ≡ false
      → (f.needs_firmware ≡ false → IsStreamer f.device)
      → length xs ≤ 16
      → Triple
          (λ t. held t ≡ configuration ∷ handle f.handle ∷ rs)
          (λ d t. (held t ≡ configuration ∷ handle d.dev_handle ∷ rs) × IsReady gpio_register d)
          (Inspected f.handle)
          (if bit
            then fail
            else pure (record {
              dev = f.device;
              dev_handle = f.handle;
              context = own;
              completed = 0;
              nendpoints = length xs;
              endpoints = xs;
              bulk_in = find_bulk_in xs;
              gpio_register = gpio_register;
            }))
  unfolding pure fail
  made gpio_register f xs true e n s l = record { at = λ t h. inr h }
  made gpio_register f xs false e n s l = record {
    at = λ t h. (
      h,
      record {
        streamer = s n;
        own_context = refl;
        counted = refl;
        at_most = l;
        first_bulk_in = elim (find_bulk_in_lem xs) [
          | inl (none_in, z) ↦ absurd (ground arith)
          | inr (first, z) ↦ first
        ];
        register = refl;
      },
    );
  }

  inspect_lem :
      (gpio_register : ℕ) (f : Found)
      → Triple
          (λ t. FoundOver rs f t × (f.needs_firmware ≡ false))
          (λ d t. (held t ≡ configuration ∷ handle d.dev_handle ∷ rs) × IsReady gpio_register d)
          (Inspected f.handle)
          (inspect bus gpio_register f)
  unfolding inspect make_device fail
  inspect_lem gpio_register f = Triple-bind _ _ (Triple-gets _) (λ speed.
      Triple-if (is_slow speed) _ _ (record { at = λ t h. inl h.0.0 })
        (record {
          at = λ t h.
              Ends-bind _ _ _ _ _ t ((list_endpoints_lem f.handle f.device).at t h.0.0) (λ xs u k.
                (made gpio_register f xs ((find_bulk_in xs).bulk_address == 0) refl h.1 h.0.1
                    k.1).at
                  u k.0);
        }))

  -- The handle is closed, also from below the configuration.
  closed_after :
      (h : ℕ) (t : Calls)
      → Inspected h t
      → (held (Call.libusb_close h ∷ t) ≡ rs)
        ⊎ (held (Call.libusb_close h ∷ t) ≡ configuration ∷ rs)
  unfolding held release
  closed_after h t (inl e) = inl (rw e (ground arith))
  closed_after h t (inr e) = inr (rw e (ground arith))

  find_and_inspect :
      (index imagefile gpio_register : ℕ)
      → Triple
          (λ t. held t ≡ rs)
          (λ d t. (held t ≡ configuration ∷ handle d.dev_handle ∷ rs) × IsReady gpio_register d)
          (λ t. (held t ≡ rs) ⊎ (held t ≡ configuration ∷ rs))
          (find_usb_device bus index >>= renew bus index imagefile >>= λ f.
            on_error (inspect bus gpio_register f) (Call.libusb_close f.handle))
  find_and_inspect index imagefile gpio_register =
      Triple-bind _ _
        (Triple-bind _ _ (weaken (find_usb_device-over bus rs index))
          (λ f. weaken (renew-over bus rs index imagefile f)))
        (λ f. Triple-on_error _ _ (inspect_lem gpio_register f) (closed_after f.handle))
    where
      weaken :
          {A : Type 0} {P : Calls → Type 0} {Q : A → Calls → Type 0} {m : Cmd Calls A}
          → Triple P Q (λ t. held t ≡ rs) m
          → Triple P Q (λ t. (held t ≡ rs) ⊎ (held t ≡ configuration ∷ rs)) m
      weaken {Q} h = record {
        at = λ t p. Ends-mono Q Q _ _ _ (λ a u q. q) (λ u e. inl e) (h.at t p);
      }

-- What a failure leaves: nothing, if libusb was not initialised; otherwise the own context is still
-- held, perhaps a configuration too, and the default context is left, whether or not it is held.
abbrev pub Left : Bus → Calls → Calls → Type 0
Left bus log t =
    ((bus.init_fails log own ≡ true) × (held t ≡ held log))
    ⊎ (held t ≡ context own ∷ release (context default) (held log))
    ⊎ (held t ≡ configuration ∷ context own ∷ release (context default) (held log))

exited :
    (bus : Bus) (log t : Calls)
    → (held t ≡ context own ∷ held log) ⊎ (held t ≡ configuration ∷ context own ∷ held log)
    → Left bus log (Call.exit default ∷ t)
unfolding held release
exited bus log t (inl e) = inr (inl (rw e))
exited bus log t (inr e) = inr (inr (rw e))

-- `usb_device_open`, for every answer of libusb and of the firmware loader. Success: the device is
-- the streamer, its bulk endpoint is the first one with the direction in among the at most 16
-- listed, and of what was acquired a handle, which is the device's, the own context and the
-- configuration are held. Failure: no handle and no device list is left open; the own context is
-- held if libusb was initialised, and the default context was left in its place.
pub open_device_lem :
    (bus : Bus) (index imagefile gpio_register : ℕ) (log : Calls)
    → Ends
        (λ d t.
          (held t ≡ configuration ∷ handle d.dev_handle ∷ context own ∷ held log)
          × IsReady gpio_register d)
        (Left bus log)
        (open_device bus index imagefile gpio_register log)
unfolding open_device init_context held
open_device_lem bus index imagefile gpio_register log =
    (Triple-bind {P = λ t. t ≡ log} _ _
        (Triple-attempt (λ t. bus.init_fails t own) (Call.init own)
          (λ t e. ap (λ u. context own ∷ held u) e)
          (λ t e f. inl (subst (λ u. bus.init_fails u own ≡ true) e f, ap held e)))
        (λ _.
          Triple-on_error _ _
            (find_and_inspect bus (context own ∷ held log) index imagefile gpio_register)
            (exited bus log))).at
      log refl

pub close_device-held :
    (d : UsbDevice) (log t : Calls)
    → held t ≡ configuration ∷ handle d.dev_handle ∷ context own ∷ held log
    → Ends
        (λ _ u. held u ≡ configuration ∷ context own ∷ release (context default) (held log))
        (λ _. ⊥)
        (close_device d t)
unfolding close_device held release call ◌>>=◌
close_device-held d log t h = rw h (ground arith)

-- `usb_device_open` and then `usb_device_close`: the handle is closed, and what stays behind is the
-- configuration and the own context; the default context was left in its place.
pub open_close_device_lem :
    (bus : Bus) (index imagefile gpio_register : ℕ) (log : Calls)
    → Ends
        (λ _ t. held t ≡ configuration ∷ context own ∷ release (context default) (held log))
        (Left bus log)
        ((open_device bus index imagefile gpio_register >>= close_device) log)
open_close_device_lem bus index imagefile gpio_register log =
    Ends-bind _ _ (Left bus log) (open_device bus index imagefile gpio_register) close_device log
      (open_device_lem bus index imagefile gpio_register log)
      (λ d t h.
        Ends-mono _ _ (λ _. ⊥) (Left bus log) (close_device d t) (λ a s e. e) (λ s e. absurd e)
          (close_device-held d log t h.0))
