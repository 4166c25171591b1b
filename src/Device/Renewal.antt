-- ===== src/Device/Renewal.antt =====
-- The search for a device in `usb_device_open`, and the second one after its firmware was loaded.
use rf.Prelude.{
  ℕ, ◌≡◌, refl, ap, ◌∙◌, inl, inr, Bool, true, false, Option-cases, none, List, ◌∷◌, if◌then◌else◌,
  arith,
}
use rf.Prelude.{pure, fail, ◌>>=◌, ◌>>◌, Ends, Ends-mono}
use rf.Prelude.{Triple, Triple-bind, Triple-fail}
use rf.Device.Calls.{Calls, Bus, Call, call, answer, list_devices, on_error}
use rf.Device.Search.{Found, find_usb_device}
use rf.Device.Candidates.{IsStreamer, candidates-IsStreamer}
use rf.Device.SearchLaws.{find_usb_device-Triple}
use rf.Device.Ledger.{Resource, handle, held, release}
use rf.Device.Rules.{Triple-call, Triple-attempt, Triple-on_error}
use rf.Device.Opening.{load_image, renew}

-- A handle is open over `rs`, and the device is the streamer unless it waits for its firmware.
abbrev pub FoundOver : List Resource → Found → Calls → Type 0
FoundOver rs f t =
    (held t ≡ handle f.handle ∷ rs) × (f.needs_firmware ≡ false → IsStreamer f.device)

module _ (bus : Bus) (rs : List Resource) where
  find_nothing :
      (index : ℕ) (t : Calls)
      → bus.device_list t ≡ none
      → held t ≡ rs
      → Ends (FoundOver rs) (λ u. held u ≡ rs) (find_usb_device bus index t)
  unfolding find_usb_device list_devices answer ◌>>=◌ held
  find_nothing index t e h = rw (e, Ends) h

  pub find_usb_device-over :
      (index : ℕ)
      → Triple (λ t. held t ≡ rs) (FoundOver rs) (λ t. held t ≡ rs) (find_usb_device bus index)
  find_usb_device-over index = record {
    at = λ t h. elim (Option-cases (bus.device_list t)) [
      | inl e ↦ find_nothing index t e h
      | inr (ds, e) ↦
          Ends-mono _ (FoundOver rs) _ (λ u. held u ≡ rs) _
            (λ f u (c, g).
              (g ∙ ap (λ x. handle f.handle ∷ x) h, candidates-IsStreamer ds index _ c))
            (λ u g. g ∙ h) ((find_usb_device-Triple bus t ds e index).at t refl)
    ];
  }

  -- The handle on top is closed.
  closed : (h : ℕ) (t : Calls) → held t ≡ handle h ∷ rs → held (Call.libusb_close h ∷ t) ≡ rs
  unfolding held release
  closed h t e = rw e (ground arith)

  load_image-over :
      (h imagefile : ℕ)
      → Triple
          (λ t. held t ≡ handle h ∷ rs)
          (λ _ t. held t ≡ handle h ∷ rs)
          (λ t. held t ≡ handle h ∷ rs)
          (load_image bus h imagefile)
  unfolding load_image held
  load_image-over h imagefile =
      Triple-attempt (λ t. bus.load_fails t h imagefile) (Call.load_ram h imagefile) (λ t e. e)
        (λ t e f. e)

  renewed :
      (g : Found) (b : Bool)
      → g.needs_firmware ≡ b
      → Triple
          (FoundOver rs g)
          (λ f t. FoundOver rs f t × (f.needs_firmware ≡ false))
          (λ t. held t ≡ rs)
          (if b then on_error fail (Call.libusb_close g.handle) else pure g)
  unfolding pure
  renewed g true e =
      Triple-on_error fail (Call.libusb_close g.handle)
        (record { at = λ t (h, s). Triple.at Triple-fail t h }) (λ t h. closed g.handle t h)
  renewed g false e = record { at = λ t h. ((h.0, h.1), e) }

  renewed_if :
      (index imagefile : ℕ) (f : Found) (b : Bool)
      → f.needs_firmware ≡ b
      → Triple
          (FoundOver rs f)
          (λ g t. FoundOver rs g t × (g.needs_firmware ≡ false))
          (λ t. held t ≡ rs)
          (if b
            then on_error (load_image bus f.handle imagefile) (Call.libusb_close f.handle)
              >> call (Call.libusb_close f.handle)
              >> (find_usb_device bus index >>= λ g.
                  if g.needs_firmware then on_error fail (Call.libusb_close g.handle) else pure g)
            else pure f)
  unfolding pure
  renewed_if index imagefile f true e =
      Triple-bind _ _
        (Triple-bind _ _
          (Triple-on_error _ _
            (record { at = λ t h. (load_image-over f.handle imagefile).at t h.0 })
            (closed f.handle))
          (λ _. Triple-call _ (closed f.handle)))
        (λ _. Triple-bind _ _ (find_usb_device-over index) (λ g. renewed g g.needs_firmware refl))
  renewed_if index imagefile f false e = record { at = λ t h. ((h.0, h.1), e) }

  pub renew-over :
      (index imagefile : ℕ) (f : Found)
      → Triple
          (FoundOver rs f)
          (λ g t. FoundOver rs g t × (g.needs_firmware ≡ false))
          (λ t. held t ≡ rs)
          (renew bus index imagefile f)
  unfolding renew
  renew-over index imagefile f = renewed_if index imagefile f f.needs_firmware refl
