-- ===== src/Device/SearchLaws.antt =====
-- `usb_device_count_devices` and `find_usb_device` count and choose among the same devices, and give
-- back what they take.
use rf.Prelude.{
  ℕ, ◌≡◌, refl, ap, true, false, Bool-cases, Option-cases, inl, inr, ◌⊎◌, ◌≤◌, ◌∙◌, Option, none,
  some, List, [], ◌∷◌, ◌++◌, length, get_elem?, ◌==◌, arith,
}
use rf.Prelude.{pure, ◌>>=◌, ◌>>◌, Ends, Ends-bind}
use rf.Prelude.{Triple, Triple-bind, Triple-fail, Triple-if}
use rf.Device.Calls.{
  Device, Calls, Bus, default, Call, call, answer, attempt, list_devices, open_handle, init_context,
  on_error, finally,
}
use rf.Device.Search.{
  Found, select_loop, no_selection, count_devices, open_selected, claim_device, find_usb_device,
}
use rf.Device.Candidates.{candidates, length-candidates, count_loop-candidates, select-candidate}
use rf.Device.Ledger.{Resource, device_list, handle, held, release}
use rf.Device.Rules.{Triple-attempt, Triple-answer, Triple-on_error, Triple-finally}

module _ (bus : Bus) (log : Calls) (ds : List Device) where
  abbrev HoldsAlso : List Resource → Calls → Type 0
  HoldsAlso rs t = held t ≡ rs ++ held log

  list_devices_lem :
      bus.device_list log ≡ some ds
      → Triple
          (λ t. t ≡ log)
          (λ found t. (found ≡ ds) × HoldsAlso (device_list ∷ []) t)
          (HoldsAlso [])
          (list_devices bus)
  unfolding list_devices held
  list_devices_lem listed =
      Triple-answer bus.device_list Call.get_device_list (λ t e. ap held e)
        (λ t found e f. (ground (arith, e, f, listed), ap (λ u. device_list ∷ held u) e))

  abbrev pub IsCandidate : ℕ → Found → Type 0
  IsCandidate index f =
      get_elem? (candidates ds) index
      ≡ some (record { device = f.device; needs_firmware = f.needs_firmware })

  open_handle_lem :
      (d : Device)
      → Triple
          (HoldsAlso (device_list ∷ []))
          (λ h t. HoldsAlso (handle h ∷ device_list ∷ []) t)
          (HoldsAlso (device_list ∷ []))
          (open_handle bus d)
  unfolding open_handle held
  open_handle_lem d =
      Triple-answer (λ t. bus.open_device t d) (Call.libusb_open d) (λ t e. e)
        (λ t h e f. ap (λ u. handle h ∷ u) e)

  open_selected_lem :
      (index : ℕ) (found : List Device) (chosen : Option Device)
      → found ≡ ds
      → (select_loop index found no_selection).device ≡ chosen
      → Triple
          (HoldsAlso (device_list ∷ []))
          (λ f t. IsCandidate index f × HoldsAlso (handle f.handle ∷ device_list ∷ []) t)
          (HoldsAlso (device_list ∷ []))
          (open_selected bus chosen (select_loop index found no_selection).needs_firmware)
  unfolding open_selected pure
  open_selected_lem index found none e f = Triple-fail
  open_selected_lem index found (some d) e f =
      Triple-bind _ _ (open_handle_lem d)
        (λ h. record { at = λ t held_h. (rw (← e) (select-candidate index found d f), held_h) })

  claim_device_lem :
      (h : ℕ)
      → Triple
          (HoldsAlso (handle h ∷ []))
          (λ _. HoldsAlso (handle h ∷ []))
          (HoldsAlso (handle h ∷ []))
          (claim_device bus h)
  unfolding claim_device held
  claim_device_lem h =
      Triple-bind _ _
        (Triple-answer (λ t. bus.kernel_driver t h) (Call.kernel_driver_active h) (λ t e. e)
          (λ t a e f. e))
        (λ active. Triple-if (active == 1) _ _ Triple-fail (
          Triple-attempt (λ t. bus.claim_fails t h) (Call.claim_interface h) (λ t e. e)
            (λ t e f. e)))

  -- Closing the handle that was opened last.
  closed : (h : ℕ) (rs : List Resource) → release (handle h) (handle h ∷ rs) ≡ rs
  unfolding release
  closed h rs = ground arith

  claim_or_close :
      (index : ℕ) (f : Found)
      → Triple
          (λ t. IsCandidate index f × HoldsAlso (handle f.handle ∷ []) t)
          (λ g t. IsCandidate index g × HoldsAlso (handle g.handle ∷ []) t)
          (HoldsAlso [])
          (on_error (claim_device bus f.handle) (Call.libusb_close f.handle) >> pure f)
  unfolding pure held
  claim_or_close index f = record {
    at = λ t (c, h).
        Ends-bind _ _ _ _ (λ _. pure f) t
          ((Triple-on_error (claim_device bus f.handle) (Call.libusb_close f.handle)
              (claim_device_lem f.handle) (λ u e. rw e (closed f.handle (held log)))).at
            t h)
          (λ _ u e. (c, e));
  }

  -- The list is freed below the handle.
  freed :
      (h : ℕ) (rs : List Resource)
      → release device_list (handle h ∷ device_list ∷ rs) ≡ handle h ∷ rs
  unfolding release
  freed h rs = refl

  freed_last : (rs : List Resource) → release device_list (device_list ∷ rs) ≡ rs
  unfolding release
  freed_last rs = refl

  select_and_free :
      (index : ℕ) (found : List Device)
      → found ≡ ds
      → Triple
          (HoldsAlso (device_list ∷ []))
          (λ f t. IsCandidate index f × HoldsAlso (handle f.handle ∷ []) t)
          (HoldsAlso [])
          (finally
            (open_selected bus
              (select_loop index found no_selection).device
              (select_loop index found no_selection).needs_firmware)
            Call.free_device_list)
  unfolding held
  select_and_free index found e =
      Triple-finally _ _
        (open_selected_lem index found (select_loop index found no_selection).device e refl)
        (λ f t (c, h). (c, rw h (freed f.handle (held log)))) (λ t h. rw h (freed_last (held log)))

  pub find_usb_device-Triple :
      bus.device_list log ≡ some ds
      → (index : ℕ)
      → Triple
          (λ t. t ≡ log)
          (λ f t. IsCandidate index f × HoldsAlso (handle f.handle ∷ []) t)
          (HoldsAlso [])
          (find_usb_device bus index)
  unfolding find_usb_device
  find_usb_device-Triple listed index = Triple-bind _ _ (list_devices_lem listed) (λ found.
      Triple-bind _ _ (record { at = λ t (e, h). (select_and_free index found e).at t h })
        (claim_or_close index))

-- `usb_device_count_devices` returns the number of the usable devices, which is at most that of all,
-- and fails exactly if libusb cannot be initialised or cannot list; it holds nothing afterwards.
pub count_devices_lem :
    (bus : Bus) (log : Calls)
    → Ends
        (λ n t.
          (ds : List Device) × (bus.device_list (Call.init default false ∷ log) ≡ some ds)
          × (n ≡ length (candidates ds))
          × (n ≤ length ds)
          × (held t ≡ held log))
        (λ t.
          ((bus.init_fails log default ≡ true)
            ⊎ (bus.device_list (Call.init default false ∷ log) ≡ none))
          × (held t ≡ held log))
        (count_devices bus log)
unfolding count_devices init_context list_devices finally call attempt answer held release pure
    ◌>>=◌
count_devices_lem bus log = elim (Bool-cases (bus.init_fails log default)) [
  | inl fails ↦ rw (fails, Ends) (inl fails, refl)
  | inr works ↦ elim (Option-cases (bus.device_list (Call.init default false ∷ log))) [
    | inl e ↦ rw (works, e, Ends) (inr e, refl)
    | inr (ds, e) ↦
        rw (works, e, Ends)
          (
            ds,
            e,
            count_loop-candidates ds 0 ∙ omega arith,
            omega (arith, count_loop-candidates ds 0, length-candidates ds),
            refl,
          )
  ]
]
