-- ===== src/Device/Liveness.antt =====
-- A device that is there is found and opened, where libusb does what it is asked.
use rf.Prelude.{
  ℕ, ◌≡◌, refl, Bool, false, inl, inr, ◌∙◌, some, List, ◌∷◌, length, take, get_elem?, ◌==◌, arith,
}
use rf.Prelude.{ok, pure, gets, ◌>>=◌, >>=-eq}
use rf.Device.Calls.{
  Device, Calls, Bus, own, Configuration, Call, answer, attempt, list_devices, open_handle,
  init_context, on_error, finally,
}
use rf.Device.Search.{
  Found, select_loop, no_selection, open_selected, claim_device, find_usb_device,
}
use rf.Device.Candidates.{Candidate, candidates}
use rf.Device.Candidates.{select_loop-device, select_loop-firmware}
use rf.Device.Endpoints.{Entry, Scan, more, full, broken, find_bulk_in}
use rf.Device.EndpointLaws.{listed, entries, all_endpoints, scan_configuration_lem}
use rf.Device.BulkIn.{NoBulkIn, find_bulk_in_lem}
use rf.Device.Opening.{
  UsbDevice, is_slow, scanned, list_endpoints, renew, make_device, inspect, open_device,
}

-- A bus on which every device can be opened and claimed.
pub record Opens (bus : Bus) : Type 0 where
  pub handle_of : Calls → Device → ℕ
  pub opens : (t : Calls) (d : Device) → bus.open_device t d ≡ some (handle_of t d)
  pub no_driver : (t : Calls) (h : ℕ) → bus.kernel_driver t h ≡ some 0
  pub claims : (t : Calls) (h : ℕ) → bus.claim_fails t h ≡ false

module _ (bus : Bus) (o : Opens bus) (log : Calls) (ds : List Device) where
  -- The calls of a search that succeeds, over those before it.
  abbrev pub calls_of_find : Device → Calls
  calls_of_find d =
      let t : Calls = Call.get_device_list (some ds) ∷ log in
      let h = o.handle_of t d in
      Call.claim_interface h false
      ∷ Call.kernel_driver_active h (some 0)
      ∷ Call.free_device_list
      ∷ Call.libusb_open d (some h)
      ∷ t

  open_handle-Opens :
      (d : Device) (t : Calls)
      → open_handle bus d t ≡ ok (o.handle_of t d) (Call.libusb_open d (some (o.handle_of t d)) ∷ t)
  unfolding open_handle
  open_handle-Opens d t = rw (o.opens t d, answer)

  open_selected-Opens :
      (d : Device) (b : Bool) (t : Calls)
      → open_selected bus (some d) b t
        ≡ ok
            (record { device = d; needs_firmware = b; handle = o.handle_of t d })
            (Call.libusb_open d (some (o.handle_of t d)) ∷ t)
  unfolding open_selected pure
  open_selected-Opens d b t = >>=-eq _ _ t (open_handle-Opens d t)

  claim_device-Opens :
      (h : ℕ) (t : Calls)
      → claim_device bus h t
        ≡ ok tt (Call.claim_interface h false ∷ Call.kernel_driver_active h (some 0) ∷ t)
  unfolding claim_device
  claim_device-Opens h t =
      >>=-eq _ _ t {a = 0} {t = Call.kernel_driver_active h (some 0) ∷ t}
        (rw (o.no_driver t h, answer))
      ∙ rw (o.claims _ h, attempt)

  pub find_usb_device-Opens :
      (index : ℕ) (c : Candidate)
      → bus.device_list log ≡ some ds
      → get_elem? (candidates ds) index ≡ some c
      → find_usb_device bus index log
        ≡ ok
            (record {
              device = c.device;
              needs_firmware = c.needs_firmware;
              handle = o.handle_of (Call.get_device_list (some ds) ∷ log) c.device;
            })
            (calls_of_find c.device)
  unfolding find_usb_device pure
  find_usb_device-Opens index c listed chosen =
      >>=-eq (list_devices bus) _ log list_ok ∙ >>=-eq _ _ _ selected ∙ >>=-eq _ _ _ claimed
    where
      t : Calls
      t = Call.get_device_list (some ds) ∷ log

      h : ℕ
      h = o.handle_of t c.device

      list_ok : list_devices bus log ≡ ok ds t
      list_ok = unfold list_devices in rw (listed, answer)

      device_eq : (select_loop index ds no_selection).device ≡ some c.device
      device_eq = rw chosen at (select_loop-device index ds)

      firmware_eq : (select_loop index ds no_selection).needs_firmware ≡ c.needs_firmware
      firmware_eq = rw chosen at (select_loop-firmware index ds)

      selected :
          finally
            (open_selected bus
              (select_loop index ds no_selection).device
              (select_loop index ds no_selection).needs_firmware)
            Call.free_device_list
            t
          ≡ ok
              (record { device = c.device; needs_firmware = c.needs_firmware; handle = h })
              (Call.free_device_list ∷ Call.libusb_open c.device (some h) ∷ t)
      selected =
          rw (device_eq, firmware_eq)
            (rw (open_selected-Opens c.device c.needs_firmware t, finally))

      claimed :
          on_error
            (claim_device bus h)
            (Call.libusb_close h)
            (Call.free_device_list ∷ Call.libusb_open c.device (some h) ∷ t)
          ≡ ok tt (calls_of_find c.device)
      claimed = rw (claim_device-Opens h _, on_error)

scanned-eq : (s : Scan) (xs : List Entry) (t : Calls) → listed s ≡ some xs → scanned s t ≡ ok xs t
unfolding pure
scanned-eq (more ys) xs t h = ground (arith, h)
scanned-eq (full ys) xs t h = ground (arith, h)
scanned-eq broken xs t h = cc

-- `usb_device_open` opens the usable device with the number `index`, if that one needs no firmware,
-- is fast enough, has companions that can be read and a bulk endpoint with the direction in among
-- its first 16, and if libusb can be initialised, lists the devices, and opens and claims any.
pub open_device-Opens :
    (bus : Bus) (o : Opens bus) (log : Calls) (ds : List Device) (index : ℕ) (d : Device)
    (config : Configuration) (xs : List Entry) (imagefile gpio_register : ℕ)
    → bus.init_fails log own ≡ false
    → bus.device_list (Call.init own false ∷ log) ≡ some ds
    → get_elem? (candidates ds) index ≡ some (record { device = d; needs_firmware = false })
    → is_slow (bus.speed (calls_of_find bus o (Call.init own false ∷ log) ds d) d) ≡ false
    → bus.active_config (calls_of_find bus o (Call.init own false ∷ log) ds d) d ≡ some config
    → entries bus.companion (take 16 (all_endpoints config)) ≡ some xs
    → ¬ NoBulkIn xs
    → (u : UsbDevice) × (t : Calls) × (open_device bus index imagefile gpio_register log ≡ ok u t)
      × (u.dev ≡ d)
      × (u.endpoints ≡ xs)
unfolding open_device
open_device-Opens bus o log ds index d config xs imagefile gpio_register init_ok listing chosen fast
      configured readable some_bulk =
    (u, t3, >>=-eq _ _ log initialised ∙ rw (opened, on_error), refl, refl)
  where
    t1 : Calls
    t1 = Call.init own false ∷ log

    t2 : Calls
    t2 = calls_of_find bus o t1 ds d

    t3 : Calls
    t3 = Call.get_active_config_descriptor d (some config) ∷ t2

    h : ℕ
    h = o.handle_of (Call.get_device_list (some ds) ∷ t1) d

    f : Found
    f = record { device = d; needs_firmware = false; handle = h }

    u : UsbDevice
    u = record {
      dev = d;
      dev_handle = h;
      context = own;
      completed = 0;
      nendpoints = length xs;
      endpoints = xs;
      bulk_in = find_bulk_in xs;
      gpio_register = gpio_register;
    }

    initialised : init_context bus own log ≡ ok tt t1
    initialised = unfold init_context in rw (init_ok, attempt)

    bulk : ((find_bulk_in xs).bulk_address == 0) ≡ false
    bulk = elim (find_bulk_in_lem xs) [
      | inl (n, z) ↦ absurd (some_bulk n)
      | inr (first, z) ↦ ground arith
    ]

    endpoints_ok : list_endpoints bus d t2 ≡ ok xs t3
    endpoints_ok =
        unfold list_endpoints in
        >>=-eq _ _ t2 {a = config} {t = t3} (rw (configured, answer))
        ∙ scanned-eq _ xs t3 (scan_configuration_lem bus.companion config ∙ readable)

    inspected : inspect bus gpio_register f t2 ≡ ok u t3
    inspected =
        unfold inspect make_device gets pure in
        >>=-eq _ _ t2 refl ∙ rw fast (>>=-eq _ _ t2 endpoints_ok ∙ rw bulk)

    opened :
        (find_usb_device bus index >>= renew bus index imagefile >>= λ f.
        on_error (inspect bus gpio_register f) (Call.libusb_close f.handle))
          t1
        ≡ ok u t3
    opened =
        unfold renew pure in
        >>=-eq _ _ t1 (>>=-eq _ _ t1 (find_usb_device-Opens bus o t1 ds index _ listing chosen))
        ∙ rw (inspected, on_error)
