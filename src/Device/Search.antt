-- ===== src/Device/Search.antt =====
-- `usb_device_count_devices` and `find_usb_device` of src/usb_device.c.
use rf.Prelude.{ℕ, ◌+◌, Bool, true, false, ◌&&◌, Option, none, some, List, [], ◌∷◌}
use rf.Prelude.{◌==◌, if◌then◌else◌, Cmd, pure, fail, ◌>>=◌, ◌>>◌}
use rf.Device.Calls.{
  Device, Calls, Bus, Context, Call, call, answer, attempt, on_error, finally, init_context,
  list_devices, open_handle,
}

-- `struct usb_device_id`.
pub record DeviceId : Type 0 where
  pub vid : ℕ
  pub pid : ℕ
  pub needs_firmware : Bool

-- The boot loader of the FX3, and its streamer example.
abbrev pub usb_device_ids : List DeviceId
usb_device_ids =
    record { vid = 0x04b4; pid = 0x00f3; needs_firmware = true }
    ∷ record { vid = 0x04b4; pid = 0x00f1; needs_firmware = false }
    ∷ []

abbrev pub has_id : Device → DeviceId → Bool
has_id d i = d.id_vendor == i.vid && d.id_product == i.pid

-- The loop over the table, for one device.
unfoldable pub count_ids : List DeviceId → Device → ℕ → ℕ
count_ids [] d count = count
count_ids (i ∷ ids) d count = count_ids ids d (if has_id d i then count + 1 else count)

unfoldable pub count_loop : List Device → ℕ → ℕ
unfolding count_ids
count_loop [] count = count
count_loop (d ∷ devices) count = count_loop devices (count_ids usb_device_ids d count)

-- The variables of the search. No device is a null pointer.
pub record Selection : Type 0 where
  pub device : Option Device
  pub needs_firmware : Bool
  pub count : ℕ

-- A match is chosen if as many came before it as `index` says.
abbrev pub take_match : ℕ → Device → DeviceId → Selection → Selection
take_match index d i s =
    if s.count == index
    then record { device = some d; needs_firmware = i.needs_firmware; count = s.count + 1 }
    else record s { count = s.count + 1 }

unfoldable pub select_ids : ℕ → List DeviceId → Device → Selection → Selection
select_ids index [] d s = s
select_ids index (i ∷ ids) d s =
    select_ids index ids d (if has_id d i then take_match index d i s else s)

unfoldable pub select_loop : ℕ → List Device → Selection → Selection
unfolding select_ids
select_loop index [] s = s
select_loop index (d ∷ devices) s = select_loop index devices (select_ids index usb_device_ids d s)

abbrev pub no_selection : Selection
no_selection = record { device = none; needs_firmware = false; count = 0 }

-- What `find_usb_device` returns and stores through its arguments.
pub record Found : Type 0 where
  pub device : Device
  pub needs_firmware : Bool
  pub handle : ℕ

module _ (bus : Bus) where
  unfoldable pub count_devices : Cmd Calls ℕ
  unfolding init_context list_devices finally call
  count_devices =
      init_context bus Context.default
      >> finally
          (list_devices bus >>= λ devices.
            call Call.free_device_list >> pure (count_loop devices 0))
          (Call.exit Context.default)

  -- The tests on an open device, whose list is freed. A driver that is active is an error too.
  unfoldable pub claim_device : ℕ → Cmd Calls (Unit {0})
  unfolding answer attempt
  claim_device handle =
      answer (λ log. bus.kernel_driver log handle) (Call.kernel_driver_active handle) >>= λ active.
      if active == 1
      then fail
      else attempt (λ log. bus.claim_fails log handle) (Call.claim_interface handle)

  unfoldable pub open_selected : Option Device → Bool → Cmd Calls Found
  unfolding open_handle
  open_selected none firmware = fail
  open_selected (some d) firmware =
      open_handle bus d >>= λ h. pure (record { device = d; needs_firmware = firmware; handle = h })

  -- An index below 0 finds nothing, as does one that is too large.
  unfoldable pub find_usb_device : ℕ → Cmd Calls Found
  unfolding list_devices open_selected claim_device on_error call finally
  find_usb_device index = list_devices bus >>= λ devices.
      let s = select_loop index devices no_selection in
      finally (open_selected s.device s.needs_firmware) Call.free_device_list >>= λ found.
      on_error (claim_device found.handle) (Call.libusb_close found.handle) >> pure found
