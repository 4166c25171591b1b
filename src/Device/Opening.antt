-- ===== src/Device/Opening.antt =====
-- `usb_device_open`, `load_image` and `usb_device_close` of src/usb_device.c.
use rf.Prelude.{ℕ, Bool, ◌||◌, List, [], ◌==◌, if◌then◌else◌}
use rf.Prelude.{Cmd, pure, fail, gets, ◌>>=◌, ◌>>◌}
use rf.Prelude.{length}
use rf.Device.Calls.{
  Device, Calls, Bus, Context, Call, call, answer, attempt, on_error, init_context,
}
use rf.Device.Search.{Found, find_usb_device}
use rf.Device.Endpoints.{Entry, Scan, more, full, broken, scan_configuration, BulkIn, find_bulk_in}

-- `struct usb_device`. `completed` is only ever read by libusb.
pub record UsbDevice : Type 0 where
  pub dev : Device
  pub dev_handle : ℕ
  pub context : Context
  pub completed : ℕ
  pub nendpoints : ℕ
  pub endpoints : List Entry
  pub bulk_in : BulkIn
  pub gpio_register : ℕ

-- LIBUSB_SPEED_LOW, LIBUSB_SPEED_FULL and LIBUSB_SPEED_HIGH.
abbrev pub is_slow : ℕ → Bool
is_slow speed = speed == 1 || speed == 2 || speed == 3

abbrev pub scanned : Scan → Cmd Calls (List Entry)
scanned (more found) = pure found
scanned (full found) = pure found
scanned broken = fail

module _ (bus : Bus) where
  -- The statements after its `return` are never reached.
  unfoldable pub load_image : ℕ → ℕ → Cmd Calls (Unit {0})
  unfolding attempt
  load_image handle imagefile =
      attempt (λ log. bus.load_fails log handle imagefile) (Call.load_ram handle imagefile)

  -- The configuration descriptor is not freed.
  unfoldable pub list_endpoints : Device → Cmd Calls (List Entry)
  unfolding answer scan_configuration
  list_endpoints d =
      answer (λ log. bus.active_config log d) (Call.get_active_config_descriptor d) >>= λ config.
      scanned (scan_configuration bus.companion config [])

  -- With new firmware the device comes back as another one, and is looked for again.
  unfoldable pub renew : ℕ → ℕ → Found → Cmd Calls Found
  unfolding load_image find_usb_device on_error call
  renew index imagefile f =
      if f.needs_firmware
      then on_error (load_image f.handle imagefile) (Call.libusb_close f.handle)
        >> call (Call.libusb_close f.handle)
        >> (find_usb_device bus index >>= λ g.
            if g.needs_firmware then on_error fail (Call.libusb_close g.handle) else pure g)
      else pure f

  unfoldable pub make_device : ℕ → Found → List Entry → Cmd Calls UsbDevice
  unfolding find_bulk_in
  make_device gpio_register f entries =
      let bulk = find_bulk_in entries in
      if bulk.bulk_address == 0
      then fail
      else pure (record {
        dev = f.device;
        dev_handle = f.handle;
        context = Context.own;
        completed = 0;
        nendpoints = length entries;
        endpoints = entries;
        bulk_in = bulk;
        gpio_register = gpio_register;
      })

  unfoldable pub inspect : ℕ → Found → Cmd Calls UsbDevice
  unfolding list_endpoints make_device
  inspect gpio_register f = gets (λ log. bus.speed log f.device) >>= λ speed.
      if is_slow speed then fail else list_endpoints f.device >>= make_device gpio_register f

  -- The context of the device is not the one that is left on failure.
  unfoldable pub open_device : ℕ → ℕ → ℕ → Cmd Calls UsbDevice
  unfolding init_context find_usb_device renew inspect on_error
  open_device index imagefile gpio_register =
      init_context bus Context.own
      >> on_error
          (find_usb_device bus index >>= renew index imagefile >>= λ f.
            on_error (inspect gpio_register f) (Call.libusb_close f.handle))
          (Call.exit Context.default)

-- Here too the default context is left.
unfoldable pub close_device : UsbDevice → Cmd Calls (Unit {0})
unfolding call
close_device d = call (Call.libusb_close d.dev_handle) >> call (Call.exit Context.default)
