-- ===== src/Receiver/Opening.antt =====
-- src/librf103.c: `rf103_get_device_count`, `rf103_get_device_info`, `rf103_free_device_info`,
-- `rf103_open` and `rf103_close`.
use rf.Prelude.{
  ℕ, ◌+◌, ◌*◌, Bool, true, none, some, List, [], Cmd, ok, err, aborted, pure, ◌>>=◌, ◌>>◌,
}
use rf.Double.{Doubles}
use rf.Usb.{Log}
use rf.Gpio.Defs.{initial_gpio_register}
use rf.Clock.Defs.{ClockSource, open_clock, close_clock}
use rf.Tuner.Startup.{has_tuner}
use rf.Adc.Frames.{MemoryCall, close}
use rf.Device.Calls.{Calls, Bus, Call, call}
use rf.Device.Search.{count_devices}
use rf.Device.Listing.{DeviceInfos, allocate, get_device_list, free_device_list}
use rf.Device.Opening.{UsbDevice, open_device, close_device}
use rf.Receiver.Defs.{Receiver, World, focus, clock_of}
use rf.Receiver.Defs.RfMode.{hf_mode}

-- `rf103_get_device_count`.
unfoldable pub get_device_count : Bus → Cmd Calls ℕ
unfolding count_devices
get_device_count bus = count_devices bus

-- The array of `rf103_get_device_info` stands behind one element more, which holds the pointer to
-- the list of the USB device. Its entries are copies of those of that list.
pub record Rf103DeviceInfos : Type 0 where
  pub block : ℕ
  pub list : DeviceInfos

unfoldable pub get_device_info : Bus → Cmd Calls Rf103DeviceInfos
unfolding get_device_list allocate
get_device_info bus = get_device_list bus true >>= λ list.
    allocate ((list.count + 1) * 24) >>= λ block. pure (record { block = block; list = list })

unfoldable pub free_device_info : Rf103DeviceInfos → Cmd Calls (Unit {0})
unfolding free_device_list call
free_device_info infos = call (Call.free infos.block) >> free_device_list infos.list

-- What the library shares with the world: the calls that open and close the device, its control
-- transfers, and its device memory.
pub record System : Type 0 where
  pub calls : Calls
  pub log : Log
  pub memory : List MemoryCall

abbrev pub on_calls : {A : Type 0} → Cmd Calls A → Cmd System A
on_calls m = focus (λ s. s.calls) (λ c s. record s { calls = c }) m

module _ (doubles : Doubles) where
  open doubles use {of_int}

  -- `rf103_t`, whose USB device also stands for itself.
  pub record Opened : Type 0 where
    pub usb_device : UsbDevice
    pub receiver : Receiver doubles

  module _ (bus : Bus) (world : World) where
    unfoldable pub open_clock_source : Cmd System (ClockSource doubles)
    unfolding open_clock
    open_clock_source s =
        elim (open_clock doubles world.respond
          (record { crystal_frequency = of_int 0; frequency_correction = of_int 0; log = s.log })) [
            | ok a c ↦ ok c (record s { log = c.log })
            | err c ↦ err (record s { log = c.log })
            | aborted ↦ aborted
          ]

    -- `stack` is what `has_tuner` finds in its uninitialised buffer.
    unfoldable pub find_tuner : List ℕ → Cmd System Bool
    unfolding has_tuner focus
    find_tuner stack =
        focus (λ s. s.log) (λ l s. record s { log = l }) (has_tuner world.respond stack)

    unfoldable pub make_receiver : UsbDevice → ClockSource doubles → Bool → Cmd System Opened
    make_receiver d c tuner_found s =
        ok
          (record {
            usb_device = d;
            receiver = record {
              rf_mode = hf_mode;
              gpio_register = d.gpio_register;
              crystal_frequency = c.crystal_frequency;
              frequency_correction = c.frequency_correction;
              adc = none;
              has_tuner = tuner_found;
              tuner = none;
              sample_rate = of_int 0;
              log = s.log;
              events = [];
              memory = s.memory;
            };
          })
          s

    -- The failure of `clock_source_open` closes the USB device.
    unfoldable pub clock_or_close : UsbDevice → Cmd System (ClockSource doubles)
    unfolding open_clock_source close_device
    clock_or_close d s = elim (open_clock_source s) [
      | ok c t ↦ ok c t
      | err t ↦ elim (close_device d t.calls) [
        | ok u calls ↦ err (record t { calls = calls })
        | err calls ↦ err (record t { calls = calls })
        | aborted ↦ aborted
      ]
      | aborted ↦ aborted
    ]

    unfoldable pub open_receiver : List ℕ → ℕ → ℕ → Cmd System Opened
    unfolding open_device clock_or_close find_tuner make_receiver
    open_receiver stack index imagefile =
        on_calls (open_device bus index imagefile initial_gpio_register) >>= λ d.
        clock_or_close d >>= λ c. find_tuner stack >>= λ tuner_found. make_receiver d c tuner_found

    -- What is left when the receiver is gone; `tuner_close` frees memory only.
    unfoldable pub close_receiver : Opened → Calls → System
    unfolding close close_clock close_device
    close_receiver o calls =
        let r = o.receiver in
        record {
          calls = elim (close_device o.usb_device calls) [
            | ok u t ↦ t
            | err t ↦ t
            | aborted ↦ calls
          ];
          log = close_clock doubles world.respond (clock_of doubles r);
          memory = elim r.adc [ none ↦ r.memory | some adc ↦ close adc r.memory ];
        }
