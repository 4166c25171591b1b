-- ===== src/Usb.antt =====
-- src/usb_device.c, the part that talks to an open device: `usb_device_control` and the I2C
-- functions. libusb is a parameter: `respond` is what `libusb_control_transfer` does with a
-- transfer after a history of earlier ones. A buffer carries its length with it.
use rf.Prelude.{ℕ, ◌%◌, ◌^◌, Bool, true, ◌||◌, List, [], ◌∷◌, ◌==◌, if◌then◌else◌}

pub record Transfer : Type 0 where
  pub request_type : ℕ
  pub request : ℕ
  pub value : ℕ
  pub index : ℕ
  pub bytes : List ℕ

-- `failed` is a negative return value; `received` is what libusb stored into the buffer.
pub record Reply : Type 0 where
  pub failed : Bool
  pub received : List ℕ

pub record Event : Type 0 where
  pub transfer : Transfer
  pub reply : Reply

-- Newest first.
abbrev pub Log : Type 0
Log = List Event

abbrev pub Libusb : Type 0
Libusb = Log → Transfer → Reply

-- The requests of usb_device.h.
abbrev pub startfx3 : ℕ
startfx3 = 0xaa

abbrev pub stopfx3 : ℕ
stopfx3 = 0xab

abbrev pub testfx3 : ℕ
testfx3 = 0xac

abbrev pub resetfx3 : ℕ
resetfx3 = 0xcc

abbrev pub pausefx3 : ℕ
pausefx3 = 0xdd

abbrev pub gpiofx3 : ℕ
gpiofx3 = 0xbc

abbrev pub i2cwfx3 : ℕ
i2cwfx3 = 0xba

abbrev pub i2crfx3 : ℕ
i2crfx3 = 0xbe

-- LIBUSB_ENDPOINT_OUT or LIBUSB_ENDPOINT_IN, with LIBUSB_REQUEST_TYPE_VENDOR.
abbrev pub write_request_type : ℕ
write_request_type = 0x40

abbrev pub read_request_type : ℕ
read_request_type = 0xc0

-- The device's address of the clock generator, which the GPIO requests carry too.
abbrev pub si5351_addr : ℕ
si5351_addr = 0xc0

-- The first bytes of a buffer are replaced by those received, as bytes.
unfoldable pub overlay : List ℕ → List ℕ → List ℕ
overlay [] buffer = buffer
overlay (b ∷ bs) [] = []
overlay (b ∷ bs) (x ∷ buffer) = (b % 2 ^ 8) ∷ overlay bs buffer

-- What a call of `usb_device_control` leaves: its result, the buffer and the history.
pub record Answer : Type 0 where
  pub failed : Bool
  pub buffer : List ℕ
  pub log : Log

module _ (respond : Libusb) where
  pub submit : Transfer → List ℕ → Log → Answer
  submit t buffer log =
      let r = respond log t in
      record { failed = r.failed; buffer = buffer; log = record { transfer = t; reply = r } ∷ log }

  pub control_write : ℕ → ℕ → ℕ → List ℕ → Log → Answer
  unfolding submit
  control_write request value index buffer log =
      submit
        (record {
          request_type = write_request_type;
          request = request;
          value = value;
          index = index;
          bytes = buffer;
        })
        buffer log

  pub control_read : ℕ → ℕ → ℕ → List ℕ → Log → Answer
  unfolding submit overlay
  control_read request value index buffer log =
      let t : Transfer = record {
        request_type = read_request_type;
        request = request;
        value = value;
        index = index;
        bytes = buffer;
      } in
      submit t (overlay (respond log t).received buffer) log

  -- The switch on the request. A dummy byte goes out with the four plain commands.
  unfoldable pub control : ℕ → ℕ → ℕ → List ℕ → Log → Answer
  unfolding control_write control_read
  control request value index buffer log =
      if request == resetfx3 || request == startfx3 || request == stopfx3 || request == pausefx3
      then record (control_write request 0 0 (0 ∷ []) log) { buffer = buffer }
      else if request == gpiofx3 || request == i2cwfx3
      then control_write request value index buffer log
      else if request == testfx3 || request == i2crfx3
      then control_read request value index buffer log
      else record { failed = true; buffer = buffer; log = log }

  unfoldable pub i2c_write : ℕ → ℕ → List ℕ → Log → Answer
  unfolding control
  i2c_write address register buffer log = control i2cwfx3 address register buffer log

  unfoldable pub i2c_write_byte : ℕ → ℕ → ℕ → Log → Answer
  unfolding control
  i2c_write_byte address register value log = control i2cwfx3 address register (value ∷ []) log

  unfoldable pub i2c_read : ℕ → ℕ → List ℕ → Log → Answer
  unfolding control
  i2c_read address register buffer log = control i2crfx3 address register buffer log
