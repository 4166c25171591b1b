-- ===== src/Lib.antt =====
-- A model of librf103, the driver of wideband SDR receivers (BBRF103, RX-666, RX888), and what
-- makes it correct.
--
-- The program. `src/librf103.c` is the library's interface; it puts together the USB device
-- (`src/usb_device.c`), the Si5351 clock generator (`src/clock_source.c`), the ADC
-- (`src/adc.c`) and the R820T2 tuner (`src/tuner.c`). All but the ADC talk to the hardware by
-- USB control transfers, which the FX3 firmware turns into GPIO and I2C accesses.
--
-- The files.
--   Prelude     shared names; Prelude/Command has the commands, which end in a result, an error
--               (the C functions' -1) or a failed `assert`, and the predicates that they keep.
--   Bits        the binary digits, and masks of them (Bits/Masks), of numbers below a power of two.
--   Double      the `double` arithmetic of the compiler as a parameter, with the laws of IEEE 754
--               that are relied on. FixedPoint has a concrete arithmetic with these laws.
--   Usb         `usb_device_control` and the I2C functions. libusb is a parameter: a function
--               from the history of transfers and a transfer to the reply. What a driver did is
--               the history that it leaves.
--   Device      src/usb_device.c, devices. Calls has libusb and the firmware loader as a parameter:
--               each answers after the history of the calls so far. Search has
--               `usb_device_count_devices` and `find_usb_device`, Endpoints `list_endpoints`, Opening
--               `usb_device_open` and `usb_device_close`, Listing `usb_device_get_device_list` and
--               `usb_device_free_device_list`. Ledger defines which contexts, lists, handles and
--               configurations a history holds, Strings which blocks of memory are live. The other
--               modules prove: Rules the steps, Candidates and SearchLaws the choice of a device,
--               Renewal and OpeningLaws the opening, EndpointLaws and BulkIn the endpoints, Liveness
--               that a device that is there is opened, ListingLaws, Listed and Freed the lists.
--   Image       src/usb_device.c, `validate_image`. Defs has the function, Sections the sections of an
--               image and their sum, Rounds one round of the loop, Loading the loop, Validation the
--               images that it accepts. Its loop has a round for each word that is left.
--   Tuner       src/tuner.c. Fields has the register matrix, Defs the shadow registers with
--               `tuner_set_value`, `tuner_write_value`, `tuner_write_registers` and their reads,
--               Pll and Mux the computed parameters and their writes, Control the public setters,
--               Startup calibration and opening. Chip defines what the chip's registers were last
--               set to, as the history shows it. The other modules prove: Values the
--               fields, Runs and Flush the writes of runs, Coherence, Reads, Operations and
--               History that the shadow agrees with the chip, PllLaws and PllChoice the PLL,
--               MuxLaws the selection of a row, Effects the writes of a field. Tests has runs at
--               concrete inputs.
--   Gpio        the GPIO register: `usb_device_gpio_*`, and the LED, dither, randomisation and
--               attenuation functions of src/librf103.c. Digits proves the bits of the former,
--               Panel those of the latter.
--   Adc         src/adc.c. Frames has `struct adc`, `adc_open_sync`, `adc_open_async` and
--               `adc_close`, Samples the removal of the randomisation, Stream the status, the
--               transfers and the callback. Memory proves the frames, Accounting the counter of
--               active transfers, Starting `adc_start`. Machine has the status as an abstract machine,
--               which Callbacks and Statuses show the functions to refine. libusb answers a call after a history of
--               events, and decides which transfers end when its events are handled.
--   Clock       src/clock_source.c. Ratio has `rational_approximation`, Defs the other functions.
--               Registers proves the bytes of the dividers, Choice the R divider and the ratio.
--   Receiver    src/librf103.c. Defs has `struct rf103`, which the model flattens: the parts of the
--               USB device and the clock source stand in it, and the transfers of all are one
--               history. Opening has `rf103_open`, `rf103_close` and the device lists. Starting
--               proves the start of streaming, Lifecycle and Closing what opening and closing leave,
--               DeviceInfo that a device list is freed. A null pointer that would be followed is a
--               failed assertion here.
--   Wave        src/wavewrite.c and src/wavehdr.h. Header has the header and its bytes, Writer the
--               functions on a file. Bytes, Data and Sessions prove what is in a file that was
--               written, Layout where the numbers of the header stand.
--
-- Choices. The `#define`s are those of the source: TUNER_PARAMS_BBRF103 and
-- TUNER_BOUNDARY_SPUR_PREVENTION. A number is a natural number with its wrap-around written out.
-- The loops over the 32 registers have 33 rounds, as in the code; the loop that doubles the VCO's
-- frequency has 6, after which its own test on `sel_div` fails; that of the R divider has 9,
-- after which its test on `rdiv` fails. The search for a ratio has 100 rounds, as in the code, and
-- its inner loop as many as there are values of `m`.
--
-- Not modelled. Messages to stderr, `usleep`, and the heap (`malloc` and `free`), but for the device
-- memory of the frames and the blocks of the device lists; a `malloc` does not fail there. In
-- src/usb_device.c `transfer_image`, and the part of `load_image` that reads a file and calls it and
-- `validate_image`: `load_image` returns before it. The firmware loader `src/ezusb.c`, a copy of another
-- project's, whose `ezusb_load_ram` is a parameter. The test programs, which call the library from
-- the command line. In src/wavewrite.c the numbers of samples and channels are not negative.
pub mod Prelude
pub mod Bits
pub mod Double
pub mod FixedPoint
pub mod Usb
pub mod Tuner
pub mod Adc
pub mod Clock
pub mod Device
pub mod Gpio
pub mod Image
pub mod Receiver
pub mod Wave
