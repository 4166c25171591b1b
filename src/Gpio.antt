-- ===== src/Gpio.antt =====
-- The GPIO register: src/usb_device.c `usb_device_gpio_set`, `_on`, `_off` and `_toggle`, and the
-- functions of src/librf103.c on the LEDs, the ADC's dither and randomisation, and the attenuator.
pub mod Defs
pub mod Digits
pub mod Panel
pub mod Tests
