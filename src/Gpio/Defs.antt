-- ===== src/Gpio/Defs.antt =====
-- The GPIO functions of src/usb_device.c and of src/librf103.c.
use rf.Prelude.{ℕ, ◌%◌, ◌^◌, bit_and, bit_or, bit_xor, Bool, not, ◌==◌, if◌then◌else◌, [], ◌∷◌}
use rf.Prelude.{Cmd, ok, err, fail}
use rf.Bits.{not32}
use rf.Double.{Doubles}
use rf.Usb.{Log, Libusb, control, gpiofx3, si5351_addr}

-- The GPIO register of `struct usb_device`, and the transfers so far.
pub record Board : Type 0 where
  pub gpio_register : ℕ
  pub log : Log

-- `enum GPIOBits`.
abbrev pub gpio_leds : ℕ
gpio_leds = bit_or (bit_or 0x01 0x02) 0x04

abbrev pub gpio_sel0 : ℕ
gpio_sel0 = 0x08

abbrev pub gpio_sel1 : ℕ
gpio_sel1 = 0x10

abbrev pub gpio_dither : ℕ
gpio_dither = 0x40

abbrev pub gpio_random : ℕ
gpio_random = 0x80

abbrev pub initial_gpio_register : ℕ
initial_gpio_register = bit_or gpio_sel1 gpio_leds

-- An assignment to the register, a `uint8_t`.
abbrev pub assign : (ℕ → ℕ) → Board → Board
assign f s = record s { gpio_register = f s.gpio_register % 2 ^ 8 }

-- The test of the three LED functions.
abbrev pub is_led_pattern : ℕ → Bool
is_led_pattern led_pattern = bit_and led_pattern (not32 gpio_leds) == 0

module _ (respond : Libusb) where
  -- The register is sent as it is.
  unfoldable pub send : Cmd Board (Unit {0})
  unfolding control
  send s =
      let a = control respond gpiofx3 si5351_addr 0 (s.gpio_register ∷ []) s.log in
      if a.failed then err (record s { log = a.log }) else ok tt (record s { log = a.log })

  unfoldable pub gpio_set : ℕ → ℕ → Cmd Board (Unit {0})
  unfolding send
  gpio_set bit_pattern bit_mask s =
      send (assign (λ g. bit_or (bit_and g (not32 bit_mask)) bit_pattern) s)

  unfoldable pub gpio_on : ℕ → Cmd Board (Unit {0})
  unfolding send
  gpio_on bit_pattern s = send (assign (λ g. bit_or g bit_pattern) s)

  unfoldable pub gpio_off : ℕ → Cmd Board (Unit {0})
  unfolding send
  gpio_off bit_pattern s = send (assign (λ g. bit_and g (not32 bit_pattern)) s)

  unfoldable pub gpio_toggle : ℕ → Cmd Board (Unit {0})
  unfolding send
  gpio_toggle bit_pattern s = send (assign (λ g. bit_xor g bit_pattern) s)

  unfoldable pub led_on : ℕ → Cmd Board (Unit {0})
  unfolding gpio_on
  led_on led_pattern = if not (is_led_pattern led_pattern) then fail else gpio_on led_pattern

  unfoldable pub led_off : ℕ → Cmd Board (Unit {0})
  unfolding gpio_off
  led_off led_pattern = if not (is_led_pattern led_pattern) then fail else gpio_off led_pattern

  unfoldable pub led_toggle : ℕ → Cmd Board (Unit {0})
  unfolding gpio_toggle
  led_toggle led_pattern =
      if not (is_led_pattern led_pattern) then fail else gpio_toggle led_pattern

  unfoldable pub adc_dither : ℕ → Cmd Board (Unit {0})
  unfolding gpio_on gpio_off
  adc_dither dither = if not (dither == 0) then gpio_on gpio_dither else gpio_off gpio_dither

  -- The call of `adc_set_random` after the two branches is never reached.
  unfoldable pub adc_random : ℕ → Cmd Board (Unit {0})
  unfolding gpio_on gpio_off
  adc_random random = if not (random == 0) then gpio_on gpio_random else gpio_off gpio_random

  module _ (doubles : Doubles) where
    open doubles use {Double, to_i32}

    unfoldable pub hf_attenuation : Double → Cmd Board (Unit {0})
    unfolding gpio_set
    hf_attenuation attenuation =
        let n = to_i32 attenuation in
        let both = bit_or gpio_sel0 gpio_sel1 in
        if n == 0
        then gpio_set gpio_sel1 both
        else if n == 10
        then gpio_set both both
        else if n == 20
        then gpio_set gpio_sel0 both
        else fail
