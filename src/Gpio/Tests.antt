-- ===== src/Gpio/Tests.antt =====
-- Runs of the GPIO functions at concrete inputs.
use rf.Prelude.{◌*◌, ◌≡◌, refl, true, false, [], err, fail}
use rf.FixedPoint.{fixed_point}
use rf.Usb.{Libusb}
use rf.Gpio.Defs.{Board, initial_gpio_register, led_on}
use rf.Gpio.Panel.{Presses, press, press_lem}
use rf.Gpio.Panel.Panel.{attenuation}

abbrev quiet_bus : Libusb
quiet_bus log t = record { failed = false; received = [] }

abbrev board : Board
board = record { gpio_register = initial_gpio_register; log = [] }

press_example :
    Presses fixed_point true quiet_bus
      (attenuation (20 * 131072))
      board
      (press fixed_point quiet_bus (attenuation (20 * 131072)) board)
press_example = press_lem fixed_point quiet_bus (attenuation (20 * 131072)) board refl

-- A pattern with a fourth LED is refused.
led_on_refused : led_on quiet_bus 8 board ≡ err board
unfolding led_on fail
led_on_refused = refl
