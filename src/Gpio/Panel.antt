-- ===== src/Gpio/Panel.antt =====
-- The GPIO functions of src/librf103.c: which bits each may change, and how.
use rf.Prelude.{ℕ, ◌+◌, ◌-◌, ◌%◌, ◌≤◌, ◌<◌, ◌≡◌, min, max, refl, arith, ◌∙◌}
use rf.Prelude.{
  Bool, true, false, not, ◌||◌, ltb, leb, ◌==◌, ==_iff, if◌then◌else◌, Bool-cases, inl, inr,
  all_below, all_below_sound,
}
use rf.Prelude.{Cmd, Outcome, err, fail, Ends-mono}
use rf.Bits.{bit, bit-le-one, bit_above}
use rf.Double.{Doubles}
use rf.Usb.{Libusb}
use rf.Gpio.Defs.{Board, gpio_set, gpio_on, gpio_off, gpio_toggle, is_led_pattern}
use rf.Gpio.Defs.{led_on, led_off, led_toggle, adc_dither, adc_random, hf_attenuation}
use rf.Gpio.Digits.{Changed, Changes, gpio_set_lem, gpio_on_lem, gpio_off_lem, gpio_toggle_lem}

module _ (doubles : Doubles) where
  open doubles use {Double, to_i32}

  -- What a client asks of the board.
  pub data Panel : Type 0 where
    leds_on leds_off leds_toggle dither random : ℕ → Panel
    attenuation : Double → Panel

  unfoldable pub press : Libusb → Panel → Cmd Board (Unit {0})
  press respond (leds_on p) = led_on respond p
  press respond (leds_off p) = led_off respond p
  press respond (leds_toggle p) = led_toggle respond p
  press respond (dither d) = adc_dither respond d
  press respond (random r) = adc_random respond r
  press respond (attenuation a) = hf_attenuation respond doubles a

  -- The argument is of its C type; a LED pattern is a `uint8_t`.
  abbrev pub is_byte : Panel → Bool
  is_byte (leds_on p) = ltb p 256
  is_byte (leds_off p) = ltb p 256
  is_byte (leds_toggle p) = ltb p 256
  is_byte _ = true

  -- Three LEDs, and three attenuations.
  abbrev pub is_valid : Panel → Bool
  is_valid (leds_on p) = leb p 7
  is_valid (leds_off p) = leb p 7
  is_valid (leds_toggle p) = leb p 7
  is_valid (dither d) = true
  is_valid (random r) = true
  is_valid (attenuation a) = to_i32 a == 0 || to_i32 a == 10 || to_i32 a == 20

  -- The bits that a function may change.
  abbrev pub touches : Panel → ℕ → Bool
  touches (leds_on p) i = ltb i 3
  touches (leds_off p) i = ltb i 3
  touches (leds_toggle p) i = ltb i 3
  touches (dither d) i = i == 6
  touches (random r) i = i == 7
  touches (attenuation a) i = i == 3 || i == 4

  -- What becomes of such a bit `x`. Bit 3 selects 10 and 20 dB, bit 4 selects 0 and 10 dB.
  abbrev pub bit_after : Panel → ℕ → ℕ → ℕ
  bit_after (leds_on p) i x = max x (bit p i)
  bit_after (leds_off p) i x = min x (1 - bit p i)
  bit_after (leds_toggle p) i x = (x + bit p i) % 2
  bit_after (dither d) i x = if d == 0 then 0 else 1
  bit_after (random r) i x = if r == 0 then 0 else 1
  bit_after (attenuation a) i x =
      if i == 3 then (if to_i32 a == 0 then 0 else 1) else (if to_i32 a == 20 then 0 else 1)

  abbrev pub new_bit : Panel → ℕ → ℕ → ℕ
  new_bit op i x = if touches op i then bit_after op i x else x

  -- A valid request changes the bits so, and sends them; another one leaves all as it was.
  abbrev pub Presses : Bool → Libusb → Panel → Board → Outcome Board (Unit {0}) → Type 0
  Presses true respond op s o = Changes respond (new_bit op) s o
  Presses false respond op s o = o ≡ err s

Changes-ext :
    (respond : Libusb) (f g : ℕ → ℕ → ℕ) (s : Board) (o : Outcome Board (Unit {0}))
    → ((i x : ℕ) → i < 8 → x ≤ 1 → f i x ≡ g i x)
    → Changes respond f s o
    → Changes respond g s o
Changes-ext respond f g s o same =
    Ends-mono (λ _. Changed respond f false s) (λ _. Changed respond g false s)
      (Changed respond f true s) (Changed respond g true s) o (λ _ t. rename false t)
      (λ t. rename true t)
  where
    rename : (b : Bool) (t : Board) → Changed respond f b s t → Changed respond g b s t
    rename b t c = record {
      word = c.word;
      digits = λ i h. c.digits i h ∙ same i (bit s.gpio_register i) h (bit-le-one _ i);
      answer = c.answer;
      log = c.log;
    }

led_agrees : ℕ → Bool
led_agrees q = if is_led_pattern q then leb q 7 else not (leb q 7)

led_test : (p : ℕ) → p < 256 → is_led_pattern p ≡ leb p 7
unfolding led_agrees
led_test p h = ground (arith, all_below_sound 256 led_agrees p table h)
  where
    table : all_below 256 led_agrees ≡ true
    table = unfold all_below in refl

-- The digits of a constant.
mask_digits :
    (m : ℕ) (here : ℕ → Bool)
    → all_below 8 (λ j. bit m j == (if here j then 1 else 0)) ≡ true
    → (i : ℕ) → i < 8
    → bit m i ≡ (if here i then 1 else 0)
mask_digits m here table i h =
    (==_iff _ _).0 (all_below_sound 8 (λ j. bit m j == (if here j then 1 else 0)) i table h)

module _ (doubles : Doubles) (respond : Libusb) where
  -- A LED pattern in range, or a refusal.
  led_pattern :
      (p : ℕ) (s : Board) (m : Cmd Board (Unit {0})) (op : Panel doubles)
      → p < 256
      → (leb p 7 ≡ true → Changes respond (new_bit doubles op) s (m s))
      → Presses doubles (leb p 7) respond op s ((if not (is_led_pattern p) then fail else m) s)
  led_pattern p s m op h k = elim (Bool-cases (leb p 7)) [
    | inl low ↦ rw (led_test p h, low) (k low)
    | inr high ↦ rw (led_test p h, high) (unfold fail in refl)
  ]

  -- The selection by a mask of the two bits.
  select_lem :
      (a : doubles.Double) (p : ℕ) (s : Board)
      → ((i x : ℕ)
          → i < 8
          → x ≤ 1
          → max (min x (1 - bit 0x18 i)) (bit p i) ≡ new_bit doubles (attenuation a) i x)
      → Changes respond (new_bit doubles (attenuation a)) s (gpio_set respond p 0x18 s)
  select_lem a p s same =
      Changes-ext respond _ _ s _ same (gpio_set_lem respond p 0x18 s (omega arith))

  attenuation_lem :
      (a : doubles.Double) (s : Board)
      → Presses doubles
          (is_valid doubles (attenuation a))
          respond
          (attenuation a)
          s
          (hf_attenuation respond doubles a s)
  unfolding hf_attenuation bit all_below fail
  attenuation_lem a s = elim (Bool-cases (doubles.to_i32 a == 0)) [
    | inl zero_db ↦ rw zero_db (
        select_lem a 0x10 s λ i x k l. ground (
          arith,
          zero_db,
          mask_digits 0x18 (λ j. j == 3 || j == 4) refl i,
          mask_digits 0x10 (λ j. j == 4) refl i,
        ))
    | inr more ↦ elim (Bool-cases (doubles.to_i32 a == 10)) [
      | inl ten_db ↦
          rw (more, ten_db)
            (select_lem a 0x18 s λ i x k l.
              ground (arith, more, ten_db, mask_digits 0x18 (λ j. j == 3 || j == 4) refl i))
      | inr other ↦ elim (Bool-cases (doubles.to_i32 a == 20)) [
        | inl twenty_db ↦
            rw (more, other, twenty_db)
              (select_lem a 0x08 s λ i x k l. ground (
                arith,
                more,
                twenty_db,
                mask_digits 0x18 (λ j. j == 3 || j == 4) refl i,
                mask_digits 0x08 (λ j. j == 3) refl i,
              ))
        | inr invalid ↦ rw (more, other, invalid) refl
      ]
    ]
  ]

  -- Every request whose LED pattern is a byte: if it is valid, the new register has the bits of
  -- the request changed and the others as before, and it is sent, once; the result is an error
  -- just when that transfer fails. An invalid one is an error, and nothing is sent or changed.
  pub press_lem :
      (op : Panel doubles) (s : Board)
      → is_byte doubles op ≡ true
      → Presses doubles (is_valid doubles op) respond op s (press doubles respond op s)
  unfolding bit all_below press led_on led_off led_toggle adc_dither adc_random hf_attenuation
  press_lem (leds_on p) s h = led_pattern p s (gpio_on respond p) (leds_on p) (ground arith) λ low.
      Changes-ext respond _ _ s _ (λ i x k l. ground (arith, bit_above 3 p i, low, bit-le-one p i))
        (gpio_on_lem respond p s)
  press_lem (leds_off p) s h =
      led_pattern p s (gpio_off respond p) (leds_off p) (ground arith) λ low.
        Changes-ext respond _ _ s _
          (λ i x k l. ground (arith, bit_above 3 p i, low, bit-le-one p i))
          (gpio_off_lem respond p s (ground arith))
  press_lem (leds_toggle p) s h =
      led_pattern p s (gpio_toggle respond p) (leds_toggle p) (ground arith) λ low.
        Changes-ext respond _ _ s _
          (λ i x k l. ground (arith, bit_above 3 p i, low, bit-le-one p i))
          (gpio_toggle_lem respond p s)
  press_lem (dither d) s h = elim (Bool-cases (d == 0)) [
    | inl off ↦ rw off (
        Changes-ext respond _ _ s _
          (λ i x k l. ground (arith, mask_digits 0x40 (λ j. j == 6) refl i, off))
          (gpio_off_lem respond 0x40 s (omega arith)))
    | inr on ↦ rw on (
        Changes-ext respond _ _ s _
          (λ i x k l. ground (arith, mask_digits 0x40 (λ j. j == 6) refl i, on))
          (gpio_on_lem respond 0x40 s))
  ]
  press_lem (random r) s h = elim (Bool-cases (r == 0)) [
    | inl off ↦ rw off (
        Changes-ext respond _ _ s _
          (λ i x k l. ground (arith, mask_digits 0x80 (λ j. j == 7) refl i, off))
          (gpio_off_lem respond 0x80 s (omega arith)))
    | inr on ↦ rw on (
        Changes-ext respond _ _ s _
          (λ i x k l. ground (arith, mask_digits 0x80 (λ j. j == 7) refl i, on))
          (gpio_on_lem respond 0x80 s))
  ]
  press_lem (attenuation a) s h = attenuation_lem a s
