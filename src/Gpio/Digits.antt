-- ===== src/Gpio/Digits.antt =====
-- What the GPIO functions do to each bit of the register, and what they send.
use rf.Prelude.{
  ℕ, ◌+◌, ◌-◌, ◌%◌, ◌^◌, ◌<◌, ◌≡◌, min, max, bit_and, bit_or, bit_xor, refl, arith, ◌∙◌,
}
use rf.Prelude.{Bool, true, false, if◌then◌else◌, [], ◌∷◌}
use rf.Prelude.{Outcome, ok, err, Ends}
use rf.Bits.{bit, not32, bit-bit_or, bit-bit_and, bit-bit_xor, bit-complement, bit-mod_two_pow}
use rf.Usb.{Libusb, Transfer, Reply, control, gpiofx3, si5351_addr, write_request_type}
use rf.Gpio.Defs.{Board, assign, send, gpio_set, gpio_on, gpio_off, gpio_toggle}

-- The transfer of the register.
abbrev pub gpio_transfer : ℕ → Transfer
gpio_transfer g = record {
  request_type = write_request_type;
  request = gpiofx3;
  value = si5351_addr;
  index = 0;
  bytes = g ∷ [];
}

-- Each of the eight bits is changed by `f`, and the new register is sent, once; `failed` is
-- libusb's answer.
pub record Changed (respond : Libusb) (f : ℕ → ℕ → ℕ) (failed : Bool) (s t : Board) : Type 0 where
  pub word : t.gpio_register < 2 ^ 8
  pub digits : (i : ℕ) → i < 8 → bit t.gpio_register i ≡ f i (bit s.gpio_register i)
  pub answer : (respond s.log (gpio_transfer t.gpio_register)).failed ≡ failed
  pub log :
      t.log
      ≡ record {
        transfer = gpio_transfer t.gpio_register;
        reply = respond s.log (gpio_transfer t.gpio_register);
      }
        ∷ s.log

abbrev pub Changes : Libusb → (ℕ → ℕ → ℕ) → Board → Outcome Board (Unit {0}) → Type 0
Changes respond f s o = Ends (λ _. Changed respond f false s) (Changed respond f true s) o

module _ (respond : Libusb) where
  send_assigned :
      (update : ℕ → ℕ) (f : ℕ → ℕ → ℕ) (s : Board)
      → ((i : ℕ) → i < 8 → bit (update s.gpio_register) i ≡ f i (bit s.gpio_register i))
      → Changes respond f s (send respond (assign update s))
  unfolding send control
  send_assigned update f s h = sent reply.failed refl
    where
      g : ℕ
      g = update s.gpio_register % 2 ^ 8

      reply : Reply
      reply = respond s.log (gpio_transfer g)

      after : Board
      after = record {
        gpio_register = g;
        log = record { transfer = gpio_transfer g; reply = reply } ∷ s.log;
      }

      changed : (b : Bool) → reply.failed ≡ b → Changed respond f b s after
      changed b e = record {
        word = omega arith;
        digits = λ i k. bit-mod_two_pow 8 _ i k ∙ h i k;
        answer = e;
        log = refl;
      }

      sent :
          (b : Bool) → reply.failed ≡ b → Changes respond f s (if b then err after else ok tt after)
      sent true e = changed true e
      sent false e = changed false e

  pub gpio_set_lem :
      (p m : ℕ) (s : Board)
      → m < 2 ^ 32
      → Changes respond (λ i x. max (min x (1 - bit m i)) (bit p i)) s (gpio_set respond p m s)
  unfolding gpio_set
  gpio_set_lem p m s k =
      send_assigned (λ g. bit_or (bit_and g (not32 m)) p)
        (λ i x. max (min x (1 - bit m i)) (bit p i)) s
        λ i h. omega (
          arith,
          bit-bit_or (bit_and s.gpio_register (not32 m)) p i,
          bit-bit_and s.gpio_register (not32 m) i,
          bit-complement 32 m i k (omega arith),
        )

  pub gpio_on_lem :
      (p : ℕ) (s : Board) → Changes respond (λ i x. max x (bit p i)) s (gpio_on respond p s)
  unfolding gpio_on
  gpio_on_lem p s =
      send_assigned (λ g. bit_or g p) (λ i x. max x (bit p i)) s
        λ i h. bit-bit_or s.gpio_register p i

  pub gpio_off_lem :
      (p : ℕ) (s : Board)
      → p < 2 ^ 32
      → Changes respond (λ i x. min x (1 - bit p i)) s (gpio_off respond p s)
  unfolding gpio_off
  gpio_off_lem p s k =
      send_assigned (λ g. bit_and g (not32 p)) (λ i x. min x (1 - bit p i)) s
        λ i h.
          omega
            (arith, bit-bit_and s.gpio_register (not32 p) i, bit-complement 32 p i k (omega arith))

  pub gpio_toggle_lem :
      (p : ℕ) (s : Board) → Changes respond (λ i x. (x + bit p i) % 2) s (gpio_toggle respond p s)
  unfolding gpio_toggle
  gpio_toggle_lem p s =
      send_assigned (λ g. bit_xor g p) (λ i x. (x + bit p i) % 2) s
        λ i h. bit-bit_xor s.gpio_register p i
