-- ===== src/Clock/Defs.antt =====
-- src/clock_source.c: the state of the clock source and its operations.
use rf.Prelude.{
  ℕ, zero, suc, ◌+◌, ◌-◌, ◌*◌, ◌/◌, ◌%◌, ◌^◌, bit_and, bit_or, not, ◌&&◌, ◌||◌, ltb, leb, ◌==◌,
  if◌then◌else◌,
}
use rf.Prelude.{List, [], ◌∷◌, replicate, Cmd, ok, err, aborted, fail, gets, modify, ◌>>=◌, ◌>>◌}
use rf.Bits.{not32}
use rf.Double.{Doubles}
use rf.Usb.{Log, Libusb, i2c_write, i2c_write_byte, si5351_addr}
use rf.Clock.Ratio.{Ratio, rational_approximation}

abbrev pub register_clk_base : ℕ
register_clk_base = 16

abbrev pub register_pll_reset : ℕ
register_pll_reset = 177

abbrev pub register_crystal_load : ℕ
register_crystal_load = 183

abbrev pub value_clk_pdn : ℕ
value_clk_pdn = 0x80

abbrev pub value_crystal_load_6pf : ℕ
value_crystal_load_6pf = bit_or (0x01 * 2 ^ 6) 0x12

-- SI5351_VALUE_MS_INT | SI5351_VALUE_CLK_SRC_MS | SI5351_VALUE_CLK_DRV_8MA
abbrev pub value_clk_on : ℕ
value_clk_on = bit_or (bit_or 0x40 0x0c) 0x03

abbrev pub max_denominator : ℕ
max_denominator = 1048575

-- The register of PLL A or B, and of the output divider 0 or 1.
abbrev pub msn_register : ℕ → ℕ
msn_register index = if index == 0 then 26 else 34

abbrev pub ms_register : ℕ → ℕ
ms_register index = if index == 0 then 42 else 50

-- The three parameters of a divider.
pub record Parameters : Type 0 where
  pub p1 : ℕ
  pub p2 : ℕ
  pub p3 : ℕ

-- In `uint32_t`.
unfoldable pub pll_parameters : ℕ → ℕ → ℕ → Parameters
pll_parameters a b c =
    let b_over_c = 128 * b % 2 ^ 32 / c in
    record {
      p1 = (128 * a + b_over_c + 2 ^ 32 - 512) % 2 ^ 32;
      p2 = (128 * b + 2 ^ 32 - c * b_over_c % 2 ^ 32) % 2 ^ 32;
      p3 = c;
    }

unfoldable pub output_parameters : ℕ → Parameters
output_parameters output_ms = record {
  p1 = (128 * output_ms + 2 ^ 32 - 512) % 2 ^ 32;
  p2 = 0;
  p3 = 1;
}

-- The eight bytes of a divider, each a `uint8_t`; the third has the R divider above.
unfoldable pub divider_bytes : ℕ → Parameters → List ℕ
divider_bytes rdiv p =
    bit_and p.p3 0x0000_ff00 / 2 ^ 8
    ∷ bit_and p.p3 0x0000_00ff
    ∷ bit_or (rdiv * 2 ^ 5) (bit_and p.p1 0x0003_0000 / 2 ^ 16) % 2 ^ 8
    ∷ bit_and p.p1 0x0000_ff00 / 2 ^ 8
    ∷ bit_and p.p1 0x0000_00ff
    ∷ bit_or (bit_and p.p3 0x000f_0000 / 2 ^ 12) (bit_and p.p2 0x000f_0000 / 2 ^ 16)
    ∷ bit_and p.p2 0x0000_ff00 / 2 ^ 8
    ∷ bit_and p.p2 0x0000_00ff
    ∷ []

module _ (doubles : Doubles) where
  open doubles use {Double, of_int, decimal, mul, div, lt, to_u32}

  -- `struct clock_source`, and the transfers so far.
  pub record ClockSource : Type 0 where
    pub crystal_frequency : Double
    pub frequency_correction : Double
    pub log : Log

  abbrev pub set_crystal_frequency : Double → ClockSource → ClockSource
  set_crystal_frequency x s = record s { crystal_frequency = x }

  abbrev pub set_frequency_correction : Double → ClockSource → ClockSource
  set_frequency_correction x s = record s { frequency_correction = x }

  -- The frequency after doublings, and their number.
  pub record RDivider : Type 0 where
    pub rdiv : ℕ
    pub r_frequency : Double

  -- The loop for frequencies below 1 MHz. It doubles at most 8 times, so in the last of
  -- 9 rounds its test on `rdiv` ends it.
  unfoldable pub r_divider_loop : ℕ → RDivider → RDivider
  r_divider_loop zero r = r
  r_divider_loop (suc rounds) r =
      let rest =
        r_divider_loop rounds
          (record { rdiv = (r.rdiv + 1) % 2 ^ 8; r_frequency = mul r.r_frequency (of_int 2) }) in
      if lt r.r_frequency (of_int 1_000_000) && leb r.rdiv 7 then rest else r

  unfoldable pub choose_r_divider : Double → RDivider
  unfolding r_divider_loop
  choose_r_divider frequency = r_divider_loop 9 (record { rdiv = 0; r_frequency = frequency })

  -- The feedback divider from the frequency after the R divider.
  unfoldable pub feedback_ratio : Double → ℕ → ClockSource → Ratio doubles
  unfolding rational_approximation
  feedback_ratio r_frequency output_ms s =
      let vco_frequency = mul r_frequency (of_int output_ms) in
      let feedback_ms = div vco_frequency (div s.crystal_frequency s.frequency_correction) in
      rational_approximation doubles feedback_ms max_denominator

  module _ (respond : Libusb) where
    -- An I2C write to the Si5351.
    unfoldable pub send_bytes : ℕ → List ℕ → Cmd ClockSource (Unit {0})
    unfolding i2c_write
    send_bytes register bytes s =
        let a = i2c_write respond si5351_addr register bytes s.log in
        if a.failed then err (record s { log = a.log }) else ok tt (record s { log = a.log })

    unfoldable pub send_byte : ℕ → ℕ → Cmd ClockSource (Unit {0})
    unfolding i2c_write_byte
    send_byte register value s =
        let a = i2c_write_byte respond si5351_addr register value s.log in
        if a.failed then err (record s { log = a.log }) else ok tt (record s { log = a.log })

    unfoldable pub power_down_clocks : Cmd ClockSource (Unit {0})
    unfolding send_bytes
    power_down_clocks = send_bytes register_clk_base (replicate 8 value_clk_pdn)

    -- The state that is given has the history only. An error means that there is no clock source.
    unfoldable pub open_clock : Cmd ClockSource (Unit {0})
    unfolding send_byte
    open_clock = do
      send_byte register_crystal_load value_crystal_load_6pf
      modify (λ s. record {
        crystal_frequency = of_int 27_000_000;
        frequency_correction = decimal 9_999_314 7;
        log = s.log;
      })
      power_down_clocks

    -- A failure is only reported, and the memory is freed either way: the history is left.
    unfoldable pub close_clock : ClockSource → Log
    unfolding power_down_clocks
    close_clock s = elim (power_down_clocks s) [ ok a t ↦ t.log | err t ↦ t.log | aborted ↦ s.log ]

    unfoldable pub configure_clock_input_and_pll : ℕ → Ratio doubles → Cmd ClockSource (Unit {0})
    unfolding send_bytes pll_parameters divider_bytes
    configure_clock_input_and_pll index r =
        send_bytes (msn_register index) (divider_bytes 0 (pll_parameters r.a r.b r.c))

    unfoldable pub configure_clock_output : ℕ → ℕ → ℕ → Cmd ClockSource (Unit {0})
    unfolding send_bytes output_parameters divider_bytes
    configure_clock_output index output_ms rdiv =
        send_bytes (ms_register index) (divider_bytes rdiv (output_parameters output_ms))

    unfoldable pub set_clock : ℕ → Double → Cmd ClockSource (Unit {0})
    unfolding choose_r_divider
    set_clock index frequency =
        let r = choose_r_divider frequency in
        let output_ms = bit_and (to_u32 (div (of_int 900_000_000) r.r_frequency)) (not32 1) in
        if not (index == 0 || index == 1)
        then fail
        else if lt r.r_frequency (of_int 1_000_000)
        then fail
        else if ltb output_ms 4 || ltb 2048 output_ms
        then fail
        else do
          ratio ← gets (feedback_ratio r.r_frequency output_ms)
          configure_clock_input_and_pll index ratio
          configure_clock_output index output_ms r.rdiv

    -- The reset of the PLL, then the clock's control register; another index than 0 and 1
    -- resets none.
    unfoldable pub start_clock : ℕ → Cmd ClockSource (Unit {0})
    unfolding send_byte
    start_clock index = do
      send_byte register_pll_reset (if index == 0 then 0x20 else if index == 1 then 0x80 else 0)
      send_byte ((register_clk_base + index) % 2 ^ 8)
          (bit_or value_clk_on (if index == 1 then 0x20 else 0))

    unfoldable pub stop_clock : ℕ → Cmd ClockSource (Unit {0})
    unfolding send_byte
    stop_clock index = send_byte ((register_clk_base + index) % 2 ^ 8) value_clk_pdn
