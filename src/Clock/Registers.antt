-- ===== src/Clock/Registers.antt =====
-- The bytes of a divider, read back as the chip reads them.
use rf.Prelude.{ℕ, ◌+◌, ◌*◌, ◌/◌, ◌%◌, ◌^◌, ◌≤◌, ◌<◌, bit_and, bit_or, ◌≡◌, refl, ◌∙◌, arith}
use rf.Prelude.{List, get_or}
use native.Mathlib.Nat.{div-add-mod', mod-lt}
use rf.Bits.Masks.{bit_and-mask, bit_or-join}
use rf.Clock.Defs.{Parameters, pll_parameters, output_parameters, divider_bytes}

abbrev byte : List ℕ → ℕ → ℕ
byte bytes i = get_or bytes i 0

-- The parameters that eight bytes stand for: 18 bits, 20 bits and 20 bits.
abbrev pub decoded : List ℕ → Parameters
decoded bytes = record {
  p1 = byte bytes 2 % 4 * 65536 + byte bytes 3 * 256 + byte bytes 4;
  p2 = byte bytes 5 % 16 * 65536 + byte bytes 6 * 256 + byte bytes 7;
  p3 = byte bytes 5 / 16 * 65536 + byte bytes 0 * 256 + byte bytes 1;
}

-- The masks of the code.
low_byte_mask : (x : ℕ) → bit_and x 0xff ≡ x % 256
low_byte_mask x = omega (arith, bit_and-mask 0 8 x)

second_byte_mask : (x : ℕ) → bit_and x 0xff00 / 2 ^ 8 ≡ x / 256 % 256
second_byte_mask x = omega (arith, bit_and-mask 8 8 x)

two_bits_mask : (x : ℕ) → bit_and x 0x30000 / 2 ^ 16 ≡ x / 65536 % 4
two_bits_mask x = omega (arith, bit_and-mask 16 2 x)

four_bits_mask : (x : ℕ) → bit_and x 0xf0000 ≡ x / 65536 % 16 * 65536
four_bits_mask x = omega (arith, bit_and-mask 16 4 x)

-- The byte that parameters 2 and 3 share.
shared_byte :
    (x y : ℕ)
    → bit_or (bit_and x 0xf0000 / 2 ^ 12) (bit_and y 0xf0000 / 2 ^ 16)
      ≡ x / 65536 % 16 * 16 + y / 65536 % 16
shared_byte x y =
    let high : bit_and x 0xf0000 / 2 ^ 12 ≡ x / 65536 % 16 * 2 ^ 4 =
      omega (arith, four_bits_mask x) in
    let low : bit_and y 0xf0000 / 2 ^ 16 ≡ y / 65536 % 16 = omega (arith, four_bits_mask y) in
    rw (high, low) (bit_or-join 4 (x / 65536 % 16) (y / 65536 % 16) (omega arith))

-- The byte that parameter 1 shares with the R divider.
r_byte :
    (rdiv x : ℕ)
    → bit_or (rdiv * 2 ^ 5) (bit_and x 0x30000 / 2 ^ 16) % 2 ^ 8 ≡ rdiv % 8 * 32 + x / 65536 % 4
r_byte rdiv x =
    let low : bit_and x 0x30000 / 2 ^ 16 ≡ x / 65536 % 4 = two_bits_mask x in
    rw low (omega (arith, bit_or-join 5 rdiv (x / 65536 % 4) (omega arith)))

-- The third byte's upper three bits.
abbrev pub r_field : List ℕ → ℕ
r_field bytes = byte bytes 2 / 32

-- Parameters that fit are read back, with the lowest three bits of the R divider.
abbrev ReadsBack : ℕ → Parameters → List ℕ → Type 0
ReadsBack rdiv p bytes =
    ((decoded bytes).p1 ≡ p.p1)
    × ((decoded bytes).p2 ≡ p.p2)
    × ((decoded bytes).p3 ≡ p.p3)
    × (r_field bytes ≡ rdiv % 8)

read_back :
    (rdiv : ℕ) (p : Parameters)
    → p.p1 < 2 ^ 18
    → p.p2 < 2 ^ 20
    → p.p3 < 2 ^ 20
    → ReadsBack rdiv p (divider_bytes rdiv p)
unfolding divider_bytes
read_back rdiv p h1 h2 h3 = (
  omega (arith, r_byte rdiv p.p1, second_byte_mask p.p1, low_byte_mask p.p1),
  omega (arith, shared_byte p.p3 p.p2, second_byte_mask p.p2, low_byte_mask p.p2),
  omega (arith, shared_byte p.p3 p.p2, second_byte_mask p.p3, low_byte_mask p.p3),
  omega (arith, r_byte rdiv p.p1),
)

module _ (a b c : ℕ) (low : 4 ≤ a) (high : a ≤ 2050) (pos : 0 < c) (small : c < 2 ^ 20)
    (below : b ≤ c) where
  b_over_c : ℕ
  b_over_c = 128 * b / c

  rest : ℕ
  rest = 128 * b % c

  divided : (c * b_over_c + rest ≡ 128 * b) × (rest < c)
  unfolding b_over_c rest
  divided = (grind (arith, div-add-mod' (128 * b) c), mod-lt (128 * b) pos)

  b_over_c-le : b_over_c ≤ 128
  b_over_c-le = grind (arith, divided, below, pos)

  parameters_eq :
      ((pll_parameters a b c).p1 + 512 ≡ 128 * a + b_over_c) × ((pll_parameters a b c).p2 ≡ rest)
  unfolding pll_parameters b_over_c
  parameters_eq =
      let cut : 128 * b % 2 ^ 32 ≡ 128 * b = omega arith in
      rw cut (omega (arith, b_over_c-le), omega (arith, divided))

  -- With an integer part from 4 to 2050 and a fraction b / c of at most one, c below 2 ^ 20, the
  -- PLL's bytes are read back as parameters that stand for a + b / c: (p1 + 512 + p2 / p3) / 128
  -- is that number, p2 is below p3, and p3 is c.
  pub pll_bytes_lem :
      ((decoded (divider_bytes 0 (pll_parameters a b c))).p1 + 512) * c
          + (decoded (divider_bytes 0 (pll_parameters a b c))).p2
        ≡ 128 * (a * c + b)
      × (decoded (divider_bytes 0 (pll_parameters a b c))).p2 < c
      × (decoded (divider_bytes 0 (pll_parameters a b c))).p3 ≡ c
  pll_bytes_lem =
      let p = pll_parameters a b c in
      let back =
        read_back 0 p (omega (arith, parameters_eq, b_over_c-le))
          (omega (arith, parameters_eq, divided)) (unfold pll_parameters in small) in
      let one : (decoded (divider_bytes 0 p)).p1 + 512 ≡ 128 * a + b_over_c =
        omega (arith, back.0, parameters_eq.0) in
      let two : (decoded (divider_bytes 0 p)).p2 ≡ rest = back.1 ∙ parameters_eq.1 in
      (
        rw (one, two) (grind (arith, divided)),
        omega (arith, two, divided),
        back.2 ∙ unfold pll_parameters in refl,
      )

-- An output divider from 4 to 2048 is read back as p1 = 128 * output_ms - 512, p2 = 0 and p3 = 1,
-- and the three bits above p1 are the lowest of the R divider.
pub output_bytes_lem :
    (output_ms rdiv : ℕ)
    → 4 ≤ output_ms
    → output_ms ≤ 2048
    → ((decoded (divider_bytes rdiv (output_parameters output_ms))).p1 + 512 ≡ 128 * output_ms)
      × ((decoded (divider_bytes rdiv (output_parameters output_ms))).p2 ≡ 0)
      × ((decoded (divider_bytes rdiv (output_parameters output_ms))).p3 ≡ 1)
      × (r_field (divider_bytes rdiv (output_parameters output_ms)) ≡ rdiv % 8)
unfolding output_parameters
output_bytes_lem output_ms rdiv low high =
    let back =
      read_back rdiv (output_parameters output_ms) (omega arith) (omega arith) (omega arith) in
    (omega (arith, back.0), back.1, back.2, back.3)
