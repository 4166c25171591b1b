-- ===== src/Adc/Samples.antt =====
-- src/adc.c: the removal of the ADC's randomisation from a buffer of little-endian samples.
use rf.Prelude.{
  ltb, ==_iff, ℕ, zero, suc, ◌+◌, ◌-◌, ◌%◌, ◌<◌, ◌≡◌, refl, arith, false, ◌==◌, if◌then◌else◌,
}
use rf.Prelude.{List, [], ◌∷◌, bit_and, bit_xor, Bool-cases, inl, inr, all_below, all_below_sound}
use rf.Bits.{bit, bit-zero, bit-bit_xor, bit-bit_and, same_digits, two_pow_test, bit-le-one}

-- `if (samples[i] & 1) samples[i] ^= 0xfffe`, over the samples that are complete.
unfoldable pub derandomize : List ℕ → List ℕ
derandomize [] = []
derandomize (x ∷ []) = x ∷ []
derandomize (low ∷ high ∷ rest) =
    let others = derandomize rest in
    if bit_and low 1 == 0
    then low ∷ high ∷ others
    else bit_xor low 0xfe ∷ bit_xor high 0xff ∷ others

xor_twice : (a m : ℕ) → bit_xor (bit_xor a m) m ≡ a
xor_twice a m = same_digits (bit_xor (bit_xor a m) m) a λ i.
    omega (arith, bit-bit_xor (bit_xor a m) m i, bit-bit_xor a m i, bit-le-one a i, bit-le-one m i)

-- The test of the lowest digit.
odd_test : (a : ℕ) → (bit_and a 1 == 0) ≡ (bit a 0 == 0)
odd_test a =
    let swapped : bit_and a 1 ≡ bit_and 1 a =
      same_digits (bit_and a 1) (bit_and 1 a)
        λ i. omega (arith, bit-bit_and a 1 i, bit-bit_and 1 a i) in
    rw swapped (two_pow_test 0 a)

-- The change of a byte leaves its lowest digit.
odd_test-xor : (a : ℕ) → (bit_and (bit_xor a 0xfe) 1 == 0) ≡ (bit_and a 1 == 0)
unfolding bit
odd_test-xor a =
    rw (odd_test (bit_xor a 0xfe), odd_test a)
      (ground (arith, bit-bit_xor a 0xfe 0, bit-le-one a 0))

-- A second derandomisation gives back the buffer, whatever its length.
pub derandomize_twice : (bytes : List ℕ) → derandomize (derandomize bytes) ≡ bytes
unfolding derandomize
derandomize_twice [] = refl
derandomize_twice (x ∷ []) = refl
derandomize_twice (low ∷ high ∷ rest) = elim (Bool-cases (bit_and low 1 == 0)) [
  | inl even ↦ rw (even, even, derandomize_twice rest)
  | inr odd ↦
      let still : (bit_and (bit_xor low 0xfe) 1 == 0) ≡ false = rw (odd_test-xor low) odd in
      rw (odd, still, derandomize_twice rest, xor_twice low 0xfe, xor_twice high 0xff)
]

-- The two bytes of sample `k`, or 0 where there is none.
abbrev pub low_byte : List ℕ → ℕ → ℕ
low_byte [] k = 0
low_byte (x ∷ []) k = 0
low_byte (low ∷ high ∷ rest) zero = low
low_byte (low ∷ high ∷ rest) (suc k) = low_byte rest k

abbrev pub high_byte : List ℕ → ℕ → ℕ
high_byte [] k = 0
high_byte (x ∷ []) k = 0
high_byte (low ∷ high ∷ rest) zero = high
high_byte (low ∷ high ∷ rest) (suc k) = high_byte rest k

-- Digit `i` of sample `k`, of the sixteen.
abbrev pub sample_digit : List ℕ → ℕ → ℕ → ℕ
sample_digit bytes k i =
    if ltb i 8 then bit (low_byte bytes k) i else bit (high_byte bytes k) (i - 8)

-- What the ADC's randomisation does to a digit, and what undoes it.
abbrev pub with_lowest : ℕ → ℕ → ℕ → ℕ
with_lowest lowest i x = if i == 0 then x else (x + lowest) % 2

low_mask_digit : (i : ℕ) → i < 8 → bit 0xfe i ≡ (if i == 0 then 0 else 1)
unfolding bit all_below
low_mask_digit i h =
    (==_iff _ _).0 (all_below_sound 8 (λ j. bit 0xfe j == (if j == 0 then 0 else 1)) i refl h)

high_mask_digit : (i : ℕ) → i < 8 → bit 0xff i ≡ 1
unfolding bit all_below
high_mask_digit i h = (==_iff _ _).0 (all_below_sound 8 (λ j. bit 0xff j == 1) i refl h)

first_sample :
    (low high : ℕ) (rest : List ℕ) (i : ℕ)
    → i < 16
    → sample_digit (derandomize (low ∷ high ∷ rest)) 0 i
      ≡ with_lowest (bit low 0) i (sample_digit (low ∷ high ∷ rest) 0 i)
unfolding derandomize
first_sample low high rest i h = elim (Bool-cases (bit_and low 1 == 0)) [
  | inl even ↦ rw even (ground (arith, odd_test low, bit-le-one low i, bit-le-one high (i - 8)))
  | inr odd ↦ rw odd (
      ground (
        arith,
        odd_test low,
        bit-le-one low 0,
        bit-bit_xor low 0xfe i,
        bit-bit_xor high 0xff (i - 8),
        low_mask_digit i,
        high_mask_digit (i - 8),
        bit-le-one low i,
      ))
]

-- In every sample of a buffer the lowest digit stays, and it is added without carry to each of the
-- other fifteen digits.
pub derandomize_lem :
    (bytes : List ℕ) (k i : ℕ)
    → i < 16
    → sample_digit (derandomize bytes) k i
      ≡ with_lowest (sample_digit bytes k 0) i (sample_digit bytes k i)
unfolding derandomize
derandomize_lem [] k i h = ground (arith, bit-zero i, bit-zero (i - 8), bit-zero 0)
derandomize_lem (x ∷ []) k i h = ground (arith, bit-zero i, bit-zero (i - 8), bit-zero 0)
derandomize_lem (low ∷ high ∷ rest) zero i h = first_sample low high rest i h
derandomize_lem (low ∷ high ∷ rest) (suc k) i h = elim (Bool-cases (bit_and low 1 == 0)) [
  | inl even ↦ rw even (derandomize_lem rest k i h)
  | inr odd ↦ rw odd (derandomize_lem rest k i h)
]
