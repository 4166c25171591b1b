-- ===== src/Bits.antt =====
-- The binary digits of words, and the bit operations of C read digit by digit.
mod Digits
pub mod Masks
unfoldable pub use Digits.{bit}
pub use Digits.{bit-le-one, bit-zero, bit-bit_or, bit-bit_and, bit-bit_xor, bit_le, same_digits}
use rf.Prelude.{ℕ, zero, suc, ◌+◌, ◌-◌, ◌*◌, ◌/◌, ◌%◌, ◌^◌, ◌≤◌, ◌<◌, min, max, bit_and, bit_or}
use rf.Prelude.{
  ◌≡◌, refl, sym, ap, ◌∙◌, arith, ◌==◌, if◌then◌else◌, Bool, true, false, Bool-cases, inl, inr,
}
use native.Mathlib.Nat.{
  pow-suc, one-le-pow, mod-lt, mod-eq_of_lt, div-add-mod', mul-add-mod_self_right,
}

-- `~m` on 32 bits, and on 8.
abbrev pub not32 : ℕ → ℕ
not32 m = 2 ^ 32 - 1 - m

-- The complement within `w` digits.
pub bit-complement : (w m i : ℕ) → m < 2 ^ w → i < w → bit (2 ^ w - 1 - m) i ≡ 1 - bit m i
unfolding bit
bit-complement zero m i h k = absurd (omega arith)
bit-complement (suc w) m zero h k = omega (arith, pow-suc 2 w, one-le-pow w 2)
bit-complement (suc w) m (suc i) h k =
    let e : (2 ^ suc w - 1 - m) / 2 ≡ 2 ^ w - 1 - m / 2 =
      omega (arith, pow-suc 2 w, one-le-pow w 2) in
    rw e (bit-complement w (m / 2) i (omega (arith, pow-suc 2 w)) (omega arith))

-- A power of two has one digit.
pub bit-two_pow : (i j : ℕ) → bit (2 ^ i) j ≡ (if i == j then 1 else 0)
unfolding bit
bit-two_pow zero zero = refl
bit-two_pow zero (suc j) = ground (arith, bit-zero j)
bit-two_pow (suc i) zero = ground (arith, pow-suc 2 i)
bit-two_pow (suc i) (suc j) =
    let e : 2 ^ suc i / 2 ≡ 2 ^ i = omega (arith, pow-suc 2 i) in
    rw e (ground (arith, bit-two_pow i j))

-- Words with the same digits are equal.
pub bit_ext : (w a b : ℕ) → a < 2 ^ w → b < 2 ^ w → ((i : ℕ) → i < w → bit a i ≡ bit b i) → a ≡ b
unfolding bit
bit_ext zero a b h k e = omega arith
bit_ext (suc w) a b h k e =
    let half : a / 2 ≡ b / 2 =
      bit_ext w (a / 2) (b / 2) (omega (arith, pow-suc 2 w)) (omega (arith, pow-suc 2 w))
        (λ i l. e (suc i) (omega arith)) in
    omega (arith, half, e 0 (omega arith))

-- Digits from `w` on are zero.
pub bit_above : (w a i : ℕ) → a < 2 ^ w → w ≤ i → bit a i ≡ 0
unfolding bit
bit_above zero a i h k = let e : a ≡ 0 = omega arith in rw e (bit-zero i)
bit_above (suc w) a zero h k = absurd (omega arith)
bit_above (suc w) a (suc i) h k = bit_above w (a / 2) i (omega (arith, pow-suc 2 w)) (omega arith)

halves-mod : (w m : ℕ) → (m % 2 ^ suc w / 2 ≡ m / 2 % 2 ^ w) × (m % 2 ^ suc w % 2 ≡ m % 2)
halves-mod w m = (omega (arith, whole), omega (arith, whole))
  where
    low : ℕ
    low = 2 * (m / 2 % 2 ^ w) + m % 2

    low-lt : low < 2 ^ suc w
    low-lt = omega (arith, pow-suc 2 w, mod-lt (m / 2) (one-le-pow w 2 (omega arith)))

    split : m ≡ m / 2 / 2 ^ w * 2 ^ suc w + low
    split =
        omega (arith, div-add-mod' (m / 2) (2 ^ w), ap (λ (t : ℕ). m / 2 / 2 ^ w * t) (pow-suc 2 w))

    whole : m % 2 ^ suc w ≡ low
    whole =
        ap (λ (t : ℕ). t % 2 ^ suc w) split
        ∙ mul-add-mod_self_right (m / 2 / 2 ^ w) (2 ^ suc w) low
        ∙ mod-eq_of_lt low-lt

-- Truncation to `w` digits keeps the digits below `w`.
pub bit-mod_two_pow : (w m i : ℕ) → i < w → bit (m % 2 ^ w) i ≡ bit m i
unfolding bit
bit-mod_two_pow zero m i h = absurd (omega arith)
bit-mod_two_pow (suc w) m zero h = (halves-mod w m).1
bit-mod_two_pow (suc w) m (suc i) h =
    rw (halves-mod w m).0 (bit-mod_two_pow w (m / 2) i (omega arith))

-- The test of a digit by a mask with that digit alone.
pub two_pow_test : (i m : ℕ) → (bit_and (2 ^ i) m == 0) ≡ (bit m i == 0)
two_pow_test i m = elim (Bool-cases (bit m i == 0)) [
  | inl off ↦
      let none_left : bit_and (2 ^ i) m ≤ 0 =
        bit_le (bit_and (2 ^ i) m) 0
          λ j. ground (arith, bit-bit_and (2 ^ i) m j, bit-two_pow i j, bit-zero j) in
      ground arith
  | inr on ↦ ground (
    arith,
    bit-bit_and (2 ^ i) m i,
    bit-two_pow i i,
    bit-le-one m i,
    λ (e : bit_and (2 ^ i) m ≡ 0). ap (λ (t : ℕ). bit t i) e ∙ bit-zero i,
  )
]

-- A mask gives a number no larger than itself.
pub bit_and-le : (a m : ℕ) → bit_and a m ≤ m
bit_and-le a m = bit_le (bit_and a m) m λ i. omega (arith, bit-bit_and a m i)
