-- ===== src/Bits/Masks.antt =====
-- Masks of consecutive digits, and numbers put together from two parts.
use rf.Prelude.{ℕ, zero, suc, ◌+◌, ◌-◌, ◌*◌, ◌/◌, ◌%◌, ◌^◌, ◌≤◌, ◌<◌, bit_and, bit_or}
use rf.Prelude.{
  ◌≡◌, refl, sym, ap, ◌∙◌, arith, true, false, ltb, if◌then◌else◌, Bool-cases, inl, inr,
}
use native.Mathlib.Nat.{pow-suc, one-le-pow, mod-lt, mul_comm, div-div-eq-div-mul}
use rf.Bits.{
  bit, bit-le-one, bit-zero, bit-bit_and, bit-bit_or, same_digits, bit-complement, bit_above,
  bit-mod_two_pow,
}

-- `high` from digit `k` on, and `low` below.
bit-join :
    (k high low i : ℕ)
    → low < 2 ^ k
    → bit (high * 2 ^ k + low) i ≡ (if ltb i k then bit low i else bit high (i - k))
unfolding bit
bit-join zero high low i h =
    let e : high * 2 ^ 0 + low ≡ high = omega arith in
    let below : ltb i 0 ≡ false = ground arith in
    let here : i - 0 ≡ i = omega arith in rw (e, below, here) refl
bit-join (suc k) high low zero h =
    let first : ltb 0 (suc k) ≡ true = ground arith in
    rw first (omega (arith, ap (λ (t : ℕ). high * t) (pow-suc 2 k)))
bit-join (suc k) high low (suc i) h =
    let halved : (high * 2 ^ suc k + low) / 2 ≡ high * 2 ^ k + low / 2 =
      omega (arith, ap (λ (t : ℕ). high * t) (pow-suc 2 k)) in
    let same_test : ltb (suc i) (suc k) ≡ ltb i k = ground arith in
    let same_digit : suc i - suc k ≡ i - k = omega arith in
    rw (halved, same_test, same_digit) (bit-join k high (low / 2) i (omega (arith, pow-suc 2 k)))

bit-div_two_pow : (k x i : ℕ) → bit (x / 2 ^ k) i ≡ bit x (k + i)
unfolding bit
bit-div_two_pow zero x i =
    let e : x / 2 ^ 0 ≡ x = omega arith in let e' : 0 + i ≡ i = omega arith in rw (e, e')
bit-div_two_pow (suc k) x i =
    let e : x / 2 ^ suc k ≡ x / 2 / 2 ^ k =
      ap (λ (t : ℕ). x / t) (pow-suc 2 k ∙ mul_comm (2 ^ k) 2)
      ∙ sym (div-div-eq-div-mul x 2 (2 ^ k)) in
    let e' : suc k + i ≡ suc (k + i) = omega arith in rw (e, e') (bit-div_two_pow k (x / 2) i)

-- `w` ones.
bit-ones : (w i : ℕ) → bit (2 ^ w - 1) i ≡ (if ltb i w then 1 else 0)
bit-ones w i = elim (Bool-cases (ltb i w)) [
  | inl low ↦ rw low (
      omega (
        arith,
        ap (λ (t : ℕ). bit t i) complement_zero,
        bit-complement w 0 i (one-le-pow w 2 (omega arith)) (ground arith),
        bit-zero i,
      ))
  | inr high ↦ rw high (bit_above w (2 ^ w - 1) i (omega (arith, one-le-pow w 2)) (ground arith))
]
  where
    complement_zero : 2 ^ w - 1 ≡ 2 ^ w - 1 - 0
    complement_zero = omega arith

bit-mod_all : (w x i : ℕ) → bit (x % 2 ^ w) i ≡ (if ltb i w then bit x i else 0)
bit-mod_all w x i = elim (Bool-cases (ltb i w)) [
  | inl low ↦ rw low (bit-mod_two_pow w x i (ground arith))
  | inr high ↦
      rw high (bit_above w (x % 2 ^ w) i (mod-lt x (one-le-pow w 2 (omega arith))) (ground arith))
]

bit-scaled : (k z i : ℕ) → bit (z * 2 ^ k) i ≡ (if ltb i k then 0 else bit z (i - k))
bit-scaled k z i =
    let e : z * 2 ^ k ≡ z * 2 ^ k + 0 = omega arith in
    rw e (bit-join k z 0 i (one-le-pow k 2 (omega arith)) ∙ ground (arith, bit-zero i))

regroup : (k x i : ℕ) → k ≤ i → bit x (k + (i - k)) ≡ bit x i
regroup k x i h = ap (λ (t : ℕ). bit x t) (omega arith)

-- A mask of the `w` digits from `k` on.
pub bit_and-mask : (k w x : ℕ) → bit_and x ((2 ^ w - 1) * 2 ^ k) ≡ x / 2 ^ k % 2 ^ w * 2 ^ k
bit_and-mask k w x = same_digits _ _ λ i. ground (
  arith,
  bit-bit_and x ((2 ^ w - 1) * 2 ^ k) i,
  bit-scaled k (2 ^ w - 1) i,
  bit-ones w (i - k),
  bit-scaled k (x / 2 ^ k % 2 ^ w) i,
  bit-mod_all w (x / 2 ^ k) (i - k),
  bit-div_two_pow k x (i - k),
  bit-le-one x i,
  regroup k x i,
)

-- Parts that do not overlap.
pub bit_or-join : (k high low : ℕ) → low < 2 ^ k → bit_or (high * 2 ^ k) low ≡ high * 2 ^ k + low
bit_or-join k high low h = same_digits _ _ λ i. ground (
  arith,
  bit-bit_or (high * 2 ^ k) low i,
  bit-scaled k high i,
  bit-join k high low i h,
  bit_above k low i h,
)
