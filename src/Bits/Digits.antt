-- ===== src/Bits/Digits.antt =====
-- The binary digits of a number, and those of `&`, `|` and `^`, which act on each digit alone.
use Prim.Native.Nat.{digits, differ, bit_and-bitwise, bit_or-bitwise, bit_xor-bitwise}
use rf.Prelude.{ℕ, zero, suc, ◌+◌, ◌*◌, ◌/◌, ◌%◌, ◌≤◌, min, max, bit_and, bit_or, bit_xor}
use rf.Prelude.{◌≡◌, ◌∙◌, refl, arith}

-- Digit `i` of `m`.
unfoldable pub bit : ℕ → ℕ → ℕ
bit m zero = m % 2
bit m (suc i) = bit (m / 2) i

pub bit-le-one : (m i : ℕ) → bit m i ≤ 1
unfolding bit
bit-le-one m zero = omega arith
bit-le-one m (suc i) = bit-le-one (m / 2) i

pub bit-zero : (i : ℕ) → bit 0 i ≡ 0
unfolding bit
bit-zero zero = refl
bit-zero (suc i) = bit-zero i

-- An operation that maps digits to digits, and what it makes of a number whose partner has run out.
module _ (rest : ℕ → ℕ) (op : ℕ → ℕ → ℕ) (digit : (x y : ℕ) → x ≤ 1 → y ≤ 1 → op x y ≤ 1)
    (at_end : (b i : ℕ) → bit (rest b) i ≡ op 0 (bit b i)) where
  ended : (b i : ℕ) → bit (rest b) i ≡ op (bit 0 i) (bit b i)
  ended b i = rw (bit-zero i) (at_end b i)

  bit-digits :
      (fuel a b i : ℕ) → a ≤ fuel → bit (digits rest op fuel a b) i ≡ op (bit a i) (bit b i)
  unfolding bit
  bit-digits zero zero b i h = ended b i
  bit-digits zero (suc a) b i h = absurd (omega arith)
  bit-digits (suc fuel) zero b i h = ended b i
  bit-digits (suc fuel) (suc a) b zero h =
      omega (arith, digit (suc a % 2) (b % 2) (omega arith) (omega arith))
  bit-digits (suc fuel) (suc a) b (suc i) h =
      let high = digits rest op fuel (suc a / 2) (b / 2) in
      let small : op (suc a % 2) (b % 2) ≤ 1 =
        digit (suc a % 2) (b % 2) (omega arith) (omega arith) in
      let halved : (high * 2 + op (suc a % 2) (b % 2)) / 2 ≡ high = omega (arith, small) in
      rw halved (bit-digits fuel (suc a / 2) (b / 2) i (omega arith))

pub bit-bit_or : (a b i : ℕ) → bit (bit_or a b) i ≡ max (bit a i) (bit b i)
bit-bit_or a b i =
    simp bit_or-bitwise
      (bit-digits (λ y. y) max (λ x y h k. omega arith) (λ c j. omega arith) a a b i (omega arith))

pub bit-bit_and : (a b i : ℕ) → bit (bit_and a b) i ≡ min (bit a i) (bit b i)
bit-bit_and a b i = simp bit_and-bitwise (
    bit-digits (λ y. 0) min (λ x y h k. omega arith) (λ c j. omega (arith, bit-zero j)) a a b i
      (omega arith))

differ_digit : (x y : ℕ) → x ≤ 1 → y ≤ 1 → differ x y ≤ 1
differ_digit zero y h k = k
differ_digit (suc x) zero h k = h
differ_digit (suc x) (suc y) h k = differ_digit x y (omega arith) (omega arith)

-- The digit of an exclusive or: the sum without carry.
differ_sum : (x y : ℕ) → x ≤ 1 → y ≤ 1 → differ x y ≡ (x + y) % 2
differ_sum zero y h k = omega arith
differ_sum (suc x) zero h k = omega arith
differ_sum (suc x) (suc y) h k =
    let e : x ≡ 0 = omega arith in let e' : y ≡ 0 = omega arith in rw (e, e')

pub bit-bit_xor : (a b i : ℕ) → bit (bit_xor a b) i ≡ (bit a i + bit b i) % 2
bit-bit_xor a b i = simp bit_xor-bitwise (
    bit-digits (λ y. y) differ differ_digit (λ c j. refl) a a b i (omega arith)
    ∙ differ_sum (bit a i) (bit b i) (bit-le-one a i) (bit-le-one b i))

-- Digits in order make numbers in order.
below_by_digits : (n a b : ℕ) → a ≤ n → ((i : ℕ) → bit a i ≤ bit b i) → a ≤ b
unfolding bit
below_by_digits zero a b h below = omega arith
below_by_digits (suc n) zero b h below = omega arith
below_by_digits (suc n) (suc a) b h below =
    omega (arith, below 0, below_by_digits n (suc a / 2) (b / 2) (omega arith) (λ i. below (suc i)))

pub bit_le : (a b : ℕ) → ((i : ℕ) → bit a i ≤ bit b i) → a ≤ b
bit_le a b below = below_by_digits a a b (omega arith) below

-- Numbers with the same digits are equal.
pub same_digits : (a b : ℕ) → ((i : ℕ) → bit a i ≡ bit b i) → a ≡ b
same_digits a b same =
    omega (arith, bit_le a b (λ i. omega (arith, same i)), bit_le b a (λ i. omega (arith, same i)))
