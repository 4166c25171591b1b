-- ===== src/FixedPoint.antt =====
-- A concrete arithmetic with the laws that are asked of `double`: unsigned numbers in units of
-- 2 ^ -17.
use rf.Prelude.{
  ℕ, ◌*◌, ◌+◌, ◌-◌, ◌/◌, ◌%◌, ◌^◌, ◌≤◌, ◌≡◌, ◌⊎◌, inl, inr, true, false, ltb, leb, arith,
  Bool-cases,
}
use rf.Double.{Doubles, Ieee}

abbrev pub fixed_point : Doubles
fixed_point = record {
  Double = ℕ;
  of_int = λ n. n * 131072;
  half = 65536;
  add = λ x y. x + y;
  mul = λ x y. x * y / 131072;
  div = λ x y. x * 131072 / y;
  lt = ltb;
  ge = λ x y. leb y x;
  to_u32 = λ x. x / 131072 % 2 ^ 32;
  to_i32 = λ x. x / 131072 % 2 ^ 32;
  decimal = λ n k. n * 131072 / 10 ^ k;
  sub = λ x y. x - y;
  abs = λ x. x;
  whole = λ x. x / 131072 * 131072;
  fraction = λ x. x % 131072;
}

fixed_mul : (x n : ℕ) → x * (n * 131072) / 131072 ≡ x * n
fixed_mul x n = omega arith

fixed_lt_or_ge : (x y : ℕ) → (ltb x y ≡ true) ⊎ (leb y x ≡ true)
fixed_lt_or_ge x y = elim (Bool-cases (ltb x y)) [ inl h ↦ inl h | inr h ↦ inr (ground arith) ]

fixed_mul_mono :
    (x y n : ℕ)
    → ltb x y ≡ false
    → ltb (x * (n * 131072) / 131072) (y * (n * 131072) / 131072) ≡ false
fixed_mul_mono x y n h =
    let le : y ≤ x = ground arith in
    let scaled : y * n ≤ x * n = grind arith in rw (fixed_mul x n, fixed_mul y n) (ground arith)

fixed_mul_exact : (m n : ℕ) → m * 131072 * (n * 131072) / 131072 ≡ m * n * 131072
fixed_mul_exact m n = omega arith

pub fixed_point-Ieee : Ieee fixed_point
fixed_point-Ieee = record {
  IsNumber = λ x. Unit {0};
  of_int_number = λ n. tt;
  of_int_lt = λ m n h k. ground arith;
  mul_number = λ x n h k. tt;
  div_number = λ x n h k. tt;
  add_number = λ x h. tt;
  lt_or_ge = λ x y h k. fixed_lt_or_ge x y;
  lt_asymm = λ x y h. ground arith;
  lt_of_le_of_lt = λ x y z n h k. ground arith;
  le_of_le_of_le = λ x y z n h k. ground arith;
  mul_mono = λ x y n p h. fixed_mul_mono x y n h;
  add_mono = λ x y h. ground arith;
  mul_exact = λ m n h. fixed_mul_exact m n;
  half_above = λ n h. ground arith;
  half_below = λ n h. ground arith;
  cast_ge = λ x n h k. ground arith;
  cast_lt = λ x n h k l. ground arith;
}

pub fixed_point_number : (x : ℕ) → fixed_point-Ieee.IsNumber x
unfolding fixed_point-Ieee
fixed_point_number x = tt

pub fixed_point-lt_trans : (x y z : ℕ) → ltb x y ≡ true → ltb y z ≡ true → ltb x z ≡ true
fixed_point-lt_trans x y z h k = ground arith
