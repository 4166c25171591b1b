-- ===== src/Double.antt =====
-- The `double` arithmetic that the drivers use, as a parameter: the type and the operations of the
-- compiler, and the laws of IEEE 754 that the theorems rely on.
use rf.Prelude.{ℕ, ◌*◌, ◌+◌, ◌^◌, ◌≤◌, ◌<◌, ◌≡◌, ◌⊎◌, Bool, true, false}

-- `of_int` converts an integer constant or a `uint32_t`, and `to_u32` is the cast back;
-- `to_i32` is the cast to `int`, as a bit pattern. `decimal n k` is the constant n * 10 ^ -k;
-- `whole` and `fraction` are the two results of `modf`, and `abs` is `fabs`.
pub record Doubles : Type 1 where
  pub Double : Type 0
  pub of_int : ℕ → Double
  pub half : Double
  pub add : Double → Double → Double
  pub mul : Double → Double → Double
  pub div : Double → Double → Double
  pub lt : Double → Double → Bool
  pub ge : Double → Double → Bool
  pub to_u32 : Double → ℕ
  pub to_i32 : Double → ℕ
  pub decimal : ℕ → ℕ → Double
  pub sub : Double → Double → Double
  pub abs : Double → Double
  pub whole : Double → Double
  pub fraction : Double → Double

-- Numbers are what is not NaN. Comparisons of numbers are those of a linear order; the product
-- with a positive integer, the quotient by one and the sum with 0.5 are monotone and give no NaN;
-- integers, their products and sums with 0.5 are exact below 2 ^ 52; the cast rounds towards zero.
module _ (doubles : Doubles) where
  open doubles use {Double, of_int, half, add, mul, div, lt, ge, to_u32}

  pub record Ieee : Type 1 where
    pub IsNumber : Double → Type 0
    pub of_int_number : (n : ℕ) → IsNumber (of_int n)
    pub of_int_lt : (m n : ℕ) → m < n → n < 2 ^ 52 → lt (of_int m) (of_int n) ≡ true
    pub mul_number : (x : Double) (n : ℕ) → IsNumber x → 0 < n → IsNumber (mul x (of_int n))
    pub div_number : (x : Double) (n : ℕ) → IsNumber x → 0 < n → IsNumber (div x (of_int n))
    pub add_number : (x : Double) → IsNumber x → IsNumber (add x half)
    pub lt_or_ge : (x y : Double) → IsNumber x → IsNumber y → (lt x y ≡ true) ⊎ (ge x y ≡ true)
    pub lt_asymm : (x y : Double) → lt x y ≡ true → lt y x ≡ false
    pub lt_of_le_of_lt :
        (x y z : Double) → IsNumber x → lt y x ≡ false → lt y z ≡ true → lt x z ≡ true
    pub le_of_le_of_le :
        (x y z : Double) → IsNumber y → lt x y ≡ false → lt y z ≡ false → lt x z ≡ false
    pub mul_mono :
        (x y : Double) (n : ℕ)
        → 0 < n
        → lt x y ≡ false
        → lt (mul x (of_int n)) (mul y (of_int n)) ≡ false
    pub add_mono : (x y : Double) → lt x y ≡ false → lt (add x half) (add y half) ≡ false
    pub mul_exact : (m n : ℕ) → m * n < 2 ^ 52 → mul (of_int m) (of_int n) ≡ of_int (m * n)
    pub half_above : (n : ℕ) → n < 2 ^ 52 → lt (add (of_int n) half) (of_int n) ≡ false
    pub half_below : (n : ℕ) → n < 2 ^ 52 → lt (add (of_int n) half) (of_int (n + 1)) ≡ true
    pub cast_ge :
        (x : Double) (n : ℕ)
        → lt x (of_int n) ≡ false
        → lt x (of_int (2 ^ 32)) ≡ true
        → n ≤ to_u32 x
    pub cast_lt :
        (x : Double) (n : ℕ)
        → lt x (of_int 0) ≡ false
        → lt x (of_int n) ≡ true
        → n ≤ 2 ^ 32
        → to_u32 x < n
