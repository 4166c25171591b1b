-- ===== src/Tuner/Values.antt =====
-- What a write of a field does to a register, digit by digit.
use native.Mathlib.Nat.{mul-div_cancel, one-le-pow}
use rf.Prelude.{ℕ, ◌-◌, ◌*◌, ◌/◌, ◌^◌, ◌≤◌, ◌<◌, min, max, bit_and, ◌≡◌, ◌≢◌}
use rf.Prelude.{
  refl, sym, ap, ◌∙◌, ◌⊎◌, inl, inr, arith, true, Bool-cases, ltb, ◌==◌, ==_iff, length, get_or,
  set,
}
use rf.Prelude.{all_below, all_below_sound, get_or-set_self, get_or-set_ne}
use rf.Bits.{
  bit, not32, bit-le-one, bit-zero, bit-bit_or, bit-bit_and, bit-complement, bit_ext, bit_and-le,
}
use rf.Bits.{bit_above, bit-mod_two_pow}
use rf.Tuner.Fields.{Field}
use rf.Tuner.Defs.{Tuner, insert_value, get_value, set_value, fits}

-- A field of a byte register.
abbrev pub IsField : Field → Type 0
IsField f = (f.reg < 32) × (f.mask < 2 ^ 8) × (f.shift < 8)

-- A byte moved to the place of a field.
shifted-lt : (v s : ℕ) → v < 256 → s < 8 → v * 2 ^ s < 2 ^ 16
shifted-lt v s h k = grind (arith, power)
  where
    table : all_below 8 (λ x. ltb (2 ^ x) 129) ≡ true
    table = unfold all_below in refl

    power : 2 ^ s < 129
    power = ground (arith, all_below_sound 8 (λ x. ltb (2 ^ x) 129) s table k)

module _ (f : Field) (is_field : IsField f) (v : ℕ) (byte : v < 256) (ok : fits f v ≡ true) where
  -- No digit of the value falls outside the mask.
  fits_digit : (i : ℕ) → i < 32 → bit (v * 2 ^ f.shift) i ≤ bit f.mask i
  unfolding fits
  fits_digit i h = omega (
    arith,
    sym (bit-bit_and (v * 2 ^ f.shift) (not32 f.mask) i)
        ∙ ap (λ (t : ℕ). bit t i) ((==_iff _ _).0 ok)
        ∙ bit-zero i,
    bit-complement 32 f.mask i (omega arith) h,
    bit-le-one (v * 2 ^ f.shift) i,
    bit-le-one f.mask i,
  )

  pub bit-insert_value :
      (b i : ℕ)
      → i < 8
      → bit (insert_value f v b) i
        ≡ max (min (bit b i) (1 - bit f.mask i)) (bit (v * 2 ^ f.shift) i)
  unfolding insert_value
  bit-insert_value b i h = rw (
    bit-mod_two_pow 8 _ i h,
    bit-bit_or (bit_and b (not32 f.mask)) (v * 2 ^ f.shift) i,
    bit-bit_and b (not32 f.mask) i,
    bit-complement 32 f.mask i (omega arith) (omega arith),
  )

  pub insert_value-lt : (b : ℕ) → insert_value f v b < 256
  unfolding insert_value
  insert_value-lt b = omega arith

  digits_of_masked :
      (b i : ℕ) → i < 32 → bit (bit_and (insert_value f v b) f.mask) i ≡ bit (v * 2 ^ f.shift) i
  digits_of_masked b i h = elim (Bool-cases (ltb i 8)) [
    | inl low ↦ omega (
      arith,
      bit-bit_and (insert_value f v b) f.mask i,
      bit-insert_value b i (ground arith),
      fits_digit i h,
      bit-le-one f.mask i,
    )
    | inr high ↦ omega (
      arith,
      bit-bit_and (insert_value f v b) f.mask i,
      fits_digit i h,
      bit_above 8 f.mask i is_field.1 (ground arith),
    )
  ]

  -- Read back through the mask, the digits are those of the value.
  pub masked : (b : ℕ) → bit_and (insert_value f v b) f.mask ≡ v * 2 ^ f.shift
  masked b =
      bit_ext 32 _ _ (omega (arith, bit_and-le (insert_value f v b) f.mask, insert_value-lt b))
        (omega (arith, shifted-lt v f.shift byte is_field.2)) (digits_of_masked b)

  spared :
      (b : ℕ) (g : Field)
      → IsField g
      → bit_and f.mask g.mask ≡ 0
      → bit_and (insert_value f v b) g.mask ≡ bit_and b g.mask
  spared b g is_g apart =
      bit_ext 8 _ _ (omega (arith, bit_and-le (insert_value f v b) g.mask))
        (omega (arith, bit_and-le b g.mask))
        λ i h. omega (
          arith,
          bit-bit_and (insert_value f v b) g.mask i,
          bit-bit_and b g.mask i,
          bit-insert_value b i h,
          fits_digit i (omega arith),
          bit-le-one b i,
          bit-le-one g.mask i,
          sym (bit-bit_and f.mask g.mask i) ∙ ap (λ (t : ℕ). bit t i) apart ∙ bit-zero i,
        )

  -- A field of a byte register reads as the value set, if that passes the assertions.
  pub get_value-set_value_self :
      (t : Tuner) → f.reg < length t.registers → get_value (set_value f v t) f ≡ v
  unfolding get_value set_value
  get_value-set_value_self t h =
      rw (get_or-set_self t.registers f.reg _ 0 h, masked (get_or t.registers f.reg 0))
        (mul-div_cancel v (one-le-pow f.shift 2 (omega arith)))

  -- Setting a field to a value that passes the assertions leaves a field of another register, or
  -- with other digits of the same one, as it was.
  pub get_value-set_value_ne :
      (g : Field) (t : Tuner)
      → IsField g
      → f.reg < length t.registers
      → (f.reg ≢ g.reg) ⊎ (bit_and f.mask g.mask ≡ 0)
      → get_value (set_value f v t) g ≡ get_value t g
  unfolding get_value set_value
  get_value-set_value_ne g t is_g h (inl other) =
      rw (get_or-set_ne t.registers f.reg g.reg _ 0 other)
  get_value-set_value_ne g t is_g h (inr apart) = elim (Bool-cases (f.reg == g.reg)) [
    | inr other ↦ rw (get_or-set_ne t.registers f.reg g.reg _ 0 (ground arith))
    | inl same ↦
        let e : f.reg ≡ g.reg = ground arith in
        ap (λ (x : ℕ). x / 2 ^ g.shift)
          (ap
              (λ (x : ℕ).
                bit_and
                  (get_or (set t.registers f.reg (insert_value f v (get_or t.registers f.reg 0))) x
                    0)
                  g.mask)
              (sym e)
            ∙ ap (λ (x : ℕ). bit_and x g.mask) (get_or-set_self t.registers f.reg _ 0 h)
            ∙ spared (get_or t.registers f.reg 0) g is_g apart
            ∙ ap (λ (x : ℕ). bit_and (get_or t.registers x 0) g.mask) e)
  ]
