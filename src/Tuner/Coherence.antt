-- ===== src/Tuner/Coherence.antt =====
-- The shadow registers agree with the chip, but for those that are marked dirty.
use rf.Prelude.{ℕ, ◌^◌, ◌≤◌, ◌<◌, ◌≡◌, ◌⊎◌}
use native.Mathlib.Nat.{pow-le-pow_right}
use rf.Prelude.{ap, ◌∙◌, arith, Bool, true, leb, some, get_or, length}
use rf.Prelude.{length-set, get_or-set_ne, Ends-mono, Triple, Keeps, keeps, Triple-bind}
use rf.Prelude.{Triple-check, Triple-modify, modify, gets, ◌>>=◌}
use rf.Bits.{bit, bit-le-one, bit-bit_or, bit-bit_and, bit-complement, bit-two_pow, not32}
use rf.Usb.{Libusb}
use rf.Tuner.Fields.{Field}
use rf.Tuner.Defs.{
  Tuner, Session, insert_value, set_value, set_field, fits, write_run, write_value, clear_dirty,
}
use rf.Tuner.Defs.{write_dirty, write_registers}
use rf.Tuner.Chip.{known, inside}
use rf.Tuner.Runs.{Flushed, Spared, HasShape, write_run_lem}
use rf.Tuner.Flush.{Written, selected, write_registers_lem}

-- The registers from 5 on hold settings; those below are the chip's own and only read.
pub record Coherent (s : Session) : Type 0 where
  pub shape : HasShape s
  pub agrees :
      (r : ℕ)
      → 5 ≤ r
      → r < 32
      → bit s.tuner.dirty r ≡ 0
      → known s.log r ≡ some (get_or s.tuner.registers r 0)

pub set_field-Coherent : (f : Field) (v : ℕ) → f.reg < 32 → Keeps Coherent (set_field f v)
unfolding set_field set_value modify
set_field-Coherent f v h = keeps λ s c. record {
  shape = length-set s.tuner.registers f.reg _ ∙ c.shape;
  agrees = λ r lo hi clean. ground (
    arith,
    bit-bit_or s.tuner.dirty (2 ^ f.reg) r,
    bit-two_pow f.reg r,
    c.agrees r lo hi,
    get_or-set_ne s.tuner.registers f.reg r (insert_value f v (get_or s.tuner.registers f.reg 0)) 0,
  );
}

-- Coherent but for what a mask selects.
record CoherentBut (mask : ℕ) (s : Session) : Type 0 where
  shape : HasShape s
  agrees :
      (r : ℕ)
      → 5 ≤ r
      → r < 32
      → (bit s.tuner.dirty r ≡ 0) ⊎ (bit mask r ≡ 1)
      → known s.log r ≡ some (get_or s.tuner.registers r 0)

clear_dirty-Coherent :
    (mask : ℕ) (s : Session) → mask < 2 ^ 32 → CoherentBut mask s → Coherent (clear_dirty mask s)
clear_dirty-Coherent mask s h c = record {
  shape = c.shape;
  agrees = λ r lo hi clean. c.agrees r lo hi (
      ground (
        arith,
        bit-bit_and s.tuner.dirty (not32 mask) r,
        bit-complement 32 mask r h hi,
        bit-le-one mask r,
        bit-le-one s.tuner.dirty r,
      ));
}

-- A register is sent while it is marked dirty.
record Marked (reg : ℕ) (s : Session) : Type 0 where
  coherent : Coherent s
  marked : bit s.tuner.dirty reg ≡ 1

set_field-Marked :
    (f : Field) (v : ℕ) → f.reg < 32 → Triple Coherent (λ _. Marked f.reg) Coherent (set_field f v)
unfolding set_field set_value modify
set_field-Marked f v h = record {
  at = λ s c. record {
    coherent = (set_field-Coherent f v h).triple.at s c;
    marked = ground (
      arith,
      bit-bit_or s.tuner.dirty (2 ^ f.reg) f.reg,
      bit-two_pow f.reg f.reg,
      bit-le-one s.tuner.dirty f.reg,
    );
  };
}

module _ (p : ℕ → Bool) (s t : Session) (c : Coherent s) where
  -- Sending the registers of a mask leaves the others as they were.
  Flushed-CoherentBut :
      (mask : ℕ)
      → Flushed p s t
      → ((r : ℕ) → 5 ≤ r → r < 32 → bit mask r ≡ 1 → p r ≡ true)
      → CoherentBut mask t
  Flushed-CoherentBut mask f sent = record {
    shape = ap (λ (x : Tuner). length x.registers) f.0 ∙ c.shape;
    agrees = λ r lo hi k. ground (
      arith,
      f.1 r hi,
      sent r lo hi,
      c.agrees r lo hi,
      ap (λ (x : Tuner). get_or x.registers r 0) f.0,
      ap (λ (x : Tuner). bit x.dirty r) f.0,
    );
  }

  -- A failure can only touch registers that are marked dirty.
  Spared-Coherent :
      Spared p s t → ((r : ℕ) → 5 ≤ r → r < 32 → p r ≡ true → bit s.tuner.dirty r ≡ 1) → Coherent t
  Spared-Coherent f sent = record {
    shape = ap (λ (x : Tuner). length x.registers) f.0 ∙ c.shape;
    agrees = λ r lo hi k. ground (
      arith,
      f.1 r hi,
      sent r lo hi,
      c.agrees r lo hi,
      ap (λ (x : Tuner). get_or x.registers r 0) f.0,
      ap (λ (x : Tuner). bit x.dirty r) f.0,
    );
  }

-- `write_value` with an argument that passes its assertions.
abbrev pub IsValue : Field → ℕ → Type 0
IsValue f v = (f.reg < 32) × (fits f v ≡ true) × (leb (2 ^ f.shift) f.mask ≡ true)

module _ (respond : Libusb) where
  write_run-Marked :
      (reg : ℕ)
      → reg < 32
      → Triple (Marked reg) (λ _. CoherentBut (2 ^ reg)) Coherent (write_run respond reg 1)
  write_run-Marked reg h = record {
    at = λ s m.
        Ends-mono _ _ _ _ (write_run respond reg 1 s)
          (λ _ t f.
            Flushed-CoherentBut (inside reg 1) s t m.coherent (2 ^ reg) f
              λ r _ _ e. ground (arith, bit-two_pow reg r))
          (λ t f. Spared-Coherent (inside reg 1) s t m.coherent f λ r _ _ e. only_reg s m r e)
          (write_run_lem respond reg 1 s m.coherent.shape (omega arith));
  }
    where
      only_reg :
          (s : Session) → Marked reg s → (r : ℕ) → inside reg 1 r ≡ true → bit s.tuner.dirty r ≡ 1
      only_reg s m r e = let same : r ≡ reg = ground arith in rw same m.marked

  -- A field written at once: the invariant survives success and failure, and no assertion fails.
  pub write_value-Coherent :
      (f : Field) (v : ℕ) → IsValue f v → Keeps Coherent (write_value respond f v)
  unfolding write_value
  write_value-Coherent f v ok = record {
    triple = Triple-bind _ _ (Triple-check _ ok.1) λ _. Triple-bind _ _ (Triple-check _ ok.2) λ _.
        Triple-bind _ _ (set_field-Marked f v ok.0) λ _.
          Triple-bind _ _ (write_run-Marked f.reg ok.0)
            λ _. Triple-modify _ λ s c. clear_dirty-Coherent (2 ^ f.reg) s (power f.reg ok.0) c;
  }
    where
      power : (n : ℕ) → n < 32 → 2 ^ n < 2 ^ 32
      power n h =
          omega (arith, pow-le-pow_right {n = 2} (omega arith) {i = n} {j = 31} (omega arith))

  -- All dirty registers are sent.
  pub write_dirty-Coherent : Keeps Coherent (write_dirty respond)
  unfolding write_dirty ◌>>=◌ gets
  write_dirty-Coherent = keeps λ s c.
      Ends-mono _ _ _ _ (write_registers respond s.tuner.dirty s) (λ _ t. sent s t c)
        (λ t f. Spared-Coherent (selected s.tuner.dirty) s t c f λ r lo hi e. ground arith)
        (write_registers_lem s.tuner.dirty respond s c.shape)
    where
      sent : (s t : Session) → Coherent s → Written s.tuner.dirty s t → Coherent t
      sent s t c w = record {
        shape = ap (λ (x : Tuner). length x.registers) w.tuner_after ∙ c.shape;
        agrees = λ r lo hi k. ground (
          arith,
          w.chip_after r hi,
          c.agrees r lo hi,
          bit-le-one s.tuner.dirty r,
          ap (λ (x : Tuner). get_or x.registers r 0) w.tuner_after,
        );
      }
