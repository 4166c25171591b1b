-- ===== src/Tuner/Reads.antt =====
-- Reads of the tuner's status registers keep the settings.
use rf.Prelude.{
  ℕ, suc, ◌+◌, ◌-◌, ◌^◌, ◌≤◌, ◌<◌, ◌≡◌, refl, sym, ap, ◌∙◌, arith, Bool-cases, inl, inr, some,
}
use rf.Prelude.{
  List, [], ◌∷◌, ◌++◌, length, get_or, drop, slice, length-slice, length-append, length-drop,
}
use rf.Prelude.{
  get_or-append_right, get_or-drop, Keeps, keeps, Triple-bind, Triple-modify, Triple-gets,
}
use native.Mathlib.Nat.{pow-le-pow_right}
use rf.Bits.{not32, bit-bit_and, bit-complement, bit_above, bit-le-one}
use rf.Usb.{Libusb, Transfer, i2crfx3, read_request_type, overlay, Log}
use rf.Tuner.Fields.{Field}
use rf.Tuner.Defs.{Session, r820t2_addr, bitrev_all, read_run, read_value, clear_dirty}
use rf.Tuner.Chip.{known}
use rf.Tuner.Coherence.{Coherent}

length-overlay : (bs buffer : List ℕ) → length (overlay bs buffer) ≡ length buffer
unfolding overlay
length-overlay [] buffer = refl
length-overlay (b ∷ bs) [] = refl
length-overlay (b ∷ bs) (x ∷ buffer) = ap suc (length-overlay bs buffer)

length-bitrev_all : (bs : List ℕ) → length (bitrev_all bs) ≡ length bs
unfolding bitrev_all
length-bitrev_all [] = refl
length-bitrev_all (b ∷ bs) = ap suc (length-bitrev_all bs)

-- Registers replaced from the first on leave the later ones.
module _ (bytes regs : List ℕ) (n : ℕ) (size : length bytes ≡ n) (h : n ≤ length regs) where
  patched_length : length (bytes ++ drop n regs) ≡ length regs
  patched_length = omega (arith, length-append bytes (drop n regs), length-drop n regs)

  patched_above : (r : ℕ) → n ≤ r → get_or (bytes ++ drop n regs) r 0 ≡ get_or regs r 0
  patched_above r k =
      ground (arith, get_or-append_right bytes (drop n regs) r 0, get_or-drop n regs r 0)

-- New bytes in the first registers, and a history that sets no register.
patched-Coherent :
    (n : ℕ) (bytes : List ℕ) (log : Log) (s : Session)
    → n ≤ 5
    → length bytes ≡ n
    → ((r : ℕ) → known log r ≡ known s.log r)
    → Coherent s
    → Coherent (record s {
      tuner = record s.tuner { registers = bytes ++ drop (0 + n) s.tuner.registers };
      log = log;
    })
patched-Coherent n bytes log s h size same c =
    let e : 0 + n ≡ n = omega arith in
    rw e (record {
      shape = patched_length bytes s.tuner.registers n size (omega (arith, c.shape)) ∙ c.shape;
      agrees = λ r lo hi k.
          same r
          ∙ c.agrees r lo hi k
          ∙ ap some (
              sym (
                patched_above bytes s.tuner.registers n size (omega (arith, c.shape)) r
                  (omega arith)));
    })

module _ (respond : Libusb) where
  abbrev read_transfer : ℕ → Session → Transfer
  read_transfer n s = record {
    request_type = read_request_type;
    request = i2crfx3;
    value = r820t2_addr;
    index = 0;
    bytes = slice 0 n s.tuner.registers;
  }

  read_run-Coherent : (n : ℕ) → n ≤ 5 → Keeps Coherent (read_run respond 0 n)
  unfolding read_run known
  read_run-Coherent n h = keeps λ s c.
      let size : length (slice 0 n s.tuner.registers) ≡ n =
        length-slice 0 n s.tuner.registers (omega (arith, c.shape)) in
      let sized =
        length-overlay (respond s.log (read_transfer n s)).received (slice 0 n s.tuner.registers)
        ∙ size in
      elim (Bool-cases (respond s.log (read_transfer n s)).failed) [
        | inl bad ↦ rw bad (patched-Coherent n _ _ s h sized (λ r. refl) c)
        | inr good ↦
            rw good (patched-Coherent n _ _ s h (length-bitrev_all _ ∙ sized) (λ r. refl) c)
      ]

  -- Dirty bits of the first registers are cleared.
  clear_low-Coherent :
      (n : ℕ) (s : Session) → n ≤ 5 → Coherent s → Coherent (clear_dirty (2 ^ n - 1) s)
  clear_low-Coherent n s h c = record {
    shape = c.shape;
    agrees = λ r lo hi k. c.agrees r lo hi (
        omega (
          arith,
          k,
          bit-bit_and s.tuner.dirty (not32 (2 ^ n - 1)) r,
          bit-complement 32 (2 ^ n - 1) r (omega (arith, power)) hi,
          bit_above 5 (2 ^ n - 1) r (omega (arith, power)) lo,
          bit-le-one s.tuner.dirty r,
        ));
  }
    where
      power : 2 ^ n ≤ 2 ^ 5
      power = pow-le-pow_right {n = 2} (omega arith) {i = n} {j = 5} h

  pub read_value-Coherent : (f : Field) → f.reg < 5 → Keeps Coherent (read_value respond f)
  unfolding read_value
  read_value-Coherent f h = record {
    triple = Triple-bind _ _ (read_run-Coherent (f.reg + 1) (omega arith)).triple λ _.
        Triple-bind _ _ (Triple-modify _ λ s. clear_low-Coherent (f.reg + 1) s (omega arith))
          λ _. Triple-gets _;
  }
