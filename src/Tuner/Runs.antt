-- ===== src/Tuner/Runs.antt =====
-- The loop of `tuner_write_registers` sends each register of the mask, and nothing else.
use rf.Prelude.{ℕ, zero, suc, ◌+◌, ◌-◌, ◌^◌, ◌≤◌, ◌<◌, bit_and, ◌≡◌, refl, ap, ◌∙◌, arith}
use rf.Prelude.{Bool, true, false, ◌&&◌, ◌||◌, ltb, leb, ◌==◌, if◌then◌else◌, Bool-cases}
use rf.Prelude.{Option, none, some, length, get_or, slice, get_elem?-slice, length-slice, inl, inr}
use rf.Prelude.{Outcome, Ends, Ends-bind, Ends-mono, pure, ◌>>◌, Cmd}
use rf.Bits.{bit, bit-le-one, two_pow_test}
use rf.Usb.{Libusb, Transfer, i2cwfx3, write_request_type}
use rf.Tuner.Defs.{r820t2_addr, Tuner, Session, write_run, write_loop}
use rf.Tuner.Chip.{inside, known}

-- The chip's registers chosen by `p` are those of the shadow, and the others as they were.
abbrev pub Flushed : (ℕ → Bool) → Session → Session → Type 0
Flushed p s s' =
    (s'.tuner ≡ s.tuner)
    × ((r : ℕ)
        → r < 32
        → known s'.log r ≡ (if p r then some (get_or s.tuner.registers r 0) else known s.log r))

-- The chip's registers not chosen by `p` are as they were.
abbrev pub Spared : (ℕ → Bool) → Session → Session → Type 0
Spared p s s' =
    (s'.tuner ≡ s.tuner) × ((r : ℕ) → r < 32 → p r ≡ false → known s'.log r ≡ known s.log r)

abbrev pub HasShape : Session → Type 0
HasShape s = length s.tuner.registers ≡ 32

-- The transfer of a run.
abbrev run_transfer : ℕ → ℕ → Session → Transfer
run_transfer f n s = record {
  request_type = write_request_type;
  request = i2cwfx3;
  value = r820t2_addr;
  index = f;
  bytes = slice f n s.tuner.registers;
}

module _ (respond : Libusb) where
  pub write_run_lem :
      (f n : ℕ) (s : Session)
      → HasShape s
      → f + n ≤ 32
      → Ends (λ _. Flushed (inside f n) s) (Spared (inside f n) s) (write_run respond f n s)
  unfolding write_run known
  write_run_lem f n s shape h = elim (Bool-cases (respond s.log (run_transfer f n s)).failed) [
    | inl bad ↦ rw bad (refl, λ r k out. ground (arith, size))
    | inr good ↦
        rw good (refl, λ r k. ground (arith, size, good, get_elem?-slice f n r s.tuner.registers 0))
  ]
    where
      size : length (slice f n s.tuner.registers) ≡ n
      size = length-slice f n s.tuner.registers (omega (arith, shape))

-- What the loop has still to send at register `i`: the open run, and the mask from `i` on.
abbrev pub pending : ℕ → ℕ → Option ℕ → ℕ → Bool
pending mask i none r = leb i r && bit mask r == 1
pending mask i (some f) r = (leb f r && ltb r i) || (leb i r && bit mask r == 1)

-- An open run begins below `i`, and is closed at the end of the registers.
abbrev IsOpen : ℕ → Option ℕ → Type 0
IsOpen i none = Unit {0}
IsOpen i (some f) = (f < i) × (i ≤ 32)

module _ (p q : ℕ → Bool) (s : Session) (same : (r : ℕ) → r < 32 → p r ≡ q r) where
  Flushed-congr : (s' : Session) → Flushed p s s' → Flushed q s s'
  Flushed-congr s' h = (h.0, λ r k. rw (← same r k) (h.1 r k))

  Spared-congr : (s' : Session) → Spared p s s' → Spared q s s'
  Spared-congr s' h = (h.0, λ r k e. h.1 r k (same r k ∙ e))

  Ends-congr :
      (o : Outcome Session (Unit {0}))
      → Ends (λ _. Flushed p s) (Spared p s) o
      → Ends (λ _. Flushed q s) (Spared q s) o
  Ends-congr o = Ends-mono _ _ _ _ o (λ _. Flushed-congr) Spared-congr

module _ (mask : ℕ) where
  skip_pending :
      (i r : ℕ)
      → (i == 32 || bit_and (2 ^ i) mask == 0) ≡ true
      → r < 32
      → pending mask (i + 1) none r ≡ pending mask i none r
  skip_pending i r stop h = ground (arith, two_pow_test i mask, stop)

  open_pending :
      (i r : ℕ)
      → (i == 32 || bit_and (2 ^ i) mask == 0) ≡ false
      → pending mask (i + 1) (some i) r ≡ pending mask i none r
  open_pending i r go = ground (arith, two_pow_test i mask, bit-le-one mask i, go)

  extend_pending :
      (i f r : ℕ)
      → f < i
      → (i == 32 || bit_and (2 ^ i) mask == 0) ≡ false
      → pending mask (i + 1) (some f) r ≡ pending mask i (some f) r
  extend_pending i f r h go = ground (arith, two_pow_test i mask, bit-le-one mask i, go)

  close_pending :
      (i f r : ℕ)
      → f < i
      → (i == 32 || bit_and (2 ^ i) mask == 0) ≡ true
      → r < 32
      → (inside f (i - f) r || pending mask (i + 1) none r) ≡ pending mask i (some f) r
  close_pending i f r h stop k = ground (arith, two_pow_test i mask, stop)

-- A run and then the rest of the loop.
module _ (p q : ℕ → Bool) (s t : Session) (first : Flushed p s t) where
  Flushed-trans : (u : Session) → Flushed q t u → Flushed (λ r. p r || q r) s u
  Flushed-trans u h = (
    h.0 ∙ first.0,
    λ r k. ground (arith, h.1 r k, first.1 r k, ap (λ (x : Tuner). get_or x.registers r 0) first.0),
  )

  Spared-trans : (u : Session) → Spared q t u → Spared (λ r. p r || q r) s u
  Spared-trans u h = (h.0 ∙ first.0, λ r k out. ground (arith, h.1 r k, first.1 r k, out))

Spared-weaken : (p q : ℕ → Bool) (s t : Session) → Spared p s t → Spared (λ r. p r || q r) s t
Spared-weaken p q s t h = (h.0, λ r k out. ground (arith, h.1 r k, out))

-- A run is sent, and then what `rest` sends.
run_then :
    (respond : Libusb) (f n : ℕ) (q : ℕ → Bool) (rest : Cmd Session (Unit {0})) (s : Session)
    → HasShape s
    → f + n ≤ 32
    → ((t : Session) → HasShape t → Ends (λ _. Flushed q t) (Spared q t) (rest t))
    → Ends
        (λ _. Flushed (λ r. inside f n r || q r) s)
        (Spared (λ r. inside f n r || q r) s)
        ((write_run respond f n >> rest) s)
run_then respond f n q rest s shape h k =
    Ends-bind (λ _. Flushed (inside f n) s) _ _ (write_run respond f n) (λ _. rest) s
      (Ends-mono _ _ _ _ (write_run respond f n s) (λ _ t p. p)
        (λ t. Spared-weaken (inside f n) q s t) (write_run_lem respond f n s shape h))
      λ _ t first.
        Ends-mono _ _ _ _ (rest t) (λ _. Flushed-trans (inside f n) q s t first)
          (Spared-trans (inside f n) q s t first)
          (k t (ap (λ (x : Tuner). length x.registers) first.0 ∙ shape))

module _ (respond : Libusb) (mask : ℕ) where
  -- The loop from register `i` on sends exactly what is pending, and on failure nothing else.
  pub write_loop_lem :
      (rounds i : ℕ) (from : Option ℕ) (s : Session)
      → i + rounds ≡ 33
      → IsOpen i from
      → HasShape s
      → Ends
          (λ _. Flushed (pending mask i from) s)
          (Spared (pending mask i from) s)
          (write_loop respond mask rounds i from s)
  unfolding write_loop pure
  write_loop_lem zero i none s e is_open shape = (refl, λ r k. ground arith)
  write_loop_lem zero i (some f) s e is_open shape = absurd (omega arith)
  write_loop_lem (suc rounds) i none s e is_open shape =
      elim (Bool-cases (i == 32 || bit_and (2 ^ i) mask == 0)) [
        | inl stop ↦
            rw (stop, write_loop)
              (Ends-congr _ _ s (λ r. skip_pending mask i r stop) _
                (write_loop_lem rounds (i + 1) none s (omega arith) tt shape))
        | inr go ↦
            rw (go, write_loop)
              (Ends-congr _ _ s (λ r _. open_pending mask i r go) _
                (write_loop_lem rounds (i + 1) (some i) s (omega arith) (omega arith, ground arith)
                  shape))
      ]
  write_loop_lem (suc rounds) i (some f) s e is_open shape =
      elim (Bool-cases (i == 32 || bit_and (2 ^ i) mask == 0)) [
        | inl stop ↦
            rw (stop, write_loop)
              (Ends-congr _ _ s (λ r. close_pending mask i f r is_open.0 stop) _
                (run_then respond f (i - f) (pending mask (i + 1) none) _ s shape
                  (omega (arith, is_open.1))
                  λ t shape'. write_loop_lem rounds (i + 1) none t (omega arith) tt shape'))
        | inr go ↦
            rw (go, write_loop)
              (Ends-congr _ _ s (λ r _. extend_pending mask i f r is_open.0 go) _
                (write_loop_lem rounds (i + 1) (some f) s (omega arith) (omega arith, ground arith)
                  shape))
      ]
