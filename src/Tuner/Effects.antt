-- ===== src/Tuner/Effects.antt =====
-- What a successful write of one field leaves in the shadow register and on the chip.
use rf.Prelude.{
  ℕ, suc, [], ◌∷◌, ◌&&◌, fail, ◌*◌, ◌/◌, ◌%◌, ◌^◌, ◌<◌, ◌≡◌, ◌≢◌, ◌⊎◌, inl, inr, refl, ap, subst,
  ◌∙◌, arith, Bool, true, false, leb, ◌==◌,
}
use rf.Prelude.{
  some, length, get_or, Ends, Ends-mono, Ends-bind, Outcome, err, Bool-cases, ◌>>=◌, modify, check,
}
use rf.Prelude.{List, all_below, all_below_sound, bit_and, length-set}
use rf.Usb.{Libusb}
use rf.Tuner.Fields
use rf.Tuner.Fields.{Field}
use rf.Tuner.Defs.{
  Tuner, Session, fits, get_value, set_value, set_field, write_run, write_value, clear_dirty,
}
use rf.Tuner.Values.{IsField, get_value-set_value_self, get_value-set_value_ne}
use rf.Tuner.Chip.{known, inside}
use rf.Tuner.Runs.{Flushed, HasShape, write_run_lem}
use rf.Tuner.Control.{
  find_index, set_gain, lna_gains, mixer_gains, vga_gains, set_lna_gain, set_mixer_gain,
  set_vga_gain,
}

-- The field holds the value, other fields are as before, and the chip has the new register.
pub record Holds (f : Field) (v : ℕ) (s t : Session) : Type 0 where
  pub value : get_value t.tuner f ≡ v
  pub others :
      (g : Field)
      → IsField g
      → (f.reg ≢ g.reg) ⊎ (bit_and f.mask g.mask ≡ 0)
      → get_value t.tuner g ≡ get_value s.tuner g
  pub sent : known t.log f.reg ≡ some (get_or t.tuner.registers f.reg 0)
  pub unsent : (r : ℕ) → r < 32 → r ≢ f.reg → known t.log r ≡ known s.log r

module _ (respond : Libusb) (f : Field) (v : ℕ) (is_field : IsField f) (byte : v < 256)
    (fine : fits f v ≡ true) (s : Session) (shape : HasShape s) where
  marked : Session
  marked = record s { tuner = set_value f v s.tuner }

  marked_shape : HasShape marked
  unfolding marked set_value
  marked_shape = length-set s.tuner.registers f.reg _ ∙ shape

  in_range : f.reg < length s.tuner.registers
  in_range = omega (arith, shape)

  -- The tuner after the write, whatever its dirty bits.
  Holds-marked :
      (t : Session) → Flushed (inside f.reg 1) marked t → Holds f v s (clear_dirty (2 ^ f.reg) t)
  unfolding marked set_value
  Holds-marked t h = record {
    value = value_of t h.0 f ∙ get_value-set_value_self f is_field v byte fine s.tuner in_range;
    others = λ g is_g apart.
        value_of t h.0 g
        ∙ get_value-set_value_ne f is_field v byte fine g s.tuner is_g in_range apart;
    sent = ground (arith, h.1 f.reg is_field.0, ap (λ (x : Tuner). get_or x.registers f.reg 0) h.0);
    unsent = λ r k other. ground (arith, h.1 r k);
  }
    where
      value_of :
          (t : Session)
          → t.tuner ≡ marked.tuner
          → (g : Field)
          → get_value (clear_dirty (2 ^ f.reg) t).tuner g ≡ get_value (set_value f v s.tuner) g
      value_of t e g = unfold get_value in ap (λ (x : Tuner). get_value x g) e

  -- With 32 shadow registers, a field of a byte register and a value that passes the assertions:
  -- if the transfer succeeds, the field holds the value, every field of another register or with
  -- other digits reads as before, the chip has the new shadow register and no other change; if it
  -- fails, the shadow register has the new value and is marked dirty.
  pub write_value_lem :
      leb (2 ^ f.shift) f.mask ≡ true
      → Ends (λ _. Holds f v s) (λ t. t.tuner ≡ set_value f v s.tuner) (write_value respond f v s)
  unfolding write_value ◌>>=◌ check modify set_field marked
  write_value_lem room =
      rw (fine, check)
        (rw (room, check)
          (Ends-bind (λ _. Flushed (inside f.reg 1) marked) _ _ (write_run respond f.reg 1)
            (λ _. modify (clear_dirty (2 ^ f.reg))) marked
            (Ends-mono _ _ _ _ (write_run respond f.reg 1 marked) (λ _ t h. h) (λ t h. h.0)
              (write_run_lem respond f.reg 1 marked marked_shape (omega (arith, is_field.0))))
            λ _ t h. Holds-marked t h))

find_index_missing :
    (v : ℕ) (xs : List ℕ)
    → ((i : ℕ) → i < length xs → get_or xs i 0 ≢ v)
    → find_index v xs ≡ length xs
unfolding find_index
find_index_missing v [] h = refl
find_index_missing v (x ∷ xs) h =
    ground (arith, h 0 (omega arith), find_index_missing v xs (λ i k. h (suc i) (omega arith)))

-- What a gain setter does with every argument.
record GainSetter (table : List ℕ) (f : Field) (set : ℕ → Session → Outcome Session (Unit {0}))
    : Type 0 where
  accepts :
      (i : ℕ) (s : Session)
      → i < 16
      → HasShape s
      → Ends (λ _. Holds f i s) (λ t. t.tuner ≡ set_value f i s.tuner) (set (get_or table i 0) s)
  refuses :
      (gain : ℕ) (s : Session) → ((i : ℕ) → i < 16 → get_or table i 0 ≢ gain) → set gain s ≡ err s

-- Distinct gains, each index of which fits the field.
abbrev gain_index_test : List ℕ → Field → ℕ → Bool
gain_index_test table f i = find_index (get_or table i 0) table == i && fits f (i % 2 ^ 8)

module _ (respond : Libusb) (table : List ℕ) (f : Field) (is_field : IsField f)
    (size : length table ≡ 16) (test : all_below 16 (gain_index_test table f) ≡ true)
    (room : leb (2 ^ f.shift) f.mask ≡ true) where
  set_gain-GainSetter : GainSetter table f (set_gain respond table f)
  unfolding set_gain
  set_gain-GainSetter = record {
    accepts = λ i s h shape.
        let passed = all_below_sound 16 (gain_index_test table f) i test h in
        let e : find_index (get_or table i 0) table ≡ i = ground arith in
        let small : i % 2 ^ 8 ≡ i = omega arith in
        let room_left : (i == length table) ≡ false = ground (arith, size) in
        rw (e, room_left, small)
          (write_value_lem respond f i is_field (omega arith) (ground (arith, small)) s shape room);
    refuses = λ gain s h.
        let e : find_index gain table ≡ length table =
          find_index_missing gain table (λ i k. h i (omega (arith, size))) in
        let full : (length table == length table) ≡ true = ground arith in
        rw (e, full) (unfold fail in refl);
  }

-- An accepted gain is written as an index into its table, and a refused one leaves all as it was.
abbrev pub SetsGain : Bool → ℕ → Field → Session → Outcome Session (Unit {0}) → Type 0
SetsGain true i f s o = Ends (λ _. Holds f i s) (λ t. t.tuner ≡ set_value f i s.tuner) o
SetsGain false i f s o = o ≡ err s

-- In a table that holds `step * i` at index `i`, a gain is accepted if it is such a multiple.
abbrev multiples : List ℕ → ℕ → ℕ → Bool
multiples table step i = get_or table i 0 == step * i

module _ (table : List ℕ) (f : Field) (set : ℕ → Session → Outcome Session (Unit {0}))
    (setter : GainSetter table f set) (gain : ℕ) (s : Session) (shape : HasShape s) where
  SetsGain-step_one :
      all_below 16 (multiples table 1) ≡ true → SetsGain (leb gain 15) gain f s (set gain s)
  SetsGain-step_one test = elim (Bool-cases (leb gain 15)) [
    | inl low ↦
        let e : get_or table gain 0 ≡ gain =
          ground (arith, all_below_sound 16 (multiples table 1) gain test) in
        rw low (rw e at (setter.accepts gain s (ground arith) shape))
    | inr high ↦ rw high (
        setter.refuses gain s
          λ i h e. ground (arith, all_below_sound 16 (multiples table 1) i test))
  ]

  SetsGain-step_two :
      all_below 16 (multiples table 2) ≡ true
      → SetsGain (gain % 2 == 0 && leb gain 30) (gain / 2) f s (set gain s)
  SetsGain-step_two test = elim (Bool-cases (gain % 2 == 0 && leb gain 30)) [
    | inl low ↦
        let e : get_or table (gain / 2) 0 ≡ gain =
          ground (arith, all_below_sound 16 (multiples table 2) (gain / 2) test) in
        rw low (
          subst
            (λ (g : ℕ).
              Ends (λ _. Holds f (gain / 2) s) (λ t. t.tuner ≡ set_value f (gain / 2) s.tuner)
                (set g s))
            e (setter.accepts (gain / 2) s (ground arith) shape))
    | inr high ↦ rw high (
        setter.refuses gain s
          λ i h e. ground (arith, all_below_sound 16 (multiples table 2) i test))
  ]

-- The LNA setter accepts the even gains up to 30, and the mixer and VGA setters the gains up to
-- 15. With an accepted gain, if the transfer succeeds, the field holds the gain's index, every
-- field apart from it reads as before, the chip has the new register and no other change; if it
-- fails, the shadow register has the new value and is marked dirty. A refused gain fails at once:
-- nothing is sent and nothing changes.
pub set_gain_all_cases :
    (respond : Libusb) (gain : ℕ) (s : Session)
    → HasShape s
    → SetsGain
        (gain % 2 == 0 && leb gain 30)
        (gain / 2)
        Fields.lna_gain
        s
        (set_lna_gain respond gain s)
      × SetsGain (leb gain 15) gain Fields.mix_gain s (set_mixer_gain respond gain s)
      × SetsGain (leb gain 15) gain Fields.vga_code s (set_vga_gain respond gain s)
unfolding set_lna_gain set_mixer_gain set_vga_gain all_below find_index fits
set_gain_all_cases respond gain s shape = (
  SetsGain-step_two lna_gains Fields.lna_gain (set_gain respond lna_gains Fields.lna_gain)
      (set_gain-GainSetter respond lna_gains Fields.lna_gain (omega arith) refl refl refl) gain s
      shape refl,
  SetsGain-step_one mixer_gains Fields.mix_gain (set_gain respond mixer_gains Fields.mix_gain)
      (set_gain-GainSetter respond mixer_gains Fields.mix_gain (omega arith) refl refl refl) gain s
      shape refl,
  SetsGain-step_one vga_gains Fields.vga_code (set_gain respond vga_gains Fields.vga_code)
      (set_gain-GainSetter respond vga_gains Fields.vga_code (omega arith) refl refl refl) gain s
      shape refl,
)
