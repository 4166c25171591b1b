-- ===== src/Clock/Choice.antt =====
-- The R divider that `clock_source_set_clock` chooses, and the ratio that it finds.
use rf.Prelude.{
  ℕ, zero, suc, ◌+◌, ◌%◌, ◌^◌, ◌≤◌, ◌<◌, ◌≡◌, ◌⊎◌, inl, inr, refl, sym, ap, ◌∙◌, arith,
}
use rf.Prelude.{Bool, true, false, ltb, leb, Bool-cases}
use native.Mathlib.Numerals.{add-one}
use rf.Double.{Doubles}
use rf.Clock.Ratio.{Best, Search, distance}
use rf.Clock.Defs.{RDivider, r_divider_loop, choose_r_divider}

module _ (doubles : Doubles) where
  open doubles use {Double, of_int, mul, lt, ge, decimal, to_u32, whole, fraction}

  -- The frequency doubled `k` times.
  abbrev pub doubled : ℕ → Double → Double
  doubled zero f = f
  doubled (suc k) f = mul (doubled k f) (of_int 2)

  -- Too low for the Si5351 without an R divider.
  abbrev pub too_low : Double → Bool
  too_low f = lt f (of_int 1_000_000)

  -- The number of doublings is the least that gives 1 MHz, if at most eight do.
  pub record Least (f : Double) (r : RDivider doubles) : Type 0 where
    pub frequency : r.r_frequency ≡ doubled r.rdiv f
    pub room : r.rdiv ≤ 8
    pub needed : (j : ℕ) → j < r.rdiv → too_low (doubled j f) ≡ true
    pub reached : (r.rdiv ≡ 8) ⊎ (too_low (doubled r.rdiv f) ≡ false)

  module _ (f : Double) where
    doubled_add_one : (k : ℕ) → doubled (k + 1) f ≡ mul (doubled k f) (of_int 2)
    doubled_add_one k = rw add-one

    r_divider_loop_lem :
        (rounds : ℕ) (r : RDivider doubles)
        → r.rdiv + rounds ≡ 9
        → r.rdiv ≤ 8
        → r.r_frequency ≡ doubled r.rdiv f
        → ((j : ℕ) → j < r.rdiv → too_low (doubled j f) ≡ true)
        → Least f (r_divider_loop doubles rounds r)
    unfolding r_divider_loop
    r_divider_loop_lem zero r e room same low = absurd (omega arith)
    r_divider_loop_lem (suc rounds) r e room same low = elim (Bool-cases (too_low r.r_frequency)) [
      | inr done ↦
          rw done (record {
            frequency = same;
            room = room;
            needed = low;
            reached = inr (rw (← same) done);
          })
      | inl more ↦ elim (Bool-cases (leb r.rdiv 7)) [
        | inr last ↦
            rw (more, last)
              (record { frequency = same; room = room; needed = low; reached = inl (ground arith) })
        | inl below ↦
            let next : (r.rdiv + 1) % 2 ^ 8 ≡ r.rdiv + 1 = ground arith in
            rw (more, below, next)
              (r_divider_loop_lem rounds _ (omega arith) (ground arith)
                (ap (λ (x : Double). mul x (of_int 2)) same ∙ sym (doubled_add_one r.rdiv))
                λ j h. elim (Bool-cases (ltb j r.rdiv)) [
                  | inl old ↦ low j (ground arith)
                  | inr new ↦ let here : j ≡ r.rdiv = ground arith in rw (here, ← same) more
                ])
      ]
    ]

    none_below : (j : ℕ) → j < 0 → too_low (doubled j f) ≡ true
    none_below j h = absurd (omega arith)

    -- The R divider of a frequency is the least number of doublings that brings it to 1 MHz, if at
    -- most seven do; otherwise it is eight.
    pub choose_r_divider_lem : Least f (choose_r_divider doubles f)
    unfolding choose_r_divider
    choose_r_divider_lem = r_divider_loop_lem 9 _ refl (omega arith) refl λ j h. none_below j h

  -- What the search promises of `b / c`.
  abbrev pub Approximates : ℕ → Double → ℕ → ℕ → Type 0
  Approximates max_denominator f0 b c =
      ((b ≡ 0) × (c ≡ 1)) ⊎ ((c ≤ max_denominator) × (lt (distance doubles b c f0) f0 ≡ true))

  -- Nothing was found, or the denominator is in range and the ratio is closer to `f0` than 0 is;
  -- `delta` is its distance.
  module _ (max_denominator : ℕ) (f0 : Double)
      (lt_trans : (x y z : Double) → lt x y ≡ true → lt y z ≡ true → lt x z ≡ true) where
    abbrev Sound : Best doubles → Type 0
    Sound best =
        ((best.b ≡ 0) × (best.c ≡ 1) × (best.delta ≡ f0))
        ⊎ ((best.c ≤ max_denominator)
            × (best.delta ≡ distance doubles best.b best.c f0)
            × (lt best.delta f0 ≡ true))

    start : Search doubles
    start = record {
      f = f0;
      h0 = 1;
      h1 = 0;
      k0 = 0;
      k1 = 1;
      best = record { b = 0; c = 1; delta = f0 };
    }
