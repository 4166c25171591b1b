-- ===== src/Clock/Ratio.antt =====
-- src/clock_source.c: `rational_approximation`, the search for a ratio close to a fraction among
-- the convergents of its continued fraction and the ratios between them.
use rf.Prelude.{ℕ, zero, suc, ◌+◌, ◌-◌, ◌*◌, ◌/◌, ◌%◌, ◌^◌, ltb, if◌then◌else◌}
use rf.Double.{Doubles}

module _ (doubles : Doubles) where
  open doubles use {Double, of_int, div, sub, abs, lt, ge, to_u32, whole, fraction, decimal}

  -- `*b`, `*c` and `delta`.
  pub record Best : Type 0 where
    pub b : ℕ
    pub c : ℕ
    pub delta : Double

  -- `f`, and the numerators and denominators of the last two convergents.
  pub record Search : Type 0 where
    pub f : Double
    pub h0 : ℕ
    pub h1 : ℕ
    pub k0 : ℕ
    pub k1 : ℕ
    pub best : Best

  abbrev pub distance : ℕ → ℕ → Double → Double
  distance b c f0 = abs (sub (div (of_int b) (of_int c)) f0)

  unfoldable pub closer : Double → ℕ → ℕ → Best → Best
  closer f0 hm km best =
      let d = distance hm km f0 in
      if lt d best.delta then record { b = hm; c = km; delta = d } else best

  -- The inner loop from `m` on. It has `an - (an + 1) / 2 + 1` rounds.
  unfoldable pub between : ℕ → Double → Search → ℕ → ℕ → Best → Best
  unfolding closer
  between max_denominator f0 s zero m best = best
  between max_denominator f0 s (suc rounds) m best =
      let hm = (m * s.h1 + s.h0) % 2 ^ 32 in
      let km = (m * s.k1 + s.k0) % 2 ^ 32 in
      let rest = between max_denominator f0 s rounds (m + 1) (closer f0 hm km best) in
      if ltb max_denominator km then best else rest

  unfoldable pub convergents : ℕ → Double → ℕ → Search → Search
  unfolding between
  convergents max_denominator f0 zero s = s
  convergents max_denominator f0 (suc rounds) s =
      let inverse = div (of_int 1) s.f in
      let an = to_u32 (whole inverse) in
      let first = (an + 1) % 2 ^ 32 / 2 in
      let rest = convergents max_denominator f0 rounds (record {
        f = fraction inverse;
        h0 = s.h1;
        h1 = (an * s.h1 + s.h0) % 2 ^ 32;
        k0 = s.k1;
        k1 = (an * s.k1 + s.k0) % 2 ^ 32;
        best = between max_denominator f0 s (an - first + 1) first s.best;
      }) in
      if ge (decimal 1 5) s.f then s else rest

  pub record Ratio : Type 0 where
    pub a : ℕ
    pub b : ℕ
    pub c : ℕ

  unfoldable pub rational_approximation : Double → ℕ → Ratio
  unfolding convergents
  rational_approximation value max_denominator =
      let f0 = fraction value in
      let s = convergents max_denominator f0 100 (record {
        f = f0;
        h0 = 1;
        h1 = 0;
        k0 = 0;
        k1 = 1;
        best = record { b = 0; c = 1; delta = f0 };
      }) in
      record { a = to_u32 (whole value); b = s.best.b; c = s.best.c }
