-- ===== src/Tuner/MuxLaws.antt =====
-- The row that `tuner_compute_mux_parameters` selects.
use rf.Prelude.{
  ℕ, zero, suc, ◌+◌, ◌≤◌, ◌<◌, ◌≡◌, ◌⊎◌, inl, inr, refl, ap, ◌∙◌, arith, Bool, true, false, ◌&&◌,
  Bool-cases,
}
use rf.Prelude.{List, [], ◌∷◌, length, get_or, all_below, all_below_sound}
use native.Mathlib.Numerals.{add-one}
use rf.Double.{Doubles}
use rf.Tuner.Fields
use rf.Tuner.Defs.{fits}
use rf.Tuner.Mux.{
  MuxParameters, Row, first_row, later_rows, row_parameters, find_row, compute_mux_parameters,
}

-- Row `i` of the table.
abbrev pub table_row : ℕ → Row
table_row i = get_or (first_row ∷ later_rows) i first_row

-- Each parameter passes the assertions on its field.
abbrev pub fit_fields : MuxParameters → Bool
fit_fields p =
    fits Fields.open_d p.open_d
    && fits Fields.rfmux p.rfmux
    && fits Fields.rffilt p.rffilt
    && fits Fields.tf_nch p.tf_nch
    && fits Fields.tf_lp p.tf_lp

module _ (doubles : Doubles) where
  open doubles use {Double, of_int, lt}

  -- The frequency is below the row's.
  abbrev pub before : Double → Row → Bool
  before f r = lt f (of_int r.lower_frequency)

  -- `i` is the last row such that no row up to it begins above the frequency.
  pub record Selected (f : Double) (p : MuxParameters) : Type 0 where
    pub i : ℕ
    pub in_table : i < 21
    pub parameters : p ≡ row_parameters (table_row i)
    pub reached : (j : ℕ) → 0 < j → j ≤ i → before f (table_row j) ≡ false
    pub ends : (i ≡ 20) ⊎ (before f (table_row (i + 1)) ≡ true)
    pub fit : fit_fields p ≡ true

  abbrev Found : Double → Row → List Row → Row → Type 0
  Found f current rows r =
      (i : ℕ) × (i ≤ length rows)
      × (r ≡ get_or (current ∷ rows) i first_row)
      × ((j : ℕ) → j < i → before f (get_or rows j first_row) ≡ false)
      × ((i ≡ length rows) ⊎ (before f (get_or rows i first_row) ≡ true))

  find_row_lem :
      (f : Double) (current : Row) (rows : List Row)
      → Found f current rows (find_row doubles f current rows)
  unfolding find_row
  find_row_lem f current [] = (0, omega arith, refl, (λ j h. absurd (omega arith)), inl refl)
  find_row_lem f current (next ∷ rows) = elim (Bool-cases (before f next)) [
    | inl above ↦ rw above (0, omega arith, refl, (λ j h. absurd (omega arith)), inr above)
    | inr reached ↦
        let found = find_row_lem f next rows in
        rw reached (
          suc found.0,
          omega (arith, found.1),
          found.2,
          (λ j h. earlier f next rows found.0 reached found.3 j h),
          at_end found.0 (length rows) found.4,
        )
  ]
    where
      earlier :
          (f : Double) (next : Row) (rows : List Row) (i : ℕ)
          → before f next ≡ false
          → ((j : ℕ) → j < i → before f (get_or rows j first_row) ≡ false)
          → (j : ℕ) → j < suc i
          → before f (get_or (next ∷ rows) j first_row) ≡ false
      earlier f next rows i reached h zero k = reached
      earlier f next rows i reached h (suc j) k = h j (omega arith)

      at_end : {B : Type 0} (i n : ℕ) → (i ≡ n) ⊎ B → (suc i ≡ suc n) ⊎ B
      at_end i n (inl e) = inl (omega arith)
      at_end i n (inr b) = inr b

  next_row : (i : ℕ) → table_row (i + 1) ≡ get_or later_rows i first_row
  next_row i = rw add-one

  selected : (f : Double) (r : Row) → Found f first_row later_rows r → Selected f (row_parameters r)
  selected f r found = record {
    i = found.0;
    in_table = omega (arith, found.1);
    parameters = ap row_parameters found.2;
    reached = reached f found.0 found.3;
    ends = elim found.4 [ inl e ↦ inl e | inr h ↦ inr (ap (before f) (next_row found.0) ∙ h) ];
    fit =
        ap (λ (x : Row). fit_fields (row_parameters x)) found.2
        ∙ all_fit found.0 (omega (arith, found.1));
  }
    where
      reached :
          (f : Double) (i : ℕ)
          → ((j : ℕ) → j < i → before f (get_or later_rows j first_row) ≡ false)
          → (j : ℕ) → 0 < j
          → j ≤ i
          → before f (table_row j) ≡ false
      reached f i h zero pos k = absurd (omega arith)
      reached f i h (suc j) pos k = h j (omega arith)

      all_fit : (i : ℕ) → i < 21 → fit_fields (row_parameters (table_row i)) ≡ true
      all_fit i h =
          all_below_sound 21 (λ j. fit_fields (row_parameters (table_row j))) i
            (unfold all_below row_parameters fits in refl) h

  -- The parameters are those of the last row of the table such that neither it nor a row before
  -- it, but for the first, begins above the frequency; they pass the assertions on their fields.
  pub compute_mux_parameters_lem : (f : Double) → Selected f (compute_mux_parameters doubles f)
  unfolding compute_mux_parameters
  compute_mux_parameters_lem f =
      selected f (find_row doubles f first_row later_rows) (find_row_lem f first_row later_rows)
