-- ===== src/Image/Loading.antt =====
-- The loop of `validate_image` over the sections.
use rf.Prelude.{
  ℕ, zero, suc, ◌+◌, ◌-◌, ◌*◌, ◌≤◌, ◌<◌, ◌≡◌, ◌≢◌, refl, sym, ap, subst, ◌∙◌, inl, inr,
  Option-cases, List, [], ◌∷◌, ◌++◌, length, length-append, arith,
}
use mathlib.Core.List.{append_assoc}
use rf.Image.Defs.{valid, overrun, sum_words, load_loop}
use rf.Image.Sections.{
  Section, section_words, add_words, checksum_of, Filled, Loads, sum_words_sound, sum_words-append,
  sum_words-enough, compare_checksum_sound,
}
use rf.Image.Rounds.{
  section_round, lt_or_le, overrun_ne, invalid_ne, suc_ne_zero, end_round, outside_round,
  unread_round, missing_round, compare_checksum_same, compare_checksum_returns, length_of,
}

-- The loop reads no word behind an image of whole words, and has rounds enough.
pub load_loop_returns :
    (rounds size current c : ℕ) (words : List ℕ)
    → size ≡ 4 * (current + length words)
    → 3 ≤ length words
    → length words < rounds
    → load_loop rounds size current c words ≢ overrun
load_loop_returns zero size current c words s l r = absurd (omega (arith, r))
load_loop_returns (suc rounds) size current c [] s l r = absurd (omega (arith, l))
load_loop_returns (suc rounds) size current c (z ∷ []) s l r = absurd (omega (arith, l))
load_loop_returns (suc rounds) size current c (zero ∷ words) s l r =
    rw (end_round rounds size current c words) (compare_checksum_returns c words (omega (arith, l)))
load_loop_returns (suc rounds) size current c (suc z ∷ a ∷ words) s l r =
    elim (lt_or_le (4 * (current + 2 + suc z)) (size - 8)) [
      | inr out ↦
          rw (outside_round rounds size current c (suc z) a words (λ e. omega (arith, e)) out)
            (λ e. cc)
      | inl fits ↦
          let (t, e, behind) = sum_words-enough (suc z) c words (omega (arith, s, fits)) in
          rw (section_round rounds size current c (suc z) a words t (λ e. omega (arith, e)) fits e)
            (load_loop_returns rounds size (current + 2 + suc z) t.checksum t.behind
              (omega (arith, s, behind)) (omega (arith, s, behind, fits))
              (omega (arith, r, behind)))
    ]

-- The last words load: a 0, the entry address and the checksum.
pub end_Loads : (c entry : ℕ) (rest : List ℕ) → Loads c (0 ∷ entry ∷ c ∷ rest)
unfolding section_words
end_Loads c entry rest = record {
  sections = [];
  entry = entry;
  rest = rest;
  filled = tt;
  split = refl;
}

-- A section in front of words that load.
pub section_Loads :
    (c a : ℕ) (words front back : List ℕ)
    → words ≡ front ++ back
    → length front ≢ 0
    → Loads (add_words c front) back
    → Loads c (length front ∷ a ∷ words)
unfolding section_words
section_Loads c a words front back e n l = record {
  sections = record { address = a; contents = front } ∷ l.sections;
  entry = l.entry;
  rest = l.rest;
  filled = (n, l.filled);
  split =
      ap (λ (x : List ℕ). length front ∷ a ∷ x)
        (e ∙ ap (λ (x : List ℕ). front ++ x) l.split ∙ sym (append_assoc front _ _));
}

-- What is accepted loads.
pub load_loop-Loads :
    (rounds size current c : ℕ) (words : List ℕ)
    → load_loop rounds size current c words ≡ valid
    → Loads c words
unfolding load_loop
load_loop-Loads zero size current c words h = absurd (overrun_ne h)
load_loop-Loads (suc rounds) size current c [] h = absurd (overrun_ne h)
load_loop-Loads (suc rounds) size current c (zero ∷ words) h =
    let (entry, rest, e) = compare_checksum_sound c words h in
    subst (λ (x : List ℕ). Loads c (0 ∷ x)) (sym e) (end_Loads c entry rest)
load_loop-Loads (suc rounds) size current c (suc z ∷ []) h =
    absurd (overrun_ne (sym (missing_round rounds size current c (suc z) suc_ne_zero) ∙ h))
load_loop-Loads (suc rounds) size current c (suc z ∷ a ∷ words) h =
    elim (lt_or_le (4 * (current + 2 + suc z)) (size - 8)) [
      | inr out ↦
          let e = outside_round rounds size current c (suc z) a words suc_ne_zero out in
          absurd (invalid_ne (sym e ∙ h))
      | inl fits ↦ elim (Option-cases (sum_words (suc z) c words)) [
        | inl e ↦
            let e' = unread_round rounds size current c (suc z) a words suc_ne_zero fits e in
            absurd (overrun_ne (sym e' ∙ h))
        | inr (t, e) ↦
            let r = section_round rounds size current c (suc z) a words t suc_ne_zero fits e in
            let l = load_loop-Loads rounds size _ t.checksum t.behind (sym r ∙ h) in
            let (front, split, n, sum) = sum_words_sound (suc z) c words t e in
            subst (λ (x : ℕ). Loads c (x ∷ a ∷ words)) n
              (section_Loads c a words front t.behind split (λ e. omega (arith, n, e))
                (subst (λ (x : ℕ). Loads x t.behind) sum l))
      ]
    ]

-- A section in front of words for which there is room.
pub section_accepts :
    (rounds size current c a : ℕ) (words front back : List ℕ)
    → words ≡ front ++ back
    → length front ≢ 0
    → 3 ≤ length back
    → 4 * (current + 2 + length words) ≤ size
    → load_loop (suc rounds) size current c (length front ∷ a ∷ words)
      ≡ load_loop rounds size (current + 2 + length front) (add_words c front) back
section_accepts rounds size current c a words front back split n room fits =
    section_round rounds size current c (length front) a words
      (record { checksum = add_words c front; behind = back }) n
      (omega (arith, length_of split, room, fits, length-append front back))
      (ap (λ (x : List ℕ). sum_words (length front) c x) split ∙ sum_words-append front back c)

-- What loads is accepted, if the size counts at least the words.
pub load_loop-accepts :
    (ss : List Section) (rounds size current c entry : ℕ) (rest : List ℕ)
    → Filled ss
    → 4 * (current + length (section_words ss ++ (0 ∷ entry ∷ checksum_of c ss ∷ rest))) ≤ size
    → length (section_words ss ++ (0 ∷ entry ∷ checksum_of c ss ∷ rest)) < rounds
    → load_loop rounds size current c (section_words ss ++ (0 ∷ entry ∷ checksum_of c ss ∷ rest))
      ≡ valid
unfolding section_words
load_loop-accepts ss zero size current c entry rest filled fits enough =
    absurd (omega (arith, enough))
load_loop-accepts [] (suc rounds) size current c entry rest filled fits enough =
    end_round rounds size current c _ ∙ compare_checksum_same c entry rest
load_loop-accepts (s ∷ ss) (suc rounds) size current c entry rest (n, filled) fits enough =
    let sum = add_words c s.contents in
    let last = 0 ∷ entry ∷ checksum_of sum ss ∷ rest in
    let back = section_words ss ++ last in
    let e : (s.contents ++ section_words ss) ++ last ≡ s.contents ++ back =
      append_assoc s.contents _ _ in
    let l = length_of e ∙ length-append s.contents back in
    let m = length-append (section_words ss) last in
    section_accepts rounds size current c s.address _ s.contents back e n (omega (arith, m))
      (omega (arith, fits))
    ∙ load_loop-accepts ss rounds size _ sum entry rest filled (omega (arith, fits, l))
        (omega (arith, enough, l))
