-- ===== src/Image/Rounds.antt =====
-- One round of the loop of `validate_image` over the sections.
use rf.Prelude.{
  ℕ, suc, ◌+◌, ◌-◌, ◌*◌, ◌≤◌, ◌<◌, ◌≡◌, ◌≢◌, refl, ap, inl, inr, ◌⊎◌, ltb, leb, true, false, ◌==◌,
  Bool-cases, none, some, List, [], ◌∷◌, length, arith,
}
use rf.Image.Defs.{valid, invalid, overrun, Summed, sum_words, compare_checksum, load_loop}

-- One round on a section: its words fit before the last two, are there, and the next round follows.
pub section_round :
    (rounds size current c z a : ℕ) (words : List ℕ) (s : Summed)
    → z ≢ 0
    → 4 * (current + 2 + z) < size - 8
    → sum_words z c words ≡ some s
    → load_loop (suc rounds) size current c (z ∷ a ∷ words)
      ≡ load_loop rounds size (current + 2 + z) s.checksum s.behind
unfolding load_loop
section_round rounds size current c z a words s nz fits e =
    let n : (z == 0) ≡ false = ground arith in
    let f : leb (size - 8) (4 * (current + 2 + z)) ≡ false = ground arith in
    rw (n, load_loop, f, e) refl

pub lt_or_le : (m n : ℕ) → (m < n) ⊎ (n ≤ m)
lt_or_le m n = elim (Bool-cases (ltb m n)) [
  | inl h ↦ inl (ground arith)
  | inr h ↦ inr (ground arith)
]

pub overrun_ne : overrun ≢ valid
overrun_ne h = cc

pub invalid_ne : invalid ≢ valid
invalid_ne h = cc

pub suc_ne_zero : {n : ℕ} → suc n ≢ 0
suc_ne_zero e = omega (arith, e)

-- A length of 0 ends the sections.
pub end_round :
    (rounds size current c : ℕ) (words : List ℕ)
    → load_loop (suc rounds) size current c (0 ∷ words) ≡ compare_checksum c words
unfolding load_loop
end_round rounds size current c words = refl

pub outside_round :
    (rounds size current c z a : ℕ) (words : List ℕ)
    → z ≢ 0
    → size - 8 ≤ 4 * (current + 2 + z)
    → load_loop (suc rounds) size current c (z ∷ a ∷ words) ≡ invalid
unfolding load_loop
outside_round rounds size current c z a words nz out =
    let n : (z == 0) ≡ false = ground arith in
    let f : leb (size - 8) (4 * (current + 2 + z)) ≡ true = ground arith in
    rw (n, load_loop, f) refl

pub unread_round :
    (rounds size current c z a : ℕ) (words : List ℕ)
    → z ≢ 0
    → 4 * (current + 2 + z) < size - 8
    → sum_words z c words ≡ none
    → load_loop (suc rounds) size current c (z ∷ a ∷ words) ≡ overrun
unfolding load_loop
unread_round rounds size current c z a words nz fits e =
    let n : (z == 0) ≡ false = ground arith in
    let f : leb (size - 8) (4 * (current + 2 + z)) ≡ false = ground arith in
    rw (n, load_loop, f, e) refl

pub compare_checksum_same :
    (c entry : ℕ) (rest : List ℕ) → compare_checksum c (entry ∷ c ∷ rest) ≡ valid
unfolding compare_checksum
compare_checksum_same c entry rest = ground arith

pub length_of : {xs ys : List ℕ} → xs ≡ ys → length xs ≡ length ys
length_of e = ap (λ (l : List ℕ). length l) e

pub compare_checksum_returns :
    (c : ℕ) (ws : List ℕ) → 2 ≤ length ws → compare_checksum c ws ≢ overrun
unfolding compare_checksum
compare_checksum_returns c [] l = absurd (omega (arith, l))
compare_checksum_returns c (e ∷ []) l = absurd (omega (arith, l))
compare_checksum_returns c (e ∷ x ∷ ws) l = λ h. ground (arith, h)

pub missing_round :
    (rounds size current c z : ℕ) → z ≢ 0 → load_loop (suc rounds) size current c (z ∷ []) ≡ overrun
unfolding load_loop
missing_round rounds size current c z nz =
    let n : (z == 0) ≡ false = ground arith in rw (n, load_loop) refl
