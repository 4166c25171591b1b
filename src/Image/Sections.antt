-- ===== src/Image/Sections.antt =====
-- Sections of words, their sum, and `validate_image`'s loop over one section.
use rf.Prelude.{
  ℕ, zero, suc, ◌+◌, ◌%◌, ◌^◌, ◌≤◌, ◌≡◌, ◌≢◌, refl, ap, some, List, [], ◌∷◌, ◌++◌, length, arith,
}
use rf.Image.Defs.{valid, Summed, sum_words, compare_checksum}

-- A section of an image: where it is loaded, and its words.
pub record Section : Type 0 where
  pub address : ℕ
  pub contents : List ℕ

-- The words of sections, each behind its length and its address.
unfoldable pub section_words : List Section → List ℕ
section_words [] = []
section_words (s ∷ ss) = length s.contents ∷ s.address ∷ s.contents ++ section_words ss

abbrev pub add_words : ℕ → List ℕ → ℕ
add_words c [] = c
add_words c (w ∷ ws) = add_words ((c + w) % 2 ^ 32) ws

-- The sum of the words of all sections, modulo 2 ^ 32.
abbrev pub checksum_of : ℕ → List Section → ℕ
checksum_of c [] = c
checksum_of c (s ∷ ss) = checksum_of (add_words c s.contents) ss

abbrev pub Filled : List Section → Type 0
Filled [] = Unit
Filled (s ∷ ss) = (length s.contents ≢ 0) × Filled ss

-- Sections that are not empty, a 0, the entry address and the checksum; more may follow.
pub record Loads (c : ℕ) (words : List ℕ) : Type 0 where
  pub sections : List Section
  pub entry : ℕ
  pub rest : List ℕ
  pub filled : Filled sections
  pub split : words ≡ section_words sections ++ (0 ∷ entry ∷ checksum_of c sections ∷ rest)

-- The words that were summed, and those behind.
pub sum_words_sound :
    (n c : ℕ) (ws : List ℕ) (s : Summed)
    → sum_words n c ws ≡ some s
    → (front : List ℕ) × (ws ≡ front ++ s.behind)
      × (length front ≡ n)
      × (s.checksum ≡ add_words c front)
unfolding sum_words
sum_words_sound zero c ws s h = ([], ground (arith, h), refl, ground (arith, h))
sum_words_sound (suc n) c [] s h = cc
sum_words_sound (suc n) c (w ∷ ws) s h =
    let (front, e, l, k) = sum_words_sound n ((c + w) % 2 ^ 32) ws s h in
    (w ∷ front, ap (λ (x : List ℕ). w ∷ x) e, omega (arith, l), k)

pub sum_words-append :
    (front back : List ℕ) (c : ℕ)
    → sum_words (length front) c (front ++ back)
      ≡ some (record { checksum = add_words c front; behind = back })
unfolding sum_words
sum_words-append [] back c = refl
sum_words-append (w ∷ front) back c = sum_words-append front back ((c + w) % 2 ^ 32)

pub sum_words-enough :
    (n c : ℕ) (ws : List ℕ)
    → n ≤ length ws
    → (s : Summed) × (sum_words n c ws ≡ some s) × (length s.behind + n ≡ length ws)
unfolding sum_words
sum_words-enough zero c ws h = (record { checksum = c; behind = ws }, refl, omega arith)
sum_words-enough (suc n) c [] h = absurd (omega arith)
sum_words-enough (suc n) c (w ∷ ws) h =
    let (s, e, l) = sum_words-enough n ((c + w) % 2 ^ 32) ws (omega arith) in
    (s, e, omega (arith, l))

pub compare_checksum_sound :
    (c : ℕ) (ws : List ℕ)
    → compare_checksum c ws ≡ valid
    → (entry : ℕ) × (rest : List ℕ) × (ws ≡ entry ∷ c ∷ rest)
unfolding compare_checksum
compare_checksum_sound c [] h = cc
compare_checksum_sound c (e ∷ []) h = cc
compare_checksum_sound c (e ∷ x ∷ rest) h = (e, rest, ground (arith, h))
