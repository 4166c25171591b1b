-- ===== src/Image/Validation.antt =====
-- `validate_image`: which images it accepts, and which it reads past.
use rf.Prelude.{
  ℕ, ◌+◌, ◌*◌, ◌%◌, ◌≤◌, ◌<◌, ◌≡◌, ◌≢◌, refl, sym, ap, subst, ◌∙◌, ◌↔◌, ltb, Bool, true, false, not,
  ◌&&◌, ◌==◌, if◌then◌else◌, List, [], ◌∷◌, ◌++◌, length, get_or, arith,
}
use rf.Image.Defs.{
  words_of, Verdict, valid, invalid, overrun, load_loop, after_magic, has_byte, validate_image,
  magic,
}
use rf.Image.Sections.{Loads}
use rf.Image.Rounds.{length_of, invalid_ne}
use rf.Image.Loading.{load_loop_returns, load_loop-Loads, load_loop-accepts}

-- The words of bytes.
length-words_of : (bytes : List ℕ) → 4 * length (words_of bytes) ≤ length bytes
unfolding words_of
length-words_of [] = omega arith
length-words_of (a ∷ []) = omega arith
length-words_of (a ∷ b ∷ []) = omega arith
length-words_of (a ∷ b ∷ c ∷ []) = omega arith
length-words_of (a ∷ b ∷ c ∷ d ∷ bytes) = omega (arith, length-words_of bytes)

length-words_of_whole :
    (bytes : List ℕ) → length bytes % 4 ≡ 0 → 4 * length (words_of bytes) ≡ length bytes
unfolding words_of
length-words_of_whole [] h = refl
length-words_of_whole (a ∷ []) h = absurd (omega (arith, h))
length-words_of_whole (a ∷ b ∷ []) h = absurd (omega (arith, h))
length-words_of_whole (a ∷ b ∷ c ∷ []) h = absurd (omega (arith, h))
length-words_of_whole (a ∷ b ∷ c ∷ d ∷ bytes) h =
    omega (arith, length-words_of_whole bytes (omega (arith, h)))

-- The tests on the size and on the first four bytes.
abbrev tested : Bool → Bool → Bool → Bool → Bool → Verdict → Verdict
tested small c y i t v =
    if small
    then invalid
    else if not (c && y)
    then invalid
    else if not i
    then invalid
    else if not t
    then invalid
    else v

tested_sound :
    (small c y i t : Bool) (v : Verdict)
    → tested small c y i t v ≡ valid
    → (small ≡ false) × (c ≡ true) × (y ≡ true) × (i ≡ true) × (t ≡ true) × (v ≡ valid)
tested_sound true c y i t v h = absurd (invalid_ne h)
tested_sound false false y i t v h = absurd (invalid_ne h)
tested_sound false true false i t v h = absurd (invalid_ne h)
tested_sound false true true false t v h = absurd (invalid_ne h)
tested_sound false true true true false v h = absurd (invalid_ne h)
tested_sound false true true true true v h = (refl, refl, refl, refl, refl, h)

-- The image behind the four bytes.
validate_image-magic :
    (rest : List ℕ)
    → 10240 ≤ length (magic ++ rest)
    → validate_image (magic ++ rest)
      ≡ load_loop (length (words_of rest) + 1) (length (magic ++ rest)) 1 0 (words_of rest)
unfolding validate_image words_of after_magic
validate_image-magic rest large =
    let e : ltb (length (magic ++ rest)) 10240 ≡ false = ground arith in
    ap
      (λ (small : Bool).
        tested small true true true true
          (load_loop (length (words_of rest) + 1) (length (magic ++ rest)) 1 0 (words_of rest)))
      e

same : (a b : ℕ) → (a == b) ≡ true → a ≡ b
same a b h = ground (arith, h)

-- What is accepted has passed the tests of its size and its first four bytes.
tests_passed :
    (image : List ℕ)
    → validate_image image ≡ valid
    → (10240 ≤ length image)
      × (get_or image 0 0 ≡ 67)
      × (get_or image 1 0 ≡ 89)
      × (get_or image 2 0 ≡ 28)
      × (get_or image 3 0 ≡ 176)
unfolding validate_image
tests_passed image h =
    let (large, c, y, i, t, v) =
      tested_sound (ltb (length image) 10240) (has_byte image 0) (has_byte image 1)
        (has_byte image 2) (has_byte image 3) (after_magic (length image) (words_of image)) h in
    (ground (arith, large), same _ 67 c, same _ 89 y, same _ 28 i, same _ 176 t)

starts_with :
    (image : List ℕ)
    → (get_or image 0 0 ≡ 67)
    → (get_or image 1 0 ≡ 89)
    → (get_or image 2 0 ≡ 28)
    → (get_or image 3 0 ≡ 176)
    → (rest : List ℕ) × (image ≡ magic ++ rest)
starts_with [] a b c d = absurd (omega (arith, a))
starts_with (w ∷ []) a b c d = absurd (omega (arith, b))
starts_with (w ∷ x ∷ []) a b c d = absurd (omega (arith, c))
starts_with (w ∷ x ∷ y ∷ []) a b c d = absurd (omega (arith, d))
starts_with (w ∷ x ∷ y ∷ z ∷ rest) a b c d = (rest, cc)

Loads-accepted :
    (rounds size current c : ℕ) (words : List ℕ)
    → Loads c words
    → 4 * (current + length words) ≤ size
    → length words < rounds
    → load_loop rounds size current c words ≡ valid
Loads-accepted rounds size current c words l fits enough =
    let P = λ (x : List ℕ).
      4 * (current + length x) ≤ size
      → length x < rounds
      → load_loop rounds size current c x ≡ valid in
    subst P (sym l.split)
      (load_loop-accepts l.sections rounds size current c l.entry l.rest l.filled) fits enough

-- At least 10240 bytes: the magic, and words that load.
abbrev pub Bootable : List ℕ → Type 0
Bootable image =
    (10240 ≤ length image) × ((rest : List ℕ) × (image ≡ magic ++ rest) × Loads 0 (words_of rest))

-- `validate_image` accepts exactly the images of at least 10240 bytes that begin with 'C', 'Y' and
-- the bytes 0x1c and 0xb0, and whose words behind these are sections that are not empty, each as its
-- length, its address and its words, then a 0, an entry address, and the sum of the words of all
-- sections modulo 2 ^ 32. More words, and up to three bytes more, may follow.
pub validate_image_lem : (image : List ℕ) → (validate_image image ≡ valid) ↔ Bootable image
validate_image_lem image = (
  λ h.
      let (large, a, b, c, d) = tests_passed image h in
      let (rest, e) = starts_with image a b c d in
      let e' = validate_image-magic rest (omega (arith, large, length_of e)) in
      let h' = subst (λ (x : List ℕ). validate_image x ≡ valid) e h in
      (large, (rest, e, load_loop-Loads _ _ _ _ _ (sym e' ∙ h'))),
  λ (large, (rest, e, l)).
      subst (λ (x : List ℕ). validate_image x ≡ valid) (sym e)
        (validate_image-magic rest (omega (arith, large, length_of e))
          ∙ Loads-accepted _ _ _ _ _ l (omega (arith, length-words_of rest)) (omega arith)),
)

invalid_ne_overrun : invalid ≢ overrun
invalid_ne_overrun h = cc

not_overrun :
    (small c y i t : Bool) (v : Verdict)
    → (small ≡ false → v ≢ overrun)
    → tested small c y i t v ≢ overrun
not_overrun true c y i t v n = invalid_ne_overrun
not_overrun false false y i t v n = invalid_ne_overrun
not_overrun false true false i t v n = invalid_ne_overrun
not_overrun false true true false t v n = invalid_ne_overrun
not_overrun false true true true false v n = invalid_ne_overrun
not_overrun false true true true true v n = n refl

after_magic_returns :
    (size : ℕ) (words : List ℕ)
    → 4 * length words ≡ size
    → 10240 ≤ size
    → after_magic size words ≢ overrun
unfolding after_magic
after_magic_returns size [] e large = absurd (omega (arith, e, large))
after_magic_returns size (w ∷ words) e large =
    load_loop_returns (length words + 1) size 1 0 words (omega (arith, e)) (omega (arith, e, large))
      (omega arith)

-- An image whose size is a multiple of 4 is accepted or refused without a word read behind its
-- end, and the rounds are enough.
pub validate_image_returns :
    (image : List ℕ) → length image % 4 ≡ 0 → validate_image image ≢ overrun
unfolding validate_image
validate_image_returns image whole =
    not_overrun (ltb (length image) 10240) (has_byte image 0) (has_byte image 1) (has_byte image 2)
      (has_byte image 3) (after_magic (length image) (words_of image))
      (λ large. after_magic_returns _ _ (length-words_of_whole image whole) (ground (arith, large)))
