-- ===== src/Image/Defs.antt =====
-- `validate_image` of src/usb_device.c, on the bytes of an image.
use rf.Prelude.{
  ℕ, zero, suc, ◌+◌, ◌-◌, ◌*◌, ◌%◌, ◌^◌, ltb, leb, Bool, true, false, not, ◌&&◌, ◌==◌,
  if◌then◌else◌, Option, none, some, List, [], ◌∷◌, length, get_or,
}

-- The words of 32 bits that the bytes make, lowest byte first.
unfoldable pub words_of : List ℕ → List ℕ
words_of [] = []
words_of (a ∷ []) = []
words_of (a ∷ b ∷ []) = []
words_of (a ∷ b ∷ c ∷ []) = []
words_of (a ∷ b ∷ c ∷ d ∷ bytes) = (a + 256 * (b + 256 * (c + 256 * d))) ∷ words_of bytes

-- 0 and -1; or a word was read behind the image, which C does not define.
pub data Verdict : Type 0 where
  valid invalid overrun : Verdict

-- The loop over the words of a section: the checksum, and the words behind. Nothing where the words
-- run out.
pub record Summed : Type 0 where
  pub checksum : ℕ
  pub behind : List ℕ

unfoldable pub sum_words : ℕ → ℕ → List ℕ → Option Summed
sum_words zero checksum words = some (record { checksum = checksum; behind = words })
sum_words (suc n) checksum [] = none
sum_words (suc n) checksum (w ∷ words) = sum_words n ((checksum + w) % 2 ^ 32) words

-- The two words behind the last section.
unfoldable pub compare_checksum : ℕ → List ℕ → Verdict
compare_checksum checksum [] = overrun
compare_checksum checksum (entry_addr ∷ []) = overrun
compare_checksum checksum (entry_addr ∷ expected ∷ words) =
    if checksum == expected then valid else invalid

-- The loop over the sections, from the word with the number `current` on. The image's size counts
-- bytes; the rounds are those left.
unfoldable pub load_loop : ℕ → ℕ → ℕ → ℕ → List ℕ → Verdict
unfolding sum_words compare_checksum
load_loop zero size current checksum words = overrun
load_loop (suc rounds) size current checksum [] = overrun
load_loop (suc rounds) size current checksum (load_size ∷ words) = elim (load_size == 0) [
  | true ↦ compare_checksum checksum words
  | false ↦ elim words [
    | [] ↦ overrun
    | sec_start ∷ words ↦ elim (leb (size - 8) (4 * (current + 2 + load_size))) [
      | true ↦ invalid
      | false ↦ elim (sum_words load_size checksum words) [
        | none ↦ overrun
        | some s ↦ load_loop rounds size (current + 2 + load_size) s.checksum s.behind
      ]
    ]
  ]
]

-- The word with 'CY', the I2C configuration and the image type.
abbrev pub magic : List ℕ
magic = b'C' ∷ b'Y' ∷ 0x1c ∷ 0xb0 ∷ []

abbrev pub has_byte : List ℕ → ℕ → Bool
has_byte image i = get_or image i 0 == get_or magic i 0

unfoldable pub after_magic : ℕ → List ℕ → Verdict
unfolding load_loop
after_magic size [] = overrun
after_magic size (w ∷ words) = load_loop (length words + 1) size 1 0 words

unfoldable pub validate_image : List ℕ → Verdict
unfolding words_of after_magic
validate_image image =
    if ltb (length image) 10240
    then invalid
    else if not (has_byte image 0 && has_byte image 1)
    then invalid
    else if not (has_byte image 2)
    then invalid
    else if not (has_byte image 3)
    then invalid
    else after_magic (length image) (words_of image)
