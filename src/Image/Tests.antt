-- ===== src/Image/Tests.antt =====
-- Tests of `validate_image` of src/usb_device.c.
use rf.Prelude.{ℕ, ◌≡◌, ◌≢◌, ◌↔◌, refl, List, [], ◌∷◌, ◌++◌, replicate}
use rf.Image.Defs.{valid, invalid, overrun, load_loop, magic, validate_image}
use rf.Image.Validation.{Bootable, validate_image_lem, validate_image_returns}

-- A section of two words for the address 0x100, the end, the entry address and the sum.
load_loop-accepted : load_loop 10 40 1 0 (2 ∷ 0x100 ∷ 5 ∷ 7 ∷ 0 ∷ 0x100 ∷ 12 ∷ 0 ∷ []) ≡ valid
unfolding load_loop
load_loop-accepted = refl

load_loop-wrong_sum : load_loop 10 40 1 0 (2 ∷ 0x100 ∷ 5 ∷ 7 ∷ 0 ∷ 0x100 ∷ 13 ∷ 0 ∷ []) ≡ invalid
unfolding load_loop
load_loop-wrong_sum = refl

-- A last word that is there in part only is read in full.
load_loop-overrun : load_loop 10 15 1 0 (0 ∷ 0x100 ∷ []) ≡ overrun
unfolding load_loop
load_loop-overrun = refl

-- The smallest image: a section of one word, and zeros behind.
abbrev smallest : List ℕ
smallest =
    magic
    ++ (1 ∷ 0 ∷ 0 ∷ 0 ∷ 0 ∷ 1 ∷ 0 ∷ 0 ∷ 9 ∷ 0 ∷ 0 ∷ 0 ∷ 0 ∷ 0 ∷ 0 ∷ 0 ∷ 0 ∷ 1 ∷ 0 ∷ 0 ∷ 9 ∷ 0 ∷ 0
        ∷ 0 ∷ [])
    ++ replicate 10212 0

validate_image_example : (validate_image smallest ≡ valid) ↔ Bootable smallest
validate_image_example = validate_image_lem smallest

validate_image_returns_example : validate_image smallest ≢ overrun
validate_image_returns_example = validate_image_returns smallest refl
