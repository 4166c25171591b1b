-- ===== src/Wave/Bytes.antt =====
-- The bytes of a WAV header, and writes at the end and at the start of a file.
use rf.Prelude.{
  ℕ, zero, suc, ◌+◌, ◌/◌, ◌^◌, ◌≤◌, ◌≡◌, refl, ap, List, [], ◌∷◌, ◌++◌, length, length-append, take,
  drop, arith,
}
use mathlib.Core.List.{append-nil}
use rf.Wave.Header.{Header, bytes_of, time_bytes, riff_bytes, fmt_bytes, auxi_bytes, header_bytes}
use rf.Wave.Writer.{overwrite}

module _ {ℓ} {A : Type ℓ} where
  pub take-length : (xs : List A) (n : ℕ) → length xs ≤ n → take n xs ≡ xs
  take-length [] zero h = refl
  take-length [] (suc n) h = refl
  take-length (x ∷ xs) zero h = absurd (omega arith)
  take-length (x ∷ xs) (suc n) h = ap (λ (ys : List A). x ∷ ys) (take-length xs n (omega arith))

  drop-length : (xs : List A) (n : ℕ) → length xs ≤ n → drop n xs ≡ []
  drop-length [] zero h = refl
  drop-length [] (suc n) h = refl
  drop-length (x ∷ xs) zero h = absurd (omega arith)
  drop-length (x ∷ xs) (suc n) h = drop-length xs n (omega arith)

  drop-append : (xs ys : List A) (n : ℕ) → n ≡ length xs → drop n (xs ++ ys) ≡ ys
  drop-append [] ys zero h = refl
  drop-append [] ys (suc n) h = absurd (omega arith)
  drop-append (x ∷ xs) ys zero h = absurd (omega arith)
  drop-append (x ∷ xs) ys (suc n) h = drop-append xs ys n (omega arith)

-- At the end a write appends, and at the start it replaces as many bytes.
pub overwrite_end :
    (contents bytes : List ℕ) → overwrite (length contents) bytes contents ≡ contents ++ bytes
unfolding overwrite
overwrite_end contents bytes = rw (
  take-length contents (length contents) (omega arith),
  drop-length contents (length contents + length bytes) (omega arith),
  append-nil,
)

pub overwrite_start :
    (old bytes rest : List ℕ)
    → length bytes ≡ length old
    → overwrite 0 bytes (old ++ rest) ≡ bytes ++ rest
unfolding overwrite
overwrite_start old bytes rest h = rw (drop-append old rest (0 + length bytes) (omega arith))

pub length-bytes_of : (n v : ℕ) → length (bytes_of n v) ≡ n
unfolding bytes_of
length-bytes_of zero v = refl
length-bytes_of (suc n) v = ap suc (length-bytes_of n (v / 2 ^ 8))

-- The IDs have four bytes.
pub record HasIds (h : Header) : Type 0 where
  pub riff : length h.r.id ≡ 4
  pub wave : length h.r.wave_id ≡ 4
  pub fmt : length h.f.id ≡ 4
  pub auxi : length h.a.id ≡ 4
  pub data_id : length h.d.id ≡ 4

-- sizeof(waveFileHeader) is 120.
pub length-header_bytes : (h : Header) → HasIds h → length (header_bytes h) ≡ 120
unfolding header_bytes riff_bytes fmt_bytes auxi_bytes time_bytes
length-header_bytes h i =
    simp (length-append, length-bytes_of, i.riff, i.wave, i.fmt, i.auxi, i.data_id)
