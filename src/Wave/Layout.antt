-- ===== src/Wave/Layout.antt =====
-- Where the numbers of the header stand in a WAV file.
use rf.Prelude.{ℕ, ◌+◌, ◌*◌, ◌^◌, ◌<◌, ◌≡◌, List, [], ◌∷◌, slice}
use rf.Wave.Header.{Header, riff_id, wave_id, fmt_id, auxi_id, data_id}

-- The number of bytes with the lowest first.
abbrev pub number_of : List ℕ → ℕ
number_of [] = 0
number_of (b ∷ bs) = b + 256 * number_of bs

-- The number of `n` bytes at an offset in the file.
abbrev pub field_at : ℕ → ℕ → List ℕ → ℕ
field_at offset n bytes = number_of (slice offset n bytes)

-- The IDs of the chunks, and the ranges of the numbers that a reader needs.
pub record IsWave (h : Header) : Type 0 where
  pub riff : h.r.id ≡ riff_id
  pub wave : h.r.wave_id ≡ wave_id
  pub fmt : h.f.id ≡ fmt_id
  pub auxi : h.a.id ≡ auxi_id
  pub data_chunk : h.d.id ≡ data_id
  pub riff_size : h.r.size < 2 ^ 32
  pub format_tag : h.f.format_tag < 2 ^ 16
  pub channels : h.f.channels < 2 ^ 16
  pub samples_per_sec : h.f.samples_per_sec < 2 ^ 32
  pub avg_bytes_per_sec : h.f.avg_bytes_per_sec < 2 ^ 32
  pub bits_per_sample : h.f.bits_per_sample < 2 ^ 16
  pub center_freq : h.a.center_freq < 2 ^ 32
  pub data_size : h.d.size < 2 ^ 32
