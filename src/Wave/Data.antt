-- ===== src/Wave/Data.antt =====
-- Writing frames behind the header of a file.
use rf.Prelude.{
  ℕ, ◌+◌, ◌*◌, ◌%◌, ◌^◌, ◌≡◌, ◌⊎◌, inl, inr, refl, sym, subst, ◌∙◌, min, true, false, List, [], ◌∷◌,
  ◌++◌, length, length-append, ◌==◌, arith,
}
use rf.Prelude.{Cmd, ok, Ends, Triple, Triple-bind, pure, gets, modify, ◌>>◌}
use mathlib.Core.List.{append-nil, append_assoc}
use rf.Prelude.{>>=-eq}
use rf.Wave.Header.{Header, header_bytes}
use rf.Wave.Writer.{File, Host, Wave, overwrite, put_bytes, fwrite, write_items, write_frames}
use rf.Wave.Bytes.{take-length, overwrite_end}

-- The system writes whatever it is asked to, and can seek.
pub record Works (host : Host) : Type 0 where
  pub writes : (f : File) (size count : ℕ) → host.fwrite_items f size count ≡ count
  pub seeks : (f : File) → host.fseek_fails f ≡ false

-- Frames in a buffer of their size.
pub record Frames : Type 0 where
  pub buffer : List ℕ
  pub num_frames : ℕ

abbrev pub all_bytes : List Frames → List ℕ
all_bytes [] = []
all_bytes (c ∷ cs) = c.buffer ++ all_bytes cs

abbrev pub Fit : ℕ → List Frames → Type 0
Fit size [] = Unit
Fit size (c ∷ cs) = (length c.buffer ≡ size * c.num_frames) × Fit size cs

-- After the header `h` and the bytes of frames.
pub record Writing (h : Header) (bytes : List ℕ) (w : Wave) : Type 0 where
  pub header : w.header ≡ h
  pub contents : w.file.contents ≡ header_bytes h ++ bytes
  pub position : w.file.position ≡ length w.file.contents
  pub data_size : w.data_size ≡ length bytes % 2 ^ 32
  pub started : w.started ≡ true
  pub no_stdout : w.file.is_stdout ≡ false

-- The switch on the bits of a sample writes `size` bytes for each frame.
abbrev pub FrameSize : Header → ℕ → Type 0
FrameSize h size =
    ((h.f.bits_per_sample ≡ 8) × (size ≡ h.f.channels))
    ⊎ ((h.f.bits_per_sample ≡ 16) × (size ≡ h.f.channels * 2))

module _ (host : Host) where
  -- Frame after frame.
  abbrev pub write_all : List Frames → Cmd Wave (Unit {0})
  write_all [] = pure tt
  write_all (c ∷ cs) = write_frames host c.buffer c.num_frames >> write_all cs

module _ (host : Host) (works : Works host) where
  pub fwrite_lem :
      (size count : ℕ) (buffer : List ℕ) (w : Wave)
      → length buffer ≡ size * count
      → fwrite host size count buffer w ≡ ok count (record w { file = put_bytes buffer w.file })
  unfolding fwrite
  fwrite_lem size count buffer w e =
      let m : min count count ≡ count = omega arith in
      rw (works.writes w.file size count, m, take-length buffer (size * count) (omega (arith, e)))

  -- The file and the count after items were written.
  abbrev with_items : ℕ → List ℕ → Wave → Wave
  with_items bytes buffer w = record w {
    file = put_bytes buffer w.file;
    data_size = (w.data_size + bytes) % 2 ^ 32;
  }

  write_items-eq :
      (size count : ℕ) (buffer : List ℕ) (w : Wave)
      → length buffer ≡ size * count
      → write_items host size count buffer w ≡ ok tt (with_items (size * count) buffer w)
  unfolding write_items modify pure
  write_items-eq size count buffer w e =
      let same : (count == count) ≡ true = ground arith in
      >>=-eq _ _ w (fwrite_lem size count buffer w e) ∙ >>=-eq _ _ _ refl ∙ rw same

  with_items-Writing :
      (h : Header) (bytes buffer : List ℕ) (n : ℕ) (w : Wave)
      → length buffer ≡ n
      → Writing h bytes w
      → Writing h (bytes ++ buffer) (with_items n buffer w)
  with_items-Writing h bytes buffer n w e i =
      let whole : overwrite w.file.position buffer w.file.contents ≡ w.file.contents ++ buffer =
        rw i.position (overwrite_end w.file.contents buffer) in
      record {
        header = i.header;
        contents = whole ∙ rw i.contents (append_assoc (header_bytes h) bytes buffer);
        position = rw whole (rw length-append (omega (arith, i.position)));
        data_size = omega (arith, i.data_size, length-append bytes buffer, e);
        started = i.started;
        no_stdout = i.no_stdout;
      }

  write_frames-eq :
      (h : Header) (bytes : List ℕ) (size : ℕ) (c : Frames) (w : Wave)
      → FrameSize h size
      → Writing h bytes w
      → write_frames host c.buffer c.num_frames w ≡ write_items host size c.num_frames c.buffer w
  unfolding write_frames gets
  write_frames-eq h bytes size c w (inl (bits, e)) i = >>=-eq _ _ w refl ∙ rw (i.header, bits, e)
  write_frames-eq h bytes size c w (inr (bits, e)) i = >>=-eq _ _ w refl ∙ rw (i.header, bits, e)

  write_frames_lem :
      (h : Header) (bytes : List ℕ) (size : ℕ) (c : Frames)
      → FrameSize h size
      → length c.buffer ≡ size * c.num_frames
      → Triple
          (Writing h bytes)
          (λ _. Writing h (bytes ++ c.buffer))
          (λ _. ⊥)
          (write_frames host c.buffer c.num_frames)
  write_frames_lem h bytes size c kind fits = record {
    at = λ w i.
        subst (Ends (λ _. Writing h (bytes ++ c.buffer)) (λ _. ⊥))
          (sym (
            write_frames-eq h bytes size c w kind i
            ∙ write_items-eq size c.num_frames c.buffer w fits))
          (with_items-Writing h bytes c.buffer _ w fits i);
  }

  pub write_all_lem :
      (h : Header) (bytes : List ℕ) (size : ℕ) (cs : List Frames)
      → FrameSize h size
      → Fit size cs
      → Triple
          (Writing h bytes)
          (λ _. Writing h (bytes ++ all_bytes cs))
          (λ _. ⊥)
          (write_all host cs)
  unfolding pure
  write_all_lem h bytes size [] kind fits = record {
    at = λ w i. subst (λ (b : List ℕ). Writing h b w) (sym (append-nil bytes)) i;
  }
  write_all_lem h bytes size (c ∷ cs) kind (e, fits) =
      subst
        (λ (b : List ℕ).
          Triple (Writing h bytes) (λ _. Writing h b) (λ _. ⊥) (write_all host (c ∷ cs)))
        (append_assoc bytes c.buffer (all_bytes cs))
        (Triple-bind _ _ (write_frames_lem h bytes size c kind e)
          (λ _. write_all_lem h (bytes ++ c.buffer) size cs kind fits))
