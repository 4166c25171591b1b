-- ===== src/Wave/Sessions.antt =====
-- A file that was written by `waveWriteHeader`, `waveWriteFrames` and `waveFinalizeHeader`.
use rf.Prelude.{
  ℕ, ◌+◌, ◌-◌, ◌*◌, ◌%◌, ◌^◌, ◌≡◌, ◌⊎◌, inl, inr, refl, sym, ap, subst, ◌∙◌, Bool, true, false, not,
  List, [], ◌++◌, length, length-append, ◌==◌, if◌then◌else◌, arith,
}
use rf.Prelude.{ok, Ends, Triple, Triple-bind, pure, fail, gets, modify, check, ◌>>=◌, ◌>>◌}
use mathlib.Core.List.{append-nil}
use rf.Prelude.{>>=-eq}
use rf.Wave.Header.{Header, header_bytes, prepare_header, current_time}
use rf.Wave.Writer.{
  Host, Wave, overwrite, put_bytes, fwrite, write_header, finish_header, finalize_header,
}
use rf.Wave.Bytes.{overwrite_end, overwrite_start, HasIds, length-header_bytes}
use rf.Wave.Data.{
  Works, Frames, all_bytes, Fit, Writing, FrameSize, fwrite_lem, write_all, write_all_lem,
}

-- Before the header is written, to an empty file.
pub record IsIdle (w : Wave) : Type 0 where
  pub not_started : w.started ≡ false
  pub no_stdout : w.file.is_stdout ≡ false
  pub empty : w.file.contents ≡ []
  pub at_start : w.file.position ≡ 0

not_stdout : {A : Type 0} (b : Bool) (x y : A) → b ≡ false → (if not b then x else y) ≡ x
not_stdout true x y e = cc
not_stdout false x y e = refl

-- Bytes of a frame.
abbrev pub frame_bytes : ℕ → ℕ → ℕ
frame_bytes bits channels = (if bits == 8 then 1 else 2) * (channels % 2 ^ 16)

module _ (host : Host) where
  -- The header that is prepared at the `n`th reading of the clock.
  abbrev pub first_header : ℕ → ℕ → ℕ → ℕ → ℕ → Header
  first_header n samplerate freq bits channels =
      prepare_header (current_time host.gmtime (host.gettimeofday n)) samplerate freq bits channels

module _ (host : Host) (works : Works host) where
  first_header-HasIds :
      (n samplerate freq bits channels : ℕ)
      → HasIds (first_header host n samplerate freq bits channels)
  unfolding prepare_header
  first_header-HasIds n samplerate freq bits channels = record {
    riff = refl;
    wave = refl;
    fmt = refl;
    auxi = refl;
    data_id = refl;
  }

  write_header-eq :
      (samplerate freq bits channels : ℕ) (w : Wave)
      → w.started ≡ false
      → w.file.is_stdout ≡ false
      → write_header host samplerate freq bits channels w
        ≡ ok tt (record {
          header = first_header host w.readings samplerate freq bits channels;
          data_size = 0;
          started = true;
          file =
              put_bytes
                (header_bytes (first_header host w.readings samplerate freq bits channels))
                w.file;
          readings = w.readings + 1;
        })
  unfolding write_header check modify gets
  write_header-eq samplerate freq bits channels w idle f =
      not_stdout w.file.is_stdout _ _ f ∙ >>=-eq _ _ w (>>=-eq _ _ w prepared ∙ written)
    where
      h : Header
      h = first_header host w.readings samplerate freq bits channels

      w1 : Wave
      w1 = record w { header = h; data_size = 0; readings = w.readings + 1 }

      prepared :
          (check (not w.started)
              >> modify (λ w. record w {
                header = first_header host w.readings samplerate freq bits channels;
                data_size = 0;
                readings = w.readings + 1;
              }))
            w
          ≡ ok tt w1
      prepared = >>=-eq (check (not w.started)) _ w {a = tt} {t = w} (rw idle)

      written :
          (gets (λ (w : Wave). w.header) >>= λ h. fwrite host 120 1 (header_bytes h)) w1
          ≡ ok 1 (record w1 { file = put_bytes (header_bytes h) w1.file })
      written =
          >>=-eq _ _ w1 refl
          ∙ fwrite_lem host works 120 1 (header_bytes h) w1
              (length-header_bytes h (first_header-HasIds w.readings samplerate freq bits channels))

  write_header_lem :
      (samplerate freq bits channels : ℕ) (w : Wave)
      → IsIdle w
      → Ends
          (λ _ v. Writing (first_header host w.readings samplerate freq bits channels) [] v)
          (λ _. ⊥)
          (write_header host samplerate freq bits channels w)
  write_header_lem samplerate freq bits channels w i =
      let h : Header = first_header host w.readings samplerate freq bits channels in
      let whole : overwrite w.file.position (header_bytes h) w.file.contents ≡ header_bytes h =
        rw (i.at_start, i.empty) (overwrite_end [] (header_bytes h)) in
      subst (Ends (λ _ v. Writing h [] v) (λ _. ⊥))
        (sym (write_header-eq samplerate freq bits channels w i.not_started i.no_stdout))
        (record {
          header = refl;
          contents = whole ∙ sym (append-nil (header_bytes h));
          position = rw (whole, i.at_start) (omega arith);
          data_size = refl;
          started = refl;
          no_stdout = i.no_stdout;
        })

  finalize_header-eq :
      (w : Wave)
      → w.started ≡ true
      → w.file.is_stdout ≡ false
      → HasIds w.header
      → finalize_header host w
        ≡ ok tt (record w {
          header = finish_header host w.data_size w.readings w.header;
          started = false;
          file =
              put_bytes
                (header_bytes (finish_header host w.data_size w.readings w.header))
                (record w.file { position = 0 });
          readings = w.readings + 1;
        })
  unfolding finalize_header check modify gets pure
  finalize_header-eq w on f ids =
      not_stdout w.file.is_stdout _ _ f ∙ >>=-eq _ _ w (>>=-eq _ _ w back ∙ written)
    where
      h : Header
      h = finish_header host w.data_size w.readings w.header

      w1 : Wave
      w1 = record w { header = h; readings = w.readings + 1; started = false }

      w2 : Wave
      w2 = record w1 { file = record w1.file { position = 0 } }

      finished :
          (check w.started
              >> modify (λ w. record w {
                header = finish_header host w.data_size w.readings w.header;
                readings = w.readings + 1;
                started = false;
              }))
            w
          ≡ ok tt w1
      finished = >>=-eq (check w.started) _ w {a = tt} {t = w} (rw on)

      sought :
          (gets (λ (w : Wave). w.file) >>= λ f. if host.fseek_fails f then fail else pure tt) w1
          ≡ ok tt w1
      sought = >>=-eq _ _ w1 refl ∙ rw (works.seeks w1.file)

      back :
          (check w.started
              >> modify (λ w. record w {
                header = finish_header host w.data_size w.readings w.header;
                readings = w.readings + 1;
                started = false;
              })
              >> (gets (λ (w : Wave). w.file) >>= λ f. if host.fseek_fails f then fail else pure tt)
              >> modify (λ w. record w { file = record w.file { position = 0 } }))
            w
          ≡ ok tt w2
      back = >>=-eq _ _ w (>>=-eq _ _ w finished ∙ sought)

      written :
          (gets (λ (w : Wave). w.header) >>= λ h. fwrite host 120 1 (header_bytes h)) w2
          ≡ ok 1 (record w2 { file = put_bytes (header_bytes h) w2.file })
      written =
          >>=-eq _ _ w2 refl
          ∙ fwrite_lem host works 120 1 (header_bytes h) w2 (
              length-header_bytes h (record {
                riff = ids.riff;
                wave = ids.wave;
                fmt = ids.fmt;
                auxi = ids.auxi;
                data_id = ids.data_id;
              }))

-- A file after `waveFinalizeHeader`: the header of the start with the sizes and the time of the end,
-- and the data behind it.
pub record Complete (first : Header) (data_bytes : List ℕ) (w : Wave) : Type 0 where
  pub closed : w.started ≡ false
  pub contents : w.file.contents ≡ header_bytes w.header ++ data_bytes
  pub length_contents : length w.file.contents ≡ 120 + length data_bytes
  pub data_chunk : w.header.d.size ≡ length data_bytes % 2 ^ 32
  pub riff_chunk : w.header.r.size ≡ (length w.file.contents - 8) % 2 ^ 32
  pub format : w.header.f ≡ first.f
  pub start_time : w.header.a.start_time ≡ first.a.start_time

module _ (host : Host) (works : Works host) where
  completed :
      (h : Header) (bytes : List ℕ) (w : Wave) (f : Header)
      → HasIds h
      → h.r.size ≡ 112
      → Writing h bytes w
      → f ≡ finish_header host w.data_size w.readings h
      → Complete h bytes (record {
        header = f;
        data_size = w.data_size;
        started = false;
        file = put_bytes (header_bytes f) (record w.file { position = 0 });
        readings = w.readings + 1;
      })
  completed h bytes w f ids size i e =
      let ids_f : HasIds f = rw e (record {
        riff = ids.riff;
        wave = ids.wave;
        fmt = ids.fmt;
        auxi = ids.auxi;
        data_id = ids.data_id;
      }) in
      let sizes : length (header_bytes f) ≡ length (header_bytes h) =
        length-header_bytes f ids_f ∙ sym (length-header_bytes h ids) in
      let whole : overwrite 0 (header_bytes f) w.file.contents ≡ header_bytes f ++ bytes =
        rw i.contents (overwrite_start (header_bytes h) (header_bytes f) bytes sizes) in
      let long : length (overwrite 0 (header_bytes f) w.file.contents) ≡ 120 + length bytes =
        ap length whole
        ∙ omega (arith, length-append (header_bytes f) bytes, length-header_bytes f ids_f) in
      record {
        closed = refl;
        contents = whole;
        length_contents = long;
        data_chunk = ap (λ (x : Header). x.d.size) e ∙ i.data_size;
        riff_chunk = ap (λ (x : Header). x.r.size) e ∙ omega (arith, size, i.data_size, long);
        format = ap (λ (x : Header). x.f) e;
        start_time = ap (λ (x : Header). x.a.start_time) e;
      }

  finalize_header_lem :
      (h : Header) (bytes : List ℕ)
      → HasIds h
      → h.r.size ≡ 112
      → Triple (Writing h bytes) (λ _. Complete h bytes) (λ _. ⊥) (finalize_header host)
  finalize_header_lem h bytes ids size = record {
    at = λ w i.
        subst (Ends (λ _. Complete h bytes) (λ _. ⊥))
          (sym (
            finalize_header-eq host works w i.started i.no_stdout
              (subst HasIds (sym i.header) ids)))
          (completed h bytes w (finish_header host w.data_size w.readings w.header) ids size i
            (ap (finish_header host w.data_size w.readings) i.header));
  }

  kind_of :
      (n samplerate freq bits channels : ℕ)
      → (bits ≡ 8) ⊎ (bits ≡ 16)
      → FrameSize (first_header host n samplerate freq bits channels) (frame_bytes bits channels)
  unfolding prepare_header
  kind_of n samplerate freq bits channels (inl e) = inl (rw e refl, rw e (omega arith))
  kind_of n samplerate freq bits channels (inr e) = inr (rw e refl, rw e (omega arith))

  -- `waveWriteHeader` on an empty file that is not stdout while no other is written, any number of
  -- `waveWriteFrames` with buffers of the size of their frames, and `waveFinalizeHeader`, with samples
  -- of 8 or 16 bits, on a system that writes what it is asked to and can seek: all calls succeed and
  -- no assertion fails; the file is the header in memory and behind it the frames in order; the
  -- data chunk's size is that of the frames and the RIFF chunk's that of the file less 8, both
  -- modulo 2 ^ 32; the format and the start time are those of `waveWriteHeader`; and another file
  -- may be started.
  pub session_lem :
      (samplerate freq bits channels : ℕ) (cs : List Frames) (w : Wave)
      → (bits ≡ 8) ⊎ (bits ≡ 16)
      → Fit (frame_bytes bits channels) cs
      → IsIdle w
      → Ends
          (λ _.
            Complete (first_header host w.readings samplerate freq bits channels) (all_bytes cs))
          (λ _. ⊥)
          ((write_header host samplerate freq bits channels
              >> write_all host cs
              >> finalize_header host)
            w)
  unfolding prepare_header
  session_lem samplerate freq bits channels cs w kind fits idle =
      let h : Header = first_header host w.readings samplerate freq bits channels in
      (Triple-bind {P = λ v. v ≡ w} _ _
          (Triple-bind _ _
            (record {
              at = λ v e.
                  subst
                    (λ u.
                      Ends (λ _. Writing h []) (λ _. ⊥)
                        (write_header host samplerate freq bits channels u))
                    (sym e) (write_header_lem host works samplerate freq bits channels w idle);
            })
            (λ _.
              write_all_lem host works h [] (frame_bytes bits channels) cs
                (kind_of w.readings samplerate freq bits channels kind) fits))
          (λ _.
            finalize_header_lem h (all_bytes cs)
              (first_header-HasIds host works w.readings samplerate freq bits channels) refl)).at
        w refl
