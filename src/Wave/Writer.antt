-- ===== src/Wave/Writer.antt =====
-- The functions of src/wavewrite.c that write a file, on the variables of that file.
use rf.Prelude.{
  ℕ, ◌+◌, ◌*◌, min, Bool, true, false, not, List, ◌++◌, length, take, drop, ◌==◌, if◌then◌else◌,
}
use rf.Prelude.{Cmd, ok, err, pure, fail, gets, modify, check, ◌>>=◌, ◌>>◌}
use rf.Double.{Doubles}
use rf.Wave.Header.{
  Header, Tm, Timeval, dword, header_bytes, header_size, current_time, start_time_of,
  prepare_header,
}

-- A `FILE *`: whether it is `stdout`, its bytes, and where the next byte goes.
pub record File : Type 0 where
  pub is_stdout : Bool
  pub contents : List ℕ
  pub position : ℕ

-- The operating system: how many of `count` items of `size` bytes `fwrite` writes, whether `fseek`
-- fails, what the clock shows at its `n`th reading, and `gmtime`.
pub record Host : Type 0 where
  pub fwrite_items : File → ℕ → ℕ → ℕ
  pub fseek_fails : File → Bool
  pub gettimeofday : ℕ → Timeval
  pub gmtime : ℕ → Tm

-- `waveHdr`, `waveDataSize` and `waveHdrStarted`, the file, and the readings of the clock so far.
pub record Wave : Type 0 where
  pub header : Header
  pub data_size : ℕ
  pub started : Bool
  pub file : File
  pub readings : ℕ

-- Bytes go over those that are there, and behind them.
unfoldable pub overwrite : ℕ → List ℕ → List ℕ → List ℕ
overwrite position bytes contents =
    take position contents ++ bytes ++ drop (position + length bytes) contents

abbrev pub put_bytes : List ℕ → File → File
put_bytes bytes f = record f {
  contents = overwrite f.position bytes f.contents;
  position = f.position + length bytes;
}

module _ (host : Host) where
  -- `fwrite` of `count` items of `size` bytes that stand in `buffer`; the number that it wrote.
  unfoldable pub fwrite : ℕ → ℕ → List ℕ → Cmd Wave ℕ
  unfolding overwrite
  fwrite size count buffer w =
      let n = min (host.fwrite_items w.file size count) count in
      ok n (record w { file = put_bytes (take (size * n) buffer) w.file })

  unfoldable pub write_header : ℕ → ℕ → ℕ → ℕ → Cmd Wave (Unit {0})
  unfolding fwrite prepare_header current_time header_bytes
  write_header samplerate freq bits_per_sample num_channels w =
      if not w.file.is_stdout
      then (check (not w.started)
            >> modify (λ w. record w {
              header =
                  prepare_header (current_time host.gmtime (host.gettimeofday w.readings))
                    samplerate freq bits_per_sample num_channels;
              data_size = 0;
              readings = w.readings + 1;
            })
            >> (gets (λ w. w.header) >>= λ h. fwrite header_size 1 (header_bytes h))
            >>= λ n. modify (λ w. record w { started = true }))
          w
      else ok tt w

  -- `count` items of `size` bytes: all must be written, and all are counted.
  unfoldable pub write_items : ℕ → ℕ → List ℕ → Cmd Wave (Unit {0})
  unfolding fwrite
  write_items size count buffer = fwrite size count buffer >>= λ nw.
      modify (λ w. record w { data_size = dword (w.data_size + size * count) })
      >> (if nw == count then pure tt else fail)

  -- The switch on the bits of a sample.
  unfoldable pub write_samples : List ℕ → ℕ → Cmd Wave (Unit {0})
  unfolding write_items
  write_samples buffer num_samples = gets (λ w. w.header.f.bits_per_sample) >>= λ bits.
      if bits == 8
      then write_items 1 num_samples buffer
      else if bits == 16
      then write_items 2 num_samples buffer
      else fail

  unfoldable pub write_frames : List ℕ → ℕ → Cmd Wave (Unit {0})
  unfolding write_items
  write_frames buffer num_frames = gets (λ w. w.header.f) >>= λ f.
      if f.bits_per_sample == 8
      then write_items f.channels num_frames buffer
      else if f.bits_per_sample == 16
      then write_items (f.channels * 2) num_frames buffer
      else fail

  -- The sizes and the time of the end go into the header.
  abbrev pub finish_header : ℕ → ℕ → Header → Header
  finish_header data_size readings h = record h {
    a = record h.a { stop_time = current_time host.gmtime (host.gettimeofday readings) };
    d = record h.d { size = data_size };
    r = record h.r { size = dword (h.r.size + data_size) };
  }

  unfoldable pub finalize_header : Cmd Wave (Unit {0})
  unfolding fwrite current_time header_bytes
  finalize_header w =
      if not w.file.is_stdout
      then (check w.started
            >> modify (λ w. record w {
              header = finish_header w.data_size w.readings w.header;
              readings = w.readings + 1;
              started = false;
            })
            >> (gets (λ w. w.file) >>= λ f. if host.fseek_fails f then fail else pure tt)
            >> modify (λ w. record w { file = record w.file { position = 0 } })
            >> (gets (λ w. w.header) >>= λ h. fwrite header_size 1 (header_bytes h))
            >>= λ n. if n == 1 then pure tt else fail)
          w
      else err w

  -- `waveSetStartTime`.
  unfoldable pub set_start_time : (doubles : Doubles) → ℕ → doubles.Double → Cmd Wave (Unit {0})
  unfolding start_time_of
  set_start_time doubles tim fraction = modify (λ w.
      let t = start_time_of doubles host.gmtime tim fraction in
      record w {
        header = record w.header { a = record w.header.a { start_time = t; stop_time = t } };
      })
