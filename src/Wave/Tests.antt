-- ===== src/Wave/Tests.antt =====
-- A small WAV file.
use rf.Prelude.{inr, refl, false, List, [], ◌∷◌, Ends, ◌>>◌, arith}
use rf.Wave.Header.{Header, SystemTime, prepare_header}
use rf.Wave.Writer.{Host, Wave, write_header, finalize_header}
use rf.Wave.Data.{Works, Frames, all_bytes, write_all}
use rf.Wave.Sessions.{first_header, Complete, session_lem}

abbrev host : Host
host = record {
  fwrite_items = λ f size count. count;
  fseek_fails = λ f. false;
  gettimeofday = λ n. record { tv_sec = n; tv_usec = 250_000 };
  gmtime = λ t. record {
    tm_year = 120;
    tm_mon = 0;
    tm_wday = 3;
    tm_mday = 1;
    tm_hour = 12;
    tm_min = 30;
    tm_sec = 59;
  };
}

abbrev works : Works host
works = record { writes = λ f size count. refl; seeks = λ f. refl }

abbrev noon : SystemTime
noon = record {
  year = 2020;
  month = 1;
  day_of_week = 3;
  day = 1;
  hour = 12;
  minute = 30;
  second = 59;
  milliseconds = 250;
}

abbrev header : Header
header = prepare_header noon 96_000 7_100_000 16 2

abbrev wave : Wave
wave = record {
  header = header;
  data_size = 5;
  started = false;
  file = record { is_stdout = false; contents = []; position = 0 };
  readings = 0;
}

abbrev frames : List Frames
frames =
    record { buffer = 1 ∷ 2 ∷ 3 ∷ 4 ∷ 5 ∷ 6 ∷ 7 ∷ 8 ∷ []; num_frames = 2 }
    ∷ record { buffer = 9 ∷ 10 ∷ 11 ∷ 12 ∷ []; num_frames = 1 }
    ∷ []

session_example :
    Ends
      (λ _. Complete (first_header host 0 96_000 7_100_000 16 2) (all_bytes frames))
      (λ _. ⊥)
      ((write_header host 96_000 7_100_000 16 2 >> write_all host frames >> finalize_header host)
        wave)
session_example =
    session_lem host works 96_000 7_100_000 16 2 frames wave (inr refl)
      (omega arith, (omega arith, tt))
      (record { not_started = refl; no_stdout = refl; empty = refl; at_start = refl })
