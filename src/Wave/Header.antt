-- ===== src/Wave/Header.antt =====
-- The header of src/wavehdr.h, how it lies in memory, and `wavePrepareHeader` of src/wavewrite.c.
use rf.Prelude.{ℕ, zero, suc, ◌+◌, ◌*◌, ◌/◌, ◌%◌, ◌^◌, leb, if◌then◌else◌, List, [], ◌∷◌, ◌++◌}
use rf.Double.{Doubles}

-- `Wind_SystemTime`.
pub record SystemTime : Type 0 where
  pub year : ℕ
  pub month : ℕ
  pub day_of_week : ℕ
  pub day : ℕ
  pub hour : ℕ
  pub minute : ℕ
  pub second : ℕ
  pub milliseconds : ℕ

-- `riff_chunk`: an ID has four bytes.
pub record RiffChunk : Type 0 where
  pub id : List ℕ
  pub size : ℕ
  pub wave_id : List ℕ

pub record FmtChunk : Type 0 where
  pub id : List ℕ
  pub size : ℕ
  pub format_tag : ℕ
  pub channels : ℕ
  pub samples_per_sec : ℕ
  pub avg_bytes_per_sec : ℕ
  pub block_align : ℕ
  pub bits_per_sample : ℕ

pub record AuxiChunk : Type 0 where
  pub id : List ℕ
  pub size : ℕ
  pub start_time : SystemTime
  pub stop_time : SystemTime
  pub center_freq : ℕ
  pub ad_samplerate : ℕ
  pub if_frequency : ℕ
  pub bandwidth : ℕ
  pub iq_offset : ℕ
  pub unused2 : ℕ
  pub unused3 : ℕ
  pub unused4 : ℕ
  pub unused5 : ℕ

pub record DataChunk : Type 0 where
  pub id : List ℕ
  pub size : ℕ

-- `waveFileHeader`.
pub record Header : Type 0 where
  pub r : RiffChunk
  pub f : FmtChunk
  pub a : AuxiChunk
  pub d : DataChunk

-- A number of `n` bytes in memory, lowest first.
unfoldable pub bytes_of : ℕ → ℕ → List ℕ
bytes_of zero v = []
bytes_of (suc n) v = (v % 2 ^ 8) ∷ bytes_of n (v / 2 ^ 8)

unfoldable pub time_bytes : SystemTime → List ℕ
unfolding bytes_of
time_bytes t =
    bytes_of 2 t.year
    ++ bytes_of 2 t.month
    ++ bytes_of 2 t.day_of_week
    ++ bytes_of 2 t.day
    ++ bytes_of 2 t.hour
    ++ bytes_of 2 t.minute
    ++ bytes_of 2 t.second
    ++ bytes_of 2 t.milliseconds

unfoldable pub riff_bytes : RiffChunk → List ℕ
unfolding bytes_of
riff_bytes r = r.id ++ bytes_of 4 r.size ++ r.wave_id

unfoldable pub fmt_bytes : FmtChunk → List ℕ
unfolding bytes_of
fmt_bytes f =
    f.id
    ++ bytes_of 4 f.size
    ++ bytes_of 2 f.format_tag
    ++ bytes_of 2 f.channels
    ++ bytes_of 4 f.samples_per_sec
    ++ bytes_of 4 f.avg_bytes_per_sec
    ++ bytes_of 2 f.block_align
    ++ bytes_of 2 f.bits_per_sample

unfoldable pub auxi_bytes : AuxiChunk → List ℕ
unfolding bytes_of time_bytes
auxi_bytes a =
    a.id
    ++ bytes_of 4 a.size
    ++ time_bytes a.start_time
    ++ time_bytes a.stop_time
    ++ bytes_of 4 a.center_freq
    ++ bytes_of 4 a.ad_samplerate
    ++ bytes_of 4 a.if_frequency
    ++ bytes_of 4 a.bandwidth
    ++ bytes_of 4 a.iq_offset
    ++ bytes_of 4 a.unused2
    ++ bytes_of 4 a.unused3
    ++ bytes_of 4 a.unused4
    ++ bytes_of 4 a.unused5

-- The packed structure.
unfoldable pub header_bytes : Header → List ℕ
unfolding riff_bytes fmt_bytes auxi_bytes bytes_of
header_bytes h = riff_bytes h.r ++ fmt_bytes h.f ++ auxi_bytes h.a ++ h.d.id ++ bytes_of 4 h.d.size

-- sizeof(waveFileHeader).
abbrev pub header_size : ℕ
header_size = 120

-- `struct tm`, and the time of `gettimeofday`.
pub record Tm : Type 0 where
  pub tm_year : ℕ
  pub tm_mon : ℕ
  pub tm_wday : ℕ
  pub tm_mday : ℕ
  pub tm_hour : ℕ
  pub tm_min : ℕ
  pub tm_sec : ℕ

pub record Timeval : Type 0 where
  pub tv_sec : ℕ
  pub tv_usec : ℕ

-- An assignment to a `WORD`.
abbrev pub word : ℕ → ℕ
word x = x % 2 ^ 16

abbrev pub dword : ℕ → ℕ
dword x = x % 2 ^ 32

unfoldable pub system_time : Tm → ℕ → SystemTime
system_time t milliseconds = record {
  year = word (t.tm_year + 1900);
  month = word (t.tm_mon + 1);
  day_of_week = word t.tm_wday;
  day = word t.tm_mday;
  hour = word t.tm_hour;
  minute = word t.tm_min;
  second = word t.tm_sec;
  milliseconds = milliseconds;
}

-- `waveSetCurrTime`; `gmtime` is a parameter.
unfoldable pub current_time : (ℕ → Tm) → Timeval → SystemTime
unfolding system_time
current_time gmtime tv = system_time (gmtime tv.tv_sec) (word (tv.tv_usec / 1000))

-- `waveSetStartTimeInt`.
unfoldable pub start_time_of : (doubles : Doubles) → (ℕ → Tm) → ℕ → doubles.Double → SystemTime
unfolding system_time
start_time_of doubles gmtime tim fraction =
    let milliseconds = word (doubles.to_i32 (doubles.mul fraction (doubles.of_int 1000))) in
    system_time (gmtime tim) (if leb 1000 milliseconds then 999 else milliseconds)

abbrev pub riff_id : List ℕ
riff_id = b'R' ∷ b'I' ∷ b'F' ∷ b'F' ∷ []

abbrev pub wave_id : List ℕ
wave_id = b'W' ∷ b'A' ∷ b'V' ∷ b'E' ∷ []

abbrev pub fmt_id : List ℕ
fmt_id = b'f' ∷ b'm' ∷ b't' ∷ b' ' ∷ []

abbrev pub auxi_id : List ℕ
auxi_id = b'a' ∷ b'u' ∷ b'x' ∷ b'i' ∷ []

abbrev pub data_id : List ℕ
data_id = b'd' ∷ b'a' ∷ b't' ∷ b'a' ∷ []

-- `wavePrepareHeader`, for the time that it finds.
unfoldable pub prepare_header : SystemTime → ℕ → ℕ → ℕ → ℕ → Header
prepare_header now samplerate freq bits_per_sample num_channels =
    let bytes_per_sample = bits_per_sample / 8 in
    let bytes_per_frame = bytes_per_sample * num_channels in
    record {
      r = record { id = riff_id; size = 112; wave_id = wave_id };
      f = record {
        id = fmt_id;
        size = 16;
        format_tag = 1;
        channels = word num_channels;
        samples_per_sec = dword samplerate;
        avg_bytes_per_sec = dword (samplerate * bytes_per_frame);
        block_align = word num_channels;
        bits_per_sample = word bits_per_sample;
      };
      a = record {
        id = auxi_id;
        size = 68;
        start_time = now;
        stop_time = now;
        center_freq = dword freq;
        ad_samplerate = dword samplerate;
        if_frequency = 0;
        bandwidth = 0;
        iq_offset = 0;
        unused2 = 0;
        unused3 = 0;
        unused4 = 0;
        unused5 = 0;
      };
      d = record { id = data_id; size = 0 };
    }
