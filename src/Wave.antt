-- ===== src/Wave.antt =====
-- src/wavewrite.c and src/wavehdr.h: the header of a WAV file and the functions that write one.
pub mod Header
pub mod Writer
pub mod Bytes
pub mod Data
pub mod Sessions
pub mod Layout
mod Tests
