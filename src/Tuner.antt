-- ===== src/Tuner.antt =====
-- src/tuner.c, the driver of the R820T2 tuner.
pub mod Fields
pub mod Defs
pub mod Pll
pub mod Mux
pub mod Control
pub mod Startup
pub mod Chip
pub mod Values
pub mod Runs
pub mod Flush
pub mod Coherence
pub mod Reads
pub mod Operations
pub mod MuxLaws
pub mod PllLaws
pub mod PllChoice
pub mod Effects
pub mod History
pub mod Tests
