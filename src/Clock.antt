-- ===== src/Clock.antt =====
-- src/clock_source.c, the Si5351 clock generator.
pub mod Defs
pub mod Ratio
pub mod Registers
pub mod Choice
pub mod Tests
