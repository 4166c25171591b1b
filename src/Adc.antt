-- ===== src/Adc.antt =====
-- src/adc.c, the ADC and the frames that it streams over the bulk endpoint.
pub mod Frames
pub mod Memory
pub mod Accounting
pub mod Machine
pub mod Callbacks
pub mod Statuses
pub mod Starting
pub mod Samples
pub mod Stream
pub mod Tests
