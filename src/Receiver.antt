-- ===== src/Receiver.antt =====
-- src/librf103.c, the receiver that the USB device, the clock source, the ADC and the tuner make.
pub mod Defs
pub mod Opening
pub mod Lifecycle
pub mod Closing
pub mod DeviceInfo
pub mod Starting
pub mod Tests
