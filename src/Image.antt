-- ===== src/Image.antt =====
-- src/usb_device.c, `validate_image`: the check of a firmware image.
pub mod Defs
pub mod Validation
pub mod Sections
pub mod Rounds
pub mod Loading
mod Tests
