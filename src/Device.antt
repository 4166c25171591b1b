-- ===== src/Device.antt =====
-- src/usb_device.c, the part that finds, opens and lists devices and loads their firmware. Calls has
-- what libusb answers; the other modules follow the functions of the file.
pub mod Calls
pub mod Search
pub mod Endpoints
pub mod Opening
pub mod Ledger
pub mod Rules
pub mod SearchLaws
pub mod Candidates
pub mod EndpointLaws
pub mod Renewal
pub mod BulkIn
pub mod OpeningLaws
pub mod Liveness
pub mod Listing
pub mod Strings
pub mod ListingLaws
pub mod Listed
pub mod Freed
mod Tests
