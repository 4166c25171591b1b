-- ===== src/Device/Endpoints.antt =====
-- `list_endpoints` of src/usb_device.c, and the search for the bulk endpoint in `usb_device_open`.
use rf.Prelude.{ℕ, bit_and, Bool, ◌&&◌, List, [], ◌∷◌, ◌++◌, ◌==◌, if◌then◌else◌}
use rf.Prelude.{length}
use rf.Device.Calls.{Endpoint, Companion, present, missing, unreadable, Configuration}

abbrev pub max_endpoints : ℕ
max_endpoints = 16

-- An endpoint with bLength and bMaxBurst of its companion. The code leaves the burst as it was
-- where there is no companion, and does not read it then.
pub record Entry : Type 0 where
  pub endpoint : Endpoint
  pub companion_length : ℕ
  pub max_burst : ℕ

-- The two arrays as one list: the loops go on, return the count, or return -1.
pub data Scan : Type 0 where
  more : List Entry → Scan
  full : List Entry → Scan
  broken : Scan

abbrev pub next_scan : Scan → (List Entry → Scan) → Scan
next_scan (more found) k = k found
next_scan (full found) k = full found
next_scan broken k = broken

abbrev pub add_entry : Endpoint → Companion → List Entry → Scan
add_entry e (present bytes burst) found =
    more (found ++ (record { endpoint = e; companion_length = bytes; max_burst = burst } ∷ []))
add_entry e missing found =
    more (found ++ (record { endpoint = e; companion_length = 0; max_burst = 0 } ∷ []))
add_entry e unreadable found = broken

module _ (companion : Endpoint → Companion) where
  unfoldable pub scan_endpoint : Endpoint → List Entry → Scan
  scan_endpoint e found =
      if length found == max_endpoints then full found else add_entry e (companion e) found

  unfoldable pub scan_setting : List Endpoint → List Entry → Scan
  unfolding scan_endpoint
  scan_setting [] found = more found
  scan_setting (e ∷ es) found = next_scan (scan_endpoint e found) (scan_setting es)

  unfoldable pub scan_interface : List (List Endpoint) → List Entry → Scan
  unfolding scan_setting
  scan_interface [] found = more found
  scan_interface (s ∷ ss) found = next_scan (scan_setting s found) (scan_interface ss)

  unfoldable pub scan_configuration : Configuration → List Entry → Scan
  unfolding scan_interface
  scan_configuration [] found = more found
  scan_configuration (i ∷ is) found = next_scan (scan_interface i found) (scan_configuration is)

-- LIBUSB_TRANSFER_TYPE_BULK and LIBUSB_ENDPOINT_IN.
abbrev pub is_bulk_in : Endpoint → Bool
is_bulk_in e = bit_and e.attributes 0x03 == 2 && bit_and e.endpoint_address 0x80 == 0x80

-- `bulk_in_endpoint_address`, `bulk_in_max_packet_size` and `bulk_in_max_burst`.
pub record BulkIn : Type 0 where
  pub bulk_address : ℕ
  pub max_packet_size : ℕ
  pub max_burst : ℕ

unfoldable pub find_bulk_in : List Entry → BulkIn
find_bulk_in [] = record { bulk_address = 0; max_packet_size = 0; max_burst = 0 }
find_bulk_in (x ∷ xs) =
    if is_bulk_in x.endpoint
    then record {
      bulk_address = x.endpoint.endpoint_address;
      max_packet_size = x.endpoint.max_packet_size;
      max_burst = if x.companion_length == 0 then 0 else x.max_burst;
    }
    else find_bulk_in xs
