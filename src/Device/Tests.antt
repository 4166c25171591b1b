-- ===== src/Device/Tests.antt =====
-- Runs of the functions that find, open and list devices at a concrete bus.
use rf.Prelude.{
  ◌≤◌, ◌⊎◌, ◌≡◌, refl, true, false, none, some, List, [], ◌∷◌, length, take, ◌==◌, if◌then◌else◌,
}
use rf.Prelude.{Ends, ok, ◌>>=◌}
use rf.Device.Calls.{
  Device, Endpoint, Companion, present, missing, Configuration, Calls, Bus, Call, default, own,
}
use rf.Device.Search.{count_devices}
use rf.Device.Endpoints.{scan_configuration, find_bulk_in, Entry}
use rf.Device.EndpointLaws.{listed, entries, all_endpoints, scan_configuration_lem}
use rf.Device.BulkIn.{Searched, find_bulk_in_lem}
use rf.Device.Candidates.{candidates}
use rf.Device.Ledger.{context, configuration, handle, held, release}
use rf.Device.SearchLaws.{count_devices_lem}
use rf.Device.Opening.{UsbDevice, open_device, close_device}
use rf.Device.OpeningLaws.{IsReady, Left, open_device_lem, open_close_device_lem}
use rf.Device.Liveness.{Opens, open_device-Opens}

abbrev hub : Device
hub = record {
  address = 100;
  id_vendor = 0x1d6b;
  id_product = 3;
  manufacturer = 0;
  product = 0;
  serial_number = 0;
}

abbrev streamer : Device
streamer = record {
  address = 200;
  id_vendor = 0x04b4;
  id_product = 0xf1;
  manufacturer = 1;
  product = 2;
  serial_number = 0;
}

abbrev devices : List Device
devices = hub ∷ streamer ∷ []

abbrev control_endpoint : Endpoint
control_endpoint = record { attributes = 3; endpoint_address = 0x82; max_packet_size = 64 }

abbrev bulk_endpoint : Endpoint
bulk_endpoint = record { attributes = 2; endpoint_address = 0x81; max_packet_size = 1024 }

abbrev config : Configuration
config = ((control_endpoint ∷ bulk_endpoint ∷ []) ∷ []) ∷ []

abbrev companion : Endpoint → Companion
companion e = if e.attributes == 2 then present 6 15 else missing

abbrev bus : Bus
bus = record {
  init_fails = λ log c. false;
  device_list = λ log. some devices;
  open_device = λ log d. some (length log);
  kernel_driver = λ log h. some 0;
  claim_fails = λ log h. false;
  load_fails = λ log h i. false;
  speed = λ log d. 4;
  active_config = λ log d. some config;
  companion = companion;
  string_descriptor = λ log h i. some (65 ∷ 66 ∷ []);
}

abbrev works : Opens bus
works = record {
  handle_of = λ log d. length log;
  opens = λ log d. refl;
  no_driver = λ log h. refl;
  claims = λ log h. refl;
}

count_devices_example :
    Ends
      (λ n t.
        (ds : List Device) × (bus.device_list (Call.init default false ∷ []) ≡ some ds)
        × (n ≡ length (candidates ds))
        × (n ≤ length ds)
        × (held t ≡ held []))
      (λ t.
        ((bus.init_fails [] default ≡ true)
          ⊎ (bus.device_list (Call.init default false ∷ []) ≡ none))
        × (held t ≡ held []))
      (count_devices bus [])
count_devices_example = count_devices_lem bus []

scan_configuration_example :
    listed (scan_configuration companion config [])
    ≡ entries companion (take 16 (all_endpoints config))
scan_configuration_example = scan_configuration_lem companion config

abbrev found : List Entry
found =
    record { endpoint = control_endpoint; companion_length = 0; max_burst = 0 }
    ∷ record { endpoint = bulk_endpoint; companion_length = 6; max_burst = 15 }
    ∷ []

find_bulk_in_example : Searched found (find_bulk_in found)
find_bulk_in_example = find_bulk_in_lem found

open_device_example :
    Ends
      (λ d t.
        (held t ≡ configuration ∷ handle d.dev_handle ∷ context own ∷ held []) × IsReady 0x17 d)
      (Left bus [])
      (open_device bus 0 7 0x17 [])
open_device_example = open_device_lem bus 0 7 0x17 []

open_close_device_example :
    Ends
      (λ _ t. held t ≡ configuration ∷ context own ∷ release (context default) (held []))
      (Left bus [])
      ((open_device bus 0 7 0x17 >>= close_device) [])
open_close_device_example = open_close_device_lem bus 0 7 0x17 []

open_device-Opens_example :
    (u : UsbDevice) × (t : Calls) × (open_device bus 0 7 0x17 [] ≡ ok u t)
    × (u.dev ≡ streamer)
    × (u.endpoints ≡ found)
unfolding candidates
open_device-Opens_example =
    open_device-Opens bus works [] devices 0 streamer config found 7 0x17 refl refl refl refl refl
      refl (λ n. cc (n.1.0))
