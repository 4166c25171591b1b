-- ===== src/Device/Listed.antt =====
-- `usb_device_get_device_list` as a whole, and `usb_device_free_device_list` after it.
use rf.Prelude.{ℕ, ◌≤◌, ◌≡◌, Bool, false, ◌||◌, some, List, [], ◌∷◌, ◌++◌, length, ◌==◌}
use rf.Device.Calls.{Device, Calls, Bus, Call, default}
use rf.Device.Candidates.{candidates}
use rf.Device.Ledger.{Resource, device_list}
use rf.Device.Listing.{DeviceInfo, DeviceInfos, no_info}
use rf.Device.Strings.{is_live, owns_any, Memory, Fresh}
use rf.Device.ListingLaws.{DescribesAll}

-- A list that was handed out for the devices `ds`, by calls after the first `n`, when the blocks in
-- `base` were live: its entries and the terminator, and the blocks and resources held.
pub record Handed (bus : Bus) (ds : List Device) (n : ℕ) (rs : List Resource) (base : ℕ → Bool)
    (d : DeviceInfos) (t : Calls) : Type 0 where
  pub infos : List DeviceInfo
  pub entries : d.entries ≡ infos ++ (no_info ∷ [])
  pub counted : d.count ≡ length (candidates ds)
  pub described : DescribesAll bus (candidates ds) infos
  pub memory : Memory n rs (λ a. (base a || d.address == a) || owns_any a infos) t
  pub array_fresh : n ≤ d.address
  pub infos_fresh : Fresh n (λ a. owns_any a infos)

-- The list that is handed out describes the devices that libusb lists.
abbrev pub Got : Bus → Calls → List Resource → DeviceInfos → Calls → Type 0
Got bus log rs d t =
    (ds : List Device) × (bus.device_list (Call.init default false ∷ log) ≡ some ds)
    × Handed bus ds (length log) rs (λ a. is_live a log) d t
