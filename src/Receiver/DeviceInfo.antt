-- ===== src/Receiver/DeviceInfo.antt =====
-- `rf103_free_device_info` after `rf103_get_device_info`.
use rf.Prelude.{ℕ, ◌≡◌, ◌∷◌, length}
use rf.Device.Calls.{Calls, Bus, Call}
use rf.Device.Ledger.{held}
use rf.Device.Listed.{Got}
use rf.Receiver.Opening.{Rf103DeviceInfos}

-- The list behind the block that was allocated last.
abbrev Informed : Bus → Calls → Rf103DeviceInfos → Calls → Type 0
Informed bus log i t =
    (u : Calls) × (size : ℕ) × Got bus log (held log) i.list u
    × (i.block ≡ length u)
    × (t ≡ Call.malloc size ∷ u)
