-- ===== src/Device/Ledger.antt =====
-- What a history of calls has acquired and not released.
use rf.Prelude.{ℕ, ◌≡◌, Bool, true, false, some, List, [], ◌∷◌}
use rf.Prelude.{◌==◌, if◌then◌else◌}
use rf.Device.Calls.{Calls, Context, Call, default, own}

pub data Resource : Type 0 where
  context : Context → Resource
  device_list : Resource
  handle : ℕ → Resource
  configuration : Resource
  -- Something was released that was not held.
  stray : Resource → Resource

abbrev pub same : Resource → Resource → Bool
same (context default) (context default) = true
same (context own) (context own) = true
same device_list device_list = true
same (handle h) (handle k) = h == k
same _ _ = false

unfoldable pub release : Resource → List Resource → List Resource
release r [] = stray r ∷ []
release r (x ∷ xs) = if same r x then xs else x ∷ release r xs

-- The resources held after a history, the newest first.
unfoldable pub held : Calls → List Resource
unfolding release
held [] = []
held (Call.init c false ∷ log) = context c ∷ held log
held (Call.exit c ∷ log) = release (context c) (held log)
held (Call.get_device_list (some ds) ∷ log) = device_list ∷ held log
held (Call.free_device_list ∷ log) = release device_list (held log)
held (Call.libusb_open d (some h) ∷ log) = handle h ∷ held log
held (Call.libusb_close h ∷ log) = release (handle h) (held log)
held (Call.get_active_config_descriptor d (some c) ∷ log) = configuration ∷ held log
held (_ ∷ log) = held log

-- Exactly these resources are held.
abbrev pub Holds : List Resource → Calls → Type 0
Holds rs log = held log ≡ rs
