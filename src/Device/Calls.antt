-- ===== src/Device/Calls.antt =====
-- The calls of libusb in src/usb_device.c that find and open a device. libusb and the firmware
-- loader are parameters: each answers after the history of the calls so far.
use rf.Prelude.{ℕ, Bool, true, false, Option, none, some, List, ◌∷◌, if◌then◌else◌}
use rf.Prelude.{Cmd, ok, err, aborted}

-- A null pointer names the default context; `libusb_init(&ctx)` makes another.
pub data Context : Type 0 where
  default own : Context

-- A `libusb_device`: where it stands in memory, and its `libusb_device_descriptor`.
pub record Device : Type 0 where
  pub address : ℕ
  pub id_vendor : ℕ
  pub id_product : ℕ
  pub manufacturer : ℕ
  pub product : ℕ
  pub serial_number : ℕ

-- `libusb_endpoint_descriptor`.
pub record Endpoint : Type 0 where
  pub attributes : ℕ
  pub endpoint_address : ℕ
  pub max_packet_size : ℕ

-- What `libusb_get_ss_endpoint_companion_descriptor` answers: bLength and bMaxBurst,
-- LIBUSB_ERROR_NOT_FOUND, or another error.
pub data Companion : Type 0 where
  present : ℕ → ℕ → Companion
  missing : Companion
  unreadable : Companion

-- Interfaces, their alternate settings, and the endpoints of these.
abbrev pub Configuration : Type 0
Configuration = List (List (List Endpoint))

-- The calls with their outcomes. A handle and an address are numbers; `none` is a negative return
-- value, and so is `true` where a call says whether it failed.
pub data Call : Type 0 where
  init : Context → Bool → Call
  exit : Context → Call
  get_device_list : Option (List Device) → Call
  free_device_list : Call
  libusb_open : Device → Option ℕ → Call
  libusb_close : ℕ → Call
  kernel_driver_active : ℕ → Option ℕ → Call
  claim_interface : ℕ → Bool → Call
  load_ram : ℕ → ℕ → Bool → Call
  get_active_config_descriptor : Device → Option Configuration → Call
  get_string : ℕ → ℕ → Option (List ℕ) → Call
  malloc : ℕ → Call
  realloc : ℕ → ℕ → Call
  free : ℕ → Call

-- Newest first.
abbrev pub Calls : Type 0
Calls = List Call

pub record Bus : Type 0 where
  pub init_fails : Calls → Context → Bool
  pub device_list : Calls → Option (List Device)
  pub open_device : Calls → Device → Option ℕ
  pub kernel_driver : Calls → ℕ → Option ℕ
  pub claim_fails : Calls → ℕ → Bool
  -- `ezusb_load_ram`, on an image file known by a number.
  pub load_fails : Calls → ℕ → ℕ → Bool
  pub speed : Calls → Device → ℕ
  pub active_config : Calls → Device → Option Configuration
  pub companion : Endpoint → Companion
  pub string_descriptor : Calls → ℕ → ℕ → Option (List ℕ)

-- A call that returns nothing.
unfoldable pub call : Call → Cmd Calls (Unit {0})
call c log = ok tt (c ∷ log)

-- A call with a negative return value is an error, and nothing follows it.
unfoldable pub answer : {A : Type 0} → (Calls → Option A) → (Option A → Call) → Cmd Calls A
answer f note log = elim (f log) [
  | none ↦ err (note none ∷ log)
  | some a ↦ ok a (note (some a) ∷ log)
]

unfoldable pub attempt : (Calls → Bool) → (Bool → Call) → Cmd Calls (Unit {0})
attempt fails note log = if fails log then err (note true ∷ log) else ok tt (note false ∷ log)

-- `goto FAILn`: the clean-up behind the label is made on failure.
unfoldable pub on_error : {A : Type 0} → Cmd Calls A → Call → Cmd Calls A
on_error m c log = elim (m log) [ ok a t ↦ ok a t | err t ↦ err (c ∷ t) | aborted ↦ aborted ]

-- A label that a successful run falls through to.
unfoldable pub finally : {A : Type 0} → Cmd Calls A → Call → Cmd Calls A
finally m c log = elim (m log) [ ok a t ↦ ok a (c ∷ t) | err t ↦ err (c ∷ t) | aborted ↦ aborted ]

module _ (bus : Bus) where
  unfoldable pub init_context : Context → Cmd Calls (Unit {0})
  unfolding attempt
  init_context c = attempt (λ log. bus.init_fails log c) (init c)

  unfoldable pub list_devices : Cmd Calls (List Device)
  unfolding answer
  list_devices = answer bus.device_list get_device_list

  unfoldable pub open_handle : Device → Cmd Calls ℕ
  unfolding answer
  open_handle d = answer (λ log. bus.open_device log d) (libusb_open d)
