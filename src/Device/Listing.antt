-- ===== src/Device/Listing.antt =====
-- `usb_device_get_device_list` and `usb_device_free_device_list` of src/usb_device.c.
use rf.Prelude.{
  ℕ, ◌+◌, ◌*◌, Bool, true, false, not, ◌&&◌, Option, none, some, List, [], ◌∷◌, ◌++◌, length, ltb,
  ◌==◌, if◌then◌else◌,
}
use rf.Prelude.{Cmd, ok, aborted, pure, fail, check, ◌>>=◌, ◌>>◌}
use rf.Device.Calls.{
  Device, Calls, Bus, Context, Call, call, answer, finally, init_context, list_devices, open_handle,
}
use rf.Device.Search.{DeviceId, has_id, usb_device_ids}

-- A block of memory that holds a string: its address and the bytes written to it.
pub record Text : Type 0 where
  pub address : ℕ
  pub bytes : List ℕ

-- `struct usb_device_info`. A null pointer is none.
pub record DeviceInfo : Type 0 where
  pub manufacturer : Option Text
  pub product : Option Text
  pub serial_number : Option Text

-- MAX_STRING_BYTES, and the size of three pointers of 64 bits.
abbrev pub max_string_bytes : ℕ
max_string_bytes = 256

abbrev pub device_info_bytes : ℕ
device_info_bytes = 24

-- The array that is handed out, with the number that is returned.
pub record DeviceInfos : Type 0 where
  pub address : ℕ
  pub entries : List DeviceInfo
  pub count : ℕ

abbrev pub no_info : DeviceInfo
no_info = record { manufacturer = none; product = none; serial_number = none }

-- `malloc`: a new block, named by the number of the calls before it.
unfoldable pub allocate : ℕ → Cmd Calls ℕ
allocate size log = ok (length log) (Call.malloc size ∷ log)

-- `realloc` to the number of bytes of the string, which does not count the terminating 0. To size
-- 0 it frees the block.
abbrev pub shrunk : ℕ → List ℕ → Option Text
shrunk address [] = none
shrunk address (b ∷ bytes) = some (record { address = address; bytes = b ∷ bytes })

module _ (bus : Bus) where
  unfoldable pub get_string : ℕ → ℕ → Cmd Calls (List ℕ)
  unfolding answer
  get_string handle index =
      answer (λ log. bus.string_descriptor log handle index) (Call.get_string handle index)

  -- One string of a device: the empty one where the descriptor has no index for it.
  unfoldable pub read_string : ℕ → ℕ → Cmd Calls (Option Text)
  unfolding allocate get_string call
  read_string handle index = allocate max_string_bytes >>= λ address.
      if index == 0
      then pure (some (record { address = address; bytes = 0 ∷ [] }))
      else get_string handle index >>= λ bytes.
          call (Call.realloc address (length bytes)) >> pure (shrunk address bytes)

  unfoldable pub describe : ℕ → Device → Cmd Calls DeviceInfo
  unfolding read_string
  describe handle d = do
    manufacturer ← read_string handle d.manufacturer
    product ← read_string handle d.product
    serial_number ← read_string handle d.serial_number
    pure (record { manufacturer = manufacturer; product = product; serial_number = serial_number })

  -- The entry with the number `count` of an array for `capacity`.
  unfoldable pub add_info : ℕ → Device → List DeviceInfo → Cmd Calls (List DeviceInfo)
  unfolding open_handle describe finally
  add_info capacity d infos = open_handle bus d >>= λ handle.
      check (ltb (length infos) capacity)
      >> finally (describe handle d) (Call.libusb_close handle)
      >>= λ info. pure (infos ++ (info ∷ []))

  unfoldable pub collect_ids :
      ℕ → List DeviceId → Device → List DeviceInfo → Cmd Calls (List DeviceInfo)
  unfolding add_info
  collect_ids capacity [] d infos = pure infos
  collect_ids capacity (i ∷ ids) d infos =
      (if has_id d i then add_info capacity d infos else pure infos) >>= collect_ids capacity ids d

  unfoldable pub collect_loop : ℕ → List Device → List DeviceInfo → Cmd Calls (List DeviceInfo)
  unfolding collect_ids
  collect_loop capacity [] infos = pure infos
  collect_loop capacity (d ∷ devices) infos =
      collect_ids capacity usb_device_ids d infos >>= collect_loop capacity devices

  -- The array has one entry more than there are devices, for the terminator.
  unfoldable pub collect : List Device → Cmd Calls DeviceInfos
  unfolding allocate collect_loop
  collect devices = allocate ((length devices + 1) * device_info_bytes) >>= λ address.
      collect_loop (length devices + 1) devices [] >>= λ infos.
      check (ltb (length infos) (length devices + 1))
      >> pure
          (record { address = address; entries = infos ++ (no_info ∷ []); count = length infos })

  -- `given` says that the argument is not a null pointer.
  unfoldable pub get_device_list : Bool → Cmd Calls DeviceInfos
  unfolding init_context list_devices collect finally
  get_device_list given =
      if not given
      then fail
      else init_context bus Context.default
        >> finally (list_devices bus >>= λ devices. finally (collect devices) Call.free_device_list)
            (Call.exit Context.default)

unfoldable pub free_text : Option Text → Cmd Calls (Unit {0})
unfolding call
free_text none = pure tt
free_text (some t) = call (Call.free t.address)

abbrev pub is_null : Option Text → Bool
is_null none = true
is_null (some t) = false

abbrev pub is_no_info : DeviceInfo → Bool
is_no_info i = is_null i.manufacturer && is_null i.product && is_null i.serial_number

-- The loop stops at the terminator; it would read past an array without one.
unfoldable pub free_loop : List DeviceInfo → Cmd Calls (Unit {0})
unfolding free_text
free_loop [] log = aborted
free_loop (i ∷ infos) log = elim (is_no_info i) [
  | true ↦ ok tt log
  | false ↦
      (free_text i.manufacturer
          >> free_text i.product
          >> free_text i.serial_number
          >> free_loop infos)
        log
]

unfoldable pub free_device_list : DeviceInfos → Cmd Calls (Unit {0})
unfolding free_loop call
free_device_list d = free_loop d.entries >> call (Call.free d.address)
