-- ===== src/Device/Strings.antt =====
-- The memory that src/usb_device.c holds while it lists devices, and the strings in it.
use rf.Prelude.{
  ℕ, ◌≤◌, ◌<◌, ◌≡◌, ◌≢◌, refl, ◌⊎◌, inl, inr, Bool, true, false, not, ◌&&◌, ◌||◌, Option, none,
  some, List, [], ◌∷◌, length, ◌==◌, if◌then◌else◌, arith,
}
use rf.Prelude.{Ends, Ends-bind, Triple, Triple-bind, pure, ◌>>=◌, ◌>>◌}
use rf.Device.Calls.{Device, Calls, Bus, Call, call}
use rf.Device.Ledger.{Resource, held}
use rf.Device.Rules.{Triple-answer}
use rf.Device.Listing.{
  Text, DeviceInfo, allocate, shrunk, get_string, read_string, describe, is_null, is_no_info,
}

-- Whether the block at `a` was allocated and not freed.
unfoldable pub is_live : ℕ → Calls → Bool
is_live a [] = false
is_live a (Call.malloc size ∷ log) = length log == a || is_live a log
is_live a (Call.realloc b size ∷ log) = not (size == 0 && b == a) && is_live a log
is_live a (Call.free b ∷ log) = not (b == a) && is_live a log
is_live a (_ ∷ log) = is_live a log

-- A block that is live was allocated by one of the calls.
pub is_live-lt-length : (a : ℕ) (log : Calls) → is_live a log ≡ true → a < length log
unfolding is_live
is_live-lt-length a [] h = cc
is_live-lt-length a (Call.malloc size ∷ log) h = ground (arith, is_live-lt-length a log)
is_live-lt-length a (Call.realloc b size ∷ log) h = ground (arith, is_live-lt-length a log)
is_live-lt-length a (Call.free b ∷ log) h = ground (arith, is_live-lt-length a log)
is_live-lt-length a (c ∷ log) h = ground (arith, is_live-lt-length a log)

abbrev pub owns : ℕ → Option Text → Bool
owns a none = false
owns a (some t) = t.address == a

abbrev pub owns_info : ℕ → DeviceInfo → Bool
owns_info a i = owns a i.manufacturer || owns a i.product || owns a i.serial_number

abbrev pub owns_any : ℕ → List DeviceInfo → Bool
owns_any a [] = false
owns_any a (i ∷ infos) = owns_info a i || owns_any a infos

abbrev bytes_of : Option Text → List ℕ
bytes_of none = []
bytes_of (some t) = t.bytes

-- The string for an index of a descriptor: what the device answered, with no 0 behind it.
abbrev pub Spells : Bus → ℕ → Option Text → Type 0
Spells bus index text =
    ((index ≡ 0) × (bytes_of text ≡ 0 ∷ []))
    ⊎ ((t : Calls) × (handle : ℕ) × (bus.string_descriptor t handle index ≡ some (bytes_of text)))

-- The three strings of a device.
pub record Describes (bus : Bus) (d : Device) (i : DeviceInfo) : Type 0 where
  pub manufacturer : Spells bus d.manufacturer i.manufacturer
  pub product : Spells bus d.product i.product
  pub serial_number : Spells bus d.serial_number i.serial_number

-- The blocks in `live`, and resources, that are held after the calls `t`, which are no fewer than `n`.
pub record Memory (n : ℕ) (rs : List Resource) (live : ℕ → Bool) (t : Calls) : Type 0 where
  pub blocks : (a : ℕ) → is_live a t ≡ live a
  pub resources : held t ≡ rs
  pub later : n ≤ length t

-- A block was allocated no earlier than after `n` calls.
abbrev pub Fresh : ℕ → (ℕ → Bool) → Type 0
Fresh n live = (a : ℕ) → live a ≡ true → n ≤ a

module _ (bus : Bus) (nonempty : (t : Calls) (h i : ℕ) → bus.string_descriptor t h i ≢ some [])
    (n : ℕ) (rs : List Resource) where
  -- What the reading of a string adds.
  abbrev Added : (ℕ → Bool) → ℕ → Option Text → Calls → Type 0
  Added live index text t =
      Memory n rs (λ a. live a || owns a text) t
      × Fresh n (λ a. owns a text)
      × Spells bus index text
      × (is_null text ≡ false)

  pub allocated :
      (live : ℕ → Bool) (size : ℕ)
      → Triple
          (Memory n rs live)
          (λ address t. Memory n rs (λ a. live a || address == a) t × (n ≤ address))
          (λ t. held t ≡ rs)
          (allocate size)
  unfolding allocate is_live held
  allocated live size = record {
    at = λ t m. (
      record {
        blocks = λ a. ground (arith, m.blocks a);
        resources = m.resources;
        later = omega (arith, m.later);
      },
      m.later,
    );
  }

  -- The bytes go into the block, which is cut to their number.
  filled :
      (live : ℕ → Bool) (address handle index : ℕ) (bytes : List ℕ) (t s : Calls)
      → n ≤ address
      → bus.string_descriptor s handle index ≡ some bytes
      → Memory n rs (λ a. live a || address == a) t
      → Ends
          (Added live index)
          (λ t. held t ≡ rs)
          ((call (Call.realloc address (length bytes)) >> pure (shrunk address bytes)) t)
  unfolding call pure ◌>>=◌ is_live held
  filled live address handle index [] t s l e m = absurd (nonempty s handle index e)
  filled live address handle index (b ∷ bytes) t s l e m = (
    record {
      blocks = λ a. ground (arith, m.blocks a);
      resources = m.resources;
      later = omega (arith, m.later);
    },
    λ a h. ground (arith, l),
    inr (s, handle, e),
    refl,
  )

  read_if :
      (live : ℕ → Bool) (address handle index : ℕ) (bit : Bool)
      → (index == 0) ≡ bit
      → n ≤ address
      → Triple
          (Memory n rs (λ a. live a || address == a))
          (Added live index)
          (λ t. held t ≡ rs)
          (if bit
            then pure (some (record { address = address; bytes = 0 ∷ [] }))
            else get_string bus handle index >>= λ bytes.
                call (Call.realloc address (length bytes)) >> pure (shrunk address bytes))
  unfolding pure get_string is_live held
  read_if live address handle index true e l = record {
    at = λ t m. (m, (λ a h. ground (arith, l)), inl (ground arith, refl), refl);
  }
  read_if live address handle index false e l =
      Triple-bind _ _
        (Triple-answer
          {Q = λ bytes t.
            Memory n rs (λ a. live a || address == a) t
            × (s : Calls) × (bus.string_descriptor s handle index ≡ some bytes)}
          (λ t. bus.string_descriptor t handle index) (Call.get_string handle index)
          (λ t m. m.resources)
          (λ t bytes m f. (
            record { blocks = m.blocks; resources = m.resources; later = omega (arith, m.later) },
            t,
            f,
          )))
        (λ bytes. record { at = λ t (m, s, f). filled live address handle index bytes t s l f m })

  read_string_lem :
      (live : ℕ → Bool) (handle index : ℕ)
      → Triple
          (Memory n rs live)
          (Added live index)
          (λ t. held t ≡ rs)
          (read_string bus handle index)
  unfolding read_string
  read_string_lem live handle index = Triple-bind _ _ (allocated live 256) (λ address. record {
    at = λ t (m, l). (read_if live address handle index (index == 0) refl l).at t m;
  })

  -- What a device's strings add.
  abbrev pub Described : (ℕ → Bool) → Device → DeviceInfo → Calls → Type 0
  Described live d i t =
      Memory n rs (λ a. live a || owns_info a i) t
      × Fresh n (λ a. owns_info a i)
      × Describes bus d i
      × (is_no_info i ≡ false)

  pub describe_lem :
      (live : ℕ → Bool) (handle : ℕ) (d : Device)
      → Triple (Memory n rs live) (Described live d) (λ t. held t ≡ rs) (describe bus handle d)
  unfolding describe pure
  describe_lem live handle d = Triple-bind _ _ (read_string_lem live handle d.manufacturer) (λ m.
      record {
        at = λ t (mem, mf, ms, mn).
            Ends-bind _ _ _ _ _ t ((read_string_lem _ handle d.product).at t mem)
              (λ p u (mem, pf, ps, pn).
                Ends-bind _ _ _ _ _ u ((read_string_lem _ handle d.serial_number).at u mem)
                  (λ s v (mem, sf, ss, sn). (
                    record {
                      blocks = λ a. ground (arith, mem.blocks a);
                      resources = mem.resources;
                      later = mem.later;
                    },
                    (λ a h. ground (arith, mf a, pf a, sf a)),
                    record { manufacturer = ms; product = ps; serial_number = ss },
                    ground (arith, mn),
                  )));
      })
