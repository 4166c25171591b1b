-- ===== src/Device/BulkIn.antt =====
-- The endpoint that `usb_device_open` streams from.
use rf.Prelude.{ℕ, ◌≡◌, ◌≢◌, refl, ap, bit_and, inl, inr, ◌⊎◌, Bool, true, false}
use rf.Prelude.{List, [], ◌∷◌, ◌++◌, ◌==◌, ◌&&◌, if◌then◌else◌, arith}
use rf.Device.Endpoints.{Entry, is_bulk_in, BulkIn, find_bulk_in}

-- Before an endpoint that is chosen there is none to choose.
abbrev pub NoBulkIn : List Entry → Type 0
NoBulkIn [] = Unit
NoBulkIn (x ∷ xs) = (is_bulk_in x.endpoint ≡ false) × NoBulkIn xs

abbrev pub bulk_in_of : Entry → BulkIn
bulk_in_of x = record {
  bulk_address = x.endpoint.endpoint_address;
  max_packet_size = x.endpoint.max_packet_size;
  max_burst = if x.companion_length == 0 then 0 else x.max_burst;
}

-- The first endpoint that is a bulk endpoint with the direction in, among others that are not.
pub record FirstBulkIn (xs : List Entry) (b : BulkIn) : Type 0 where
  pub before : List Entry
  pub entry : Entry
  pub behind : List Entry
  pub split : xs ≡ before ++ (entry ∷ behind)
  pub none_before : NoBulkIn before
  pub is_bulk : is_bulk_in entry.endpoint ≡ true
  pub values : b ≡ bulk_in_of entry

-- 0 has no bit of the direction.
address_nonzero :
    (attributes address : ℕ)
    → (bit_and attributes 0x03 == 2 && bit_and address 0x80 == 0x80) ≡ true
    → address ≢ 0
address_nonzero attributes address h z =
    let e : bit_and address 0x80 ≡ 0x80 = ground arith in
    let f : bit_and address 0x80 ≡ 0 = rw z in omega (arith, e, f)

-- What a search of the entries has found: address 0 and no bulk endpoint with the direction in,
-- or the first one.
abbrev pub Searched : List Entry → BulkIn → Type 0
Searched xs b = (NoBulkIn xs × (b.bulk_address ≡ 0)) ⊎ (FirstBulkIn xs b × (b.bulk_address ≢ 0))

later_bulk_in :
    (x : Entry) (xs : List Entry) (b : BulkIn)
    → is_bulk_in x.endpoint ≡ false
    → FirstBulkIn xs b
    → FirstBulkIn (x ∷ xs) b
later_bulk_in x xs b h f = record {
  before = x ∷ f.before;
  entry = f.entry;
  behind = f.behind;
  split = ap (λ ys. x ∷ ys) f.split;
  none_before = (h, f.none_before);
  is_bulk = f.is_bulk;
  values = f.values;
}

Searched-step :
    (x : Entry) (xs : List Entry) (r : BulkIn) (bit : Bool)
    → is_bulk_in x.endpoint ≡ bit
    → Searched xs r
    → Searched (x ∷ xs) (if bit then bulk_in_of x else r)
Searched-step x xs r true h s = inr (
  record {
    before = [];
    entry = x;
    behind = xs;
    split = refl;
    none_before = tt;
    is_bulk = h;
    values = refl;
  },
  address_nonzero x.endpoint.attributes x.endpoint.endpoint_address h,
)
Searched-step x xs r false h (inl (n, z)) = inl ((h, n), z)
Searched-step x xs r false h (inr (f, z)) = inr (later_bulk_in x xs r h f, z)

-- The search finds address 0 exactly if there is no bulk endpoint with the direction in, and
-- otherwise the first one.
pub find_bulk_in_lem : (xs : List Entry) → Searched xs (find_bulk_in xs)
unfolding find_bulk_in
find_bulk_in_lem [] = inl (tt, refl)
find_bulk_in_lem (x ∷ xs) =
    Searched-step x xs (find_bulk_in xs) (is_bulk_in x.endpoint) refl (find_bulk_in_lem xs)
