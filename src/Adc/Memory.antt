-- ===== src/Adc/Memory.antt =====
-- src/adc.c: the device memory that `adc_open_async` and `adc_close` allocate and release.
use rf.Prelude.{ℕ, zero, suc, ◌+◌, ◌-◌, ◌*◌, ◌/◌, ◌%◌, ◌^◌, ◌≤◌, ◌<◌, ◌≡◌, refl, ap, arith}
use rf.Prelude.{Bool, true, ◌&&◌, ◌==◌, if◌then◌else◌, Bool-cases, ◌⊎◌, inl, inr}
use rf.Prelude.{Option, none, some, List, [], ◌∷◌, ◌++◌, length, take, Option-cases}
use rf.Prelude.{Ends, Ends-bind, Ends-mono, pure, fail}
use native.Mathlib.Nat.{div-add-mod', mod-lt, mul-mod_right}
use rf.Adc.Frames.{Adc, BulkEndpoint, MemoryCall, or_default, round_up, release_frames}
use rf.Adc.Frames.{
  allocate_frames, open_async, close, default_frame_size, default_num_frames, default_sample_rate,
}
use rf.Adc.Frames.Status.{status_ready}
use rf.Adc.Frames.MemoryCall.{allocated, released, exhausted}

-- The size is a multiple of the largest transfer, and the least that holds what was asked for.
abbrev pub RoundedUp : ℕ → ℕ → ℕ → Type 0
RoundedUp max_xfer_size asked size =
    (size % max_xfer_size ≡ 0) × (asked ≤ size) × (size < asked + max_xfer_size)

module _ (m asked : ℕ) (pos : 0 < m) (fits : asked + m - 1 < 2 ^ 32) where
  quotient : ℕ
  quotient = (asked + m - 1) / m

  -- The quotient times the divisor, at most `m - 1` below the dividend.
  whole : (m * quotient ≤ asked + m - 1) × (asked ≤ m * quotient)
  unfolding quotient
  whole = grind (arith, div-add-mod' (asked + m - 1) m, mod-lt (asked + m - 1) pos)

  round_up_eq : round_up m asked ≡ m * quotient
  unfolding round_up quotient
  round_up_eq =
      let cut : (asked + m - 1) % 2 ^ 32 ≡ asked + m - 1 = omega arith in
      rw cut (omega (arith, whole))

  round_up-RoundedUp : RoundedUp m asked (round_up m asked)
  round_up-RoundedUp =
      rw round_up_eq (mul-mod_right m quotient, omega (arith, whole), omega (arith, whole))

-- How often a pointer was allocated with a size, or released.
unfoldable pub allocations : ℕ → ℕ → List MemoryCall → ℕ
allocations p size [] = 0
allocations p size (allocated q k ∷ log) =
    (if q == p && k == size then 1 else 0) + allocations p size log
allocations p size (released q k ∷ log) = allocations p size log
allocations p size (exhausted k ∷ log) = allocations p size log

unfoldable pub releases : ℕ → ℕ → List MemoryCall → ℕ
releases p size [] = 0
releases p size (allocated q k ∷ log) = releases p size log
releases p size (released q k ∷ log) = (if q == p && k == size then 1 else 0) + releases p size log
releases p size (exhausted k ∷ log) = releases p size log

-- How often a pointer with a size is among frames of one size.
unfoldable pub held : ℕ → List ℕ → ℕ → ℕ → ℕ
held k [] p size = 0
held k (q ∷ qs) p size = (if q == p && k == size then 1 else 0) + held k qs p size

held-append :
    (k : ℕ) (qs : List ℕ) (q p size : ℕ)
    → held k (qs ++ (q ∷ [])) p size ≡ (if q == p && k == size then 1 else 0) + held k qs p size
unfolding held
held-append k [] q p size = refl
held-append k (x ∷ qs) q p size = omega (arith, held-append k qs q p size)

-- From `s` to `t`, the allocations are those released and the given frames.
abbrev pub Holding : ℕ → List ℕ → List MemoryCall → List MemoryCall → Type 0
Holding k frames s t =
    (p size : ℕ)
    → allocations p size t + releases p size s
      ≡ held k frames p size + releases p size t + allocations p size s

-- From `s` to `t`, what was allocated was released.
abbrev pub Returned : List MemoryCall → List MemoryCall → Type 0
Returned s t =
    (p size : ℕ)
    → allocations p size t + releases p size s ≡ releases p size t + allocations p size s

release_frames_lem :
    (k : ℕ) (frames : List ℕ) (s t : List MemoryCall)
    → Holding k frames s t
    → Returned s (release_frames k frames t)
unfolding release_frames held allocations releases
release_frames_lem k [] s t h = λ p size. omega (arith, h p size)
release_frames_lem k (q ∷ frames) s t h =
    release_frames_lem k frames s (released q k ∷ t) λ p size. omega (arith, h p size)

length-snoc : (xs : List ℕ) (x : ℕ) → length (xs ++ (x ∷ [])) ≡ length xs + 1
length-snoc [] x = refl
length-snoc (y ∷ xs) x = omega (arith, length-snoc xs x)

-- Nothing new is held, and an allocation was refused.
abbrev Exhausted : (List MemoryCall → ℕ → Option ℕ) → List MemoryCall → List MemoryCall → Type 0
Exhausted alloc s t = Returned s t × ((u : List MemoryCall) × (size : ℕ) × (alloc u size ≡ none))

abbrev Allocated : ℕ → ℕ → List MemoryCall → List ℕ → List MemoryCall → Type 0
Allocated k n s frames t = (length frames ≡ n) × Holding k frames s t

module _ (alloc : List MemoryCall → ℕ → Option ℕ) (k : ℕ) (s : List MemoryCall) where
  allocate_frames_lem :
      (n : ℕ) (frames : List ℕ) (t : List MemoryCall)
      → Holding k frames s t
      → Ends
          (Allocated k (length frames + n) s)
          (Exhausted alloc s)
          (allocate_frames alloc k n frames t)
  unfolding allocate_frames allocations releases
  allocate_frames_lem zero frames t h = (omega arith, h)
  allocate_frames_lem (suc n) frames t h = elim (Option-cases (alloc t k)) [
    | inl none_left ↦
        rw (none_left, allocate_frames)
          (release_frames_lem k frames s (exhausted k ∷ t) (λ p size. h p size), (t, k, none_left))
    | inr (p, e) ↦
        rw (e, allocate_frames)
          (Ends-mono _ _ _ _ (allocate_frames alloc k n (frames ++ (p ∷ [])) (allocated p k ∷ t))
            (λ qs u r. (omega (arith, r.0, length-snoc frames p), r.1)) (λ u r. r)
            (allocate_frames_lem n (frames ++ (p ∷ [])) (allocated p k ∷ t)
              λ q size. omega (arith, h q size, held-append k frames p q size)))
  ]

-- What `adc_open_async` promises of a new ADC, with the memory that it leaves.
pub record Opened (max_xfer_size asked count : ℕ) (called_back : Bool) (s : List MemoryCall)
    (adc : Adc) (t : List MemoryCall) : Type 0 where
  pub status : adc.status ≡ status_ready
  pub idle : adc.active_transfers ≡ 0
  pub callback : adc.has_callback ≡ called_back
  pub frame_size : RoundedUp max_xfer_size (or_default asked default_frame_size) adc.frame_size
  pub num_frames : adc.num_frames ≡ or_default count default_num_frames
  pub frames :
      (ps : List ℕ) × (adc.frames ≡ some ps)
      × (length ps ≡ adc.num_frames)
      × Holding adc.frame_size ps s t
  pub closed : Returned s (close adc t)

-- Nothing is held, and there was a reason to fail.
pub record Refused (alloc : List MemoryCall → ℕ → Option ℕ) (endpoint : BulkEndpoint)
    (s t : List MemoryCall) : Type 0 where
  pub returned : Returned s t
  pub reason :
      (endpoint.address ≡ 0)
      ⊎ (endpoint.max_packet_size * endpoint.max_burst ≡ 0)
      ⊎ ((u : List MemoryCall) × (size : ℕ) × (alloc u size ≡ none))

take_all : (xs : List ℕ) (n : ℕ) → length xs ≡ n → take n xs ≡ xs
take_all [] zero h = refl
take_all [] (suc n) h = refl
take_all (x ∷ xs) zero h = absurd (omega arith)
take_all (x ∷ xs) (suc n) h = ap (λ (ys : List ℕ). x ∷ ys) (take_all xs n (omega arith))

module _ (alloc : List MemoryCall → ℕ → Option ℕ) (endpoint : BulkEndpoint)
    (frame_size num_frames : ℕ) (has_callback : Bool) (s : List MemoryCall) where
  abbrev largest : ℕ
  largest = endpoint.max_packet_size * endpoint.max_burst

  abbrev asked : ℕ
  asked = or_default frame_size default_frame_size

  abbrev count : ℕ
  count = or_default num_frames default_num_frames

  abbrev size : ℕ
  size = round_up largest asked

  nothing_held : (k : ℕ) → Holding k [] s s
  unfolding held
  nothing_held k p size = omega arith

  -- What `adc_open_async` makes of the frames.
  abbrev new_adc : List ℕ → Adc
  new_adc ps = record {
    status = status_ready;
    random = 0;
    sample_rate = default_sample_rate;
    frame_size = size;
    num_frames = count;
    has_callback = has_callback;
    frames = some ps;
    active_transfers = 0;
  }

  opened :
      RoundedUp largest asked size
      → (ps : List ℕ) (t : List MemoryCall) → Allocated size count s ps t
      → Opened largest frame_size num_frames has_callback s (new_adc ps) t
  unfolding close
  opened rounded ps t h = record {
    status = refl;
    idle = refl;
    callback = refl;
    frame_size = rounded;
    num_frames = refl;
    frames = (ps, refl, h.0, h.1);
    closed = rw (take_all ps count h.0) (release_frames_lem size ps s t h.1);
  }

  -- If the size asked for, rounded up, is below 2 ^ 32: a success gives an ADC that is ready, with
  -- no active transfer, a frame size that is the least multiple of the largest transfer that holds
  -- the size asked for (or the default), and as many frames as asked for (or the default), each
  -- allocated with that size; closing it releases exactly those. A failure leaves nothing
  -- allocated, and comes from a missing endpoint, a largest transfer of 0 or a refused allocation.
  pub open_async_lem :
      or_default frame_size default_frame_size + largest - 1 < 2 ^ 32
      → Ends
          (Opened largest frame_size num_frames has_callback s)
          (Refused alloc endpoint s)
          (open_async alloc endpoint frame_size num_frames has_callback s)
  unfolding open_async fail pure
  open_async_lem fits = elim (Bool-cases (endpoint.address == 0)) [
    | inl missing ↦
        rw missing (record { returned = λ p k. omega arith; reason = inl (ground arith) })
    | inr present ↦ elim (Bool-cases (largest == 0)) [
      | inl none_left ↦
          rw (present, none_left)
            (record { returned = λ p k. omega arith; reason = inr (inl (ground arith)) })
      | inr some_left ↦
          let pos : 0 < largest = ground arith in
          let rounded : RoundedUp largest asked size = round_up-RoundedUp largest asked pos fits in
          let exact : (size % largest == 0) ≡ true = ground (arith, rounded.0) in
          let same_size : or_default size default_frame_size ≡ size = ground (arith, rounded.1) in
          let same_count : or_default count default_num_frames ≡ count = ground arith in
          rw (present, some_left, exact, same_size, same_count)
            (Ends-bind (Allocated size count s) _ _ (allocate_frames alloc size count []) _ s
              (Ends-mono _ _ _ _ (allocate_frames alloc size count [] s)
                (λ ps t h. (omega (arith, h.0), h.1))
                (λ t h. record { returned = h.0; reason = inr (inr h.1) })
                (allocate_frames_lem alloc size s count [] s (nothing_held size)))
              λ ps t h. opened rounded ps t h)
    ]
  ]
