-- ===== src/Device/Candidates.antt =====
-- The devices that src/usb_device.c can use, and the loops that count them and choose one.
use rf.Prelude.{
  ℕ, suc, zero, ◌+◌, ◌-◌, ◌≤◌, ◌<◌, ◌≡◌, refl, ap, ◌∙◌, inl, inr, Bool, true, false, Bool-cases,
  Option-cases, ◌&&◌, Option, none, some,
}
use rf.Prelude.{List, [], ◌∷◌, length, get_elem?, ◌==◌, if◌then◌else◌, arith}
use native.Mathlib.Numerals.{add-one}
use rf.Device.Calls.{Device}
use rf.Device.Search.{Selection, count_ids, count_loop, select_ids, select_loop, no_selection}

-- A device that the library can use, with whether it waits for its firmware.
pub record Candidate : Type 0 where
  pub device : Device
  pub needs_firmware : Bool

-- The FX3 boot loader and the streamer have the vendor 0x04b4 and the products 0xf3 and 0xf1.
unfoldable pub candidates : List Device → List Candidate
candidates [] = []
candidates (d ∷ ds) =
    let rest = candidates ds in
    if d.id_vendor == 0x04b4 && d.id_product == 0xf3
    then record { device = d; needs_firmware = true } ∷ rest
    else if d.id_vendor == 0x04b4 && d.id_product == 0xf1
    then record { device = d; needs_firmware = false } ∷ rest
    else rest

pub length-candidates : (ds : List Device) → length (candidates ds) ≤ length ds
unfolding candidates
length-candidates [] = omega arith
length-candidates (d ∷ ds) = ground (arith, length-candidates ds)

pub count_loop-candidates :
    (ds : List Device) (n : ℕ) → count_loop ds n ≡ n + length (candidates ds)
unfolding count_loop count_ids candidates
count_loop-candidates [] n = omega arith
count_loop-candidates (d ∷ ds) n =
    ground (arith, count_loop-candidates ds n, count_loop-candidates ds (n + 1))

-- The candidate with the number `index`, where the first has the number `count`.
abbrev seek : ℕ → ℕ → List Candidate → Option Candidate
seek index count [] = none
seek index count (c ∷ cs) = if count == index then some c else seek index (suc count) cs

seek_past : (index count : ℕ) (cs : List Candidate) → index < count → seek index count cs ≡ none
seek_past index count [] h = refl
seek_past index count (c ∷ cs) h = ground (arith, seek_past index (suc count) cs)

seek-get_elem? :
    (index count : ℕ) (cs : List Candidate)
    → count ≤ index
    → seek index count cs ≡ get_elem? cs (index - count)
seek-get_elem? index count [] h = refl
seek-get_elem? index count (c ∷ cs) h = elim (Bool-cases (count == index)) [
  | inl here ↦ let e : index - count ≡ 0 = ground arith in rw (here, e)
  | inr later ↦
      let lt : count < index = ground arith in
      let e : index - count ≡ suc (index - suc count) = omega arith in
      rw (later, e) (seek-get_elem? index (suc count) cs (omega arith))
]

abbrev pub chosen_device : Option Candidate → Option Device → Option Device
chosen_device none d = d
chosen_device (some c) d = some c.device

abbrev pub chosen_firmware : Option Candidate → Bool → Bool
chosen_firmware none b = b
chosen_firmware (some c) b = c.needs_firmware

select_loop_lem :
    (index : ℕ) (ds : List Device) (s : Selection)
    → ((select_loop index ds s).device
        ≡ chosen_device (seek index s.count (candidates ds)) s.device)
      × ((select_loop index ds s).needs_firmware
          ≡ chosen_firmware (seek index s.count (candidates ds)) s.needs_firmware)
unfolding select_loop select_ids candidates
select_loop_lem index [] s = (refl, refl)
select_loop_lem index (d ∷ ds) s = ground (
  arith,
  select_loop_lem index ds s,
  select_loop_lem index ds (record s { count = s.count + 1 }),
  select_loop_lem index ds (record { device = some d; needs_firmware = true; count = s.count + 1 }),
  select_loop_lem index ds
      (record { device = some d; needs_firmware = false; count = s.count + 1 }),
  seek_past index (s.count + 1) (candidates ds),
  add-one s.count,
)

seek_first : (index : ℕ) (cs : List Candidate) → seek index 0 cs ≡ get_elem? cs index
seek_first index cs =
    let e : index - 0 ≡ index = omega arith in
    seek-get_elem? index 0 cs (omega arith) ∙ ap (get_elem? cs) e

pub select_loop-device :
    (index : ℕ) (ds : List Device)
    → (select_loop index ds no_selection).device
      ≡ chosen_device (get_elem? (candidates ds) index) none
select_loop-device index ds =
    rw (← seek_first index (candidates ds)) (select_loop_lem index ds no_selection).0

pub select_loop-firmware :
    (index : ℕ) (ds : List Device)
    → (select_loop index ds no_selection).needs_firmware
      ≡ chosen_firmware (get_elem? (candidates ds) index) false
select_loop-firmware index ds =
    rw (← seek_first index (candidates ds)) (select_loop_lem index ds no_selection).1

pub get_elem?-lt-length :
    {A : Type 0} (xs : List A) (i : ℕ) (a : A) → get_elem? xs i ≡ some a → i < length xs
get_elem?-lt-length [] i a h = cc
get_elem?-lt-length (x ∷ xs) zero a h = omega arith
get_elem?-lt-length (x ∷ xs) (suc i) a h = omega (arith, get_elem?-lt-length xs i a h)

-- The loop chooses a device, and whether it needs firmware, as its number among the candidates.
pub select-candidate :
    (index : ℕ) (ds : List Device) (d : Device)
    → (select_loop index ds no_selection).device ≡ some d
    → get_elem? (candidates ds) index
      ≡ some (record {
        device = d;
        needs_firmware = (select_loop index ds no_selection).needs_firmware;
      })
select-candidate index ds d h = elim (Option-cases (get_elem? (candidates ds) index)) [
  | inl e ↦ let n = select_loop-device index ds in cc (e, n)
  | inr (c, e) ↦ ground (arith, e, select_loop-device index ds, select_loop-firmware index ds)
]

-- A device with the ids of the streamer example.
abbrev pub IsStreamer : Device → Type 0
IsStreamer d = (d.id_vendor ≡ 0x04b4) × (d.id_product ≡ 0xf1)

-- Only the streamer needs no firmware.
pub candidates-IsStreamer :
    (ds : List Device) (i : ℕ) (c : Candidate)
    → get_elem? (candidates ds) i ≡ some c
    → c.needs_firmware ≡ false
    → IsStreamer c.device
unfolding candidates
candidates-IsStreamer [] i c h n = cc
candidates-IsStreamer (d ∷ ds) zero c h n = ground (arith, candidates-IsStreamer ds zero c)
candidates-IsStreamer (d ∷ ds) (suc i) c h n =
    ground (arith, candidates-IsStreamer ds i c, candidates-IsStreamer ds (suc i) c)
