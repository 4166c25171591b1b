-- ===== src/Device/EndpointLaws.antt =====
-- The endpoints that `list_endpoints` lists, and the one that `usb_device_open` streams from.
use rf.Prelude.{ℕ, suc, zero, ◌+◌, ◌≤◌, ◌≡◌, refl, sym, ap, ◌∙◌, true, false, Option, none, some}
use rf.Prelude.{List, [], ◌∷◌, ◌++◌, length, take, length-take, length-append, ◌==◌, arith}
use mathlib.Core.Path.{fun_ext}
use mathlib.Core.List.{append-nil, append_assoc}
use rf.Device.Calls.{Endpoint, Companion, present, missing, unreadable, Configuration}
use rf.Device.Endpoints.{
  Entry, Scan, more, full, broken, next_scan, add_entry, scan_endpoint, scan_setting,
  scan_interface, scan_configuration,
}

-- All elements, in order.
abbrev concat {ℓ} : {A : Type ℓ} → List (List A) → List A
concat [] = []
concat (xs ∷ xss) = xs ++ concat xss

-- The endpoints of a configuration in the order of its interfaces and their settings.
abbrev pub all_endpoints : Configuration → List Endpoint
all_endpoints [] = []
all_endpoints (i ∷ is) = concat i ++ all_endpoints is

-- An endpoint with its companion, unless that cannot be read.
abbrev entry_of : Endpoint → Companion → Option Entry
entry_of e (present bytes burst) =
    some (record { endpoint = e; companion_length = bytes; max_burst = burst })
entry_of e missing = some (record { endpoint = e; companion_length = 0; max_burst = 0 })
entry_of e unreadable = none

abbrev cons_entry : Option Entry → Option (List Entry) → Option (List Entry)
cons_entry none o = none
cons_entry (some x) none = none
cons_entry (some x) (some xs) = some (x ∷ xs)

abbrev pub entries : (Endpoint → Companion) → List Endpoint → Option (List Entry)
entries companion [] = some []
entries companion (e ∷ es) = cons_entry (entry_of e (companion e)) (entries companion es)

-- The list that a scan ends with.
abbrev pub listed : Scan → Option (List Entry)
listed (more found) = some found
listed (full found) = some found
listed broken = none

module _ (companion : Endpoint → Companion) where
  next_scan_assoc :
      (s : Scan) (j k : List Entry → Scan)
      → next_scan (next_scan s j) k ≡ next_scan s (λ found. next_scan (j found) k)
  next_scan_assoc (more found) j k = refl
  next_scan_assoc (full found) j k = refl
  next_scan_assoc broken j k = refl

  next_scan_more : (s : Scan) → next_scan s more ≡ s
  next_scan_more (more found) = refl
  next_scan_more (full found) = refl
  next_scan_more broken = refl

  scan_setting-append :
      (xs ys : List Endpoint) (found : List Entry)
      → scan_setting companion (xs ++ ys) found
        ≡ next_scan (scan_setting companion xs found) (scan_setting companion ys)
  unfolding scan_setting
  scan_setting-append [] ys found = refl
  scan_setting-append (x ∷ xs) ys found =
      ap (next_scan (scan_endpoint companion x found)) (fun_ext (scan_setting-append xs ys))
      ∙ sym (next_scan_assoc (scan_endpoint companion x found) (scan_setting companion xs) _)

  scan_interface-concat :
      (i : List (List Endpoint)) (found : List Entry)
      → scan_interface companion i found ≡ scan_setting companion (concat i) found
  unfolding scan_interface scan_setting
  scan_interface-concat [] found = refl
  scan_interface-concat (s ∷ ss) found =
      ap (next_scan (scan_setting companion s found)) (fun_ext (scan_interface-concat ss))
      ∙ sym (scan_setting-append s (concat ss) found)

  scan_configuration-all :
      (c : Configuration) (found : List Entry)
      → scan_configuration companion c found ≡ scan_setting companion (all_endpoints c) found
  unfolding scan_configuration scan_setting
  scan_configuration-all [] found = refl
  scan_configuration-all (i ∷ is) found = rw (scan_interface-concat i found) (
      ap (next_scan (scan_setting companion (concat i) found)) (fun_ext (scan_configuration-all is))
      ∙ sym (scan_setting-append (concat i) (all_endpoints is) found))

  abbrev after : List Entry → Option (List Entry) → Option (List Entry)
  after found none = none
  after found (some xs) = some (found ++ xs)

  after_one :
      (x : Entry) (found : List Entry) (rest : Option (List Entry))
      → after (found ++ (x ∷ [])) rest ≡ after found (cons_entry (some x) rest)
  after_one x found none = refl
  after_one x found (some xs) = ap some (append_assoc found (x ∷ []) xs)

  add_entry_lem :
      (e : Endpoint) (c : Companion) (found : List Entry) (k : List Entry → Scan)
      (rest : Option (List Entry))
      → ((x : Entry) → listed (k (found ++ (x ∷ []))) ≡ after (found ++ (x ∷ [])) rest)
      → listed (next_scan (add_entry e c found) k) ≡ after found (cons_entry (entry_of e c) rest)
  add_entry_lem e (present bytes burst) found k rest h = h _ ∙ after_one _ found rest
  add_entry_lem e missing found k rest h = h _ ∙ after_one _ found rest
  add_entry_lem e unreadable found k rest h = refl

  scan_setting-entries :
      (es : List Endpoint) (room : ℕ) (found : List Entry)
      → length found + room ≡ 16
      → listed (scan_setting companion es found) ≡ after found (entries companion (take room es))
  unfolding scan_setting scan_endpoint
  scan_setting-entries [] zero found h = ap some (sym (append-nil found))
  scan_setting-entries [] (suc room) found h = ap some (sym (append-nil found))
  scan_setting-entries (e ∷ es) zero found h =
      let is_full : (length found == 16) ≡ true = ground arith in
      rw is_full (ap some (sym (append-nil found)))
  scan_setting-entries (e ∷ es) (suc room) found h =
      let has_room : (length found == 16) ≡ false = ground arith in
      rw has_room (
        add_entry_lem e (companion e) found (scan_setting companion es)
          (entries companion (take room es))
          (λ x.
            scan_setting-entries es room (found ++ (x ∷ []))
              (omega (arith, length-append found (x ∷ []), h))))

  nil_after : (o : Option (List Entry)) → after [] o ≡ o
  nil_after none = refl
  nil_after (some xs) = refl

  -- `list_endpoints` lists the first 16 endpoints of the configuration, in the order of its
  -- interfaces and their settings, each with its companion; it fails exactly if one of these 16
  -- companions cannot be read.
  pub scan_configuration_lem :
      (c : Configuration)
      → listed (scan_configuration companion c []) ≡ entries companion (take 16 (all_endpoints c))
  scan_configuration_lem c =
      ap listed (scan_configuration-all c [])
      ∙ scan_setting-entries (all_endpoints c) 16 [] (omega arith)
      ∙ nil_after _

length-entries :
    (companion : Endpoint → Companion) (es : List Endpoint) (xs : List Entry)
    → entries companion es ≡ some xs
    → length xs ≡ length es
length-entries companion [] xs h = ground arith
length-entries companion (e ∷ es) xs h =
    length_cons (entry_of e (companion e)) (entries companion es) h (length-entries companion es)
  where
    length_cons :
        (o : Option Entry) (p : Option (List Entry))
        → cons_entry o p ≡ some xs
        → ((ys : List Entry) → p ≡ some ys → length ys ≡ length es)
        → length xs ≡ suc (length es)
    length_cons none p h k = cc
    length_cons (some x) none h k = cc
    length_cons (some x) (some ys) h k = ground (arith, k ys refl)

-- A scan never fills more than the arrays hold.
pub length-listed :
    (companion : Endpoint → Companion) (c : Configuration) (xs : List Entry)
    → listed (scan_configuration companion c []) ≡ some xs
    → length xs ≤ 16
length-listed companion c xs h =
    let e =
      length-entries companion (take 16 (all_endpoints c)) xs
        (rw (scan_configuration_lem companion c) at h) in
    omega (arith, e, length-take 16 (all_endpoints c))
