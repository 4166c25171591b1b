-- ===== src/Device/ListingLaws.antt =====
-- What `usb_device_get_device_list` returns and holds, and that `usb_device_free_device_list` gives
-- it back.
use rf.Prelude.{
  ℕ, suc, ◌+◌, ◌<◌, ◌≡◌, ◌≢◌, refl, ap, sym, subst, ◌∙◌, Bool, true, false, ◌&&◌, ◌||◌, some, List,
  [], ◌∷◌, ◌++◌, length, length-append, ltb, if◌then◌else◌, arith,
}
use rf.Prelude.{Ends-bind, Triple, Triple-bind, Triple-check, pure, ◌>>=◌}
use mathlib.Core.List.{append-nil, append_assoc}
use rf.Device.Calls.{Device, Calls, Bus, Call, open_handle}
use rf.Device.Search.{has_id, usb_device_ids}
use rf.Device.Candidates.{Candidate, candidates, length-candidates}
use rf.Device.Ledger.{Resource, handle, held, release}
use rf.Device.Rules.{Triple-answer, Triple-finally}
use rf.Device.Listing.{DeviceInfo, describe, add_info, collect_ids, collect_loop, is_no_info}
use rf.Device.Strings.{is_live, owns_info, owns_any, Describes, Memory, Fresh, describe_lem}

-- Each usable device has its strings, in order, and no entry is like the terminator.
abbrev pub DescribesAll : Bus → List Candidate → List DeviceInfo → Type 0
DescribesAll bus [] [] = Unit
DescribesAll bus [] (i ∷ infos) = ⊥
DescribesAll bus (c ∷ cs) [] = ⊥
DescribesAll bus (c ∷ cs) (i ∷ infos) =
    Describes bus c.device i × (is_no_info i ≡ false) × DescribesAll bus cs infos

pub length-DescribesAll :
    (bus : Bus) (cs : List Candidate) (infos : List DeviceInfo)
    → DescribesAll bus cs infos
    → length infos ≡ length cs
length-DescribesAll bus [] [] h = refl
length-DescribesAll bus [] (i ∷ infos) h = absurd h
length-DescribesAll bus (c ∷ cs) [] h = absurd h
length-DescribesAll bus (c ∷ cs) (i ∷ infos) h = ap suc (length-DescribesAll bus cs infos h.2)

DescribesAll-append :
    (bus : Bus) (cs ds : List Candidate) (infos news : List DeviceInfo)
    → DescribesAll bus cs infos
    → DescribesAll bus ds news
    → DescribesAll bus (cs ++ ds) (infos ++ news)
DescribesAll-append bus [] ds [] news h k = k
DescribesAll-append bus [] ds (i ∷ infos) news h k = absurd h
DescribesAll-append bus (c ∷ cs) ds [] news h k = absurd h
DescribesAll-append bus (c ∷ cs) ds (i ∷ infos) news h k =
    (h.0, h.1, DescribesAll-append bus cs ds infos news h.2 k)

owns_any-append :
    (a : ℕ) (xs ys : List DeviceInfo) → owns_any a (xs ++ ys) ≡ (owns_any a xs || owns_any a ys)
owns_any-append a [] ys = refl
owns_any-append a (x ∷ xs) ys = ground (arith, owns_any-append a xs ys)

-- The candidates of one device and of those behind it.
candidates-cons :
    (d : Device) (ds : List Device) → candidates (d ∷ ds) ≡ candidates (d ∷ []) ++ candidates ds
unfolding candidates
candidates-cons d ds = ground arith

module _ (bus : Bus) (nonempty : (t : Calls) (h i : ℕ) → bus.string_descriptor t h i ≢ some [])
    (n : ℕ) (rs : List Resource) (base : ℕ → Bool) where
  -- The entries so far, which describe `cs`, with their blocks beside those of `base`.
  abbrev pub Collected : List Candidate → List DeviceInfo → Calls → Type 0
  Collected cs infos t =
      Memory n rs (λ a. base a || owns_any a infos) t
      × Fresh n (λ a. owns_any a infos)
      × DescribesAll bus cs infos

  opened-Memory :
      (h : ℕ) (d : Device) (live : ℕ → Bool) (t : Calls)
      → Memory n rs live t
      → Memory n (handle h ∷ rs) live (Call.libusb_open d (some h) ∷ t)
  unfolding is_live held
  opened-Memory h d live t m = record {
    blocks = m.blocks;
    resources = ap (λ u. handle h ∷ u) m.resources;
    later = omega (arith, m.later);
  }

  closed-Memory :
      (h : ℕ) (live : ℕ → Bool) (t : Calls)
      → Memory n (handle h ∷ rs) live t
      → Memory n rs live (Call.libusb_close h ∷ t)
  unfolding is_live held release
  closed-Memory h live t m = record {
    blocks = m.blocks;
    resources = rw m.resources (ground arith);
    later = omega (arith, m.later);
  }

  close_failed : (h : ℕ) (t : Calls) → held t ≡ handle h ∷ rs → held (Call.libusb_close h ∷ t) ≡ rs
  unfolding held release
  close_failed h t e = rw e (ground arith)

  open_lem :
      (d : Device) (cs : List Candidate) (infos : List DeviceInfo)
      → Triple
          (Collected cs infos)
          (λ h t.
            Memory n (handle h ∷ rs) (λ a. base a || owns_any a infos) t
            × Fresh n (λ a. owns_any a infos)
            × DescribesAll bus cs infos)
          (λ t. held t ≡ rs)
          (open_handle bus d)
  unfolding open_handle held
  open_lem d cs infos =
      Triple-answer (λ t. bus.open_device t d) (Call.libusb_open d) (λ t m. m.0.resources)
        (λ t h m f. (opened-Memory h d _ t m.0, m.1, m.2))

  add_info_lem :
      (capacity : ℕ) (cs : List Candidate) (c : Candidate) (infos : List DeviceInfo)
      → length cs < capacity
      → Triple
          (Collected cs infos)
          (Collected (cs ++ (c ∷ [])))
          (λ t. held t ≡ rs)
          (add_info bus capacity c.device infos)
  unfolding add_info pure
  add_info_lem capacity cs c infos l = Triple-bind _ _ (open_lem c.device cs infos) (λ h. record {
    at = λ t (m, f, da).
        let room : ltb (length infos) capacity ≡ true =
          ground (arith, length-DescribesAll bus cs infos da) in
        Ends-bind _ _ _ _ _ t
          ((Triple-bind _ _ (Triple-check _ room) (λ _.
              Triple-finally
                {R = λ info u.
                  Memory n rs (λ a. (base a || owns_any a infos) || owns_info a info) u
                  × Fresh n (λ a. owns_info a info)
                  × Describes bus c.device info
                  × (is_no_info info ≡ false)}
                (describe bus h c.device) (Call.libusb_close h)
                (describe_lem bus nonempty n (handle h ∷ rs) _ h c.device)
                (λ info u (mem, fr, de, nn). (closed-Memory h _ u mem, fr, de, nn))
                (close_failed h))).at
            t m)
          (λ info u (mem, fr, de, nn). (
            record {
              blocks = λ a. ground (arith, mem.blocks a, owns_any-append a infos (info ∷ []));
              resources = mem.resources;
              later = mem.later;
            },
            (λ a e. ground (arith, f a, fr a, owns_any-append a infos (info ∷ []))),
            DescribesAll-append bus cs (c ∷ []) infos (info ∷ []) da (de, nn, tt),
          ));
  })

  -- The table's two rows; a device fits at most one of them.
  two_rows :
      (capacity : ℕ) (cs : List Candidate) (d : Device) (infos : List DeviceInfo) (a b : Bool)
      → (a && b) ≡ false
      → length cs < capacity
      → Triple
          (Collected cs infos)
          (Collected (
            cs
            ++ (if a
                then record { device = d; needs_firmware = true } ∷ []
                else if b
                then record { device = d; needs_firmware = false } ∷ []
                else [])))
          (λ t. held t ≡ rs)
          ((if a then add_info bus capacity d infos else pure infos) >>= λ x.
            (if b then add_info bus capacity d x else pure x) >>= λ y. pure y)
  unfolding pure ◌>>=◌
  two_rows capacity cs d infos true true e l = cc
  two_rows capacity cs d infos true false e l =
      Triple-bind _ _
        (add_info_lem capacity cs (record { device = d; needs_firmware = true }) infos l)
        (λ x. record { at = λ t h. h })
  two_rows capacity cs d infos false true e l = record {
    at = λ t h.
        (Triple-bind (add_info bus capacity d infos) (λ y. pure y)
            (add_info_lem capacity cs (record { device = d; needs_firmware = false }) infos l)
            (λ y. record { at = λ t h. h })).at
          t h;
  }
  two_rows capacity cs d infos false false e l = record {
    at = λ t h. subst (λ u. Collected u infos t) (sym (append-nil cs)) h;
  }

  collect_ids_lem :
      (capacity : ℕ) (cs : List Candidate) (d : Device) (infos : List DeviceInfo)
      → length cs < capacity
      → Triple
          (Collected cs infos)
          (Collected (cs ++ candidates (d ∷ [])))
          (λ t. held t ≡ rs)
          (collect_ids bus capacity usb_device_ids d infos)
  unfolding collect_ids candidates
  collect_ids_lem capacity cs d infos l =
      two_rows capacity cs d infos
        (has_id d (record { vid = 0x04b4; pid = 0xf3; needs_firmware = true }))
        (has_id d (record { vid = 0x04b4; pid = 0xf1; needs_firmware = false })) (ground arith) l

  pub collect_loop_lem :
      (capacity : ℕ) (ds : List Device) (cs : List Candidate) (infos : List DeviceInfo)
      → length cs + length ds < capacity
      → Triple
          (Collected cs infos)
          (Collected (cs ++ candidates ds))
          (λ t. held t ≡ rs)
          (collect_loop bus capacity ds infos)
  unfolding collect_loop pure
  collect_loop_lem capacity [] cs infos l = record {
    at = λ t h. unfold candidates in rw append-nil h;
  }
  collect_loop_lem capacity (d ∷ ds) cs infos l =
      Triple-bind _ _ (collect_ids_lem capacity cs d infos (omega arith)) (λ news.
        subst
          (λ u.
            Triple (Collected (cs ++ candidates (d ∷ [])) news) (Collected u) (λ t. held t ≡ rs)
              (collect_loop bus capacity ds news))
          (append_assoc cs (candidates (d ∷ [])) (candidates ds) ∙ rw (candidates-cons d ds))
          (collect_loop_lem capacity ds (cs ++ candidates (d ∷ [])) news
            (omega (arith, length-append cs (candidates (d ∷ [])), length-candidates (d ∷ [])))))
