-- ===== src/Device/Freed.antt =====
-- `usb_device_free_device_list` after `usb_device_get_device_list`.
use rf.Prelude.{
  ℕ, ◌≤◌, ◌<◌, ◌≡◌, refl, sym, subst, ◌∙◌, Bool, true, false, not, ◌&&◌, ◌||◌, Option, none, some,
  List, [], ◌∷◌, ◌++◌, length, ◌==◌, arith,
}
use rf.Prelude.{Cmd, ok, Ends, Ends-mono, Triple, Triple-bind, pure, ◌>>◌}
use rf.Device.Calls.{Calls, Bus, Call, call}
use rf.Device.Candidates.{Candidate, candidates}
use rf.Device.Ledger.{Resource, held}
use rf.Device.Rules.{Triple-call}
use rf.Device.Listing.{
  Text, DeviceInfo, DeviceInfos, no_info, is_no_info, free_text, free_loop, free_device_list,
}
use rf.Device.Strings.{is_live, is_live-lt-length, owns, owns_info, owns_any}
use rf.Device.ListingLaws.{DescribesAll}
use rf.Device.Listed.{Got}

module _ (a : ℕ) (rs : List Resource) where
  -- Whether the block at `a` is live, and what else is held.
  abbrev Live : Bool → Calls → Type 0
  Live b t = (is_live a t ≡ b) × (held t ≡ rs)

  freed :
      (p : ℕ) (b : Bool)
      → Triple (Live b) (λ _. Live (b && not (p == a))) (λ _. ⊥) (call (Call.free p))
  unfolding is_live held
  freed p b = Triple-call (Call.free p) (λ t (l, h). (ground (arith, l), h))

  free_text_lem :
      (x : Option Text) (b : Bool)
      → Triple (Live b) (λ _. Live (b && not (owns a x))) (λ _. ⊥) (free_text x)
  unfolding free_text pure
  free_text_lem none b = record { at = λ t (l, h). (ground (arith, l), h) }
  free_text_lem (some x) b = freed x.address b

  free_info_lem :
      (i : DeviceInfo) (b : Bool)
      → Triple
          (Live b)
          (λ _. Live (b && not (owns_info a i)))
          (λ _. ⊥)
          (free_text i.manufacturer >> free_text i.product >> free_text i.serial_number)
  free_info_lem i b =
      subst
        (λ u.
          Triple (Live b) (λ _. Live u) (λ _. ⊥)
            (free_text i.manufacturer >> free_text i.product >> free_text i.serial_number))
        (ground arith)
        (Triple-bind _ _
          (Triple-bind _ _ (free_text_lem i.manufacturer b) (λ _. free_text_lem i.product _))
          (λ _. free_text_lem i.serial_number _))

  -- The loop goes on at an entry that is not the terminator.
  goes_on :
      (Q : Unit {0} → Calls → Type 0) (bit : Bool) (m : Cmd Calls (Unit {0})) (t : Calls)
      → bit ≡ false
      → Ends Q (λ _. ⊥) (m t)
      → Ends Q (λ _. ⊥) (elim bit [ true ↦ ok tt t | false ↦ m t ])
  goes_on Q true m t e h = cc
  goes_on Q false m t e h = h

  free_loop_lem :
      (bus : Bus) (cs : List Candidate) (infos : List DeviceInfo) (b : Bool)
      → DescribesAll bus cs infos
      → Triple
          (Live b)
          (λ _. Live (b && not (owns_any a infos)))
          (λ _. ⊥)
          (free_loop (infos ++ (no_info ∷ [])))
  unfolding free_loop
  free_loop_lem bus [] [] b d = record { at = λ t (l, h). (ground (arith, l), h) }
  free_loop_lem bus [] (i ∷ infos) b d = absurd d
  free_loop_lem bus (c ∷ cs) [] b d = absurd d
  free_loop_lem bus (c ∷ cs) (i ∷ infos) b (_, filled, d) =
      let rest : ((b && not (owns_info a i)) && not (owns_any a infos))
          ≡ (b && not (owns_any a (i ∷ infos))) =
        ground arith in
      subst (λ u. Triple (Live b) (λ _. Live u) (λ _. ⊥) (free_loop (i ∷ infos ++ (no_info ∷ []))))
        rest
        (record {
          at = λ t h.
              goes_on (λ _. Live ((b && not (owns_info a i)) && not (owns_any a infos)))
                (is_no_info i)
                (free_text i.manufacturer
                  >> free_text i.product
                  >> free_text i.serial_number
                  >> free_loop (infos ++ (no_info ∷ [])))
                t filled
                ((Triple-bind _ _ (free_info_lem i b) (λ _. free_loop_lem bus cs infos _ d)).at t
                  h);
        })

  free_device_list_lem :
      (bus : Bus) (cs : List Candidate) (d : DeviceInfos) (infos : List DeviceInfo) (b : Bool)
      → d.entries ≡ infos ++ (no_info ∷ [])
      → DescribesAll bus cs infos
      → Triple
          (Live b)
          (λ _. Live ((b && not (owns_any a infos)) && not (d.address == a)))
          (λ _. ⊥)
          (free_device_list d)
  unfolding free_device_list
  free_device_list_lem bus cs d infos b e da =
      Triple-bind _ _
        (subst
          (λ (xs : List DeviceInfo).
            Triple (Live b) (λ _. Live (b && not (owns_any a infos))) (λ _. ⊥) (free_loop xs))
          (sym e) (free_loop_lem bus cs infos b da))
        (λ _. freed d.address _)

-- A block that was live before is none of the new ones.
only_new :
    (a : ℕ) (old new : Bool) (address n : ℕ)
    → (old ≡ true → a < n)
    → (new ≡ true → n ≤ a)
    → n ≤ address
    → ((((old || address == a) || new) && not new) && not (address == a)) ≡ old
only_new a true true address n h k l = absurd (omega (arith, h refl, k refl))
only_new a true false address n h k l = ground (arith, h refl, l)
only_new a false true address n h k l = ground arith
only_new a false false address n h k l = ground arith

-- The list is given back after calls that changed nothing for the block at `a`.
pub given_back :
    (bus : Bus) (log : Calls) (a : ℕ) (d : DeviceInfos) (t u : Calls)
    → Got bus log (held log) d t
    → is_live a u ≡ is_live a t
    → held u ≡ held t
    → Ends
        (λ _ v. (is_live a v ≡ is_live a log) × (held v ≡ held log))
        (λ v. held v ≡ held log)
        (free_device_list d u)
given_back bus log a d t u (ds, e, h) same_block same_held =
    Ends-mono
      (λ _. Live a (held log) (
        (((is_live a log || d.address == a) || owns_any a h.infos) && not (owns_any a h.infos))
        && not (d.address == a)))
      (λ _ u. (is_live a u ≡ is_live a log) × (held u ≡ held log)) (λ _. ⊥) (λ t. held t ≡ held log)
      _
      (λ _ v (l, k). (
        l
            ∙ only_new a (is_live a log) (owns_any a h.infos) d.address (length log)
                (is_live-lt-length a log) (h.infos_fresh a) h.array_fresh,
        k,
      ))
      (λ v f. absurd f)
      ((free_device_list_lem a (held log) bus (candidates ds) d h.infos _ h.entries h.described).at
        u (same_block ∙ h.memory.blocks a, same_held ∙ h.memory.resources))
