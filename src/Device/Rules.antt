-- ===== src/Device/Rules.antt =====
-- Rules for the steps of src/usb_device.c that find and open a device: what holds of the history
-- after a call that may fail, and after the clean-up behind a label.
use rf.Prelude.{◌≡◌, refl, Bool, true, false, Option, none, some, ◌∷◌}
use rf.Prelude.{Cmd, Outcome, Ends, Ends-split, Triple, ok, err, aborted}
use rf.Device.Calls.{Calls, Call, call, answer, attempt, on_error, finally}

-- The rules of the steps, for any predicates on the history.
module _ {P Q E : Calls → Type 0} where
  pub Triple-call :
      (c : Call) → ((log : Calls) → P log → Q (c ∷ log)) → Triple P (λ _. Q) E (call c)
  unfolding call
  Triple-call c h = record { at = h }

  pub Triple-attempt :
      (fails : Calls → Bool) (note : Bool → Call)
      → ((log : Calls) → P log → Q (note false ∷ log))
      → ((log : Calls) → P log → fails log ≡ true → E (note true ∷ log))
      → Triple P (λ _. Q) E (attempt fails note)
  unfolding attempt
  Triple-attempt fails note h k = record {
    at = λ log p. Ends-split (λ _. Q) E (fails log) _ _ (k log p) (λ _. h log p);
  }

module _ {A : Type 0} (Q : A → Calls → Type 0) (E : Calls → Type 0) where
  answered :
      (o : Option A) (note : Option A → Call) (log : Calls)
      → E (note none ∷ log)
      → ((a : A) → o ≡ some a → Q a (note (some a) ∷ log))
      → Ends Q E (elim o [ none ↦ err (note none ∷ log) | some a ↦ ok a (note (some a) ∷ log) ])
  answered none note log e q = e
  answered (some a) note log e q = q a refl

module _ {A : Type 0} {P : Calls → Type 0} {Q : A → Calls → Type 0} {E : Calls → Type 0} where
  pub Triple-answer :
      (f : Calls → Option A) (note : Option A → Call)
      → ((log : Calls) → P log → E (note none ∷ log))
      → ((log : Calls) (a : A) → P log → f log ≡ some a → Q a (note (some a) ∷ log))
      → Triple P Q E (answer f note)
  unfolding answer
  Triple-answer f note h k = record {
    at = λ log p. answered Q E (f log) note log (h log p) (λ a. k log a p);
  }

module _ {A : Type 0} (Q : A → Calls → Type 0) (E F : Calls → Type 0) where
  failed_over :
      (o : Outcome Calls A) (c : Call)
      → Ends Q F o
      → ((t : Calls) → F t → E (c ∷ t))
      → Ends Q E (elim o [ ok a t ↦ ok a t | err t ↦ err (c ∷ t) | aborted ↦ aborted ])
  failed_over (ok a t) c h k = h
  failed_over (err t) c h k = k t h
  failed_over aborted c h k = h

module _ {A : Type 0} {P : Calls → Type 0} {Q : A → Calls → Type 0} {E F : Calls → Type 0} where
  pub Triple-on_error :
      (m : Cmd Calls A) (c : Call)
      → Triple P Q F m
      → ((t : Calls) → F t → E (c ∷ t))
      → Triple P Q E (on_error m c)
  unfolding on_error
  Triple-on_error m c h k = record { at = λ log p. failed_over Q E F (m log) c (h.at log p) k }

module _ {A : Type 0} (Q R : A → Calls → Type 0) (E F : Calls → Type 0) where
  fallen_through :
      (o : Outcome Calls A) (c : Call)
      → Ends Q F o
      → ((a : A) (t : Calls) → Q a t → R a (c ∷ t))
      → ((t : Calls) → F t → E (c ∷ t))
      → Ends R E (elim o [ ok a t ↦ ok a (c ∷ t) | err t ↦ err (c ∷ t) | aborted ↦ aborted ])
  fallen_through (ok a t) c h j k = j a t h
  fallen_through (err t) c h j k = k t h
  fallen_through aborted c h j k = h

module _ {A : Type 0} {P : Calls → Type 0} {Q R : A → Calls → Type 0} {E F : Calls → Type 0} where
  pub Triple-finally :
      (m : Cmd Calls A) (c : Call)
      → Triple P Q F m
      → ((a : A) (t : Calls) → Q a t → R a (c ∷ t))
      → ((t : Calls) → F t → E (c ∷ t))
      → Triple P R E (finally m c)
  unfolding finally
  Triple-finally m c h j k = record {
    at = λ log p. fallen_through Q R E F (m log) c (h.at log p) j k;
  }
