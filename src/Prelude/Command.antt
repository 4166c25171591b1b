-- ===== src/Prelude/Command.antt =====
-- C functions that return 0 or -1 and change a state `S` on the way: the state is kept on the
-- error path, and a failed `assert` stops the program.
use mathlib.Core.Path.{◌≡◌, refl}
use mathlib.Core.Bool.{Bool, true, false}
use rf.Prelude.Tests.{if◌then◌else◌}

pub data Outcome (S A : Type 0) : Type 0 where
  ok : A → S → Outcome S A
  err : S → Outcome S A
  aborted : Outcome S A

abbrev pub Cmd : Type 0 → Type 0 → Type 0
Cmd S A = S → Outcome S A

module _ {S A : Type 0} where
  unfoldable pub pure : A → Cmd S A
  pure a s = ok a s

  -- `return -1`.
  unfoldable pub fail : Cmd S A
  fail s = err s

  unfoldable pub gets : (S → A) → Cmd S A
  gets f s = ok (f s) s

unfoldable pub modify : {S : Type 0} → (S → S) → Cmd S (Unit {0})
modify f s = ok tt (f s)

-- `assert(b)`.
unfoldable pub check : {S : Type 0} → Bool → Cmd S (Unit {0})
check true s = ok tt s
check false s = aborted

-- `if (ret < 0) return -1;` stands between every two calls of the code.
infixl 5 ◌>>=◌ ◌>>◌
unfoldable pub ◌>>=◌ : {S A B : Type 0} → Cmd S A → (A → Cmd S B) → Cmd S B
◌>>=◌ m f s = elim (m s) [ ok a s' ↦ f a s' | err s' ↦ err s' | aborted ↦ aborted ]

abbrev pub ◌>>◌ : {S B : Type 0} → Cmd S (Unit {0}) → Cmd S B → Cmd S B
m >> k = m >>= λ _. k

-- What holds after a run, on success and on failure. A run that satisfies it is not aborted.
abbrev pub Ends : {S A : Type 0} → (A → S → Type 0) → (S → Type 0) → Outcome S A → Type 0
Ends Q E (ok a s) = Q a s
Ends Q E (err s) = E s
Ends Q E aborted = ⊥

-- From `P` the run ends in `Q`, or fails in `E`.
pub record Triple {S A : Type 0} (P : S → Type 0) (Q : A → S → Type 0) (E : S → Type 0)
    (m : Cmd S A) : Type 0 where
  pub at : (s : S) → P s → Ends Q E (m s)

-- `P` survives the run, whether it succeeds or fails, and the run is not aborted.
pub record Keeps {S A : Type 0} (P : S → Type 0) (m : Cmd S A) : Type 0 where
  pub triple : Triple P (λ _. P) P m

module _ {S A : Type 0} {P E : S → Type 0} where
  pub Triple-pure : (a : A) → Triple P (λ _. P) E (pure a)
  unfolding pure
  Triple-pure a = record { at = λ s h. h }

  pub Triple-gets : (f : S → A) → Triple P (λ _. P) E (gets f)
  unfolding gets
  Triple-gets f = record { at = λ s h. h }

module _ {S A : Type 0} {P : S → Type 0} {Q : A → S → Type 0} where
  pub Triple-fail : Triple P Q P fail
  unfolding fail
  Triple-fail = record { at = λ s h. h }

module _ {S A B : Type 0} (Q : A → S → Type 0) (R : B → S → Type 0) (E : S → Type 0) where
  Ends-elim :
      (o : Outcome S A) (f : A → Cmd S B)
      → Ends Q E o
      → ((a : A) (s : S) → Q a s → Ends R E (f a s))
      → Ends R E (elim o [ ok a s' ↦ f a s' | err s' ↦ err s' | aborted ↦ aborted ])
  Ends-elim (ok a s) f h k = k a s h
  Ends-elim (err s) f h k = h
  Ends-elim aborted f h k = h

  -- The rule for a sequence: the second part is run on what the first leaves.
  pub Ends-bind :
      (m : Cmd S A) (f : A → Cmd S B) (s : S)
      → Ends Q E (m s)
      → ((a : A) (t : S) → Q a t → Ends R E (f a t))
      → Ends R E ((m >>= f) s)
  unfolding ◌>>=◌
  Ends-bind m f s h k = Ends-elim (m s) f h k

-- A sequence whose first part succeeds.
pub >>=-eq :
    {S A B : Type 0} (m : Cmd S A) (f : A → Cmd S B) (s : S) {a : A} {t : S}
    → m s ≡ ok a t
    → (m >>= f) s ≡ f a t
unfolding ◌>>=◌
>>=-eq m f s h = rw (h, ◌>>=◌)

module _ {S A : Type 0} (Q R : A → S → Type 0) (E F : S → Type 0) where
  pub Ends-mono :
      (o : Outcome S A)
      → ((a : A) (s : S) → Q a s → R a s)
      → ((s : S) → E s → F s)
      → Ends Q E o
      → Ends R F o
  Ends-mono (ok a s) h k e = h a s e
  Ends-mono (err s) h k e = k s e
  Ends-mono aborted h k e = e

module _ {S A : Type 0} (Q : A → S → Type 0) (E : S → Type 0) where
  pub Ends-if :
      (b : Bool) (o p : Outcome S A) → Ends Q E o → Ends Q E p → Ends Q E (if b then o else p)
  Ends-if true o p h k = h
  Ends-if false o p h k = k

  -- The same where each branch knows the test.
  pub Ends-split :
      (b : Bool) (o p : Outcome S A)
      → (b ≡ true → Ends Q E o)
      → (b ≡ false → Ends Q E p)
      → Ends Q E (if b then o else p)
  Ends-split true o p h k = h refl
  Ends-split false o p h k = k refl

module _ {S A B : Type 0} {P : S → Type 0} {Q : A → S → Type 0} {R : B → S → Type 0}
    {E : S → Type 0} where
  pub Triple-bind :
      (m : Cmd S A) (f : A → Cmd S B)
      → Triple P Q E m
      → ((a : A) → Triple (Q a) R E (f a))
      → Triple P R E (m >>= f)
  Triple-bind m f h k = record { at = λ s p. Ends-bind Q R E m f s (h.at s p) (λ a t. (k a).at t) }

module _ {S A : Type 0} {P : S → Type 0} {Q : A → S → Type 0} {E : S → Type 0} where
  pub Triple-if :
      (b : Bool) (m n : Cmd S A)
      → Triple P Q E m
      → Triple P Q E n
      → Triple P Q E (if b then m else n)
  Triple-if true m n h k = h
  Triple-if false m n h k = k

-- An assertion that holds.
pub Triple-check :
    {S : Type 0} {P E : S → Type 0} (b : Bool) → b ≡ true → Triple P (λ _. P) E (check b)
unfolding check
Triple-check true h = record { at = λ s p. p }
Triple-check false h = cc

pub Triple-modify :
    {S : Type 0} {P Q E : S → Type 0} (f : S → S)
    → ((s : S) → P s → Q (f s))
    → Triple P (λ _. Q) E (modify f)
unfolding modify
Triple-modify f h = record { at = h }

-- A run that keeps `P` from every state.
pub keeps :
    {S A : Type 0} {P : S → Type 0} {m : Cmd S A}
    → ((s : S) → P s → Ends (λ _. P) P (m s))
    → Keeps P m
keeps h = record { triple = record { at = h } }

-- The same rules where one predicate is kept throughout.
module _ {S A : Type 0} {P : S → Type 0} where
  pub Keeps-pure : (a : A) → Keeps P (pure a)
  Keeps-pure a = record { triple = Triple-pure a }

  pub Keeps-fail : Keeps {A = A} P fail
  Keeps-fail = record { triple = Triple-fail }

  pub Keeps-gets : (f : S → A) → Keeps P (gets f)
  Keeps-gets f = record { triple = Triple-gets f }

  pub Keeps-if : (b : Bool) (m n : Cmd S A) → Keeps P m → Keeps P n → Keeps P (if b then m else n)
  Keeps-if b m n h k = record { triple = Triple-if b m n h.triple k.triple }

module _ {S A B : Type 0} {P : S → Type 0} where
  pub Keeps-bind :
      (m : Cmd S A) (f : A → Cmd S B) → Keeps P m → ((a : A) → Keeps P (f a)) → Keeps P (m >>= f)
  Keeps-bind m f h k = record { triple = Triple-bind m f h.triple (λ a. (k a).triple) }

-- A sequence without a result in between.
infixr 6 ◌▹◌
pub ◌▹◌ :
    {S B : Type 0} {P : S → Type 0} {m : Cmd S (Unit {0})} {k : Cmd S B}
    → Keeps P m
    → Keeps P k
    → Keeps P (m >> k)
◌▹◌ {m} {k} h l = Keeps-bind m (λ _. k) h (λ _. l)

pub ruleset keeps_rules = (Keeps-pure, Keeps-fail, Keeps-gets, Keeps-if, Keeps-bind)
