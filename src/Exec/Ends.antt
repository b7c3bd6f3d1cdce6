-- ===== src/Exec/Ends.antt =====
-- Runs that do not wait for ever on a lock: one rule for each way to build an action. `R` says what is
-- assumed of the context.
use grass.Prelude.{◌≡◌, refl, Bool, true, false, Option, none, some, if◌then◌else◌, ◌∙◌}
use grass.State.{Context}
use grass.Exec.{
  Exec, Outcome, ok, err, panicked, deadlocked, suspended, pure, raise, asks, gets, or_raise,
  unwrap, modify, continue, map_err, ignore, attempt, expect, on_err, handled, outcome_map_err,
  outcome_ignore, outcome_attempt, outcome_expect, ◌>>=◌,
}

abbrev pub is_deadlocked : {E A : Type 0} → Outcome E A → Bool
is_deadlocked (ok a) = false
is_deadlocked (err e) = false
is_deadlocked panicked = false
is_deadlocked deadlocked = true
is_deadlocked suspended = false

-- In a context as assumed the action does not wait for ever.
pub record Ends {S E A : Type 0} (R : Context → Type 0) (m : Exec S E A) : Type 0 where
  pub at : (c : Context) (s : S) → R c → is_deadlocked (m c s).0 ≡ false

module _ {S E A : Type 0} {R : Context → Type 0} where
  pub Ends-pure : (a : A) → Ends R (pure {S = S} {E = E} a)
  unfolding pure
  Ends-pure a = record { at = λ c s r. refl }

  pub Ends-raise : (e : E) → Ends R (raise {S = S} {A = A} e)
  unfolding raise
  Ends-raise e = record { at = λ c s r. refl }

  pub Ends-asks : (f : Context → A) → Ends R (asks {S = S} {E = E} f)
  unfolding asks
  Ends-asks f = record { at = λ c s r. refl }

  pub Ends-gets : (f : S → A) → Ends R (gets {E = E} f)
  unfolding gets
  Ends-gets f = record { at = λ c s r. refl }

  pub Ends-or_raise : (e : E) (o : Option A) → Ends R (or_raise {S = S} e o)
  unfolding or_raise
  Ends-or_raise e none = Ends-raise e
  Ends-or_raise e (some a) = record { at = λ c s r. refl }

  pub Ends-unwrap : (o : Option A) → Ends R (unwrap {S = S} {E = E} o)
  unfolding unwrap
  Ends-unwrap none = record { at = λ c s r. refl }
  Ends-unwrap (some a) = record { at = λ c s r. refl }

  pub Ends-if : (b : Bool) (m n : Exec S E A) → Ends R m → Ends R n → Ends R (if b then m else n)
  Ends-if true m n em en = em
  Ends-if false m n em en = en

  -- A branch may use what its test says.
  pub Ends-test :
      (b : Bool) (m n : Exec S E A)
      → (b ≡ true → Ends R m)
      → (b ≡ false → Ends R n)
      → Ends R (if b then m else n)
  Ends-test true m n em en = em refl
  Ends-test false m n em en = en refl

module _ {S E : Type 0} {R : Context → Type 0} where
  pub Ends-modify : (f : S → S) → Ends R (modify {E = E} f)
  unfolding modify
  Ends-modify f = record { at = λ c s r. refl }

module _ {S E A B : Type 0} {R : Context → Type 0} where
  continue-Ends :
      (o : Outcome E A) (f : A → Exec S E B) (c : Context) (s : S)
      → ((a : A) → Ends R (f a))
      → R c
      → is_deadlocked o ≡ false
      → is_deadlocked (continue o f c s).0 ≡ false
  continue-Ends (ok a) f c s k r h = (k a).at c s r
  continue-Ends (err e) f c s k r h = refl
  continue-Ends panicked f c s k r h = refl
  continue-Ends deadlocked f c s k r h = h
  continue-Ends suspended f c s k r h = h

  pub Ends-bind :
      (m : Exec S E A) (f : A → Exec S E B) → Ends R m → ((a : A) → Ends R (f a)) → Ends R (m >>= f)
  unfolding ◌>>=◌
  Ends-bind m f em ef = record {
    at = λ c s r. continue-Ends (m c s).0 f c (m c s).1 ef r (em.at c s r);
  }

module _ {E F A : Type 0} where
  deadlocked_map_err :
      (f : E → F) (o : Outcome E A) → is_deadlocked (outcome_map_err f o) ≡ is_deadlocked o
  deadlocked_map_err f (ok a) = refl
  deadlocked_map_err f (err e) = refl
  deadlocked_map_err f panicked = refl
  deadlocked_map_err f deadlocked = refl
  deadlocked_map_err f suspended = refl

module _ {E A : Type 0} (F : Type 0) where
  deadlocked_ignore : (o : Outcome E A) → is_deadlocked (outcome_ignore {F = F} o) ≡ is_deadlocked o
  deadlocked_ignore (ok a) = refl
  deadlocked_ignore (err e) = refl
  deadlocked_ignore panicked = refl
  deadlocked_ignore deadlocked = refl
  deadlocked_ignore suspended = refl

  deadlocked_attempt :
      (o : Outcome E A) → is_deadlocked (outcome_attempt {F = F} o) ≡ is_deadlocked o
  deadlocked_attempt (ok a) = refl
  deadlocked_attempt (err e) = refl
  deadlocked_attempt panicked = refl
  deadlocked_attempt deadlocked = refl
  deadlocked_attempt suspended = refl

  deadlocked_expect : (o : Outcome E A) → is_deadlocked (outcome_expect {F = F} o) ≡ is_deadlocked o
  deadlocked_expect (ok a) = refl
  deadlocked_expect (err e) = refl
  deadlocked_expect panicked = refl
  deadlocked_expect deadlocked = refl
  deadlocked_expect suspended = refl

module _ {S E F A : Type 0} {R : Context → Type 0} where
  pub Ends-map_err : (f : E → F) (m : Exec S E A) → Ends R m → Ends R (map_err f m)
  unfolding map_err
  Ends-map_err f m em = record { at = λ c s r. deadlocked_map_err f (m c s).0 ∙ em.at c s r }

  pub Ends-ignore : (m : Exec S E A) → Ends R m → Ends R (ignore {F = F} m)
  unfolding ignore
  Ends-ignore m em = record { at = λ c s r. deadlocked_ignore F (m c s).0 ∙ em.at c s r }

  pub Ends-attempt : (m : Exec S E A) → Ends R m → Ends R (attempt {F = F} m)
  unfolding attempt
  Ends-attempt m em = record { at = λ c s r. deadlocked_attempt F (m c s).0 ∙ em.at c s r }

  pub Ends-expect : (m : Exec S E A) → Ends R m → Ends R (expect {F = F} m)
  unfolding expect
  Ends-expect m em = record { at = λ c s r. deadlocked_expect F (m c s).0 ∙ em.at c s r }

  handled-Ends :
      (o : Outcome E A) (f : E → Exec S F A) (c : Context) (s : S)
      → ((e : E) → Ends R (f e))
      → R c
      → is_deadlocked o ≡ false
      → is_deadlocked (handled o f c s).0 ≡ false
  handled-Ends (ok a) f c s k r h = refl
  handled-Ends (err e) f c s k r h = (k e).at c s r
  handled-Ends panicked f c s k r h = refl
  handled-Ends deadlocked f c s k r h = h
  handled-Ends suspended f c s k r h = h

  pub Ends-on_err :
      (m : Exec S E A) (f : E → Exec S F A)
      → Ends R m
      → ((e : E) → Ends R (f e))
      → Ends R (on_err m f)
  unfolding on_err
  Ends-on_err m f em ef = record {
    at = λ c s r. handled-Ends (m c s).0 f c (m c s).1 ef r (em.at c s r);
  }

pub ruleset ends_rules = (
  Ends-pure, Ends-raise, Ends-asks, Ends-gets, Ends-or_raise, Ends-unwrap, Ends-if, Ends-modify,
  Ends-bind, Ends-map_err, Ends-ignore, Ends-attempt, Ends-expect, Ends-on_err,
)
