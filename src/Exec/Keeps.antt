-- ===== src/Exec/Keeps.antt =====
-- Invariants of runs: one rule for each way to build an action. `R` says what is assumed of the context.
use grass.Prelude.{Bool, true, false, Option, none, some, if◌then◌else◌}
use grass.State.{Context}
use grass.Exec.{
  Exec, Outcome, ok, err, panicked, deadlocked, suspended, pure, raise, asks, gets, or_raise,
  unwrap, modify, continue, map_err, ignore, attempt, expect, on_err, handled, ◌>>=◌,
}

-- In a context as assumed the action keeps `P`, however it ends.
pub record Keeps {S E A : Type 0} (R : Context → Type 0) (P : S → Type 0) (m : Exec S E A)
    : Type 0 where
  pub at : (c : Context) (s : S) → R c → P s → P (m c s).1

module _ {S E A : Type 0} {R : Context → Type 0} {P : S → Type 0} where
  pub Keeps-pure : (a : A) → Keeps R P (pure {E = E} a)
  unfolding pure
  Keeps-pure a = record { at = λ c s r h. h }

  pub Keeps-raise : (e : E) → Keeps R P (raise {A = A} e)
  unfolding raise
  Keeps-raise e = record { at = λ c s r h. h }

  pub Keeps-asks : (f : Context → A) → Keeps R P (asks {E = E} f)
  unfolding asks
  Keeps-asks f = record { at = λ c s r h. h }

  pub Keeps-gets : (f : S → A) → Keeps R P (gets {E = E} f)
  unfolding gets
  Keeps-gets f = record { at = λ c s r h. h }

  pub Keeps-or_raise : (e : E) (o : Option A) → Keeps R P (or_raise e o)
  unfolding or_raise
  Keeps-or_raise e none = record { at = λ c s r h. h }
  Keeps-or_raise e (some a) = record { at = λ c s r h. h }

  pub Keeps-unwrap : (o : Option A) → Keeps R P (unwrap {E = E} o)
  unfolding unwrap
  Keeps-unwrap none = record { at = λ c s r h. h }
  Keeps-unwrap (some a) = record { at = λ c s r h. h }

  pub Keeps-if :
      (b : Bool) (m n : Exec S E A) → Keeps R P m → Keeps R P n → Keeps R P (if b then m else n)
  Keeps-if true m n km kn = km
  Keeps-if false m n km kn = kn

module _ {S E : Type 0} {R : Context → Type 0} {P : S → Type 0} where
  pub Keeps-modify : (f : S → S) → ((s : S) → P s → P (f s)) → Keeps R P (modify {E = E} f)
  unfolding modify
  Keeps-modify f k = record { at = λ c s r h. k s h }

module _ {S E A B : Type 0} {R : Context → Type 0} {P : S → Type 0} where
  continue_keeps :
      (o : Outcome E A) (f : A → Exec S E B) (c : Context) (s : S)
      → ((a : A) → Keeps R P (f a))
      → R c
      → P s
      → P (continue o f c s).1
  continue_keeps (ok a) f c s k r h = (k a).at c s r h
  continue_keeps (err e) f c s k r h = h
  continue_keeps panicked f c s k r h = h
  continue_keeps deadlocked f c s k r h = h
  continue_keeps suspended f c s k r h = h

  pub Keeps-bind :
      (m : Exec S E A) (f : A → Exec S E B)
      → Keeps R P m
      → ((a : A) → Keeps R P (f a))
      → Keeps R P (m >>= f)
  unfolding ◌>>=◌
  Keeps-bind m f km kf = record {
    at = λ c s r h. continue_keeps (m c s).0 f c (m c s).1 kf r (km.at c s r h);
  }

module _ {S E F A : Type 0} {R : Context → Type 0} {P : S → Type 0} where
  pub Keeps-map_err : (f : E → F) (m : Exec S E A) → Keeps R P m → Keeps R P (map_err f m)
  unfolding map_err
  Keeps-map_err f m km = record { at = λ c s r h. km.at c s r h }

  pub Keeps-ignore : (m : Exec S E A) → Keeps R P m → Keeps R P (ignore {F = F} m)
  unfolding ignore
  Keeps-ignore m km = record { at = λ c s r h. km.at c s r h }

  pub Keeps-attempt : (m : Exec S E A) → Keeps R P m → Keeps R P (attempt {F = F} m)
  unfolding attempt
  Keeps-attempt m km = record { at = λ c s r h. km.at c s r h }

  pub Keeps-expect : (m : Exec S E A) → Keeps R P m → Keeps R P (expect {F = F} m)
  unfolding expect
  Keeps-expect m km = record { at = λ c s r h. km.at c s r h }

  handled_keeps :
      (o : Outcome E A) (f : E → Exec S F A) (c : Context) (s : S)
      → ((e : E) → Keeps R P (f e))
      → R c
      → P s
      → P (handled o f c s).1
  handled_keeps (ok a) f c s k r h = h
  handled_keeps (err e) f c s k r h = (k e).at c s r h
  handled_keeps panicked f c s k r h = h
  handled_keeps deadlocked f c s k r h = h
  handled_keeps suspended f c s k r h = h

  pub Keeps-on_err :
      (m : Exec S E A) (f : E → Exec S F A)
      → Keeps R P m
      → ((e : E) → Keeps R P (f e))
      → Keeps R P (on_err m f)
  unfolding on_err
  Keeps-on_err m f km kf = record {
    at = λ c s r h. handled_keeps (m c s).0 f c (m c s).1 kf r (km.at c s r h);
  }

pub ruleset keeps_rules = (
  Keeps-pure, Keeps-raise, Keeps-asks, Keeps-gets, Keeps-or_raise, Keeps-unwrap, Keeps-if,
  Keeps-bind, Keeps-map_err, Keeps-ignore, Keeps-attempt, Keeps-expect, Keeps-on_err,
)
