-- ===== src/Exec.antt =====
-- How a function of the source runs: it reads its context, changes the state, and returns, fails,
-- panics, waits for ever on a lock that its own task holds, or stands still at a point where its task gives
-- way and has not gone on yet. What it has changed stays changed.
pub mod Inversion
pub mod Sockets
pub mod Services
pub mod Keeps
pub mod Ends
use grass.Prelude.{Option, none, some}
use grass.State.{Context}

pub data Outcome (E A : Type 0) : Type 0 where
  ok : A → Outcome E A
  err : E → Outcome E A
  panicked : Outcome E A
  deadlocked : Outcome E A
  suspended : Outcome E A

abbrev pub Exec : Type 0 → Type 0 → Type 0 → Type 0
Exec S E A = Context → S → Outcome E A × S

module _ {S E A : Type 0} where
  unfoldable pub pure : A → Exec S E A
  pure a c s = (ok a, s)

  unfoldable pub raise : E → Exec S E A
  raise e c s = (err e, s)

  unfoldable pub panic : Exec S E A
  panic c s = (panicked, s)

  unfoldable pub asks : (Context → A) → Exec S E A
  asks f c s = (ok (f c), s)

  unfoldable pub gets : (S → A) → Exec S E A
  gets f c s = (ok (f s), s)

  -- `o.ok_or(e)?`
  unfoldable pub or_raise : E → Option A → Exec S E A
  unfolding pure raise
  or_raise e none = raise e
  or_raise e (some a) = pure a

  -- `o.unwrap()`
  unfoldable pub unwrap : Option A → Exec S E A
  unfolding pure panic
  unwrap none = panic
  unwrap (some a) = pure a

module _ {S E : Type 0} where
  unfoldable pub modify : (S → S) → Exec S E (Unit {0})
  modify f c s = (ok tt, f s)

module _ {S E A B : Type 0} where
  abbrev pub continue : Outcome E A → (A → Exec S E B) → Exec S E B
  continue (ok a) f c s = f a c s
  continue (err e) f c s = (err e, s)
  continue panicked f c s = (panicked, s)
  continue deadlocked f c s = (deadlocked, s)
  continue suspended f c s = (suspended, s)

  -- Opening this opens the actions above too.
  infixl 5 ◌>>=◌
  unfoldable pub ◌>>=◌ : Exec S E A → (A → Exec S E B) → Exec S E B
  unfolding pure raise panic asks gets or_raise unwrap modify
  ◌>>=◌ m f c s = let (r, s') = m c s in continue r f c s'

module _ {S E B : Type 0} where
  infixl 5 ◌>>◌
  abbrev pub ◌>>◌ : Exec S E (Unit {0}) → Exec S E B → Exec S E B
  m >> n = m >>= λ _. n

module _ {E F A : Type 0} where
  abbrev pub outcome_map_err : (E → F) → Outcome E A → Outcome F A
  outcome_map_err f (ok a) = ok a
  outcome_map_err f (err e) = err (f e)
  outcome_map_err f panicked = panicked
  outcome_map_err f deadlocked = deadlocked
  outcome_map_err f suspended = suspended

  abbrev pub outcome_ignore : Outcome E A → Outcome F (Unit {0})
  outcome_ignore (ok a) = ok tt
  outcome_ignore (err e) = ok tt
  outcome_ignore panicked = panicked
  outcome_ignore deadlocked = deadlocked
  outcome_ignore suspended = suspended

  abbrev pub outcome_attempt : Outcome E A → Outcome F (Option A)
  outcome_attempt (ok a) = ok (some a)
  outcome_attempt (err e) = ok none
  outcome_attempt panicked = panicked
  outcome_attempt deadlocked = deadlocked
  outcome_attempt suspended = suspended

  abbrev pub outcome_expect : Outcome E A → Outcome F A
  outcome_expect (ok a) = ok a
  outcome_expect (err e) = panicked
  outcome_expect panicked = panicked
  outcome_expect deadlocked = deadlocked
  outcome_expect suspended = suspended

module _ {S E F A : Type 0} where
  -- `m.map_err(f)`
  unfoldable pub map_err : (E → F) → Exec S E A → Exec S F A
  map_err f m c s = let (r, s') = m c s in (outcome_map_err f r, s')

  -- `let _ = m;`
  unfoldable pub ignore : Exec S E A → Exec S F (Unit {0})
  ignore m c s = let (r, s') = m c s in (outcome_ignore r, s')

  -- `match m { Ok(a) => …, Err(_) => … }`, as an option to match on.
  unfoldable pub attempt : Exec S E A → Exec S F (Option A)
  attempt m c s = let (r, s') = m c s in (outcome_attempt r, s')

  -- `m.unwrap()`
  unfoldable pub expect : Exec S E A → Exec S F A
  expect m c s = let (r, s') = m c s in (outcome_expect r, s')

module _ {S E F A : Type 0} where
  abbrev pub handled : Outcome E A → (E → Exec S F A) → Exec S F A
  handled (ok a) h c s = (ok a, s)
  handled (err e) h c s = h e c s
  handled panicked h c s = (panicked, s)
  handled deadlocked h c s = (deadlocked, s)
  handled suspended h c s = (suspended, s)

  -- `match m { Ok(a) => a, Err(e) => h(e) }`
  unfoldable pub on_err : Exec S E A → (E → Exec S F A) → Exec S F A
  on_err m h c s = let (r, s') = m c s in handled r h c s'
