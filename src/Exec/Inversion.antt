-- ===== src/Exec/Inversion.antt =====
-- Reading a run backwards: what a `do` block that returned has gone through.
use grass.Prelude.{◌≡◌, refl}
use grass.State.{Context}
use grass.Exec.{Exec, Outcome, ok, err, panicked, deadlocked, suspended, continue, ◌>>=◌}

module _ {S E A B : Type 0} where
  continue-eq-ok :
      (o : Outcome E A) (f : A → Exec S E B) (c : Context) (s : S) {b : B}
      → (continue o f c s).0 ≡ ok b
      → (a : A) × (o ≡ ok a) × ((f a c s).0 ≡ ok b)
  continue-eq-ok (ok a) f c s h = (a, refl, h)
  continue-eq-ok (err e) f c s h = cc
  continue-eq-ok panicked f c s h = cc
  continue-eq-ok deadlocked f c s h = cc
  continue-eq-ok suspended f c s h = cc

  pub bind-eq-ok :
      (m : Exec S E A) (f : A → Exec S E B) (c : Context) (s : S) {b : B}
      → ((m >>= f) c s).0 ≡ ok b
      → (a : A) × ((m c s).0 ≡ ok a) × ((f a c (m c s).1).0 ≡ ok b)
  unfolding ◌>>=◌
  bind-eq-ok m f c s h = continue-eq-ok (m c s).0 f c (m c s).1 h
