-- ===== src/Service/Drive.antt =====
-- A selection that is polled again and again.
use grass.Prelude.{ℕ, zero, suc, ◌≡◌, refl, Option, none, some}
use grass.Service.{Poll, ready, pending, Future, Select, poll_select, select}

-- What a selection answers where its third future answers this.
abbrev pub third_answer : {Z : Type 0} → Poll Z → Poll (Option Z)
third_answer (ready z) = ready (some z)
third_answer pending = pending

-- At most `n` polls of a future, until it has an answer.
unfoldable pub drive : {F A : Type 0} → Future F A → ℕ → F → Poll A
drive f zero x = pending
drive f (suc n) x =
    let rest = drive f n (f.poll x).1 in elim (f.poll x).0 [ ready a ↦ ready a | pending ↦ rest ]

module _ {A B C X Y Z : Type 0} (fa : Future A X) (fb : Future B Y) (fc : Future C Z) where
  abbrev pub next :
      (Select A B C → Option (Poll (Option Z)))
      → Option (Poll (Option Z) × Select A B C)
      → Option (Poll (Option Z))
  next rest none = none
  next rest (some (ready o, s)) = some (ready o)
  next rest (some (pending, s)) = rest s

  -- At most `n` polls of a selection, until it has an answer; `none` is its panic.
  unfoldable pub drive_select : ℕ → Select A B C → Option (Poll (Option Z))
  drive_select zero s = some pending
  drive_select (suc n) s = next (drive_select n) (poll_select fa fb fc s)

  -- However often a selection is polled while its first two futures never answer, it does not panic,
  -- and it answers what its third future answers when that is polled alone.
  drive_select-drive :
      (n : ℕ) (a : A) (b : B) (c : C)
      → ((x : A) → (fa.poll x).0 ≡ pending)
      → ((y : B) → (fb.poll y).0 ≡ pending)
      → drive_select n (select a b c) ≡ some (third_answer (drive fc n c))
  unfolding drive drive_select poll_select
  drive_select-drive zero a b c wa wb = refl
  drive_select-drive (suc n) a b c wa wb =
      rw (wa a, wb b)
        (step (fc.poll c) (λ c'. drive_select-drive n (fa.poll a).1 (fb.poll b).1 c' wa wb))
    where
      step :
          (p : Poll Z × C)
          → ((c' : C)
              → drive_select n (select (fa.poll a).1 (fb.poll b).1 c')
                ≡ some (third_answer (drive fc n c')))
          → next
              (drive_select n)
              (some (grass.Service.poll_third fa fb fc (fa.poll a).1 (fb.poll b).1 p))
            ≡ some (third_answer (elim p.0 [ ready z ↦ ready z | pending ↦ drive fc n p.1 ]))
      step (ready z, c') rest = refl
      step (pending, c') rest = rest c'
