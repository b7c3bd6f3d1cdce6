-- ===== src/Service/Either.antt =====
-- A selection whose third future never answers (src/service/extended_select.rs).
use grass.Prelude.{ℕ, zero, suc, ◌≡◌, refl, Option, none, some}
use grass.Service.{Poll, ready, pending, Future, poll_select, poll_first, poll_second, select}
use grass.Service.Drive.{drive, drive_select, next}

-- What a selection answers where its first two futures answer this and the third one nothing.
abbrev pub either : {X Y Z : Type 0} → Poll X → Poll Y → Poll (Option Z)
either (ready x) q = ready none
either pending (ready y) = ready none
either pending pending = pending

-- The first answer of a future, or that of what is left.
abbrev pub first_answer : {F A : Type 0} → Future F A → ℕ → Poll A × F → Poll A
first_answer f n p = elim p.0 [ ready x ↦ ready x | pending ↦ drive f n p.1 ]

module _ {A B C X Y Z : Type 0} (fa : Future A X) (fb : Future B Y) (fc : Future C Z) where
  either_ready : (p : Poll X) (y : Y) → either {Z = Z} p (ready y) ≡ ready none
  either_ready (ready x) y = refl
  either_ready pending y = refl

  module _ (n : ℕ) (c : C) (idle : fc.poll c ≡ (pending, c))
      (rest : (a : A) (b : B)
        → drive_select fa fb fc n (select a b c)
          ≡ some (either (drive fa n a) (drive fb n b))) where
    second_step :
        (a : A) (q : Poll Y × B)
        → next fa fb fc (drive_select fa fb fc n) (some (poll_second fa fb fc a q c))
          ≡ some (either (drive fa n a) (first_answer fb n q))
    second_step a (ready y, b) = rw (either_ready (drive fa n a) y) refl
    second_step a (pending, b) = rw idle (rest a b)

    first_step :
        (p : Poll X × A) (b : B)
        → next fa fb fc (drive_select fa fb fc n) (some (poll_first fa fb fc p b c))
          ≡ some (either (first_answer fa n p) (first_answer fb n (fb.poll b)))
    first_step (ready x, a) b = refl
    first_step (pending, a) b = second_step a (fb.poll b)

  -- However often a selection is polled whose third future never answers, it does not panic, and it
  -- answers, with nothing, once one of its first two futures has answered when polled as often alone.
  pub drive_select-either :
      (n : ℕ) (a : A) (b : B) (c : C)
      → fc.poll c ≡ (pending, c)
      → drive_select fa fb fc n (select a b c) ≡ some (either (drive fa n a) (drive fb n b))
  unfolding drive drive_select poll_select
  drive_select-either zero a b c idle = refl
  drive_select-either (suc n) a b c idle =
      first_step n c idle (λ a' b'. drive_select-either n a' b' c idle) (fa.poll a) b
