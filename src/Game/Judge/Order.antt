-- ===== src/Game/Judge/Order.antt =====
-- The report of a failing submission lists every judged output once, by test index.
use mathlib.Core.List.{Perm, Perm}
use mathlib.Core.List.Perm
use grass.Prelude.{ℕ, ◌≤◌, List, [], ◌∷◌, leb, arith, Bool-cases, inl, inr}
use grass.Models.Response.{PublicTestProgress}
use grass.Game.Judge.{insert_sorted, sort_by_index}

-- Each index is at most the one behind it.
abbrev pub IsSorted : List PublicTestProgress → Type 0
IsSorted [] = Unit
IsSorted (p ∷ []) = Unit
IsSorted (p ∷ q ∷ qs) = (p.test_index ≤ q.test_index) × IsSorted (q ∷ qs)

abbrev AtMost : ℕ → List PublicTestProgress → Type 0
AtMost n [] = Unit
AtMost n (q ∷ qs) = n ≤ q.test_index

cons-IsSorted :
    (p : PublicTestProgress) (ps : List PublicTestProgress)
    → AtMost p.test_index ps
    → IsSorted ps
    → IsSorted (p ∷ ps)
cons-IsSorted p [] h s = tt
cons-IsSorted p (q ∷ qs) h s = (h, s)

tail-IsSorted :
    (p : PublicTestProgress) (ps : List PublicTestProgress)
    → IsSorted (p ∷ ps)
    → IsSorted ps × AtMost p.test_index ps
tail-IsSorted p [] s = (tt, tt)
tail-IsSorted p (q ∷ qs) s = (s.1, s.0)

insert_sorted-AtMost :
    (n : ℕ) (p : PublicTestProgress) (ps : List PublicTestProgress)
    → n ≤ p.test_index
    → AtMost n ps
    → AtMost n (insert_sorted p ps)
unfolding insert_sorted
insert_sorted-AtMost n p [] h a = h
insert_sorted-AtMost n p (q ∷ qs) h a = ground arith

insert_sorted-IsSorted :
    (p : PublicTestProgress) (ps : List PublicTestProgress)
    → IsSorted ps
    → IsSorted (insert_sorted p ps)
unfolding insert_sorted
insert_sorted-IsSorted p [] s = tt
insert_sorted-IsSorted p (q ∷ qs) s = elim (Bool-cases (leb p.test_index q.test_index)) [
  | inl le ↦ rw le (ground arith, s)
  | inr gt ↦ rw gt (
      cons-IsSorted q (insert_sorted p qs)
        (insert_sorted-AtMost q.test_index p qs (ground arith) (tail-IsSorted q qs s).1)
        (insert_sorted-IsSorted p qs (tail-IsSorted q qs s).0))
]

insert_sorted-perm :
    (p : PublicTestProgress) (ps : List PublicTestProgress) → Perm (insert_sorted p ps) (p ∷ ps)
unfolding insert_sorted
insert_sorted-perm p [] = Perm.refl (p ∷ [])
insert_sorted-perm p (q ∷ qs) = elim (Bool-cases (leb p.test_index q.test_index)) [
  | inl le ↦ rw le (Perm.refl (p ∷ q ∷ qs))
  | inr gt ↦ rw gt (Perm.trans (Perm.cons q (insert_sorted-perm p qs)) (Perm.swap p q qs))
]

pub sort_by_index-IsSorted : (ps : List PublicTestProgress) → IsSorted (sort_by_index ps)
unfolding sort_by_index
sort_by_index-IsSorted [] = tt
sort_by_index-IsSorted (p ∷ ps) =
    insert_sorted-IsSorted p (sort_by_index ps) (sort_by_index-IsSorted ps)

pub sort_by_index-perm : (ps : List PublicTestProgress) → Perm (sort_by_index ps) ps
unfolding sort_by_index
sort_by_index-perm [] = Perm.refl []
sort_by_index-perm (p ∷ ps) =
    Perm.trans (insert_sorted-perm p (sort_by_index ps)) (Perm.cons p (sort_by_index-perm ps))
