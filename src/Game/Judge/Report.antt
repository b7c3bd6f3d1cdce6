-- ===== src/Game/Judge/Report.antt =====
-- What a player is told of the public tests.
use mathlib.Core.List.{perm_middle, Perm}
use mathlib.Core.List.Perm
use grass.Prelude.{
  ℕ, zero, suc, ◌+◌, ◌≡◌, refl, ap, some, List, [], ◌∷◌, ◌++◌, map, length, get_elem?, arith,
  Bool-cases, inl, inr,
}
use grass.Models.Response.{PublicTestProgress, new_passed, make_not_failed}
use grass.Game.Judge.{Judged, passes, failed_entry, mark_passed, failing_report, passing_report}
use grass.Game.Judge.Order.{IsSorted, sort_by_index-IsSorted, sort_by_index-perm}
use grass.Game.Judge.Verdict.{passed, missed}

-- The entry of a judged output: whether it passed, what was printed and what was expected.
abbrev pub verdict : Judged → PublicTestProgress
verdict (t, s) = record {
  test_index = t.id;
  succeeded = passes t s;
  stdout = s;
  expected = t.expected;
}

mark_passed-map :
    (ds : List Judged)
    → mark_passed (length ds) (map failed_entry ds) ≡ map (λ d. make_not_failed (failed_entry d)) ds
unfolding mark_passed
mark_passed-map [] = refl
mark_passed-map (d ∷ ds) = ap (◌∷◌ (make_not_failed (failed_entry d))) (mark_passed-map ds)

split-perm :
    (ds : List Judged)
    → Perm
        (map (λ d. make_not_failed (failed_entry d)) (passed ds) ++ map failed_entry (missed ds))
        (map verdict ds)
split-perm [] = Perm.refl []
split-perm ((t, s) ∷ ds) = elim (Bool-cases (passes t s)) [
  | inl hit ↦ rw hit (Perm.cons _ (split-perm ds))
  | inr miss ↦ rw miss (Perm.trans (perm_middle _ _) (Perm.cons _ (split-perm ds)))
]

abbrev marked : List Judged → List PublicTestProgress
marked ds =
    mark_passed (length (passed ds)) (map failed_entry (passed ds)) ++ map failed_entry (missed ds)

-- A failing submission is told the verdict of every judged output, each once, by test index.
pub failing_report_lem :
    (ds : List Judged)
    → IsSorted (failing_report (passed ds) (missed ds))
      × Perm (failing_report (passed ds) (missed ds)) (map verdict ds)
unfolding failing_report
failing_report_lem ds = (
  sort_by_index-IsSorted (marked ds),
  Perm.trans (sort_by_index-perm (marked ds)) (rw mark_passed-map (split-perm ds)),
)

-- A passing submission is told, at each position, the output there under that position's number, counted
-- from the first number.
pub get_elem?-passing_report :
    (i k : ℕ) (ds : List Judged) {d : Judged}
    → get_elem? ds k ≡ some d
    → get_elem? (passing_report i ds) k ≡ some (new_passed (i + k) d.1 d.0.expected)
unfolding passing_report
get_elem?-passing_report i k [] e = cc
get_elem?-passing_report i zero (x ∷ ds) e = ground arith
get_elem?-passing_report i (suc k) (x ∷ ds) {d} e =
    let rest = get_elem?-passing_report (i + 1) k ds e in
    let same : i + 1 + k ≡ i + suc k = omega arith in rw same at rest
