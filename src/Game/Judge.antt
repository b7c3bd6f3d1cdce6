-- ===== src/Game/Judge.antt =====
-- How `Game::validate_code_test` compares the outputs of a run with the test cases, and the report
-- that it makes of them.
pub mod Order
pub mod Verdict
pub mod Report
use Prim.Native.Char.{code}
use grass.Prelude.{
  ℕ, zero, suc, ◌+◌, String, Bool, true, false, Option, none, some, List, [], ◌∷◌, ◌++◌, map,
  length, get_elem?, ◌==◌, leb, str_eq, if◌then◌else◌,
}
use grass.Models.Task.{TestCase}
use grass.Models.Response.{PublicTestProgress, new_passed, new_failed, make_not_failed}

abbrev pub Judged : Type 0
Judged = TestCase × String

-- `if s.ends_with('\n') { s.pop(); }`
unfoldable pub chomp : String → String
chomp String.[] = String.[]
chomp (String.◌∷◌ c String.[]) = if code c == 10 then String.[] else String.◌∷◌ c String.[]
chomp (String.◌∷◌ c (String.◌∷◌ d s)) = String.◌∷◌ c (chomp (String.◌∷◌ d s))

abbrev pub passes : TestCase → String → Bool
passes t s = str_eq s t.expected

-- The loop over the outputs of the public tests, from the index `i` on; `none` is the error
-- "task response length mismatch".
unfoldable pub judge_public :
    List TestCase → ℕ → List String → List Judged → List Judged → Option (List Judged × List Judged)
judge_public tests i [] finished failed = some (finished, failed)
judge_public tests i (s ∷ rest) finished failed = elim (get_elem? tests i) [
  | none ↦ none
  | some t ↦
      let s' = chomp s in
      judge_public tests (i + 1) rest (if passes t s' then finished ++ (t, s') ∷ [] else finished)
        (if passes t s' then failed else failed ++ (t, s') ∷ [])
]

-- The loop over the outputs of the private tests.
unfoldable pub judge_private :
    List TestCase → ℕ → List String → List TestCase → Option (List TestCase)
judge_private tests i [] finished = some finished
judge_private tests i (s ∷ rest) finished = elim (get_elem? tests i) [
  | none ↦ none
  | some t ↦
      judge_private tests (i + 1) rest (if passes t (chomp s) then finished ++ t ∷ [] else finished)
]

abbrev pub failed_entry : Judged → PublicTestProgress
failed_entry d = new_failed d.0.id d.1 d.0.expected

-- The loop that calls `make_not_failed` on the entries at the indices below `n`.
unfoldable pub mark_passed : ℕ → List PublicTestProgress → List PublicTestProgress
mark_passed zero ps = ps
mark_passed (suc n) [] = []
mark_passed (suc n) (p ∷ ps) = make_not_failed p ∷ mark_passed n ps

-- `sort_by(|x, y| x.test_index.cmp(&y.test_index))`, which is stable.
unfoldable pub insert_sorted :
    PublicTestProgress → List PublicTestProgress → List PublicTestProgress
insert_sorted p [] = p ∷ []
insert_sorted p (q ∷ qs) =
    if leb p.test_index q.test_index then p ∷ q ∷ qs else q ∷ insert_sorted p qs

unfoldable pub sort_by_index : List PublicTestProgress → List PublicTestProgress
unfolding insert_sorted
sort_by_index [] = []
sort_by_index (p ∷ ps) = insert_sorted p (sort_by_index ps)

-- The report where some public test failed.
unfoldable pub failing_report : List Judged → List Judged → List PublicTestProgress
unfolding mark_passed sort_by_index
failing_report finished failed =
    sort_by_index
      (mark_passed (length finished) (map failed_entry finished) ++ map failed_entry failed)

-- The report where all public tests passed, from the index `i` on.
unfoldable pub passing_report : ℕ → List Judged → List PublicTestProgress
passing_report i [] = []
passing_report i (d ∷ ds) = new_passed i d.1 d.0.expected ∷ passing_report (i + 1) ds

-- `stderr.first().unwrap_or(&String::new())`
abbrev pub first_line : List String → String
first_line [] = ""
first_line (s ∷ ss) = s
