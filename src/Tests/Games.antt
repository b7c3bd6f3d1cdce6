-- ===== src/Tests/Games.antt =====
-- The theorems on games, at the small shard.
use grass.Prelude.{◌≡◌, refl, ap, true, false, none, some, List, [], ◌∷◌, if◌then◌else◌, map, leb}
use grass.Models.Task.{TestCase}
use grass.Models.Response.{PublicTestProgress}
use grass.State.{SandboxResponse}
use grass.Exec.{ok, err, ignore}
use grass.Game.Judge.{Judged, chomp, judge_public, failing_report, passing_report}
use grass.Game.Judge.Order.{IsSorted}
use grass.Game.Judge.Verdict.{Agree, passed, missed, pairs, judge_public_lem}
use grass.Game.Judge.Report.{failing_report_lem, verdict}
use grass.Game.Progress.{all_with_progress}
use grass.Game.CodeTest.{validate_code_test, finished, finish_task}
use grass.Game.CodeTest.Laws.{Decides, PrivatePass, validate_code_test-is_done}
use grass.Game.CodeTest.Record.{
  validate_code_test-accepts, validate_code_test-records, credit_host, announce, may_record,
}
use grass.Tests.{
  double_two, double_three, doubling, run_public, run_private, shard, player, running, world,
  in_game, running-IsValid,
}
use mathlib.Core.List.{Perm}

public_agrees : Agree doubling.public_test_cases run_public.stdout
unfolding chomp
public_agrees = (refl, tt)

private_passes : PrivatePass shard 2 "code" doubling
unfolding chomp
private_passes = (run_private, refl, refl, (refl, tt))

abbrev report : List PublicTestProgress
report = passing_report 0 (passed (pairs doubling.public_test_cases run_public.stdout))

-- Client 2's submission passes, and the host has the mark.
validate_code_test-accepts_example : validate_code_test 2 0 "code" run_public shard in_game ≡ (
  ok (finished 0 report),
  record {
    game = credit_host 0 ((0, false) ∷ []) running;
    world =
        announce 2 0 doubling
          (all_with_progress (doubling ∷ []) ((2, player 2) ∷ []))
          (finish_task 0 ((0, false) ∷ []) running.partial_host)
          (world running);
  },
)
validate_code_test-accepts_example =
    validate_code_test-accepts 2 0 doubling shard in_game
      (all_with_progress (doubling ∷ []) ((2, player 2) ∷ [])) ((0, false) ∷ []) "code" run_public
      running-IsValid refl refl refl refl refl refl public_agrees private_passes

submission_returns :
    (validate_code_test 2 0 "code" run_public shard in_game).0 ≡ ok (finished 0 report)
submission_returns =
    ap (λ x. x.0)
      (validate_code_test-accepts 2 0 doubling shard in_game
        (all_with_progress (doubling ∷ []) ((2, player 2) ∷ [])) ((0, false) ∷ []) "code" run_public
        running-IsValid refl refl refl refl refl refl public_agrees private_passes)

validate_code_test-is_done_example : Decides shard 2 "code" run_public doubling (finished 0 report)
validate_code_test-is_done_example =
    validate_code_test-is_done 2 0 "code" run_public doubling shard in_game (finished 0 report) refl
      submission_returns

abbrev wrong : SandboxResponse
wrong = record { success = true; stdout = "5\n" ∷ []; stderr = [] }

wrong_fails : may_record (validate_code_test 2 0 "code" wrong shard in_game).0 ≡ false
unfolding validate_code_test grass.Game.CodeTest.find_task grass.Game.CodeTest.find_player
    grass.Game.CodeTest.validate_public judge_public chomp grass.Exec.◌>>=◌ grass.Exec.map_err
wrong_fails = refl

validate_code_test-records_example : (validate_code_test 2 0 "code" wrong shard in_game).1 ≡ in_game
validate_code_test-records_example =
    validate_code_test-records 2 0 shard in_game "code" wrong wrong_fails

abbrev two_tests : List TestCase
two_tests = double_two ∷ double_three ∷ []

judge_public_lem_example : judge_public two_tests 0 ("4\n" ∷ "7" ∷ []) [] [] ≡ (
    if leb 2 2
    then some
        (passed (pairs two_tests ("4\n" ∷ "7" ∷ [])), missed (pairs two_tests ("4\n" ∷ "7" ∷ [])))
    else none)
judge_public_lem_example = judge_public_lem two_tests ("4\n" ∷ "7" ∷ [])

judged_two :
    judge_public two_tests 0 ("4\n" ∷ "7" ∷ []) [] []
    ≡ some ((double_two, "4") ∷ [], (double_three, "7") ∷ [])
unfolding judge_public chomp
judged_two = refl

abbrev judgments : List Judged
judgments = (double_three, "7") ∷ (double_two, "4") ∷ []

failing_report_lem_example :
    IsSorted (failing_report (passed judgments) (missed judgments))
    × Perm (failing_report (passed judgments) (missed judgments)) (map verdict judgments)
failing_report_lem_example = failing_report_lem judgments
