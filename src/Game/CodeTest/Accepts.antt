-- ===== src/Game/CodeTest/Accepts.antt =====
-- Which submissions `Game::validate_code_test` accepts, as a test on the task, the run and the sandbox.
use grass.Prelude.{
  ℕ, String, Bool, ◌≡◌, ◌↔◌, refl, ap, ◌∙◌, true, false, Option, none, some, List, [], ◌∷◌, ◌&&◌,
  str_eq, eq_iff, get_elem?, length, ◌==◌, arith, Option-cases, Bool-cases, inl, inr,
}
use grass.Models.Task.{Uuid, GameTask, TestCase}
use grass.Models.Response.{PublicTestProgress}
use grass.State.{Context, GameState, PartialClient, SandboxResponse}
use grass.Exec.{◌>>=◌, map_err}
use grass.Game.Judge.{chomp, judge_public, judge_private, passing_report}
use grass.Game.Judge.Verdict.{Agree, judge_public-Agree}
use grass.Game.CodeTest.{compile_code, validate_private, validate_public, validate_code_test}
use grass.Game.CodeTest.Laws.{PrivatePass, private_request, judge_private-Agree}
use grass.Game.CodeTest.Record.{lookup_step}
use grass.Game.CodeTest.Ends.{not_started, unlisted}

-- One output for each test, and each is what the test expects once a last newline is off.
abbrev pub all_agree : List TestCase → List String → Bool
all_agree [] [] = true
all_agree [] (s ∷ ss) = false
all_agree (t ∷ ts) [] = false
all_agree (t ∷ ts) (s ∷ ss) = str_eq (chomp s) t.expected && all_agree ts ss

abbrev pub run_agrees : List TestCase → Option SandboxResponse → Bool
run_agrees ts none = false
run_agrees ts (some result) = result.success && all_agree ts result.stdout

-- The run on the public tests, which is given, and the one on the private tests, which is asked for.
abbrev pub task_accepts : Context → Uuid → String → SandboxResponse → Option GameTask → Bool
task_accepts c id code result none = false
task_accepts c id code result (some t) =
    run_agrees t.public_test_cases (some result)
    && run_agrees t.private_test_cases (c.sandbox (private_request c id code t))

pub all_agree-Agree :
    (ts : List TestCase) (ss : List String) → (all_agree ts ss ≡ true) ↔ Agree ts ss
all_agree-Agree [] [] = (λ e. tt, λ a. refl)
all_agree-Agree [] (s ∷ ss) = (λ e. cc, λ a. absurd a)
all_agree-Agree (t ∷ ts) [] = (λ e. cc, λ a. absurd a)
all_agree-Agree (t ∷ ts) (s ∷ ss) =
    let rest = all_agree-Agree ts ss in
    (
      λ e. ((eq_iff (chomp s) t.expected).0 (ground arith), rest.0 (ground arith)),
      λ a. rw ((eq_iff (chomp s) t.expected).1 a.0) (rest.1 a.1),
    )

module _ (id : Uuid) (i : ℕ) (code : String) (t : GameTask) (p : PartialClient) (c : Context)
    (s : GameState) where
  validate_private-refused :
      (report : List PublicTestProgress)
      → run_agrees t.private_test_cases (c.sandbox (private_request c id code t)) ≡ false
      → (validate_private id i code t p report c s).1 ≡ s
  unfolding validate_private compile_code map_err ◌>>=◌
  validate_private-refused report fails =
      elim (Option-cases (c.sandbox (private_request c id code t))) [
        | inl silent ↦ ground arith
        | inr (answer, came) ↦ elim (Bool-cases answer.success) [
          | inr broke ↦ ground arith
          | inl ran ↦ elim (Option-cases (judge_private t.private_test_cases 0 answer.stdout [])) [
            | inl over ↦ ground arith
            | inr (fin, judged) ↦ elim (Bool-cases (length fin == length t.private_test_cases)) [
              | inr few ↦ ground arith
              | inl all ↦
                  let agreed =
                    (judge_private-Agree t.private_test_cases answer.stdout judged).0
                      (ground arith) in
                  let agrees = (all_agree-Agree t.private_test_cases answer.stdout).1 agreed in
                  absurd (ground arith)
            ]
          ]
        ]
      ]

  validate_public-refused :
      (result : SandboxResponse)
      → task_accepts c id code result (some t) ≡ false
      → (validate_public id i code result t p c s).1 ≡ s
  unfolding validate_public ◌>>=◌
  validate_public-refused result fails = elim (Bool-cases result.success) [
    | inr broke ↦ ground arith
    | inl ran ↦ elim (Option-cases (judge_public t.public_test_cases 0 result.stdout [] [])) [
      | inl over ↦ ground arith
      | inr (out, judged) ↦ elim (Bool-cases (length out.0 == length t.public_test_cases)) [
        | inr few ↦ ground arith
        | inl all ↦
            let agreed =
              (judge_public-Agree t.public_test_cases result.stdout judged).0 (ground arith) in
            let agrees = (all_agree-Agree t.public_test_cases result.stdout).1 agreed in
            ground (arith, validate_private-refused (passing_report 0 out.0))
      ]
    ]
  ]

module _ (id : Uuid) (i : ℕ) (code : String) (result : SandboxResponse) (c : Context)
    (s : GameState) where
  -- A host's validation of a submission that is not accepted changes nothing.
  pub validate_code_test-refused :
      s.game.is_host ≡ true
      → task_accepts c id code result (get_elem? s.game.tasks i) ≡ false
      → (validate_code_test id i code result c s).1 ≡ s
  validate_code_test-refused host fails = elim (Bool-cases s.game.is_started) [
    | inr off ↦ not_started id i c s code result off
    | inl on ↦ elim (Option-cases (get_elem? s.game.tasks i)) [
      | inl out ↦ unlisted id i c s code result out
      | inr (t, at) ↦
          ap (λ x. x.1) (lookup_step id i code result t c s host on at)
          ∙ validate_public-refused id i code t s.game.partial_host c s result (rw at at fails)
    ]
  ]

private_agrees-PrivatePass :
    (c : Context) (id : Uuid) (code : String) (t : GameTask) (o : Option SandboxResponse)
    → c.sandbox (private_request c id code t) ≡ o
    → run_agrees t.private_test_cases o ≡ true
    → PrivatePass c id code t
private_agrees-PrivatePass c id code t none came agrees = cc
private_agrees-PrivatePass c id code t (some answer) came agrees = (
  answer,
  came,
  ground arith,
  (all_agree-Agree t.private_test_cases answer.stdout).0 (ground arith),
)

-- What a task that accepts a run has passed.
pub task_accepts-passes :
    (c : Context) (id : Uuid) (code : String) (result : SandboxResponse) (t : GameTask)
    → task_accepts c id code result (some t) ≡ true
    → (result.success ≡ true) × Agree t.public_test_cases result.stdout × PrivatePass c id code t
task_accepts-passes c id code result t accepts = (
  ground arith,
  (all_agree-Agree t.public_test_cases result.stdout).0 (ground arith),
  private_agrees-PrivatePass c id code t (c.sandbox (private_request c id code t)) refl
      (ground arith),
)
