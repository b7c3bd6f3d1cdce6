-- ===== src/Game/CodeTest/Laws.antt =====
-- What a validation of a submission decides, and what it records.
use grass.Prelude.{
  ℕ, String, ◌≡◌, ◌↔◌, true, some, List, [], length, arith, inl, inr, get_elem?, length-map, map,
  Option-cases,
}
use grass.Models.Task.{Uuid, GameTask, TestCase}
use grass.Models.Response.{CompilationResponse, PublicTestProgress}
use grass.State.{Context, Game, GameState, PartialClient, SandboxRequest, SandboxResponse}
use grass.Exec.{gets, ok, ◌>>=◌, map_err, ignore}
use grass.Exec.Inversion.{bind-eq-ok}
use grass.Game.Judge.{passing_report, judge_public, judge_private}
use grass.Game.Judge.Verdict.{
  Agree, judge_public-Agree, judge_private_lem, Agree-judge_public, passed, pairs,
}
use grass.Game.CodeTest.{
  find_task, find_player, validate_public, compile_code, gather_stdin, validate_code_test,
  validate_private, record_success, finished,
}

record_success-finished :
    (id : Uuid) (i : ℕ) (t : GameTask) (p : PartialClient) (report : List PublicTestProgress)
    (c : Context) (s : GameState) (r : CompilationResponse)
    → (record_success id i t p report c s).0 ≡ ok r
    → r ≡ finished i report
unfolding record_success ◌>>=◌ ignore
record_success-finished id i t p report c s r e = ground arith

pub judge_private-Agree :
    (ts : List TestCase) (ss : List String) {fin : List TestCase}
    → judge_private ts 0 ss [] ≡ some fin
    → (length fin ≡ length ts) ↔ Agree ts ss
judge_private-Agree ts ss {fin} e = elim (Option-cases (judge_public ts 0 ss [] [])) [
  | inl over ↦ absurd (ground (arith, judge_private_lem ts ss))
  | inr ((f, x), done) ↦
      let same : fin ≡ map (λ d. d.0) f = ground (arith, judge_private_lem ts ss) in
      rw (same, length-map) (judge_public-Agree ts ss done)
]

pub Agree-judge_private :
    (ts : List TestCase) (ss : List String)
    → Agree ts ss
    → (fin : List TestCase) × (judge_private ts 0 ss [] ≡ some fin)
Agree-judge_private ts ss a =
    (map (λ d. d.0) (passed (pairs ts ss)), rw (judge_private_lem, Agree-judge_public ts ss a))

-- The request for the private tests of a task.
abbrev pub private_request : Context → Uuid → String → GameTask → SandboxRequest
private_request c client_id code task = record {
  user_id = c.uuid_text client_id;
  code = code;
  stdin = gather_stdin task.private_test_cases;
}

-- The sandbox ran the code on the private tests, and every output is the one expected.
abbrev pub PrivatePass : Context → Uuid → String → GameTask → Type 0
PrivatePass c client_id code task =
    (answer : SandboxResponse) × (c.sandbox (private_request c client_id code task) ≡ some answer)
    × (answer.success ≡ true)
    × Agree task.private_test_cases answer.stdout

validate_private-is_done :
    (id : Uuid) (i : ℕ) (code : String) (t : GameTask) (p : PartialClient)
    (report : List PublicTestProgress) (c : Context) (s : GameState) {r : CompilationResponse}
    → (validate_private id i code t p report c s).0 ≡ ok r
    → (r.is_done ≡ true) ↔ PrivatePass c id code t
unfolding validate_private compile_code map_err ◌>>=◌
validate_private-is_done id i code t p report c s {r} e =
    elim (Option-cases (c.sandbox (private_request c id code t))) [
      | inl silent ↦ absurd (ground arith)
      | inr (answer, came) ↦ (
        λ d.
            let (fin, judged) = judged_of_done answer came d in
            (
              answer,
              came,
              ground arith,
              (judge_private-Agree t.private_test_cases answer.stdout judged).0 (ground arith),
            ),
        λ q.
            let same : q.0 ≡ answer = ground arith in
            let agree : Agree t.private_test_cases answer.stdout = rw same at q.3 in
            let (fin, judged) = Agree-judge_private t.private_test_cases answer.stdout agree in
            let long = (judge_private-Agree t.private_test_cases answer.stdout judged).1 agree in
            ground (arith, record_success-finished id i t p report c s r),
      )
    ]
  where
    judged_of_done :
        (answer : SandboxResponse)
        → c.sandbox (private_request c id code t) ≡ some answer
        → r.is_done ≡ true
        → (fin : List TestCase) × (judge_private t.private_test_cases 0 answer.stdout [] ≡ some fin)
    judged_of_done answer came d =
        elim (Option-cases (judge_private t.private_test_cases 0 answer.stdout [])) [
          | inl over ↦ absurd (ground arith)
          | inr found ↦ found
        ]

-- A lookup of the task or of the player changes nothing.
find_task_state : (g : Game) (i : ℕ) (c : Context) (s : GameState) → (find_task g i c s).1 ≡ s
unfolding find_task map_err ◌>>=◌
find_task_state g i c s = ground arith

find_task-eq-ok :
    (g : Game) (i : ℕ) (c : Context) (s : GameState) (t t' : GameTask)
    → get_elem? g.tasks i ≡ some t
    → (find_task g i c s).0 ≡ ok t'
    → t' ≡ t
unfolding find_task map_err ◌>>=◌
find_task-eq-ok g i c s t t' e h = ground arith

find_player_state :
    (g : Game) (id : Uuid) (c : Context) (s : GameState) → (find_player g id c s).1 ≡ s
unfolding find_player ◌>>=◌
find_player_state g id c s = ground arith

validate_public-is_done :
    (id : Uuid) (i : ℕ) (code : String) (result : SandboxResponse) (t : GameTask)
    (p : PartialClient) (c : Context) (s : GameState) (r : CompilationResponse)
    → (validate_public id i code result t p c s).0 ≡ ok r
    → (r.is_done ≡ true) ↔ (
        (result.success ≡ true) × Agree t.public_test_cases result.stdout × PrivatePass c id code t)
unfolding validate_public ◌>>=◌
validate_public-is_done id i code result t p c s r e =
    elim (Option-cases (judge_public t.public_test_cases 0 result.stdout [] [])) [
      | inl over ↦ (
        λ d. absurd (ground arith),
        λ q. absurd (ground (arith, Agree-judge_public t.public_test_cases result.stdout q.1)),
      )
      | inr ((fin, fail), judged) ↦
          let agree = judge_public-Agree t.public_test_cases result.stdout judged in
          let private = validate_private-is_done id i code t p (passing_report 0 fin) c s {r = r} in
          (
            λ d. (ground arith, agree.0 (ground arith), (private (ground arith)).0 d),
            λ q. (private (ground (arith, agree.1 q.1))).1 q.2,
          )
    ]

-- The decision about a submission to `task`, as a statement about the response `r`.
abbrev pub Decides :
    Context → Uuid → String → SandboxResponse → GameTask → CompilationResponse → Type 0
Decides c client_id code result task r = (r.is_done ≡ true) ↔ (
    (result.success ≡ true)
    × Agree task.public_test_cases result.stdout
    × PrivatePass c client_id code task)

module _ (id : Uuid) (i : ℕ) (code : String) (result : SandboxResponse) (task : GameTask)
    (c : Context) (s : GameState) (r : CompilationResponse) where
  after_player :
      ((find_player s.game id >>= λ p. validate_public id i code result task p) c s).0 ≡ ok r
      → Decides c id code result task r
  after_player returned =
      let (p, found, rest) = bind-eq-ok (find_player s.game id) _ c s returned in
      validate_public-is_done id i code result task p c s r (rw find_player_state at rest)

  after_task :
      get_elem? s.game.tasks i ≡ some task
      → ((find_task s.game i >>= λ t.
            find_player s.game id >>= λ p. validate_public id i code result t p)
          c s).0
        ≡ ok r
      → Decides c id code result task r
  after_task at returned =
      let (t, found, rest) = bind-eq-ok (find_task s.game i) _ c s returned in
      after_player (rw (find_task_state, find_task-eq-ok s.game i c s task t at found) at rest)

-- A validation that returns says "done" exactly when the run succeeded, every public test has the
-- output that it expects, and the sandbox, asked in turn, ran the code on the private tests with the
-- outputs that these expect.
pub validate_code_test-is_done :
    (client_id : Uuid) (task_index : ℕ) (code : String) (result : SandboxResponse) (task : GameTask)
    (c : Context) (s : GameState) (r : CompilationResponse)
    → get_elem? s.game.tasks task_index ≡ some task
    → (validate_code_test client_id task_index code result c s).0 ≡ ok r
    → Decides c client_id code result task r
unfolding validate_code_test
validate_code_test-is_done id i code result task c s r at returned =
    after_task id i code result task c s r at (unfold gets ◌>>=◌ in returned)
