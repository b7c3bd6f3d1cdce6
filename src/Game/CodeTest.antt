-- ===== src/Game/CodeTest.antt =====
-- `Game::prepare_code_test`, `compile_code`, `run_code_test` and `validate_code_test`.
pub mod Laws
pub mod Record
pub mod Ends
pub mod Accepts
use Prim.Native.String.{◌++◌ as ◌<>◌}
use grass.Prelude.{
  ℕ, String, Bool, true, false, none, some, List, [], ◌∷◌, ◌==◌, not, map, length, if◌then◌else◌,
}
use grass.Prelude.HashMap
use grass.Prelude.HashMap.{HashMap}
use grass.Models.Task.{Uuid, TestCase, GameTask}
use grass.Models.Error.{
  BoxError, ClientError, client, client_does_not_exist, internal_server_error, out_of_range_task,
}
use grass.Models.Event.{Event}
use grass.Models.Response.{CompilationResponse, PublicTestProgress}
use grass.Models.Default.{event}
use grass.State.{Game, GameState, PartialClient, SandboxResponse}
use grass.Exec.{Exec, pure, asks, gets, modify, or_raise, unwrap, map_err, ignore, ◌>>=◌, ◌>>◌}
use grass.Game.Messages.{check_host, get_task_indexed, send_global}
use grass.Game.Judge.{judge_public, judge_private, failing_report, passing_report, first_line}

abbrev pub join_lines : List String → String
join_lines [] = ""
join_lines (s ∷ ss) = s <> join_lines ss

-- The tests' inputs, as they are gathered for the sandbox.
abbrev pub gather_stdin : List TestCase → List String
gather_stdin = map (λ t. t.stdin)

unfoldable pub find_task : Game → ℕ → Exec GameState BoxError GameTask
unfolding get_task_indexed
find_task g task_index = map_err (λ _. client out_of_range_task) (get_task_indexed g task_index)

-- `Game::prepare_code_test`
unfoldable pub prepare_code_test : ℕ → Exec GameState BoxError (List String)
prepare_code_test task_index = do
  g ← gets (λ s. s.game)
  check_host g
  task ← find_task g task_index
  pure (gather_stdin task.public_test_cases)

-- `Game::compile_code`: the service is the context's.
unfoldable pub compile_code :
    {S : Type 0} → Uuid → String → List String → Exec S ClientError SandboxResponse
compile_code client_id code stdin = do
  answer ←
      asks (λ c. c.sandbox (record { user_id = c.uuid_text client_id; code = code; stdin = stdin }))
  or_raise (internal_server_error "internal compilation error") answer

-- `Game::run_code_test`
unfoldable pub run_code_test :
    {S : Type 0} → Uuid → String → List String → Exec S BoxError SandboxResponse
run_code_test client_id code gathered_stdin =
    map_err client (compile_code client_id code gathered_stdin)

-- The borrow of the player whose progress is kept: `connected_client` in the source.
unfoldable pub find_player : Game → Uuid → Exec GameState BoxError PartialClient
find_player g client_id =
    if not g.is_host
    then (do
      clients ← unwrap g.connected_clients
      or_raise (client (client_does_not_exist "Client does not exist in the game"))
          (HashMap.get clients client_id))
    else pure g.partial_host

abbrev pub store_player : Uuid → PartialClient → Game → Game
store_player client_id p g =
    if not g.is_host
    then record g {
      connected_clients = elim g.connected_clients [
        | none ↦ none
        | some m ↦ some (HashMap.insert m client_id p)
      ];
    }
    else record g { partial_host = p }

abbrev pub finish_task : ℕ → HashMap Bool → PartialClient → PartialClient
finish_task task_index m p = record p { task_progress = some (HashMap.insert m task_index true) }

-- A response that is not the last one: nothing is recorded.
abbrev pub unfinished : ℕ → List PublicTestProgress → Bool → String → CompilationResponse
unfinished task_index progress public_done stderr = record {
  task_index = task_index;
  public_test_progress = progress;
  is_done = false;
  is_done_public_tests = public_done;
  is_done_private_tests = false;
  stderr = stderr;
}

abbrev pub finished : ℕ → List PublicTestProgress → CompilationResponse
finished task_index progress = record {
  task_index = task_index;
  public_test_progress = progress;
  is_done = true;
  is_done_public_tests = true;
  is_done_private_tests = true;
  stderr = "";
}

mismatch : BoxError
mismatch = client (internal_server_error "task response length mismatch")

-- The end of `validate_code_test`: the task is set as finished, and the game is told.
unfoldable pub record_success :
    Uuid
    → ℕ
    → GameTask
    → PartialClient
    → List PublicTestProgress
    → Exec GameState BoxError CompilationResponse
record_success client_id task_index task player report = do
  progress ← unwrap player.task_progress
  modify (λ s. record s {
    game = store_player client_id (finish_task task_index progress player) s.game;
  })
  ignore
      (send_global (event (Event.task_finished task task_index client_id)) (some (client_id ∷ [])))
  pure (finished task_index report)

-- The part of `validate_code_test` after the public tests have passed.
unfoldable pub validate_private :
    Uuid
    → ℕ
    → String
    → GameTask
    → PartialClient
    → List PublicTestProgress
    → Exec GameState BoxError CompilationResponse
unfolding mismatch
validate_private client_id task_index code task player report = do
  result ← map_err client (compile_code client_id code (gather_stdin task.private_test_cases))
  if not result.success
      then pure (unfinished task_index report true (join_lines result.stderr))
      else do
        passed ← or_raise mismatch (judge_private task.private_test_cases 0 result.stdout [])
        if not (length passed == length task.private_test_cases)
            then pure (unfinished task_index report true (first_line result.stderr))
            else record_success client_id task_index task player report

-- The part of `validate_code_test` after the task and the player are found.
unfoldable pub validate_public :
    Uuid
    → ℕ
    → String
    → SandboxResponse
    → GameTask
    → PartialClient
    → Exec GameState BoxError CompilationResponse
unfolding mismatch
validate_public client_id task_index code result task player =
    if not result.success
    then pure (unfinished task_index [] false (join_lines result.stderr))
    else do
      judged ← or_raise mismatch (judge_public task.public_test_cases 0 result.stdout [] [])
      if not (length judged.0 == length task.public_test_cases)
          then pure (
              unfinished task_index (failing_report judged.0 judged.1) false
                (first_line result.stderr))
          else validate_private client_id task_index code task player (passing_report 0 judged.0)

-- `Game::validate_code_test`
unfoldable pub validate_code_test :
    Uuid → ℕ → String → SandboxResponse → Exec GameState BoxError CompilationResponse
validate_code_test client_id task_index code result = do
  g ← gets (λ s. s.game)
  task ← find_task g task_index
  player ← find_player g client_id
  validate_public client_id task_index code result task player
