-- ===== src/Handlers/Compile.antt =====
-- `RequestOpCode::Compile`. While the sandbox works no guard is held, and other tasks run.
pub mod Laws
use grass.Prelude.{String, not, Option, none, some, if◌then◌else◌}
use grass.Models.Task.{Uuid}
use grass.Models.Error.{
  BoxError, ClientError, not_in_game, internal_server_error, compilation_error, game_not_started,
}
use grass.Models.Response.{ResponseData, ResponseOpCode}
use grass.Models.Request.{CompileRequest}
use grass.State.{Game, World, GameState, SocketClient}
use grass.Exec.{Exec, pure, raise, map_err, on_err, ◌>>=◌, ◌>>◌}
use grass.Exec.Sockets.{with_get_mut, with_game, await}
use grass.Game.CodeTest.{prepare_code_test, run_code_test, validate_code_test}
use grass.Client.{refuse, reply, with_client}
use grass.Handlers.Parse.{parse}

module _ {A : Type 0} (message : String) (method : Exec GameState BoxError A) where
  unfoldable pub at_game : Uuid → Option Game → Exec World ClientError A
  at_game host_id none = raise (internal_server_error "Host was not in the game")
  at_game host_id (some game) =
      if not game.is_started
      then raise game_not_started
      else map_err (λ _. compilation_error message) (with_game host_id method)

  -- A method of the host's game, under the host's guard; `message` is the error that hides its own.
  unfoldable pub at_host : Uuid → Option SocketClient → Exec World ClientError A
  at_host host_id none = raise (internal_server_error "Host does not exist")
  at_host host_id (some host) = at_game host_id host.game

  -- An error is sent to the client once the host's guard is gone.
  unfoldable pub ask_game : Uuid → Uuid → Exec World ClientError A
  ask_game client_id host_id =
      on_err (with_get_mut host_id (at_host host_id))
        (λ e. with_client client_id (λ client. refuse client e))

unfoldable pub host_of : SocketClient → Option Game → Exec World ClientError Uuid
host_of client none = refuse client (not_in_game "Client was not in a game")
host_of client (some game) = pure game.partial_host.id

unfoldable pub compile_and_validate :
    Uuid → Uuid → CompileRequest → Exec World ClientError (Unit {0})
compile_and_validate client_id host_id request = do
  stdin ← ask_game "Host was not host" (prepare_code_test request.task_index) client_id host_id
  result ←
      map_err (λ _. compilation_error "failed to compile")
        (run_code_test client_id request.code stdin)
  await
  response ←
      ask_game "Compilation failed"
        (validate_code_test client_id request.task_index request.code result) client_id host_id
  with_client client_id
      (λ client. reply client (ResponseData.compile response) ResponseOpCode.compile)

unfoldable pub handle_compile : Uuid → Option String → Exec World ClientError (Unit {0})
handle_compile client_id d = do
  host_id ← with_client client_id (λ client. host_of client client.game)
  request ← parse (λ s. s.compile_request) d
  await
  compile_and_validate client_id host_id request
