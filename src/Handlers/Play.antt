-- ===== src/Handlers/Play.antt =====
-- `RequestOpCode::Leave`, `Start` and `Task`.
pub mod Laws
pub mod Starting
pub mod Tasks
use grass.Prelude.{ℕ, String, not, Option, none, some, if◌then◌else◌}
use grass.Models.Task.{Uuid}
use grass.Models.Error.{
  ClientError, not_in_game, not_game_host, internal_server_error, out_of_range_task,
  game_not_started,
}
use grass.Models.Response.{ResponseData, ResponseOpCode}
use grass.State.{World, Game, SocketClient}
use grass.Exec.{Exec, map_err, on_err, ◌>>=◌, ◌>>◌}
use grass.Exec.Sockets.{with_get, with_game, set_socket}
use grass.Game.Messages.{get_task_indexed}
use grass.Game.Members.{drop_game}
use grass.Game.Start.{start}
use grass.Client.{refuse, reply, with_client, with_client_mut}
use grass.Handlers.Parse.{parse}

unfoldable pub no_game : {A : Type 0} → SocketClient → Exec World ClientError A
no_game client = refuse client (not_in_game "Client was not in a game")

-- `drop(client.game.take().unwrap())`
unfoldable pub take_game : Uuid → SocketClient → Game → Exec World ClientError (Unit {0})
take_game client_id client game = do
  set_socket client_id (some (record client { game = none }))
  drop_game game

unfoldable pub leave : Uuid → SocketClient → Option Game → Exec World ClientError (Unit {0})
leave client_id client none = no_game client
leave client_id client (some game) = take_game client_id client game

unfoldable pub handle_leave : Uuid → Exec World ClientError (Unit {0})
handle_leave client_id = with_client_mut client_id (λ client. leave client_id client client.game)

unfoldable pub start_game :
    Uuid → Option String → SocketClient → Option Game → Exec World ClientError (Unit {0})
start_game client_id d client none = no_game client
start_game client_id d client (some game) =
    if not game.is_host
    then (do
      take_game client_id client game
      refuse client (not_game_host "Client was not the game host"))
    else do
      request ← parse (λ s. s.start_request) d
      map_err (λ _. ClientError.send_error) (with_game client_id (start request.task_count))

unfoldable pub handle_start : Uuid → Option String → Exec World ClientError (Unit {0})
handle_start client_id d =
    with_client_mut client_id (λ client. start_game client_id d client client.game)

abbrev pub task_error : Option (Unit {0}) → ClientError
task_error (some _) = out_of_range_task
task_error none = game_not_started

unfoldable pub game_task : SocketClient → ℕ → Option Game → Exec World ClientError (Unit {0})
game_task client task_index none =
    refuse client (internal_server_error "Host was not in the same game")
game_task client task_index (some game) = do
  task ← on_err (get_task_indexed game task_index) (λ e. refuse client (task_error e))
  reply client (ResponseData.task task) ResponseOpCode.task

-- The host's game gives the task.
unfoldable pub host_task :
    SocketClient → ℕ → Option SocketClient → Exec World ClientError (Unit {0})
host_task client task_index none = refuse client (internal_server_error "Host does not exist")
host_task client task_index (some host) = game_task client task_index host.game

unfoldable pub find_game_task :
    Option String → SocketClient → Option Game → Exec World ClientError (Unit {0})
find_game_task d client none = no_game client
find_game_task d client (some game) = do
  request ← parse (λ s. s.task_request) d
  with_get game.partial_host.id (host_task client request.task_index)

unfoldable pub handle_task : Uuid → Option String → Exec World ClientError (Unit {0})
handle_task client_id d = with_client client_id (λ client. find_game_task d client client.game)
