-- ===== src/Handlers/Lobby.antt =====
-- `RequestOpCode::Ping`, `Identify`, `Create` and `Exists`.
pub mod Laws
pub mod Exists
use grass.Prelude.{String, Bool, true, false, Option, none, some, is_some, str_eq, if◌then◌else◌}
use grass.Models.Task.{Uuid}
use grass.Models.Error.{ClientError, internal_server_error}
use grass.Models.Response.{ResponseData, ResponseOpCode}
use grass.State.{SocketClient, World}
use grass.Exec.{Exec, pure, asks, or_raise, map_err, ignore, attempt, ◌>>=◌, ◌>>◌}
use grass.Exec.Services.{pool_get, redis_get, redis_set, redis_del, game_key}
use grass.Exec.Sockets.{with_get, set_socket, await}
use grass.Client.{reply, with_client, with_client_mut}
use grass.Handlers.Parse.{parse}

unfoldable pub handle_ping : Uuid → Exec World ClientError (Unit {0})
handle_ping client_id =
    with_client client_id (λ client. reply client ResponseData.ping ResponseOpCode.ping)

unfoldable pub identify :
    Uuid → Option String → SocketClient → Option String → Exec World ClientError (Unit {0})
identify client_id d client none = do
  request ← parse (λ s. s.identify_request) d
  set_socket client_id (some (record client { nickname = some request.nickname }))
  reply client (ResponseData.identify true) ResponseOpCode.identify
identify client_id d client (some _) =
    reply client (ResponseData.identify false) ResponseOpCode.identify

unfoldable pub handle_identify : Uuid → Option String → Exec World ClientError (Unit {0})
handle_identify client_id d =
    with_client_mut client_id (λ client. identify client_id d client client.nickname)

cache_error : ClientError
cache_error = internal_server_error "Cache error"

unfoldable pub handle_create : Uuid → Option String → Exec World ClientError (Unit {0})
unfolding cache_error
handle_create client_id d = do
  request ← parse (λ s. s.create_request) d
  game_id ← asks (λ c. c.nanoid)
  map_err (λ _. cache_error) pool_get
  map_err (λ _. cache_error) (redis_set (game_key game_id) "")
  await
  with_client client_id (λ client. reply client (ResponseData.create game_id) ResponseOpCode.create)

-- Whether the game in Redis still has its host on this shard; if not it is removed.
unfoldable pub check_exists : String → Option String → Exec World ClientError Bool
check_exists game_id none = pure false
check_exists game_id (some game) = if str_eq game "" then pure true else do
  serde ← asks (λ c. c.serde)
  redis_game ← or_raise (internal_server_error "Failed to parse game") (serde.redis_game game)
  alive ← with_get redis_game.host_id (λ o. pure (is_some o))
  await
  if alive then pure true else do ignore (redis_del (game_key game_id)); pure false

unfoldable pub handle_exists : Uuid → Option String → Exec World ClientError (Unit {0})
unfolding cache_error
handle_exists client_id d = do
  request ← parse (λ s. s.exists_request) d
  map_err (λ _. cache_error) pool_get
  game ← attempt (redis_get (game_key request.game_id))
  await
  exists ← check_exists request.game_id game
  await
  with_client client_id (λ client. reply client (ResponseData.exists exists) ResponseOpCode.exists)
