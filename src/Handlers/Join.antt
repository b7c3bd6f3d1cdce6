-- ===== src/Handlers/Join.antt =====
-- `RequestOpCode::Join`. The handler holds no guard between its parts, so other tasks run there.
pub mod Laws
pub mod Enter
pub mod Together
pub mod Race
use grass.Prelude.{String, Bool, true, false, Option, none, some, is_some, str_eq, if◌then◌else◌}
use grass.Models.Task.{Uuid}
use grass.Models.Request.{JoinRequest}
use grass.Models.Error.{
  ClientError, already_in_game, client_not_identified, internal_server_error, no_game_was_found,
  no_data_with_op_code, client_does_not_exist, parsing_error,
}
use grass.Models.Response.{ResponseData, ResponseOpCode}
use grass.State.{World, SocketClient, SocketSender, PartialClient}
use grass.Exec.{
  Exec, pure, raise, asks, unwrap, or_raise, map_err, ignore, expect, attempt, ◌>>=◌, ◌>>◌,
}
use grass.Exec.Services.{pool_get, redis_get, redis_set, redis_del, game_key}
use grass.Exec.Sockets.{with_get_mut, with_game, await}
use grass.Game.Messages.{new_partial_client, new_game}
use grass.Game.Members.{register}
use grass.Client.{refuse, reply, with_client, with_client_mut, assign_game}

-- What the first part hands on: the text of the game in Redis, and the client's name and channel.
pub record Applicant : Type 0 where
  pub game : String
  pub nickname : String
  pub channel : SocketSender

abbrev pub fetched : SocketClient → String → Option String → Exec World ClientError Applicant
fetched client nickname none = refuse client no_game_was_found
fetched client nickname (some game) =
    pure (record { game = game; nickname = nickname; channel = client.send_channel })

abbrev pub connected :
    SocketClient → String → String → Option (Unit {0}) → Exec World ClientError Applicant
connected client nickname game_id none =
    refuse client (internal_server_error "Internal Server Error")
connected client nickname game_id (some _) = do
  redis_game ← attempt (redis_get (game_key game_id))
  fetched client nickname redis_game

-- The client must have a name; then Redis is asked for the game.
unfoldable pub fetch_game : SocketClient → String → Option String → Exec World ClientError Applicant
fetch_game client game_id none = refuse client client_not_identified
fetch_game client game_id (some nickname) = do
  conn ← attempt pool_get
  connected client nickname game_id conn

-- The block that looks at the client.
unfoldable pub admit : String → SocketClient → Exec World ClientError Applicant
admit game_id client =
    if is_some client.game
    then refuse client (already_in_game "Client is already in a game")
    else fetch_game client game_id client.nickname

unfoldable pub answer : String → Bool → Bool → SocketClient → Exec World ClientError (Unit {0})
answer game_id is_host success client =
    reply client (ResponseData.join game_id is_host success) ResponseOpCode.join

-- Nobody hosts the game yet: the client does.
unfoldable pub join_as_host : Uuid → String → Exec World ClientError (Unit {0})
join_as_host client_id game_id = do
  c ← asks (λ c. c)
  map_err (λ _. internal_server_error "Internal cache error")
      (redis_set (game_key game_id)
        (c.serde.redis_game_text (record { shard_id = c.shard_id; host_id = client_id })))
  await
  with_client_mut client_id (λ client. do
    nickname ← unwrap client.nickname
    let self = new_partial_client client.id nickname c.shard_id true (some client.send_channel)
    assign_game client_id client (new_game true game_id self self)
    answer game_id true true client)

-- What the host's side hands on.
pub record Hosted : Type 0 where
  pub accepted : Bool
  pub nickname : String
  pub channel : SocketSender

-- The host is on this shard: the client is registered in the host's game.
unfoldable pub ask_host :
    String → PartialClient → Uuid → Option SocketClient → Exec World ClientError Hosted
ask_host game_id newcomer host_id none = do
  ignore (redis_del (game_key game_id))
  raise (client_does_not_exist "Socket client does not exist")
ask_host game_id newcomer host_id (some host) = do
  nickname ← unwrap host.nickname
  if is_some host.game
      then (do
        -- `register` itself never returns an error of the box
        accepted ← map_err (λ _. ClientError.send_error) (with_game host_id (register newcomer))
        pure (record {
          accepted = is_some accepted;
          nickname = nickname;
          channel = host.send_channel;
        }))
      else (do
        ignore (redis_del (game_key game_id))
        raise (internal_server_error "Host was not in the game, could not join it."))

-- The client's side, once the host has answered.
unfoldable pub enter_game :
    Uuid → String → Applicant → Uuid → Hosted → Exec World ClientError (Unit {0})
enter_game client_id game_id applicant host_id hosted = do
  shard_id ← asks (λ c. c.shard_id)
  with_client_mut client_id (λ client.
      if hosted.accepted
      then (do
        assign_game client_id client (
            new_game false game_id
              (new_partial_client client.id applicant.nickname shard_id true
                (some client.send_channel))
              (new_partial_client host_id hosted.nickname shard_id true (some hosted.channel)))
        answer game_id false true client)
      else answer game_id false false client)

-- The game is another shard's.
unfoldable pub join_elsewhere : Uuid → String → Exec World ClientError (Unit {0})
join_elsewhere client_id game_id = do
  expect pool_get
  map_err (λ _. internal_server_error "Game was corrupt") (redis_del game_id)
  await
  with_client client_id (λ client. answer game_id false false client)
  raise no_game_was_found

-- Somebody hosts the game.
unfoldable pub join_hosted : Uuid → String → Applicant → Exec World ClientError (Unit {0})
join_hosted client_id game_id applicant = do
  c ← asks (λ c. c)
  redis_game ←
      or_raise (internal_server_error "Failed to parse game") (c.serde.redis_game applicant.game)
  if str_eq redis_game.shard_id c.shard_id
      then (do
        hosted ← with_get_mut redis_game.host_id (
            ask_host game_id
              (new_partial_client client_id applicant.nickname c.shard_id true
                (some applicant.channel))
              redis_game.host_id)
        await
        enter_game client_id game_id applicant redis_game.host_id hosted)
      else join_elsewhere client_id game_id

unfoldable pub join_game : Uuid → JoinRequest → Exec World ClientError (Unit {0})
join_game client_id request = do
  applicant ← with_client client_id (admit request.game_id)
  await
  if str_eq applicant.game ""
      then join_as_host client_id request.game_id
      else join_hosted client_id request.game_id applicant

unfoldable pub handle_join : Uuid → Option String → Exec World ClientError (Unit {0})
handle_join client_id none = raise (no_data_with_op_code "No data was sent with join request")
handle_join client_id (some d) = do
  serde ← asks (λ c. c.serde)
  request ← or_raise parsing_error (serde.join_request d)
  join_game client_id request
