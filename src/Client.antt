-- ===== src/Client.antt =====
-- `SocketClient` (src/service/websocket/client.rs): what a socket sends, how it is opened, closed, registered
-- in Redis, and dropped.
use grass.Prelude.{String, true, false, Option, none, some, if◌then◌else◌}
use grass.Models.Task.{Uuid}
use grass.Models.Error.{ClientError, BoxError}
use grass.Models.Response.{DefaultModel, ResponseData, ResponseOpCode}
use grass.Models.Default.{Payload, new_model, respond}
use grass.Models.Wire.{to_string}
use grass.State.{World, Game, SocketClient, SocketSender, Outgoing, text}
use grass.Exec.{Exec, pure, raise, asks, unwrap, map_err, ignore, expect, ◌>>=◌, ◌>>◌}
use grass.Exec.Services.{send, pool_get, redis_set, redis_del, user_key}
use grass.Exec.Sockets.{with_get, with_get_mut, set_socket}
use grass.Game.Members.{drop_game}

-- `SocketClient::new`
abbrev pub new_socket_client : Uuid → String → SocketSender → SocketClient
new_socket_client id addr send_channel = record {
  id = id;
  addr = addr;
  send_channel = send_channel;
  game = none;
  nickname = none;
  performed_safe_shutdown = false;
}

-- `SocketClient::send`
unfoldable pub send_raw : SocketClient → Outgoing → Exec World ClientError (Unit {0})
send_raw client message = map_err (λ _. ClientError.send_error) (send client.send_channel message)

-- `SocketClient::send_model`
unfoldable pub send_model : SocketClient → DefaultModel Payload → Exec World ClientError (Unit {0})
send_model client default = send_raw client (text (to_string default))

-- `SocketClient::send_error`
unfoldable pub report_error : SocketClient → ClientError → Exec World ClientError (Unit {0})
report_error client e = send_model client (new_model (Payload.error e))

-- `let _ = client.send_error(e).await; return Err(e);`
unfoldable pub refuse : {A : Type 0} → SocketClient → ClientError → Exec World ClientError A
refuse client e = do ignore (report_error client e); raise e

-- `client.send_model(DefaultModel::new(Response::new(Some(d), op)))`
unfoldable pub reply :
    SocketClient → ResponseData → ResponseOpCode → Exec World ClientError (Unit {0})
reply client d op = send_model client (respond d op)

module _ {A : Type 0} where
  -- `sockets.get(&id).unwrap()`
  unfoldable pub with_client :
      Uuid → (SocketClient → Exec World ClientError A) → Exec World ClientError A
  with_client id body = with_get id (λ o. do client ← unwrap o; body client)

  -- `sockets.get_mut(&id).unwrap()`
  unfoldable pub with_client_mut :
      Uuid → (SocketClient → Exec World ClientError A) → Exec World ClientError A
  with_client_mut id body = with_get_mut id (λ o. do client ← unwrap o; body client)

abbrev pub drop_option : {E : Type 0} → Option Game → Exec World E (Unit {0})
drop_option none = pure tt
drop_option (some g) = drop_game g

-- `client.game = Some(g)`: what stood there is dropped.
unfoldable pub assign_game : Uuid → SocketClient → Game → Exec World ClientError (Unit {0})
assign_game id client g = do
  drop_option client.game
  set_socket id (some (record client { game = some g }))

-- `Drop for SocketClient`, and then its fields.
unfoldable pub drop_client : {E : Type 0} → SocketClient → Exec World E (Unit {0})
drop_client client = do
  if client.performed_safe_shutdown
      then pure tt
      else ignore (send_model client (new_model Payload.forced_disconnection))
  drop_option client.game

-- `SocketClient::on_open`
unfoldable pub on_open : {E : Type 0} → SocketClient → Exec World E (Unit {0})
on_open client = expect (send_model client (new_model (Payload.hello client.id)))

-- `SocketClient::on_close`, of the socket behind the guard.
unfoldable pub on_close : {E : Type 0} → Uuid → SocketClient → Exec World E (Unit {0})
on_close id client = do
  set_socket id (some (record client { performed_safe_shutdown = true; game = none }))
  drop_option client.game

-- `SocketClient::register`
unfoldable pub register_socket : SocketClient → Exec World BoxError (Unit {0})
register_socket client = do
  pool_get
  c ← asks (λ c. c)
  redis_set (user_key (c.uuid_text client.id)) c.shard_id

-- `SocketClient::unregister`
unfoldable pub unregister_socket : SocketClient → Exec World BoxError (Unit {0})
unregister_socket client = do
  pool_get
  c ← asks (λ c. c)
  redis_del (user_key (c.uuid_text client.id))
