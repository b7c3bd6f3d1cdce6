-- ===== src/Connection.antt =====
-- The life of a socket: `SocketClient::on_message` (src/service/websocket/client.rs) and
-- `accept_connection` (src/service/websocket.rs). The tasks that read and write run one after another here:
-- the reader is a list of what the peer sends, and the writer is the channel.
pub mod Laws
pub mod Writer
pub mod Missing
pub mod Handshake
use grass.Prelude.{
  String, Bool, true, false, Option, none, some, List, [], ◌∷◌, is_some, if◌then◌else◌,
}
use grass.Models.Task.{Uuid}
use grass.Models.Error.{ClientError, invalid_message, send_error}
use grass.Models.Response.{DefaultModel, ResponseData, ResponseOpCode}
use grass.State.{World, SocketClient, SocketSender, Message, text, binary, ping, pong, close}
use grass.Exec.{
  Exec, Outcome, ok, err, panicked, deadlocked, suspended, pure, raise, asks, modify, unwrap,
  map_err, ignore, attempt, ◌>>=◌, ◌>>◌,
}
use grass.Exec.Sockets.{with_get, with_get_mut, set_socket, await}
use grass.Client.{
  new_socket_client, send_raw, send_model, report_error, reply, with_client, drop_option,
  drop_client, on_open, on_close, register_socket, unregister_socket,
}
use grass.Handlers.Dispatch.{handle_message}

-- How `tokio::time::timeout` ends: the handler is done, or it is cut off at some await, with what it has
-- done by then.
pub data Timing : Type 0 where
  in_time : Timing
  cut_off : (World → World) → Timing

-- The handler did not finish: a clone of the client sends the notice, and is dropped.
unfoldable pub time_out : Uuid → DefaultModel String → Exec World ClientError Bool
time_out client_id model = do
  client ← with_client client_id pure
  sent ← attempt (reply client (ResponseData.timeout model) ResponseOpCode.timeout)
  drop_client client
  if is_some sent then pure false else raise ClientError.send_error

unfoldable pub on_model : Uuid → Timing → DefaultModel String → Exec World ClientError Bool
on_model client_id in_time model = do
  handled ← attempt (handle_message client_id model)
  pure (if is_some handled then false else true)
on_model client_id (cut_off done) model = do modify done; time_out client_id model

unfoldable pub on_text : Uuid → Timing → Option (DefaultModel String) → Exec World ClientError Bool
on_text client_id timing none = do
  with_client client_id (λ client.
      map_err (λ _. ClientError.send_error)
        (report_error client (invalid_message "Invalid model, closing connection.")))
  pure true
on_text client_id timing (some model) = on_model client_id timing model

-- `SocketClient::on_message`: whether the connection should close.
unfoldable pub on_message : Uuid → Timing → Message String → Exec World ClientError Bool
on_message client_id timing (text t) = do
  serde ← asks (λ c. c.serde)
  on_text client_id timing (serde.default_model t)
on_message client_id timing (binary b) = pure false
on_message client_id timing (ping b) = do
  with_client client_id (λ client. send_raw client (pong b))
  pure false
on_message client_id timing (pong b) = do
  with_client client_id (λ client. send_raw client (ping b))
  pure false
on_message client_id timing close = pure true

abbrev pub is_close : Message String → Bool
is_close close = true
is_close (text t) = false
is_close (binary b) = false
is_close (ping b) = false
is_close (pong b) = false

-- The reader's loop: close messages are filtered out, an error is logged, and a request to close ends it.
unfoldable pub read_loop : Uuid → List (Message String × Timing) → Exec World ClientError (Unit {0})
read_loop client_id [] = pure tt
read_loop client_id ((message, timing) ∷ rest) =
    let later = read_loop client_id rest in
    if is_close message then later else do
      should_close ← attempt (on_message client_id timing message)
      elim should_close [ some true ↦ pure tt | some false ↦ later | none ↦ later ]

module _ {E A : Type 0} where
  abbrev pub joined : Outcome E A → Outcome E (Unit {0})
  joined (ok a) = ok tt
  joined (err e) = ok tt
  joined panicked = ok tt
  joined deadlocked = deadlocked
  joined suspended = suspended

module _ {S E A : Type 0} where
  -- The end of a spawned task, a panic included.
  unfoldable pub spawn : Exec S E A → Exec S E (Unit {0})
  spawn m c s = let (r, s') = m c s in (joined r, s')

-- `sockets.remove(&id)`: what stood there is dropped.
unfoldable pub remove_socket : Uuid → Exec World ClientError (Unit {0})
remove_socket id = do
  removed ← with_get_mut id (λ o. do set_socket id none; pure o)
  await
  elim removed [ none ↦ pure tt | some client ↦ drop_client client ]

-- From `sockets.insert` to the registration in Redis.
unfoldable pub open_connection : Uuid → SocketClient → Exec World ClientError (Unit {0})
open_connection id client = do
  old ← with_get_mut id (λ o. do set_socket id (some client); pure o)
  await
  elim old [ none ↦ pure tt | some o ↦ drop_client o ]
  await
  with_get_mut id (λ o. do s ← unwrap o; on_open s)
  await
  registered ← with_get id (λ o. do s ← unwrap o; attempt (register_socket s))
  await
  if is_some registered then pure tt else remove_socket id

-- From the end of the reader to the end of `accept_connection`, where the local `client` is dropped.
unfoldable pub close_connection : Uuid → SocketClient → Exec World ClientError (Unit {0})
close_connection id client = do
  with_get_mut id (λ o. do s ← unwrap o; on_close id s)
  await
  with_get id (λ o. do s ← unwrap o; ignore (unregister_socket s))
  await
  remove_socket id
  await
  drop_client client

-- `accept_connection`, from the handshake on.
unfoldable pub accept_connection :
    Uuid
    → String
    → SocketSender
    → List (Message String × Timing)
    → Exec World ClientError (Unit {0})
accept_connection id addr sender messages = do
  open_connection id (new_socket_client id addr sender)
  spawn (read_loop id messages)
  close_connection id (new_socket_client id addr sender)
