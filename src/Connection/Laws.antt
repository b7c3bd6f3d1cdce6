-- ===== src/Connection/Laws.antt =====
-- Two ends of a connection: a socket that could not be registered, and a message that took too long.
use grass.Prelude.{
  String, ◌≡◌, refl, ◌∙◌, Bool, true, false, none, some, List, [], ◌∷◌, arith, ==_refl,
}
use grass.Prelude.HashMap.{HashMap}
use grass.Models.Task.{Uuid}
use grass.Models.Error.{ClientError}
use grass.Models.Default.{Payload, new_model, respond}
use grass.Models.Response.{DefaultModel, ResponseData, ResponseOpCode}
use grass.Models.Wire.{to_string}
use grass.State.{World, Context, SocketClient, SocketSender, PartialClient, Game, text, Outgoing}
use grass.Exec.{ok, panicked, ◌>>=◌, unwrap, ignore, expect, attempt, map_err, pure}
use grass.Exec.Services.{send, pool_get}
use grass.Exec.Sockets.{with_get, with_get_mut, set_socket, await}
use grass.Game.Delivery.{push}
use grass.Game.Delivery.Frame.{sockets-push, closed-push}
use grass.Game.Invariant.{IsValid}
use grass.Game.Members.Drop.{dropped, drop_game-host, sockets-dropped}
use grass.Client.{
  new_socket_client, on_open, register_socket, drop_client, send_model, send_raw, with_client,
  reply,
}
use grass.Connection.{
  time_out, on_model, cut_off, read_loop, spawn, remove_socket, open_connection, close_connection,
  accept_connection,
}

close_connection-missing :
    (id : Uuid) (s : SocketClient) (c : Context) (w : World)
    → c.held ≡ []
    → w.sockets id ≡ none
    → close_connection id s c w ≡ (panicked, w)
unfolding close_connection with_get_mut ◌>>=◌
close_connection-missing id s c w free empty = rw (free, empty, unwrap) refl

open_connection-unregistered :
    (id : Uuid) (s : SocketClient) (fs : List Bool) (c : Context) (w : World)
    → c.held ≡ []
    → ((x : World) → c.elsewhere x ≡ some x)
    → w.sockets id ≡ none
    → s.game ≡ none
    → s.performed_safe_shutdown ≡ false
    → (w.channels s.send_channel).closed ≡ false
    → w.redis.faults ≡ true ∷ fs
    → ((open_connection id s c w).0 ≡ ok tt) × ((open_connection id s c w).1.sockets id ≡ none)
unfolding open_connection remove_socket with_get with_get_mut set_socket on_open register_socket
    pool_get drop_client send_model send_raw send expect attempt ignore map_err await ◌>>=◌
open_connection-unregistered id s fs c w free alone empty idle unsafe open_ fault =
    rw
      (
        free,
        empty,
        alone,
        alone,
        ==_refl id,
        unwrap,
        open_,
        alone,
        ==_refl id,
        fault,
        alone,
        alone,
        ==_refl id,
      )
      (ground (arith, ==_refl id, ==_refl s.send_channel))

module _ (id : Uuid) (addr : String) (k : SocketSender) (fs : List Bool) (c : Context)
    (w : World) where
  -- A socket whose registration gets no connection to Redis is taken out of the map again, and the task
  -- of a connection that says nothing more then panics. The id is new, the channel is open, no guard is
  -- held and no other task runs in between.
  pub accept_connection-unregistered :
      c.held ≡ []
      → ((x : World) → c.elsewhere x ≡ some x)
      → w.sockets id ≡ none
      → (w.channels k).closed ≡ false
      → w.redis.faults ≡ true ∷ fs
      → ((accept_connection id addr k [] c w).0 ≡ panicked)
        × ((accept_connection id addr k [] c w).1.sockets id ≡ none)
  unfolding accept_connection read_loop spawn pure ◌>>=◌
  accept_connection-unregistered free alone empty open_ fault =
      let s = new_socket_client id addr k in
      let (opened, gone) =
        open_connection-unregistered id s fs c w free alone empty refl refl open_ fault in
      rw (opened, close_connection-missing id s c (open_connection id s c w).1 free gone)
        (refl, gone)

-- What a client is sent when its message took too long: the answer, and, by the clone that is dropped,
-- the notice of a disconnection.
abbrev pub notified : SocketClient → DefaultModel String → World → World
notified s model w =
    push s.send_channel (text (to_string (new_model Payload.forced_disconnection))) (
      push s.send_channel
        (text (to_string (respond (ResponseData.timeout model) ResponseOpCode.timeout))) w)

module _ (k : SocketSender) (m : Outgoing) (w : World) where
  faults-push : (push k m w).redis.faults ≡ w.redis.faults
  unfolding push
  faults-push = ground arith

send_model-push :
    (s : SocketClient) (m : DefaultModel Payload) (c : Context) (w : World)
    → (w.channels s.send_channel).closed ≡ false
    → send_model s m c w ≡ (ok tt, push s.send_channel (text (to_string m)) w)
unfolding send_model send_raw send push map_err
send_model-push s m c w open_ = rw open_ refl

module _ (s : SocketClient) (model : DefaultModel String) (c : Context) (w : World) (g : Game)
    (clients : HashMap PartialClient) (playing : s.game ≡ some g)
    (live : s.performed_safe_shutdown ≡ false) (open_ : (w.channels s.send_channel).closed ≡ false)
    (healthy : w.redis.faults ≡ []) (v : IsValid g) (host : g.is_host ≡ true)
    (some_clients : g.connected_clients ≡ some clients) where
  abbrev notice : Outgoing
  notice = text (to_string (new_model Payload.forced_disconnection))

  drop_client-host :
      drop_client {E = ClientError} s c w
      ≡ (ok tt, dropped g clients (push s.send_channel notice w))
  unfolding drop_client ignore ◌>>=◌
  drop_client-host = ground (
    arith,
    send_model-push s (new_model Payload.forced_disconnection) c w open_,
    drop_game-host {E = ClientError} g clients c (push s.send_channel notice w) v host some_clients
        (faults-push s.send_channel notice w ∙ healthy),
  )

with_client-pure :
    (id : Uuid) (c : Context) (w : World) (s : SocketClient)
    → c.held ≡ []
    → w.sockets id ≡ some s
    → with_client id pure c w ≡ (ok s, w)
unfolding with_client with_get pure ◌>>=◌
with_client-pure id c w s free here = rw (free, here, unwrap) refl

module _ (id : Uuid) (done : World → World) (model : DefaultModel String) (c : Context) (w : World)
    (s : SocketClient) (g : Game) (clients : HashMap PartialClient) where
  -- When the message of a host takes too long, the connection stays open and every socket stays as the
  -- handler had left it, so that the host still holds its game; but the client is told that it was
  -- disconnected, and the game is shut down: its players are told, and it leaves Redis. The game is valid,
  -- the host's channel is open, no guard is held and Redis is in order.
  pub on_model-cut_off :
      c.held ≡ []
      → (done w).sockets id ≡ some s
      → s.game ≡ some g
      → s.performed_safe_shutdown ≡ false
      → ((done w).channels s.send_channel).closed ≡ false
      → (done w).redis.faults ≡ []
      → IsValid g
      → g.is_host ≡ true
      → g.connected_clients ≡ some clients
      → (on_model id (cut_off done) model c w
          ≡ (ok false, dropped g clients (notified s model (done w))))
        × ((on_model id (cut_off done) model c w).1.sockets ≡ (done w).sockets)
  unfolding on_model time_out reply attempt ◌>>=◌
  on_model-cut_off free here playing live open_ healthy v host some_clients =
      let told = respond (ResponseData.timeout model) ResponseOpCode.timeout in
      let first = push s.send_channel (text (to_string told)) (done w) in
      let shut =
        drop_client-host s model c first g clients playing live
          (closed-push s.send_channel (text (to_string told)) (done w) s.send_channel ∙ open_)
          (faults-push s.send_channel (text (to_string told)) (done w) ∙ healthy) v host
          some_clients in
      let same = sockets-dropped g clients (notified s model (done w)) in
      rw (with_client-pure id c (done w) s free here, send_model-push s told c (done w) open_, shut)
        (
          refl,
          same
              ∙ sockets-push s.send_channel
                  (text (to_string (new_model Payload.forced_disconnection))) first
              ∙ sockets-push s.send_channel (text (to_string told)) (done w),
        )
