-- ===== src/Game/Members.antt =====
-- Who is in a game: `Game::register`, `Game::unregister`, `Game::shutdown`, and `Drop for Game`.
pub mod Laws
pub mod Drop
pub mod Round
pub mod Welcome
pub mod Branches
use grass.Prelude.{true, Option, none, some, [], ◌∷◌, not, ◌||◌, is_some, if◌then◌else◌}
use grass.Prelude.HashMap.{HashMap}
use grass.Prelude.HashMap
use grass.Models.Task.{Uuid}
use grass.Models.Error.{BoxError}
use grass.Models.Event.{Event}
use grass.Models.Response.{ResponseData, ResponseOpCode}
use grass.Models.Default.{event, respond}
use grass.State.{World, Game, GameState, PartialClient, SocketClient}
use grass.Exec.{Exec, pure, gets, modify, unwrap, ignore, expect, ◌>>=◌, ◌>>◌}
use grass.Exec.Services.{pool_get, redis_del, game_key}
use grass.Exec.Sockets.{lift, with_get_mut, with_game, run_method}
use grass.Game.Messages.{send_message, check_host, send_global}

abbrev set_clients : HashMap PartialClient → GameState → GameState
set_clients m s = record s { game = record (s.game) { connected_clients = some m } }

-- The loop of `register`: the clients that are there, told to the new one.
unfoldable pub introduce :
    Game → PartialClient → HashMap PartialClient → Exec World BoxError (Unit {0})
introduce g new_client [] = pure tt
introduce g new_client ((id, p) ∷ rest) = do
  ignore (send_message new_client (event (Event.connected_client g.game_id id p.nickname)))
  introduce g new_client rest

-- `Game::register`
unfoldable pub register : PartialClient → Exec GameState BoxError (Option (Unit {0}))
register partial_client = do
  g ← gets (λ s. s.game)
  if not g.is_host || not g.public then pure none else do
    clients ← unwrap g.connected_clients
    lift (introduce g partial_client clients)
    ignore (
        lift (
          send_message partial_client
            (event (Event.connected_client g.game_id g.partial_host.id g.partial_host.nickname))))
    ignore (
        send_global
          (event (Event.connected_client g.game_id partial_client.id partial_client.nickname)) none)
    modify (set_clients (HashMap.insert clients partial_client.id partial_client))
    pure (some tt)

-- `Game::unregister`
unfoldable pub unregister : Uuid → Exec GameState BoxError (Unit {0})
unregister client_id = do
  g ← gets (λ s. s.game)
  if not g.is_host then pure tt else do
    clients ← unwrap g.connected_clients
    modify (set_clients (HashMap.remove clients client_id))
    if is_some (HashMap.get clients client_id)
        then ignore (send_global (event (Event.disconnected_client g.game_id client_id)) none)
        else pure tt

-- The loop of `shutdown` over the connected clients.
unfoldable pub dismiss : HashMap PartialClient → Exec World BoxError (Unit {0})
dismiss [] = pure tt
dismiss ((id, p) ∷ rest) = do ignore (send_message p (event Event.shutdown)); dismiss rest

abbrev close_game : GameState → GameState
close_game s = record s { game = record (s.game) { connected_clients = some []; shutdown = true } }

-- `Game::shutdown`
unfoldable pub shutdown : Exec GameState BoxError (Unit {0})
shutdown = do
  g ← gets (λ s. s.game)
  check_host g
  clients ← unwrap g.connected_clients
  lift (dismiss clients)
  modify close_game
  lift pool_get
  lift (redis_del (game_key g.game_id))
  lift (send_message g.partial_host (respond (ResponseData.shutdown true) ResponseOpCode.shutdown))

-- The call of `unregister` in `drop`, on the game of the host.
abbrev pub leave_host : Uuid → Uuid → Option SocketClient → Exec World BoxError (Unit {0})
leave_host host_id client_id none = pure tt
leave_host host_id client_id (some host) =
    if is_some host.game then with_game host_id (unregister client_id) else pure tt

-- `Drop for Game`
unfoldable pub drop_game : {E : Type 0} → Game → Exec World E (Unit {0})
drop_game g =
    if g.is_host
    then (do
      ignore (run_method g shutdown)
      expect pool_get
      expect (redis_del (game_key g.game_id)))
    else if g.partial_host.is_local
    then (do
      expect (with_get_mut g.partial_host.id (leave_host g.partial_host.id g.partial_client.id))
      ignore
          (send_message g.partial_client (respond (ResponseData.leave true) ResponseOpCode.leave)))
    else pure tt
