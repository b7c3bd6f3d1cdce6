-- ===== src/Game/Members/Laws.antt =====
-- What joining, leaving and closing a game do, wherever local players have channels.
use grass.Prelude.{
  String, ◌≡◌, refl, true, false, none, some, [], ◌∷◌, ◌&&◌, is_some, arith, if◌then◌else◌, ◌∙◌,
}
use grass.Prelude.HashMap.{HashMap, get, insert, remove}
use grass.Models.Task.{Uuid}
use grass.Models.Error.{BoxError}
use grass.Models.Event.{Event}
use grass.Models.Response.{DefaultModel, ResponseData, ResponseOpCode}
use grass.Models.Default.{Payload, event, respond}
use grass.State.{World, Game, GameState, PartialClient, Context, update_key}
use grass.Exec.{ok, ◌>>=◌, ignore}
use grass.Exec.Services.{pool_get, redis_del, game_key}
use grass.Exec.Sockets.{lift}
use grass.Game.Messages.{check_host}
use grass.Game.Delivery.{
  IsWired, AllWired, deliver, broadcast, send_message-deliver, send_global-broadcast,
}
use grass.Game.Invariant.{IsValid, IsMember, All-remove, IsValid-IsWired, AllWired_of_Members}
use grass.Game.Members.{register, unregister, shutdown, introduce, dismiss}

-- The event that says that a player is in a game.
abbrev pub joined : Game → Uuid → String → DefaultModel Payload
joined g id nickname = event (Event.connected_client g.game_id id nickname)

-- A newcomer is told of every client.
unfoldable pub introduce_all : Game → PartialClient → HashMap PartialClient → World → World
introduce_all g p [] w = w
introduce_all g p ((id, q) ∷ rest) w = introduce_all g p rest (deliver p (joined g id q.nickname) w)

introduce-introduce_all :
    (g : Game) (p : PartialClient) (clients : HashMap PartialClient) (c : Context) (w : World)
    → IsWired p
    → introduce g p clients c w ≡ (ok tt, introduce_all g p clients w)
unfolding introduce introduce_all ◌>>=◌
introduce-introduce_all g p [] c w h = refl
introduce-introduce_all g p ((id, q) ∷ rest) c w h = ground (
  arith,
  send_message-deliver {F = BoxError} c p (joined g id q.nickname) w h,
  introduce-introduce_all g p rest c (deliver p (joined g id q.nickname) w) h,
)

-- Everything that a registration sends: the players to the newcomer, then the newcomer to the players.
abbrev pub welcome : Game → PartialClient → HashMap PartialClient → World → World
welcome g p clients w =
    broadcast clients g.partial_host none (joined g p.id p.nickname)
      (deliver p (joined g g.partial_host.id g.partial_host.nickname) (introduce_all g p clients w))

abbrev pub with_clients : HashMap PartialClient → Game → Game
with_clients m g = record g { connected_clients = some m }

-- A valid open game of a host takes in a client that has a channel if it is local: the newcomer is told of everybody, everybody is told of
-- the newcomer, and the newcomer is then one of the clients.
pub register_lem :
    (p : PartialClient) (c : Context) (s : GameState) (clients : HashMap PartialClient)
    → IsValid s.game
    → s.game.is_host ≡ true
    → s.game.public ≡ true
    → s.game.connected_clients ≡ some clients
    → IsWired p
    → register p c s ≡ (
      ok (some tt),
      record {
        game = with_clients (insert clients p.id p) s.game;
        world = welcome s.game p clients s.world;
      },
    )
unfolding register lift ignore ◌>>=◌
register_lem p c s clients v host open_ some_clients wired = ground (
  arith,
  introduce-introduce_all s.game p clients c s.world wired,
  send_message-deliver {F = BoxError} c p
      (joined s.game s.game.partial_host.id s.game.partial_host.nickname)
      (introduce_all s.game p clients s.world) wired,
  send_global-broadcast {F = BoxError} c (joined s.game p.id p.nickname) none
      (record s {
        world =
            deliver p (joined s.game s.game.partial_host.id s.game.partial_host.nickname)
              (introduce_all s.game p clients s.world);
      })
      clients host some_clients (IsValid-IsWired v some_clients) v.host_wired,
)

-- A game that is not its host's, or no longer public, takes nobody in and sends nothing.
pub register_refused :
    (p : PartialClient) (c : Context) (s : GameState)
    → (s.game.is_host && s.game.public) ≡ false
    → register p c s ≡ (ok none, s)
unfolding register ◌>>=◌
register_refused p c s h = ground arith

-- A client that leaves a host's valid game is taken out of the table, and the players who remain are told; of an id that
-- is no client nobody hears.
pub unregister_lem :
    (id : Uuid) (c : Context) (s : GameState) (clients : HashMap PartialClient)
    → IsValid s.game
    → s.game.is_host ≡ true
    → s.game.connected_clients ≡ some clients
    → unregister id c s ≡ (
      ok tt,
      record {
        game = with_clients (remove clients id) s.game;
        world =
            if is_some (get clients id)
            then broadcast
                (remove clients id)
                s.game.partial_host
                none
                (event (Event.disconnected_client s.game.game_id id))
                s.world
            else s.world;
      },
    )
unfolding unregister ignore ◌>>=◌
unregister_lem id c s clients v host some_clients = ground (
  arith,
  send_global-broadcast {F = BoxError} c (event (Event.disconnected_client s.game.game_id id)) none
      (record s { game = with_clients (remove clients id) s.game }) (remove clients id) host refl
      (AllWired_of_Members (remove clients id)
        (All-remove IsMember clients id (rw some_clients at v.members)))
      v.host_wired,
)

-- Every client is sent the event.
unfoldable pub dismiss_all : HashMap PartialClient → World → World
dismiss_all [] w = w
dismiss_all ((id, p) ∷ rest) w = dismiss_all rest (deliver p (event Event.shutdown) w)

pub dismiss-dismiss_all :
    (clients : HashMap PartialClient) (c : Context) (w : World)
    → AllWired clients
    → dismiss clients c w ≡ (ok tt, dismiss_all clients w)
unfolding dismiss dismiss_all ◌>>=◌
dismiss-dismiss_all [] c w h = refl
dismiss-dismiss_all ((id, p) ∷ rest) c w h = ground (
  arith,
  send_message-deliver {F = BoxError} c p (event Event.shutdown) w h.0,
  dismiss-dismiss_all rest c (deliver p (event Event.shutdown) w) h.1,
)

abbrev pub forget : String → World → World
forget id w = record w {
  redis = record { entries = update_key w.redis.entries (game_key id) none; faults = [] };
}

abbrev pub goodbye : DefaultModel Payload
goodbye = respond (ResponseData.shutdown true) ResponseOpCode.shutdown

pub redis-deliver :
    (p : PartialClient) (m : DefaultModel Payload) (w : World) → (deliver p m w).redis ≡ w.redis
unfolding deliver
redis-deliver p m w = ground arith

pub redis-dismiss_all :
    (clients : HashMap PartialClient) (w : World) → (dismiss_all clients w).redis ≡ w.redis
unfolding dismiss_all
redis-dismiss_all [] w = refl
redis-dismiss_all ((id, p) ∷ rest) w =
    redis-dismiss_all rest (deliver p (event Event.shutdown) w)
    ∙ redis-deliver p (event Event.shutdown) w

-- With Redis in order, a shutdown of a host's valid game tells every client, empties the table, takes the game out of Redis,
-- and sends the host the last message.
pub shutdown_lem :
    (c : Context) (s : GameState) (clients : HashMap PartialClient)
    → IsValid s.game
    → s.game.is_host ≡ true
    → s.game.connected_clients ≡ some clients
    → s.world.redis.faults ≡ []
    → ignore {F = BoxError} shutdown c s ≡ (
      ok tt,
      record {
        game = record (with_clients [] s.game) { shutdown = true };
        world =
            deliver s.game.partial_host goodbye
              (forget s.game.game_id (dismiss_all clients s.world));
      },
    )
unfolding shutdown check_host pool_get redis_del lift ignore ◌>>=◌
shutdown_lem c s clients v host some_clients healthy = ground (
  arith,
  dismiss-dismiss_all clients c s.world (IsValid-IsWired v some_clients),
  redis-dismiss_all clients s.world,
  send_message-deliver {F = BoxError} c s.game.partial_host goodbye
      (forget s.game.game_id (dismiss_all clients s.world)) v.host_wired,
)
