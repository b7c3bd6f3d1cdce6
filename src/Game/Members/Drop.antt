-- ===== src/Game/Members/Drop.antt =====
-- `Drop for Game` where the game is its host's.
use grass.Prelude.{◌≡◌, refl, ap, ◌∙◌, true, some, [], ◌∷◌, arith}
use grass.Prelude.HashMap.{HashMap}
use grass.Models.Event.{Event}
use grass.Models.Default.{event}
use grass.State.{World, Context, Game, PartialClient}
use grass.Exec.{ok, ◌>>=◌, ignore, expect}
use grass.Exec.Services.{pool_get, redis_del, game_key}
use grass.Exec.Sockets.{run_method}
use grass.Game.Delivery.{deliver}
use grass.Game.Delivery.Frame.{sockets-deliver}
use grass.Game.Invariant.{IsValid}
use grass.Game.Members.{drop_game, shutdown}
use grass.Game.Members.Laws.{shutdown_lem, goodbye, forget, dismiss_all, redis-deliver}

-- The world once a valid game has been dropped by its host, with Redis in order.
abbrev pub dropped : Game → HashMap PartialClient → World → World
dropped g clients w =
    forget g.game_id (deliver g.partial_host goodbye (forget g.game_id (dismiss_all clients w)))

module _ {E : Type 0} (g : Game) (clients : HashMap PartialClient) (c : Context) (w : World)
    (v : IsValid g) (host : g.is_host ≡ true) (some_clients : g.connected_clients ≡ some clients)
    (healthy : w.redis.faults ≡ []) where
  run_shutdown :
      ignore {F = E} (run_method g shutdown) c w
      ≡ (ok tt, deliver g.partial_host goodbye (forget g.game_id (dismiss_all clients w)))
  unfolding run_method ignore
  run_shutdown =
      ground
        (arith, shutdown_lem c (record { game = g; world = w }) clients v host some_clients healthy)

  after_shutdown :
      (v : World)
      → v.redis.faults ≡ []
      → (expect {F = E} pool_get >>= λ _. expect {F = E} (redis_del (game_key g.game_id))) c v
        ≡ (ok tt, forget g.game_id v)
  unfolding pool_get redis_del expect ◌>>=◌
  after_shutdown v sound = ground arith

  -- When a host's valid game is dropped, with Redis in order, its clients are told that it is shut down,
  -- it leaves Redis and the host is told; the drop does not fail.
  pub drop_game-host : drop_game {E = E} g c w ≡ (ok tt, dropped g clients w)
  unfolding drop_game ◌>>=◌
  drop_game-host = ground (
    arith,
    run_shutdown,
    after_shutdown (deliver g.partial_host goodbye (forget g.game_id (dismiss_all clients w))) (
        ap (λ r. r.faults)
          (redis-deliver g.partial_host goodbye (forget g.game_id (dismiss_all clients w)))),
  )

sockets-dismiss_all :
    (clients : HashMap PartialClient) (w : World) → (dismiss_all clients w).sockets ≡ w.sockets
unfolding dismiss_all
sockets-dismiss_all [] w = refl
sockets-dismiss_all ((id, p) ∷ rest) w =
    sockets-dismiss_all rest (deliver p (event Event.shutdown) w)
    ∙ sockets-deliver p (event Event.shutdown) w

pub sockets-dropped :
    (g : Game) (clients : HashMap PartialClient) (w : World)
    → (dropped g clients w).sockets ≡ w.sockets
sockets-dropped g clients w =
    sockets-deliver g.partial_host goodbye (forget g.game_id (dismiss_all clients w))
    ∙ sockets-dismiss_all clients w
