-- ===== src/Handlers/Play/Starting.antt =====
-- A request to start a game, as its host sends it, with no guard held before.
use grass.Prelude.{String, ◌≡◌, refl, ◌∙◌, true, some, []}
use grass.Prelude.HashMap.{HashMap}
use grass.Models.Task.{Uuid}
use grass.Models.Request.{StartRequest}
use grass.Models.Error.{ClientError, BoxError}
use grass.State.{World, Context, SocketClient, PartialClient, Game, GameState, update, write}
use grass.Exec.{Outcome, ◌>>=◌, unwrap, or_raise, map_err, outcome_map_err}
use grass.Exec.Sockets.{with_get_mut, with_game, hold}
use grass.Game.Invariant.{IsValid}
use grass.Game.Start.{start}
use grass.Game.Start.Branches.{start_cases, start-start_cases}
use grass.Client.{with_client_mut}
use grass.Handlers.Parse.{parse}
use grass.Handlers.Play.{start_game, handle_start}

-- The outcome of a method for the client, and the world with the game back in its socket.
abbrev pub settle :
    Uuid
    → SocketClient
    → Outcome BoxError (Unit {0}) × GameState
    → Outcome ClientError (Unit {0}) × World
settle id s x = (
  outcome_map_err (λ e. ClientError.send_error) x.0,
  record (x.1.world) {
    sockets = update x.1.world.sockets id (some (record s { game = some x.1.game }));
  },
)

module _ (id : Uuid) (d : String) (r : StartRequest) (c : Context) (w : World) (s : SocketClient)
    (g : Game) (clients : HashMap PartialClient) (free : c.held ≡ []) (here : w.sockets id ≡ some s)
    (playing : s.game ≡ some g) (host : g.is_host ≡ true)
    (parsed : c.serde.start_request d ≡ some r) where
  request_step :
      handle_start id (some d) c w
      ≡ map_err
          (λ e. ClientError.send_error)
          (with_game id (start r.task_count))
          (hold c (some s) (write (c.lock_of id)))
          w
  unfolding handle_start with_client_mut with_get_mut start_game parse ◌>>=◌
  request_step = rw (free, here, unwrap, playing, host, parsed, or_raise) refl

  -- A host that asks, with no guard held before, for its valid game to start has it started, refused or
  -- spoilt as `start_cases` says; the game stays in its socket, and every error reaches the reader as a
  -- failure to send.
  pub handle_start_lem :
      IsValid g
      → g.connected_clients ≡ some clients
      → handle_start id (some d) c w
        ≡ settle id s (
            start_cases r.task_count
              (hold c (some s) (write (c.lock_of id)))
              (record { game = g; world = w })
              clients)
  unfolding with_game map_err
  handle_start_lem v some_clients =
      let run =
        start-start_cases r.task_count (hold c (some s) (write (c.lock_of id)))
          (record { game = g; world = w }) clients v host some_clients in
      request_step ∙ rw (here, playing, run) refl
