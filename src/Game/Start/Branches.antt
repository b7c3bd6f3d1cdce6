-- ===== src/Game/Start/Branches.antt =====
-- `Game::start` on every branch, against a description by cases.
use grass.Prelude.{
  ℕ, ◌≡◌, true, none, some, length, ◌==◌, arith, if◌then◌else◌, Bool-cases, inl, inr, ◌∙◌,
}
use grass.Prelude.HashMap.{HashMap}
use grass.Models.Error.{BoxError, client, game_already_started, internal_server_error}
use grass.Models.Event.{Event}
use grass.Models.Default.{event}
use grass.State.{GameState, PartialClient, Context}
use grass.Exec.{Outcome, ok, err}
use grass.Game.Delivery.{broadcast}
use grass.Game.Invariant.{IsValid}
use grass.Game.Progress.{with_progress, all_with_progress}
use grass.Game.Start.{start}
use grass.Game.Start.Laws.{chosen, opened, started, start_lem, start_again, start_short}

module _ (n : ℕ) (c : Context) (s : GameState) (clients : HashMap PartialClient) where
  -- The game has started, and everybody knows.
  abbrev pub begun : GameState
  begun = record {
    game = started c n clients s.game;
    world =
        broadcast (all_with_progress (chosen c n) clients)
          (with_progress (chosen c n) s.game.partial_host) none (event (Event.start n)) s.world;
  }

  -- What a start does to a game with these clients.
  abbrev pub start_cases : Outcome BoxError (Unit {0}) × GameState
  start_cases =
      if s.game.is_started
      then (err (client game_already_started), s)
      else if length (chosen c n) == n
      then (ok tt, begun)
      else (
        err (
            client (
              internal_server_error
                "Internal server error, requested task count could not be filled")),
        record s { game = opened c n s.game },
      )

  -- A start of a host's valid game: one that has started is refused and left as it is; with enough tasks
  -- the game is closed, has the tasks and fresh tables, and everybody is told; with too few it fails,
  -- and yet the game counts as started and is closed.
  pub start-start_cases :
      IsValid s.game
      → s.game.is_host ≡ true
      → s.game.connected_clients ≡ some clients
      → start n c s ≡ start_cases
  start-start_cases v host some_clients = elim (Bool-cases s.game.is_started) [
    | inl on ↦ start_again n c s host on ∙ (simp on)
    | inr idle ↦ elim (Bool-cases (length (chosen c n) == n)) [
      | inl enough ↦
          start_lem n c s host clients v idle some_clients (ground arith) ∙ (simp (idle, enough))
      | inr few ↦ start_short n c s host idle (ground arith) ∙ (simp (idle, few))
    ]
  ]
