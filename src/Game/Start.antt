-- ===== src/Game/Start.antt =====
-- `Game::start`.
pub mod Laws
pub mod Branches
use grass.Prelude.{ℕ, true, false, none, some, List, ◌==◌, not, length, if◌then◌else◌}
use grass.Models.Task.{GameTask}
use grass.Models.Error.{BoxError, client, game_already_started, internal_server_error}
use grass.Models.Event.{Event}
use grass.Models.Default.{event}
use grass.State.{GameState, PartialClient}
use grass.Prelude.HashMap.{HashMap}
use grass.Exec.{Exec, raise, asks, gets, modify, unwrap, ignore, ◌>>=◌, ◌>>◌}
use grass.Game.Messages.{check_host, send_global}
use grass.Game.Progress.{with_progress, all_with_progress}

abbrev open_game : List GameTask → GameState → GameState
open_game tasks s = record s {
  game = record (s.game) { public = false; is_started = true; tasks = tasks };
}

abbrev hand_out : List GameTask → HashMap PartialClient → GameState → GameState
hand_out tasks clients s = record s {
  game = record (s.game) {
    connected_clients = some (all_with_progress tasks clients);
    partial_host = with_progress tasks s.game.partial_host;
  };
}

unfoldable pub start : ℕ → Exec GameState BoxError (Unit {0})
start task_count = do
  g ← gets (λ s. s.game)
  check_host g
  if g.is_started then raise (client game_already_started) else do
    tasks ← asks (λ c. c.choose_multiple c.available_tasks task_count)
    modify (open_game tasks)
    if not (length tasks == task_count)
        then raise (
            client (
              internal_server_error
                "Internal server error, requested task count could not be filled"))
        else do
          clients ← unwrap g.connected_clients
          modify (hand_out tasks clients)
          ignore (send_global (event (Event.start task_count)) none)
