-- ===== src/Game/Messages.antt =====
-- What a game sends: `PartialClient::send_message` and `Game::send_global`, with the constructors of
-- both structs and the two guards that the other methods start with.
use grass.Prelude.{
  ℕ, String, Bool, true, false, Option, none, some, List, [], ◌∷◌, ◌==◌, ◌||◌, get_elem?,
  if◌then◌else◌,
}
use grass.Prelude.HashMap.{HashMap}
use grass.Models.Task.{Uuid, GameTask}
use grass.Models.Error.{BoxError, client, not_game_host, internal_server_error}
use grass.Models.Default.{Payload}
use grass.Models.Response.{DefaultModel}
use grass.Models.Wire.{to_string}
use grass.State.{World, Game, GameState, PartialClient, SocketSender, text}
use grass.Exec.{Exec, pure, raise, gets, or_raise, unwrap, ignore, ◌>>=◌, ◌>>◌}
use grass.Exec.Services.{send}
use grass.Exec.Sockets.{lift}

-- `PartialClient::new`
abbrev pub new_partial_client : Uuid → String → String → Bool → Option SocketSender → PartialClient
new_partial_client id nickname shard_id is_local write_channel = record {
  id = id;
  nickname = nickname;
  shard_id = shard_id;
  is_local = is_local;
  write_channel = write_channel;
  task_progress = none;
}

-- `Game::new`
abbrev pub new_game : Bool → String → PartialClient → PartialClient → Game
new_game is_host game_id partial_client partial_host = record {
  partial_client = partial_client;
  is_host = is_host;
  game_id = game_id;
  partial_host = partial_host;
  connected_clients = if is_host then some [] else none;
  shutdown = false;
  is_started = false;
  public = true;
  tasks = [];
}

-- `PartialClient::send_message`
unfoldable pub send_message : PartialClient → DefaultModel Payload → Exec World BoxError (Unit {0})
send_message p message =
    if p.is_local
    then (do channel ← unwrap p.write_channel; send channel (text (to_string message)))
    else pure tt

-- `Game::is_host`
unfoldable pub check_host : Game → Exec GameState BoxError (Unit {0})
check_host g =
    if g.is_host then pure tt else raise (client (not_game_host "Client is not the game host"))

-- `Game::get_task_indexed`
unfoldable pub get_task_indexed : {S : Type 0} → Game → ℕ → Exec S (Option (Unit {0})) GameTask
get_task_indexed g index =
    if g.is_started then or_raise (some tt) (get_elem? g.tasks index) else raise none

abbrev pub contains : List Uuid → Uuid → Bool
contains [] id = false
contains (x ∷ xs) id = x == id || contains xs id

abbrev pub skipped : Option (List Uuid) → Uuid → Bool
skipped none id = false
skipped (some ids) id = contains ids id

-- The loop of `send_global` over the connected clients; an error is logged and passed over.
unfoldable pub send_clients :
    HashMap PartialClient
    → Option (List Uuid)
    → DefaultModel Payload
    → Exec World BoxError (Unit {0})
send_clients [] skip message = pure tt
send_clients ((id, p) ∷ rest) skip message = do
  if skipped skip id then pure tt else ignore (send_message p message)
  send_clients rest skip message

-- `Game::send_global`
unfoldable pub send_global :
    DefaultModel Payload → Option (List Uuid) → Exec GameState BoxError (Unit {0})
send_global message skip = do
  g ← gets (λ s. s.game)
  check_host g
  clients ← or_raise (client (internal_server_error "not host")) g.connected_clients
  lift (send_clients clients skip message)
  if skipped skip g.partial_host.id then pure tt else lift (send_message g.partial_host message)
