-- ===== src/Tests.antt =====
-- A small shard on which the theorems are tried: client 1 hosts a game with client 2, and client 3 waits.
mod Games
mod Lobby
mod Shard
mod Runs
mod Joins
mod Races
mod Plays
mod Starts
mod Requests
mod Ends
mod Locks
mod Orders
use grass.Prelude.{
  ℕ, zero, suc, String, Bool, true, false, Option, none, some, List, [], ◌∷◌, ◌==◌, str_eq,
  if◌then◌else◌, refl,
}
use grass.Models.Task.{Uuid, TestCase, GameTask}
use grass.Models.Request.{Request, RequestOpCode}
use grass.Models.Response.{DefaultModel, OpCode}
use grass.State.{
  Context, Serde, Game, GameState, PartialClient, SocketClient, World, Channel, SandboxResponse,
  RedisGame,
}
use grass.Game.Messages.{new_partial_client, new_game}
use grass.Game.Invariant.{IsValid}
use grass.Game.Progress.{with_progress, all_with_progress, fresh_progress}

abbrev pub double_two : TestCase
double_two = record { stdin = "2"; expected = "4"; id = 7 }

abbrev pub double_three : TestCase
double_three = record { stdin = "3"; expected = "6"; id = 8 }

abbrev pub doubling : GameTask
doubling = record {
  task_id = 5;
  question = "Double the number.";
  public_test_cases = double_two ∷ [];
  private_test_cases = double_three ∷ [];
}

abbrev pub run_public : SandboxResponse
run_public = record { success = true; stdout = "4\n" ∷ []; stderr = [] }

abbrev pub run_private : SandboxResponse
run_private = record { success = true; stdout = "6" ∷ []; stderr = [] }

abbrev take : List GameTask → ℕ → List GameTask
take ts zero = []
take [] (suc n) = []
take (t ∷ ts) (suc n) = t ∷ take ts n

abbrev pub serde : Serde
serde = record {
  default_model = λ t. some (record { op = OpCode.request; d = some t });
  request = λ t. some (record { d = some t; op = RequestOpCode.join });
  join_request = λ t. some (record { game_id = t });
  start_request = λ t. some (record { task_count = 1 });
  task_request = λ t. some (record { task_index = 0 });
  compile_request = λ t. some (record { code = t; task_index = 0 });
  identify_request = λ t. some (record { nickname = t });
  create_request = λ t. some tt;
  exists_request = λ t. some (record { game_id = t });
  redis_game = λ t. some (record { shard_id = t; host_id = 1 });
  redis_game_text = λ g. g.shard_id;
}

-- A shard on which nothing else runs.
abbrev pub shard : Context
shard = record {
  shard_id = "north";
  available_tasks = doubling ∷ [];
  choose_multiple = take;
  nanoid = "fresh";
  uuid_text = λ id. "player";
  sandbox = λ r. some run_private;
  serde = serde;
  lock_of = λ id. id;
  held = [];
  queued = λ k. false;
  elsewhere = λ w. some w;
}

abbrev pub player : ℕ → PartialClient
player id = new_partial_client id "player" "north" true (some id)

-- Client 1's game, open, with client 2 in it.
abbrev pub lobby : Game
lobby = record (new_game true "fun" (player 1) (player 1)) {
  connected_clients = some ((2, player 2) ∷ []);
}

-- The same game once it has started.
abbrev pub running : Game
running = record lobby {
  connected_clients = some (all_with_progress (doubling ∷ []) ((2, player 2) ∷ []));
  partial_host = record (player 1) { task_progress = some ((0, false) ∷ []) };
  is_started = true;
  public = false;
  tasks = doubling ∷ [];
}

abbrev pub socket : ℕ → Option Game → SocketClient
socket id game = record {
  id = id;
  addr = "peer";
  send_channel = id;
  game = game;
  nickname = some "player";
  performed_safe_shutdown = false;
}

-- What client 2 holds of the game.
abbrev pub guest_game : Game
guest_game = new_game false "fun" (player 2) (player 1)

abbrev sockets_of : Game → ℕ → Option SocketClient
sockets_of g id =
    if id == 1
    then some (socket 1 (some g))
    else if id == 2
    then some (socket 2 (some guest_game))
    else if id == 3
    then some (socket 3 none)
    else none

abbrev entries : String → Option String
entries key =
    if str_eq key "GAME:fun"
    then some "north"
    else if str_eq key "GAME:new"
    then some ""
    else if str_eq key "GAME:far"
    then some "south"
    else none

abbrev pub world : Game → World
world g = record {
  sockets = sockets_of g;
  channels = λ k. record { closed = false; accepted = [] };
  redis = record { entries = entries; faults = [] };
  clock = 0;
}

abbrev pub in_lobby : GameState
in_lobby = record { game = lobby; world = world lobby }

abbrev pub in_game : GameState
in_game = record { game = running; world = world running }

pub lobby-IsValid : IsValid lobby
lobby-IsValid = record {
  hosting = refl;
  host_wired = refl;
  self_wired = refl;
  members = ((refl, refl), tt);
  closed = refl;
}

pub running-IsValid : IsValid running
running-IsValid = record {
  hosting = refl;
  host_wired = refl;
  self_wired = refl;
  members = ((refl, refl), tt);
  closed = refl;
}
