-- ===== src/Playing/Room.antt =====
-- What a host's game promises, with no tables, channels or order: who is in it, whether it is open, started, played or
-- over, which tasks it has, and which of them the host has done.
pub mod Laws
use grass.Prelude.{
  ℕ, String, Bool, true, false, Option, none, some, List, [], ◌∷◌, ◌==◌, ◌&&◌, ◌||◌, not, is_some,
  length, get_elem?, if◌then◌else◌,
}
use grass.Prelude.HashMap.{HashMap, get}
use grass.Models.Task.{Uuid, GameTask}
use grass.State.{Context, World, Game, PartialClient, SandboxResponse}
use grass.Game.CodeTest.Accepts.{task_accepts}
use grass.Game.Start.Laws.{chosen}
use grass.Playing.{
  Call, to_register, to_unregister, to_shutdown, to_start, to_prepare, to_validate, Turn,
}
use grass.Playing.Marks.{is_done_by}

pub record Room : Type 0 where
  pub members : Uuid → Bool
  pub is_open : Bool
  pub is_started : Bool
  -- The players have tables of progress.
  pub is_played : Bool
  pub is_over : Bool
  pub tasks : List GameTask
  pub done : ℕ → Bool

abbrev pub has_client : Option (HashMap PartialClient) → Uuid → Bool
has_client none id = false
has_client (some clients) id = is_some (get clients id)

abbrev pub room : Game → Room
room g = record {
  members = has_client g.connected_clients;
  is_open = g.public;
  is_started = g.is_started;
  is_played = is_some g.partial_host.task_progress;
  is_over = g.shutdown;
  tasks = g.tasks;
  done = is_done_by g.partial_host;
}

abbrev pub admitted : Uuid → Room → Room
admitted id r = if r.is_open then record r { members = λ j. id == j || r.members j } else r

abbrev pub expelled : Uuid → Room → Room
expelled id r = record r { members = λ j. not (id == j) && r.members j }

abbrev pub emptied : Room → Room
emptied r = record r { members = λ j. false; is_over = true }

-- The first start closes the room; the room is then played if enough tasks were chosen.
abbrev pub begun : ℕ → List GameTask → Room → Room
begun n tasks r =
    if r.is_started
    then r
    else if length tasks == n
    then record r {
      is_open = false;
      is_started = true;
      is_played = true;
      tasks = tasks;
      done = λ i. false;
    }
    else record r { is_open = false; is_started = true; tasks = tasks }

abbrev pub credited : ℕ → Bool → Room → Room
credited i accepted r =
    if r.is_played && accepted then record r { done = λ k. i == k || r.done k } else r

-- What a call makes of the room.
abbrev pub act : Call → Context → Room → Room
act (to_register p) c r = admitted p.id r
act (to_unregister id) c r = expelled id r
act to_shutdown c r = emptied r
act (to_start n) c r = begun n (chosen c n) r
act (to_prepare i) c r = r
act (to_validate id i code result) c r =
    credited i (task_accepts c id code result (get_elem? r.tasks i)) r

-- What happens in the worlds between the calls plays no part.
abbrev pub acts : List Turn → Room → Room
acts [] r = r
acts ((c, w, call) ∷ turns) r = acts turns (act call c r)

abbrev pub empty_room : Room
empty_room = record {
  members = λ id. false;
  is_open = true;
  is_started = false;
  is_played = false;
  is_over = false;
  tasks = [];
  done = λ i. false;
}
