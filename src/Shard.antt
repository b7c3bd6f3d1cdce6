-- ===== src/Shard.antt =====
-- A shard as a whole: the tasks that src/service/websocket.rs spawns for its connections, interleaved. A step
-- runs one task from where it stands to the next point where it gives way, or to its end.
pub mod Safety
pub mod Isolation
use grass.Prelude.{
  ℕ, String, Bool, true, false, ◌≡◌, Option, none, some, List, [], ◌∷◌, ◌++◌, if◌then◌else◌, ◌==◌,
  ◌+◌, length,
}
use grass.Models.Task.{Uuid}
use grass.Models.Error.{ClientError}
use grass.Models.Response.{DefaultModel}
use grass.State.{World, Context, Message, SocketSender, Channel}
use grass.Exec.{Exec, Outcome, ignore}
use grass.Client.{new_socket_client}
use grass.Connection.{in_time, on_message, time_out, open_connection, close_connection}

-- Nobody is connected and nothing has been sent; Redis may hold anything.
pub record IsFresh (w : World) : Type 0 where
  pub unconnected : (id : Uuid) → w.sockets id ≡ none
  pub unsent : (k : SocketSender) → (w.channels k).accepted ≡ []

-- What a connection does, in the parts that may run beside each other: it opens, handles a message, gives up
-- on a message whose handler was cut off, and closes.
pub data Task : Type 0 where
  opening : Uuid → String → SocketSender → Task
  handling : Uuid → Message String → Task
  timing_out : Uuid → DefaultModel String → Task
  closing : Uuid → String → SocketSender → Task

abbrev pub owner : Task → Uuid
owner (opening id addr k) = id
owner (handling id m) = id
owner (timing_out id model) = id
owner (closing id addr k) = id

unfoldable pub action : Task → Exec World ClientError (Unit {0})
action (opening id addr k) = open_connection id (new_socket_client id addr k)
action (handling id m) = ignore (on_message id in_time m)
action (timing_out id model) = ignore (time_out id model)
action (closing id addr k) = close_connection id (new_socket_client id addr k)

-- A task that has begun: its context, the world that it began in, and the worlds that it has gone on from
-- since, the first one first.
pub record Started : Type 0 where
  pub task : Task
  pub context : Context
  pub begun : World
  pub history : List World

-- The n-th world that a task goes on from, with the clock as it is then.
abbrev pub nth_world : List World → ℕ → ℕ → Option World
nth_world [] n now = none
nth_world (v ∷ vs) n now =
    let later = nth_world vs (n + 1) now in
    if n == now then some (record v { clock = n + 1 }) else later

-- The context of a task that holds no guard and, where it gives way, goes on from the worlds of its history
-- in turn, and stands still where there is none left.
abbrev pub replaying : Context → List World → Context
replaying c history = record c { held = []; elsewhere = λ w. nth_world history 0 w.clock }

-- The task as far as it has come, from its beginning.
abbrev pub so_far : Started → Outcome ClientError (Unit {0}) × World
so_far s = action s.task (replaying s.context s.history) (record (s.begun) { clock = 0 })

-- The task has gone on from every world of its history, as it does when it stood still where it gives way
-- before the last of them came. One that had ended by then, or waits for ever, has not.
abbrev pub IsResumed : Started → Type 0
IsResumed s = (so_far s).1.clock ≡ length s.history

abbrev pub goes_on_from : World → Started → Started
goes_on_from w s = record s { history = s.history ++ (w ∷ []) }

-- The shard: what its tasks share, and the tasks that have begun.
pub record Shard : Type 0 where
  pub world : World
  pub tasks : List Started

-- The tasks take turns in any order: one begins, or one that has given way goes on, from the world as it is
-- then. One that is never chosen again was cut off there.
pub data Step : Shard → Shard → Type 0 where
  begins :
      (ts : List Started) (s : Started)
      → s.history ≡ []
      → Step
          (record { world = s.begun; tasks = ts })
          (record { world = (so_far s).1; tasks = s ∷ ts })
  goes_on :
      (w : World) (before after : List Started) (s : Started)
      → IsResumed (goes_on_from w s)
      → Step
          (record { world = w; tasks = before ++ s ∷ after })
          (record {
            world = (so_far (goes_on_from w s)).1;
            tasks = before ++ goes_on_from w s ∷ after;
          })

pub data Run : Shard → Shard → Type 0 where
  here : {s : Shard} → Run s s
  next : {s t u : Shard} → Run s t → Step t u → Run s u
