-- ===== src/Tests/Locks.antt =====
-- The theorem on the locks, at the small shard.
use grass.Prelude.{subst, ◌≡◌, refl, sym, ap, ◌∙◌, true, false, none, some, Option}
use grass.Models.Request.{RequestOpCode}
use grass.Models.Response.{DefaultModel, OpCode}
use grass.State.{World, Context}
use grass.Exec.Ends.{is_deadlocked}
use grass.Handlers.Dispatch.{handle_message}
use grass.Waiting.{IsFree}
use grass.Apart.{socket_game}
use grass.Waiting.Free.{game_droppable}
use grass.Waiting.Messages.{handle_message-is_deadlocked}
use grass.Handlers.Play.{handle_task, handle_leave, handle_start}
use grass.Waiting.Exact.{handle_task-is_deadlocked, handle_leave-is_deadlocked}
use grass.Tests.{running, socket, serde, shard, lobby, world}

-- Every request asks to leave.
abbrev leaving : Context
leaving = record shard {
  serde = record serde { request = λ t. some (record { d = none; op = RequestOpCode.leave }) };
}

abbrev model : DefaultModel grass.Prelude.String
model = record { op = OpCode.request; d = some "bye" }

-- The host of client 2 lies behind another lock.
guest-IsFree : IsFree leaving.lock_of 2 (world lobby)
guest-IsFree s g here playing =
    sym (ap (game_droppable leaving.lock_of 2) (ap socket_game here ∙ playing))

module _ {x y : World} where
  same : some x ≡ some y → x ≡ y
  same e = cc

handle_message-is_deadlocked_example :
    is_deadlocked (handle_message 2 model leaving (world lobby)).0 ≡ false
handle_message-is_deadlocked_example =
    handle_message-is_deadlocked 2 leaving (world lobby)
      (record {
        unheld = refl;
        calm = λ k. refl;
        free = λ w v e h. subst (IsFree leaving.lock_of 2) (same e) h;
      })
      guest-IsFree model

-- One lock for all.
abbrev narrow : Context
narrow = record shard { lock_of = λ id. 0 }

-- Client 2 waits for ever, as a guest of client 1.
handle_leave-is_deadlocked_example :
    (is_deadlocked (handle_leave 2 narrow (world lobby)).0 ≡ true)
    × (is_deadlocked (handle_start 2 (some "now") narrow (world lobby)).0 ≡ true)
handle_leave-is_deadlocked_example =
    handle_leave-is_deadlocked 2 narrow (world lobby) refl (some "now")

-- Somebody waits to write at every lock.
abbrev crowded : Context
crowded = record shard { queued = λ k. true }

-- Client 1, which hosts its game, waits for ever for its own socket.
handle_task-is_deadlocked_example :
    is_deadlocked (handle_task 1 (some "first") crowded (world running)).0 ≡ true
handle_task-is_deadlocked_example =
    handle_task-is_deadlocked 1 "first" (record { task_index = 0 }) crowded (world running)
      (socket 1 (some running)) running refl refl refl refl
