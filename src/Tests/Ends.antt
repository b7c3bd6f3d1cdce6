-- ===== src/Tests/Ends.antt =====
-- The theorems on the ends of connections and of the service, at the small shard.
use grass.Prelude.{String, ◌≡◌, refl, true, false, none, some, [], ◌∷◌}
use grass.Models.Response.{DefaultModel, OpCode}
use grass.Models.Request.{RequestOpCode}
use grass.State.{World, Context, text, ping}
use grass.Exec.{ok, panicked}
use grass.Connection.{in_time, read_loop, cut_off, accept_connection, on_model}
use grass.Connection.Missing.{read_loop-missing}
use grass.Connection.Laws.{accept_connection-unregistered, on_model-cut_off, notified}
use grass.Game.Members.Drop.{dropped}
use grass.Tests.{serde, guest_game, shard, player, lobby, world, socket, lobby-IsValid}

-- Redis gives no connection.
abbrev cut : World
cut = record (world lobby) { redis = record ((world lobby).redis) { faults = true ∷ [] } }

accept_connection-unregistered_example :
    ((accept_connection 4 "peer" 4 [] shard cut).0 ≡ panicked)
    × ((accept_connection 4 "peer" 4 [] shard cut).1.sockets 4 ≡ none)
accept_connection-unregistered_example =
    accept_connection-unregistered 4 "peer" 4 [] shard cut refl (λ x. refl) refl refl refl

abbrev slow : DefaultModel String
slow = record { op = OpCode.request; d = some "slow" }

on_model-cut_off_example :
    (on_model 1 (cut_off (λ w. w)) slow shard (world lobby) ≡ (
      ok false,
      dropped lobby ((2, player 2) ∷ []) (notified (socket 1 (some lobby)) slow (world lobby)),
    ))
    × ((on_model 1 (cut_off (λ w. w)) slow shard (world lobby)).1.sockets ≡ (world lobby).sockets)
on_model-cut_off_example =
    on_model-cut_off 1 (λ w. w) slow shard (world lobby) (socket 1 (some lobby)) lobby
      ((2, player 2) ∷ []) refl refl refl refl refl refl lobby-IsValid refl refl

-- Every request asks for a task and forgets to say which.
abbrev forgetful : Context
forgetful = record shard {
  serde = record serde { request = λ t. some (record { d = none; op = RequestOpCode.task }) };
}

read_loop-missing_example :
    read_loop 2 ((text "task", in_time) ∷ (ping "now", in_time) ∷ []) forgetful (world lobby)
    ≡ (panicked, world lobby)
read_loop-missing_example =
    read_loop-missing 2 forgetful (world lobby) (socket 2 (some guest_game)) refl refl
      RequestOpCode.task "task" "task" ((ping "now", in_time) ∷ []) refl refl refl
