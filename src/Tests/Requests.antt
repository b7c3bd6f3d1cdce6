-- ===== src/Tests/Requests.antt =====
-- The theorems on starts and submissions, at the small shard.
use grass.Prelude.{
  none, true, String, ◌≡◌, refl, some, [], ◌∷◌, List, str_eq, if◌then◌else◌, Bool, false,
}
use grass.Models.Default.{respond}
use grass.Models.Response.{ResponseData, ResponseOpCode}
use grass.Models.Wire.{to_string}
use grass.State.{Context, text, write}
use grass.Exec.{ok}
use grass.Exec.Sockets.{hold}
use grass.Game.Delivery.{push}
use grass.Game.Judge.{chomp}
use grass.Game.Judge.Verdict.{Agree}
use grass.Game.CodeTest.Laws.{PrivatePass}
use grass.Game.Progress.{all_with_progress}
use grass.Game.Start.Branches.{start_cases}
use grass.Handlers.Compile.{handle_compile}
use grass.Handlers.Compile.Laws.{handle_compile_lem, verdict, credited}
use grass.Handlers.Play.{handle_start}
use grass.Handlers.Play.Starting.{handle_start_lem, settle}
use grass.Game.Members.Drop.{dropped}
use grass.Handlers.Play.{handle_leave, handle_task}
use grass.Handlers.Play.Tasks.{handle_task_lem, told_task, host_gives}
use grass.Handlers.Play.Laws.{handle_leave-host, left}
use grass.Handlers.Lobby.{handle_exists}
use grass.Handlers.Lobby.Exists.{handle_exists_lem, swept}
use grass.Tests.{
  shard, player, lobby, running, world, socket, guest_game, lobby-IsValid, running-IsValid,
  doubling, run_public, run_private, in_lobby,
}

handle_start_lem_example :
    handle_start 1 (some "one") shard (world lobby)
    ≡ settle 1 (socket 1 (some lobby)) (
        start_cases 1
          (hold shard (some (socket 1 (some lobby))) (write 1))
          in_lobby
          ((2, player 2) ∷ []))
handle_start_lem_example =
    handle_start_lem 1 "one" (record { task_count = 1 }) shard (world lobby) (socket 1 (some lobby))
      lobby ((2, player 2) ∷ []) refl refl refl refl refl lobby-IsValid refl

abbrev is_two : List String → Bool
is_two [] = false
is_two (s ∷ ss) = str_eq s "2"

-- A sandbox that doubles two and three.
abbrev pub doubler : Context
doubler = record shard { sandbox = λ r. some (if is_two r.stdin then run_public else run_private) }

pub public_passes : Agree doubling.public_test_cases run_public.stdout
unfolding chomp
public_passes = (refl, tt)

doubler_passes : PrivatePass doubler 2 "code" doubling
unfolding chomp
doubler_passes = (run_private, refl, refl, (refl, tt))

handle_compile_lem_example : handle_compile 2 (some "code") doubler (world running) ≡ (
  ok tt,
  push 2
      (text (
        to_string
          (respond (ResponseData.compile (verdict 0 doubling run_public)) ResponseOpCode.compile)))
      (credited 2 1
        (socket 1 (some running))
        running
        (all_with_progress (doubling ∷ []) ((2, player 2) ∷ []))
        ((0, false) ∷ [])
        0
        doubling
        (world running)),
)
handle_compile_lem_example =
    handle_compile_lem 2 1 (record { code = "code"; task_index = 0 }) doubling doubler
      (world running) (socket 1 (some running)) running
      (all_with_progress (doubling ∷ []) ((2, player 2) ∷ [])) ((0, false) ∷ []) run_public refl
      refl refl running-IsValid refl refl refl refl refl refl refl public_passes doubler_passes
      (socket 2 (some guest_game)) guest_game "code" refl refl refl refl (λ x. refl) refl refl

handle_leave-host_example :
    handle_leave 1 shard (world lobby)
    ≡ (ok tt, dropped lobby ((2, player 2) ∷ []) (left 1 (socket 1 (some lobby)) (world lobby)))
handle_leave-host_example =
    handle_leave-host 1 shard (world lobby) (socket 1 (some lobby)) lobby ((2, player 2) ∷ []) refl
      refl refl lobby-IsValid refl refl refl

handle_exists_lem_example : handle_exists 3 (some "fun") shard (world lobby) ≡ (
  ok tt,
  push 3
      (text (to_string (respond (ResponseData.exists true) ResponseOpCode.exists)))
      (swept "fun" true (world lobby)),
)
handle_exists_lem_example =
    handle_exists_lem 3 "fun" "north" (record { game_id = "fun" })
      (record { shard_id = "north"; host_id = 1 }) shard (world lobby)
      (record { unheld = refl; alone = λ v. refl; healthy = refl }) refl (socket 3 none) refl refl
      refl refl refl

handle_task_lem_example :
    handle_task 2 (some "first") shard (world running)
    ≡ told_task
        (socket 2 (some guest_game))
        (world running)
        (host_gives (some (socket 1 (some running))) 0)
handle_task_lem_example =
    handle_task_lem 2 "first" (record { task_index = 0 }) shard (world running)
      (socket 2 (some guest_game)) guest_game refl refl refl refl refl refl
