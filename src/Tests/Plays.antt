-- ===== src/Tests/Plays.antt =====
-- The theorems on a game as it is played, at a small game.
use grass.Prelude.{◌≡◌, refl, true, some, List, [], ◌∷◌}
use grass.Prelude.HashMap.{get}
use grass.State.{Game}
use grass.Game.Invariant.{IsValid}
use grass.Game.Messages.{new_game}
use grass.Game.Tables.{IsTracked}
use grass.Playing.{
  Turn, play, AllProper, to_register, to_unregister, to_shutdown, to_start, to_prepare, to_validate,
  play-IsValid, play-IsTracked,
}
use grass.Playing.Marks.{is_done_by, play-is_done_by}
use grass.Playing.Room.{room, acts, empty_room}
use grass.Playing.Refines.{play-room}
use grass.Game.Judge.{chomp}
use grass.Tests.{shard, player, lobby, running, world, run_public}

-- Client 2 joins, the game starts, client 2 submits, and all is over.
abbrev turns : List Turn
turns =
    (shard, world lobby, to_register (player 2))
    ∷ (shard, world lobby, to_start 1)
    ∷ (shard, world lobby, to_prepare 0)
    ∷ (shard, world running, to_validate 2 0 "code" run_public)
    ∷ (shard, world running, to_unregister 2)
    ∷ (shard, world running, to_shutdown)
    ∷ []

turns-AllProper : AllProper turns
turns-AllProper = ((refl, refl), (tt, (tt, (tt, (tt, (tt, tt))))))

play-IsValid_example : IsValid (play turns (new_game true "fun" (player 1) (player 1)))
play-IsValid_example = play-IsValid turns "fun" (player 1) refl refl turns-AllProper

play-IsTracked_example : IsTracked (play turns (new_game true "fun" (player 1) (player 1)))
play-IsTracked_example = play-IsTracked turns "fun" (player 1) refl refl turns-AllProper

-- The game in which the host has done the task.
abbrev won : Game
won = record running { partial_host = record (player 1) { task_progress = some ((0, true) ∷ []) } }

won-IsValid : IsValid won
won-IsValid = record {
  hosting = refl;
  host_wired = refl;
  self_wired = refl;
  members = ((refl, refl), tt);
  closed = refl;
}

play-is_done_by_example :
    (is_done_by (play turns won).partial_host 0 ≡ true) × ((play turns won).is_started ≡ true)
unfolding get
play-is_done_by_example = play-is_done_by 0 turns won turns-AllProper won-IsValid refl refl

play-room_example :
    room (play turns (new_game true "fun" (player 1) (player 1))) ≡ acts turns empty_room
play-room_example = play-room turns "fun" (player 1) turns-AllProper refl refl

-- The room of these turns: it is over and empty, and the host has done the task.
room_over : (acts turns empty_room).is_over ≡ true
room_over = refl

room_done : (acts turns empty_room).done 0 ≡ true
unfolding chomp
room_done = refl
