-- ===== src/Tests/Races.antt =====
-- The theorem on two joins at the same time, at the small shard.
use grass.Prelude.{◌≡◌, refl, some, none, str_eq, if◌then◌else◌}
use grass.State.{World, Context}
use grass.Exec.{ok}
use grass.Handlers.Join.{handle_join}
use grass.Handlers.Join.Laws.{host_socket}
use grass.Handlers.Join.Race.{handle_join-races, host_text}
use grass.Tests.{shard, lobby, world, socket}

-- Every client is there, and in no game.
abbrev morning : World
morning = record (world lobby) { sockets = λ id. some (socket id none) }

-- While nobody hosts the game, client 5 joins it.
abbrev overtaken : Context
overtaken = record shard {
  elsewhere = λ w. elim (w.redis.entries "GAME:new") [
    | none ↦ some w
    | some t ↦ if str_eq t "" then some (handle_join 5 (some "new") shard w).1 else some w
  ];
}

handle_join-races_example :
    let u = (handle_join 4 (some "new") overtaken morning).1 in
    ((handle_join 5 (some "new") shard morning).0 ≡ ok tt)
    × ((handle_join 4 (some "new") overtaken morning).0 ≡ ok tt)
    × (u.sockets 4 ≡ some (host_socket overtaken (socket 4 none) "player" "new"))
    × (u.sockets 5 ≡ some (host_socket shard (socket 5 none) "player" "new"))
    × (u.redis.entries "GAME:new" ≡ some (host_text overtaken 4))
handle_join-races_example =
    handle_join-races 4 5 "new" "new" (record { game_id = "new" }) overtaken shard morning
      (socket 4 none) (socket 5 none) "player" "player" refl
      (record { unheld = refl; alone = λ v. refl; healthy = refl }) refl refl refl refl refl refl
      refl refl refl refl refl refl refl refl
