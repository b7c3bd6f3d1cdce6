-- ===== src/Tests/Lobby.antt =====
-- The theorems on who is in a game and on its start, at the small shard.
use grass.Prelude.{zero, suc, ◌≡◌, refl, none, some, [], ◌∷◌, arith}
use grass.Prelude.HashMap.{insert, get}
use grass.Models.Error.{client, game_already_started, internal_server_error}
use grass.Exec.{ok, err}
use grass.Game.Members.{register, unregister}
use grass.Game.Members.Laws.{welcome, with_clients}
use grass.Game.Start.{start}
use grass.Game.Start.Laws.{start_spoils, ChoosesAll}
use grass.Game.Start.Branches.{start-start_cases, start_cases}
use grass.Game.Members.Round.{member, unregister-register}
use grass.Game.Members.Branches.{register-welcome}
use grass.Tests.{shard, player, lobby, world, in_lobby, lobby-IsValid}

take-ChoosesAll : ChoosesAll shard
take-ChoosesAll ts zero = omega arith
take-ChoosesAll [] (suc n) = omega arith
take-ChoosesAll (t ∷ ts) (suc n) = omega (arith, take-ChoosesAll ts n)

start_spoils_example :
    let t = (start 2 shard in_lobby).1 in
    ((start 2 shard in_lobby).0
      ≡ err (
          client (
            internal_server_error
              "Internal server error, requested task count could not be filled")))
    × (start 1 shard t ≡ (err (client game_already_started), t))
    × (register (player 3) shard t ≡ (ok none, t))
start_spoils_example =
    start_spoils 2 1 shard in_lobby (player 3) take-ChoosesAll refl refl (omega arith)

start-start_cases_example :
    start 1 shard in_lobby ≡ start_cases 1 shard in_lobby ((2, player 2) ∷ [])
start-start_cases_example =
    start-start_cases 1 shard in_lobby ((2, player 2) ∷ []) lobby-IsValid refl refl

register-welcome_example : register (player 3) shard in_lobby ≡ (
  ok (some tt),
  record {
    game = with_clients (insert ((2, player 2) ∷ []) 3 (player 3)) lobby;
    world = welcome lobby (player 3) ((2, player 2) ∷ []) (world lobby);
  },
)
register-welcome_example =
    register-welcome (player 3) shard in_lobby ((2, player 2) ∷ []) lobby-IsValid refl refl refl

unregister-register_example :
    member (unregister 3 shard (register (player 3) shard in_lobby).1).1.game 2 ≡ member lobby 2
unfolding get
unregister-register_example =
    unregister-register (player 3) shard in_lobby ((2, player 2) ∷ []) 2 lobby-IsValid refl refl
      refl refl refl
