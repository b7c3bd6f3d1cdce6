-- ===== src/Tests/Joins.antt =====
-- The theorem on a join of a hosted game, at the small shard.
use Prim.Native.Char.{code}
use grass.Prelude.{
  ℕ, zero, suc, String, Option, ◌==◌, if◌then◌else◌, ◌≡◌, refl, none, some, [], ◌∷◌, true, false,
}
use grass.Exec.{ok}
use grass.Handlers.Join.{handle_join}
use grass.Handlers.Join.Laws.{Quiet, answered, hosting, host_socket}
use grass.Handlers.Join.Together.{ReadsBack, own_game, handle_join-handle_join}
use grass.State.{Context, World, SocketClient, RedisGame}
use grass.Handlers.Join.Enter.{handle_join-enters, seated, guest_socket, admitted}
use grass.Session.{session, HostAlone}
use grass.Handlers.Play.{handle_start}
use grass.Handlers.Compile.{handle_compile}
use grass.Game.Judge.{chomp}
use grass.Game.CodeTest.Laws.{PrivatePass}
use grass.Tests.Requests.{doubler, public_passes}
use grass.State.{Game}
use grass.Tests.{
  doubling, run_public, run_private, serde, shard, player, lobby, world, socket, lobby-IsValid,
}

shard-Quiet : Quiet shard (world lobby)
shard-Quiet = record { unheld = refl; alone = λ v. refl; healthy = refl }

handle_join-enters_example : handle_join 3 (some "fun") shard (world lobby) ≡ (
  ok tt,
  answered (socket 3 none) "fun" false true (
      seated 3
        (guest_socket shard (socket 3 none) "player" "fun" 1 (socket 1 (some lobby)) "player")
        (admitted shard 3
          (socket 3 none)
          "player"
          1
          (socket 1 (some lobby))
          lobby
          ((2, player 2) ∷ [])
          (world lobby))),
)
handle_join-enters_example =
    handle_join-enters 3 "fun" (record { game_id = "fun" }) shard (world lobby) shard-Quiet refl
      (socket 3 none) "player" refl refl refl refl "north" refl refl
      (record { shard_id = "north"; host_id = 1 }) (socket 1 (some lobby)) "player" lobby
      ((2, player 2) ∷ []) refl refl refl refl refl lobby-IsValid refl refl refl

-- A text for a game in Redis: the number of the host in tallies, a colon, and the shard.
encode_from : ℕ → String → String
encode_from zero shard_id = String.◌∷◌ ":" shard_id
encode_from (suc n) shard_id = String.◌∷◌ "i" (encode_from n shard_id)

one_more : Option RedisGame → Option RedisGame
one_more none = none
one_more (some g) = some (record g { host_id = suc g.host_id })

decode : String → Option RedisGame
unfolding one_more
decode String.[] = none
decode (String.◌∷◌ c s) =
    let rest = decode s in
    if code c == b'i' then one_more rest else some (record { shard_id = s; host_id = 0 })

decode-encode_from :
    (n : ℕ) (shard_id : String)
    → decode (encode_from n shard_id) ≡ some (record { shard_id = shard_id; host_id = n })
unfolding decode encode_from one_more
decode-encode_from zero shard_id = refl
decode-encode_from (suc n) shard_id = rw (decode-encode_from n shard_id) refl

abbrev tallying : Context
tallying = record shard {
  serde = record serde {
    redis_game = decode;
    redis_game_text = λ g. encode_from g.host_id g.shard_id;
  };
}

tallying-ReadsBack : ReadsBack tallying
unfolding decode
tallying-ReadsBack = record { reads = λ g. decode-encode_from g.host_id g.shard_id; full = refl }

-- Every client is there, and in no game.
abbrev morning : World
morning = record (world lobby) { sockets = λ id. some (socket id none) }

abbrev noon : World
noon =
    answered (socket 4 none) "new" true true
      (hosting tallying 4 (socket 4 none) "player" "new" morning)

abbrev host : SocketClient
host = host_socket tallying (socket 4 none) "player" "new"

handle_join-handle_join_example :
    (handle_join 4 (some "new") tallying morning ≡ (ok tt, noon))
    × (handle_join 5 (some "new") tallying (handle_join 4 (some "new") tallying morning).1 ≡ (
      ok tt,
      answered (socket 5 none) "new" false true (
          seated 5 (guest_socket tallying (socket 5 none) "player" "new" 4 host "player") (
            admitted tallying 5
              (socket 5 none)
              "player"
              4
              host
              (own_game tallying (socket 4 none) "player" "new")
              []
              noon)),
    ))
handle_join-handle_join_example =
    handle_join-handle_join 4 5 "new" "new" (record { game_id = "new" }) tallying morning
      (socket 4 none) (socket 5 none) "player" "player"
      (record { unheld = refl; alone = λ v. refl; healthy = refl }) tallying-ReadsBack refl refl
      refl refl refl refl refl refl refl refl refl refl

-- The same shard with a sandbox that doubles two and three.
abbrev whole : Context
whole = record tallying { sandbox = doubler.sandbox }

whole-ReadsBack : ReadsBack whole
unfolding decode
whole-ReadsBack = record { reads = λ g. decode-encode_from g.host_id g.shard_id; full = refl }

whole_passes : PrivatePass whole 5 "code" doubling
unfolding chomp
whole_passes = (run_private, refl, refl, (refl, tt))

abbrev evening : World
evening =
    (handle_start 4 (some "one") whole
      (handle_join 5 (some "new") whole (handle_join 4 (some "new") whole morning).1).1).1

session_example :
    ((handle_join 4 (some "new") whole morning).0 ≡ ok tt)
    × ((handle_join 5 (some "new") whole (handle_join 4 (some "new") whole morning).1).0 ≡ ok tt)
    × ((handle_start 4
          (some "one")
          whole
          (handle_join 5 (some "new") whole (handle_join 4 (some "new") whole morning).1).1).0
        ≡ ok tt)
    × ((handle_compile 5 (some "code") whole evening).0 ≡ ok tt)
    × ((g : Game) × ((handle_compile 5 (some "code") whole evening).1.sockets 4
          ≡ some (record (socket 4 none) { game = some g }))
        × HostAlone 0 g)
session_example =
    session 4 5 "new" "new" (record { game_id = "new" }) whole morning (socket 4 none)
      (socket 5 none) "player" "player"
      (record { unheld = refl; alone = λ v. refl; healthy = refl }) whole-ReadsBack refl refl refl
      refl refl refl refl refl refl refl refl refl "one" "code" (record { task_count = 1 })
      (record { code = "code"; task_index = 0 }) doubling run_public refl refl refl refl refl refl
      public_passes whole_passes
