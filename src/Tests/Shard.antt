-- ===== src/Tests/Shard.antt =====
-- The theorems on the shard, at the small shard.
use grass.Prelude.{
  subst, ℕ, ◌≡◌, refl, sym, true, false, none, some, List, [], ◌∷◌, ◌==◌, String, Bool-cases, inl,
  inr, ==_iff,
}
use grass.Models.Error.{no_game_was_found}
use grass.Models.Default.{respond}
use grass.Models.Response.{DefaultModel, OpCode, ResponseData, ResponseOpCode}
use grass.State.{Context, World, SocketClient, Message, text, ping, update_key}
use grass.Exec.{ok, err}
use grass.Game.Delivery.{deliver}
use grass.Handlers.Dispatch.{handle_message}
use grass.Handlers.Join.{handle_join}
use grass.Handlers.Join.Laws.{Quiet, handle_join-elsewhere, answered, hosting}
use grass.Handlers.Lobby.{handle_create}
use grass.Handlers.Lobby.Laws.{handle_join-handle_create}
use grass.Handlers.Play.{handle_leave}
use grass.Handlers.Play.Laws.{handle_leave_lem, freed, told, left}
use grass.Connection.{Timing, in_time, cut_off}
use grass.Sound.{Sound, Rely, EntrySound}
use grass.Sound.Secrecy.{handle_message-Sound}
use grass.Tests.{shard, player, lobby, world, socket, guest_game, lobby-IsValid}

guest_game-IsValid : grass.Game.Invariant.IsValid guest_game
guest_game-IsValid = record {
  hosting = refl;
  host_wired = refl;
  self_wired = refl;
  members = tt;
  closed = refl;
}

world-sockets : (id : ℕ) → EntrySound id ((world lobby).sockets id)
world-sockets id = elim (Bool-cases (id == 1)) [
  | inl one ↦
      let same : 1 ≡ id = sym ((==_iff id 1).0 one) in
      rw one (record { same_id = same; game = record { valid = lobby-IsValid; own = same } })
  | inr not_one ↦ elim (Bool-cases (id == 2)) [
    | inl two ↦
        let same : 2 ≡ id = sym ((==_iff id 2).0 two) in
        rw (not_one, two)
          (record { same_id = same; game = record { valid = guest_game-IsValid; own = same } })
    | inr not_two ↦ elim (Bool-cases (id == 3)) [
      | inl three ↦
          let same : 3 ≡ id = sym ((==_iff id 3).0 three) in
          rw (not_one, not_two, three) (record { same_id = same; game = tt })
      | inr not_three ↦ rw (not_one, not_two, not_three) tt
    ]
  ]
]

world-Sound : Sound (world lobby)
world-Sound = record { sockets = world-sockets; channels = λ k. tt }

module _ {x y : World} where
  same : some x ≡ some y → x ≡ y
  same e = cc

shard-Rely : Rely shard
shard-Rely w v e sound = subst Sound (same e) sound

abbrev message : String → DefaultModel String
message t = record { op = OpCode.request; d = some t }

-- Whenever client 3's task holds no guard, client 2 asks to join a game.
abbrev busy : Context
busy = record shard { elsewhere = λ w. some (handle_message 2 (message "new") shard w).1 }

busy-Rely : Rely busy
busy-Rely w v e sound =
    subst Sound (same e) (handle_message-Sound 2 (message "new") shard w shard-Rely sound)

handle_message-Sound_example : Sound (handle_message 3 (message "fun") busy (world lobby)).1
handle_message-Sound_example =
    handle_message-Sound 3 (message "fun") busy (world lobby) busy-Rely world-Sound

abbrev chat : List (Message String × Timing)
chat = (text "fun", in_time) ∷ (ping "now", in_time) ∷ (text "new", cut_off (λ w. w)) ∷ []

shard-Quiet : Quiet shard (world lobby)
shard-Quiet = record { unheld = refl; alone = λ v. refl; healthy = refl }

handle_join-elsewhere_example : handle_join 3 (some "far") shard (world lobby) ≡ (
  err no_game_was_found,
  answered (socket 3 none) "far" false false (record (world lobby) {
    redis = record ((world lobby).redis) {
      entries = update_key (world lobby).redis.entries "far" none;
    };
  }),
)
handle_join-elsewhere_example =
    handle_join-elsewhere 3 "far" (record { game_id = "far" }) shard (world lobby) shard-Quiet refl
      (socket 3 none) "player" refl refl refl "south" (record { shard_id = "south"; host_id = 1 })
      refl refl refl refl refl

handle_join-handle_create_example :
    let w' = (handle_create 3 (some "") shard (world lobby)).1 in
    ((handle_create 3 (some "") shard (world lobby)).0 ≡ ok tt)
    × (handle_join 3 (some "fresh") shard w' ≡ (
      ok tt,
      answered
          (socket 3 none)
          "fresh"
          true
          true
          (hosting shard 3 (socket 3 none) "player" "fresh" w'),
    ))
handle_join-handle_create_example =
    handle_join-handle_create 3 "" shard (world lobby) shard-Quiet refl (socket 3 none) refl refl
      "fresh" (record { game_id = "fresh" }) "player" refl refl refl refl

abbrev nameless : SocketClient
nameless = record (socket 5 none) { nickname = none }

abbrev with_nameless : World
with_nameless = record (world lobby) { sockets = λ id. some nameless }

handle_leave_lem_example : handle_leave 2 shard (world lobby) ≡ (
  ok tt,
  deliver (player 2) (respond (ResponseData.leave true) ResponseOpCode.leave) (
      freed guest_game (socket 1 (some lobby)) lobby ((2, player 2) ∷ []) (
        told guest_game lobby
          ((2, player 2) ∷ [])
          (left 2 (socket 2 (some guest_game)) (world lobby)))),
)
handle_leave_lem_example =
    handle_leave_lem 2 shard (world lobby) (socket 2 (some guest_game)) guest_game refl refl refl
      refl refl (socket 1 (some lobby)) lobby ((2, player 2) ∷ []) lobby-IsValid refl refl refl refl
      refl refl refl
