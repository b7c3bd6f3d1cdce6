-- ===== src/Handlers/Join/Together.antt =====
-- Two clients that join one game, one after the other.
use grass.Prelude.{
  String, ◌≡◌, refl, ap, ◌∙◌, true, false, none, some, [], ◌==◌, str_eq, eq_iff, eq_refl, ==_refl,
  Bool-cases, inl, inr, arith,
}
use grass.Models.Task.{Uuid}
use grass.Models.Request.{JoinRequest}
use grass.State.{World, Context, SocketClient, Game, RedisGame, Outgoing, SocketSender}
use grass.Exec.{ok}
use grass.Exec.Services.{game_key}
use grass.Game.Messages.{new_partial_client, new_game}
use grass.Game.Delivery.{push}
use grass.Game.Delivery.Frame.{sockets-push, closed-push}
use grass.Game.Invariant.{IsValid}
use grass.Handlers.Join.{handle_join}
use grass.Handlers.Join.Laws.{Quiet, answered, hosting, host_socket, handle_join-hosts}
use grass.Prelude.HashMap.{HashMap, insert}
use grass.Game.Members.Welcome.{closed-welcome}
use grass.Game.Members.Laws.{with_clients}
use grass.State.{PartialClient}
use grass.Handlers.Join.Enter.{newcomer, handle_join-enters, seated, guest_socket, admitted}

-- What is assumed of the text that a game has in Redis: it can be read back, and it is not empty.
pub record ReadsBack (c : Context) : Type 0 where
  pub reads : (g : RedisGame) → c.serde.redis_game (c.serde.redis_game_text g) ≡ some g
  pub full : c.serde.redis_game "" ≡ none

full_text :
    (c : Context) (g : RedisGame) → ReadsBack c → str_eq (c.serde.redis_game_text g) "" ≡ false
full_text c g back = elim (Bool-cases (str_eq (c.serde.redis_game_text g) "")) [
  | inl same ↦
      let e = ap c.serde.redis_game ((eq_iff (c.serde.redis_game_text g) "").0 same) in
      let a = back.reads g in let b = back.full in cc
  | inr other ↦ other
]

pub redis-push : (k : SocketSender) (m : Outgoing) (w : World) → (push k m w).redis ≡ w.redis
unfolding push
redis-push k m w = ground arith

-- The game of a client that has just become its host.
abbrev pub own_game : Context → SocketClient → String → String → Game
own_game c s name game_id =
    let self = new_partial_client s.id name c.shard_id true (some s.send_channel) in
    new_game true game_id self self

pub own_game-IsValid :
    (c : Context) (s : SocketClient) (name game_id : String) → IsValid (own_game c s name game_id)
own_game-IsValid c s name game_id = record {
  hosting = refl;
  host_wired = refl;
  self_wired = refl;
  members = tt;
  closed = refl;
}

module _ (id1 id2 : Uuid) (d1 d2 : String) (r : JoinRequest) (c : Context) (w : World)
    (s1 s2 : SocketClient) (name1 name2 : String) (quiet : Quiet c w) (back : ReadsBack c)
    (parsed1 : c.serde.join_request d1 ≡ some r) (parsed2 : c.serde.join_request d2 ≡ some r)
    (here1 : w.sockets id1 ≡ some s1) (here2 : w.sockets id2 ≡ some s2) (idle1 : s1.game ≡ none)
    (idle2 : s2.game ≡ none) (named1 : s1.nickname ≡ some name1) (named2 : s2.nickname ≡ some name2)
    (open1 : (w.channels s1.send_channel).closed ≡ false)
    (open2 : (w.channels s2.send_channel).closed ≡ false) (apart : (id1 == id2) ≡ false)
    (there : w.redis.entries (game_key r.game_id) ≡ some "") where
  abbrev pub hosted : World
  hosted = hosting c id1 s1 name1 r.game_id w

  -- The world after the first join.
  abbrev pub between : World
  between = answered s1 r.game_id true true hosted

  first_join : handle_join id1 (some d1) c w ≡ (ok tt, between)
  first_join = handle_join-hosts id1 d1 r c w quiet parsed1 s1 name1 here1 idle1 named1 there open1

  between-Quiet : Quiet c between
  between-Quiet = record {
    unheld = quiet.unheld;
    alone = quiet.alone;
    healthy = ap (λ x. x.faults) (redis-push _ _ hosted) ∙ quiet.healthy;
  }

  between-here1 : between.sockets id1 ≡ some (host_socket c s1 name1 r.game_id)
  between-here1 = ap (λ f. f id1) (sockets-push _ _ hosted) ∙ rw (==_refl id1) refl

  between-here2 : between.sockets id2 ≡ some s2
  between-here2 = ap (λ f. f id2) (sockets-push _ _ hosted) ∙ rw apart here2

  between-there :
      between.redis.entries (game_key r.game_id)
      ≡ some (c.serde.redis_game_text (record { shard_id = c.shard_id; host_id = id1 }))
  between-there =
      ap (λ x. x.entries (game_key r.game_id)) (redis-push _ _ hosted)
      ∙ rw (eq_refl (game_key r.game_id)) refl

  -- The world in which the second client plays in the first one's game.
  abbrev pub together : World
  together = answered s2 r.game_id false true (
      seated id2 (guest_socket c s2 name2 r.game_id id1 (host_socket c s1 name1 r.game_id) name1) (
        admitted c id2 s2 name2 id1 (host_socket c s1 name1 r.game_id)
          (own_game c s1 name1 r.game_id) [] between))

  second_join : handle_join id2 (some d2) c between ≡ (ok tt, together)
  second_join =
      handle_join-enters id2 d2 r c between between-Quiet parsed2 s2 name2 between-here2 idle2
        named2 (closed-push _ _ hosted s2.send_channel ∙ open2)
        (c.serde.redis_game_text (record { shard_id = c.shard_id; host_id = id1 })) between-there
        (full_text c (record { shard_id = c.shard_id; host_id = id1 }) back)
        (record { shard_id = c.shard_id; host_id = id1 }) (host_socket c s1 name1 r.game_id) name1
        (own_game c s1 name1 r.game_id) [] (back.reads _) (eq_refl c.shard_id) between-here1 named1
        refl (own_game-IsValid c s1 name1 r.game_id) refl refl apart

  -- Of two clients that join a game with no host yet, one after the other, the first hosts it and the second
  -- plays in it: the host's game has the second client, the players have been told of one another, the
  -- second's socket has its view of the game, and each has its answer. The clients have names, are in no
  -- game and have open channels, no guard is held, no other task runs in between, Redis is in order, and
  -- what it holds of a game can be read back.
  pub handle_join-handle_join :
      (handle_join id1 (some d1) c w ≡ (ok tt, between))
      × (handle_join id2 (some d2) c (handle_join id1 (some d1) c w).1 ≡ (ok tt, together))
  handle_join-handle_join = (first_join, rw first_join second_join)

  abbrev pub guests : HashMap PartialClient
  guests = insert [] id2 (newcomer c id2 s2 name2)

  pub together-host :
      together.sockets id1
      ≡ some (record s1 { game = some (with_clients guests (own_game c s1 name1 r.game_id)) })
  together-host =
      let other : (id2 == id1) ≡ false = ground arith in
      ap (λ f. f id1) (sockets-push _ _ _) ∙ rw (other, ==_refl id1) refl

  pub together-guest :
      together.sockets id2
      ≡ some (guest_socket c s2 name2 r.game_id id1 (host_socket c s1 name1 r.game_id) name1)
  together-guest = ap (λ f. f id2) (sockets-push _ _ _) ∙ rw (==_refl id2) refl

  pub together-open : (together.channels s2.send_channel).closed ≡ false
  together-open =
      closed-push _ _ _ s2.send_channel
      ∙ closed-welcome (own_game c s1 name1 r.game_id) (newcomer c id2 s2 name2) [] between
          s2.send_channel
      ∙ closed-push _ _ hosted s2.send_channel
      ∙ open2
