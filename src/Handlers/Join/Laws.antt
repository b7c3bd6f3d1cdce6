-- ===== src/Handlers/Join/Laws.antt =====
-- What a join does, where no other task runs in between and no guard is held.
use grass.Prelude.{String, ◌≡◌, refl, Bool, true, false, ◌∙◌, none, some, [], str_eq}
use grass.Models.Task.{Uuid}
use grass.Models.Request.{JoinRequest}
use grass.Models.Error.{no_game_was_found}
use grass.Models.Default.{respond}
use grass.Models.Response.{ResponseData, ResponseOpCode}
use grass.State.{World, Context, SocketClient, RedisGame, update_key, update}
use grass.Exec.{ok, err, ◌>>=◌, unwrap, or_raise, map_err, expect, attempt}
use grass.Exec.Services.{pool_get, redis_get, redis_set, redis_del, game_key, send}
use grass.Exec.Sockets.{with_get, with_get_mut, await, set_socket}
use grass.Game.Messages.{new_partial_client, new_game}
use grass.Game.Delivery.{push}
use grass.Models.Wire.{to_string}
use grass.State.{text}
use grass.Client.{reply, with_client, with_client_mut, assign_game, send_model, send_raw}
use grass.Handlers.Join.{
  fetch_game, admit, answer, join_as_host, join_elsewhere, join_hosted, join_game, handle_join,
}

-- No guard is held, no other task runs in between, and Redis does what it is asked.
pub record Quiet (c : Context) (w : World) : Type 0 where
  pub unheld : c.held ≡ []
  pub alone : (v : World) → c.elsewhere v ≡ some v
  pub healthy : w.redis.faults ≡ []

-- The last answer to a join, in the client's channel.
abbrev pub answered : SocketClient → String → Bool → Bool → World → World
answered s game_id is_host success =
    push s.send_channel
      (text (to_string (respond (ResponseData.join game_id is_host success) ResponseOpCode.join)))

-- The socket once it hosts the game.
abbrev pub host_socket : Context → SocketClient → String → String → SocketClient
host_socket c s name game_id =
    let self = new_partial_client s.id name c.shard_id true (some s.send_channel) in
    record s { game = some (new_game true game_id self self) }

-- The world in which the client hosts the game, which Redis knows to be here.
abbrev pub hosting : Context → Uuid → SocketClient → String → String → World → World
hosting c id s name game_id w = record w {
  sockets = update w.sockets id (some (host_socket c s name game_id));
  redis = record (w.redis) {
    entries =
        update_key w.redis.entries (game_key game_id)
          (some (c.serde.redis_game_text (record { shard_id = c.shard_id; host_id = id })));
  };
}

module _ (id : Uuid) (d : String) (r : JoinRequest) (c : Context) (w : World) (quiet : Quiet c w)
    (parsed : c.serde.join_request d ≡ some r) (s : SocketClient) (name : String)
    (here : w.sockets id ≡ some s) (idle : s.game ≡ none) (named : s.nickname ≡ some name) where
  pub handle_join-fetched :
      (t : String)
      → w.redis.entries (game_key r.game_id) ≡ some t
      → str_eq t "" ≡ false
      → handle_join id (some d) c w
        ≡ join_hosted id r.game_id
            (record { game = t; nickname = name; channel = s.send_channel })
            c
            w
  unfolding handle_join join_game admit fetch_game with_client with_get pool_get redis_get await
      attempt ◌>>=◌
  handle_join-fetched t there full =
      rw
        (
          parsed, or_raise, quiet.unheld, here, unwrap, idle, named, quiet.healthy, there,
          quiet.alone, full,
        )
        refl

  handle_join-empty :
      w.redis.entries (game_key r.game_id) ≡ some ""
      → handle_join id (some d) c w ≡ join_as_host id r.game_id c w
  unfolding handle_join join_game admit fetch_game with_client with_get pool_get redis_get await
      attempt ◌>>=◌
  handle_join-empty there =
      rw
        (
          parsed, or_raise, quiet.unheld, here, unwrap, idle, named, quiet.healthy, there,
          quiet.alone,
        )
        refl

  join_as_host-hosts :
      (w.channels s.send_channel).closed ≡ false
      → join_as_host id r.game_id c w
        ≡ (ok tt, answered s r.game_id true true (hosting c id s name r.game_id w))
  unfolding join_as_host answer reply send_model send_raw send push assign_game with_client_mut
      with_get_mut set_socket redis_set await map_err ◌>>=◌
  join_as_host-hosts open_ =
      rw (quiet.unheld, quiet.healthy, quiet.alone, here, unwrap, named, idle, open_) refl

  -- The first client that joins a game with no host yet hosts it: its socket has a new game of its own,
  -- Redis knows that the game is hosted here by it, and it is told so. The client has a name, is in no
  -- game and has an open channel, no guard is held, no other task runs and Redis is in order.
  pub handle_join-hosts :
      w.redis.entries (game_key r.game_id) ≡ some ""
      → (w.channels s.send_channel).closed ≡ false
      → handle_join id (some d) c w
        ≡ (ok tt, answered s r.game_id true true (hosting c id s name r.game_id w))
  handle_join-hosts there open_ = handle_join-empty there ∙ join_as_host-hosts open_

  -- A join of a game that another shard hosts fails, and tells the client; the key that it deletes in Redis
  -- is the bare id of the game. The client has a name, is in
  -- no game and has an open channel, no guard is held, no other task runs and Redis is in order.
  pub handle_join-elsewhere :
      (t : String) (g : RedisGame)
      → w.redis.entries (game_key r.game_id) ≡ some t
      → str_eq t "" ≡ false
      → c.serde.redis_game t ≡ some g
      → str_eq g.shard_id c.shard_id ≡ false
      → (w.channels s.send_channel).closed ≡ false
      → handle_join id (some d) c w ≡ (
        err no_game_was_found,
        answered s r.game_id false false (record w {
          redis = record (w.redis) { entries = update_key w.redis.entries r.game_id none };
        }),
      )
  unfolding join_hosted join_elsewhere answer reply send_model send_raw send push pool_get redis_del
      expect with_client with_get map_err await ◌>>=◌
  handle_join-elsewhere t g there full knows other open_ =
      handle_join-fetched t there full
      ∙ rw (knows, or_raise, other, quiet.healthy, quiet.alone, quiet.unheld, here, unwrap, open_)
          refl
