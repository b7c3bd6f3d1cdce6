-- ===== src/Handlers/Join/Race.antt =====
-- Two clients that join one game at the same time (src/service/websocket/client/game/models/request.rs,
-- lines 95 to 135): between the look at Redis and the entry there, nothing keeps another client out.
use grass.Prelude.{
  String, ◌≡◌, refl, ap, subst, ◌∙◌, true, false, none, some, [], ◌==◌, eq_refl, ==_refl, arith,
}
use grass.Models.Task.{Uuid}
use grass.Models.Request.{JoinRequest}
use grass.State.{World, Context, SocketClient, update_key}
use grass.Exec.{ok, ◌>>=◌, unwrap, or_raise, map_err, attempt}
use grass.Exec.Services.{pool_get, redis_get, redis_set, game_key, send}
use grass.Exec.Sockets.{with_get, with_get_mut, await, set_socket}
use grass.Game.Delivery.{push}
use grass.Game.Delivery.Frame.{sockets-push, closed-push}
use grass.Client.{reply, with_client, with_client_mut, assign_game, send_model, send_raw}
use grass.Handlers.Join.{fetch_game, admit, answer, join_as_host, join_game, handle_join}
use grass.Handlers.Join.Laws.{Quiet, answered, hosting, host_socket, handle_join-hosts}
use grass.Handlers.Join.Together.{redis-push}

-- What Redis has of a game once this client hosts it.
abbrev pub host_text : Context → Uuid → String
host_text c id = c.serde.redis_game_text (record { shard_id = c.shard_id; host_id = id })

-- The client is entered in Redis, and does not have its game yet.
abbrev pub entered : Context → Uuid → String → World → World
entered c id game_id w = record w {
  redis = record (w.redis) {
    entries = update_key w.redis.entries (game_key game_id) (some (host_text c id));
  };
}

abbrev without_faults : World → World
without_faults w = record w { redis = record (w.redis) { faults = [] } }

-- A client that found no host goes on in whatever world the others have made in the meantime.
module _ (id : Uuid) (d : String) (r : JoinRequest) (c : Context) (w v : World)
    (unheld : c.held ≡ []) (healthy : w.redis.faults ≡ []) (still_healthy : v.redis.faults ≡ [])
    (moves : c.elsewhere w ≡ some v)
    (stays : c.elsewhere (entered c id r.game_id v) ≡ some (entered c id r.game_id v))
    (parsed : c.serde.join_request d ≡ some r) (s : SocketClient) (name : String)
    (here : w.sockets id ≡ some s) (still_here : v.sockets id ≡ some s) (idle : s.game ≡ none)
    (named : s.nickname ≡ some name) (open_ : (v.channels s.send_channel).closed ≡ false)
    (there : w.redis.entries (game_key r.game_id) ≡ some "") where
  found_empty : handle_join id (some d) c w ≡ join_as_host id r.game_id c v
  unfolding handle_join join_game admit fetch_game with_client with_get pool_get redis_get await
      attempt ◌>>=◌
  found_empty =
      let moved : c.elsewhere (without_faults w) ≡ some v =
        subst (λ fs. c.elsewhere (record w { redis = record (w.redis) { faults = fs } }) ≡ some v)
          healthy moves in
      rw (parsed, or_raise, unheld, here, unwrap, idle, named, healthy, there, moved) refl

  hosts_anyway :
      join_as_host id r.game_id c v
      ≡ (ok tt, answered s r.game_id true true (hosting c id s name r.game_id v))
  unfolding join_as_host answer reply send_model send_raw send push assign_game with_client_mut
      with_get_mut set_socket redis_set await map_err ◌>>=◌
  hosts_anyway =
      let u = entered c id r.game_id v in
      let stayed : c.elsewhere (without_faults u) ≡ some (without_faults u) =
        subst
          (λ fs.
            let x = record u { redis = record (u.redis) { faults = fs } } in c.elsewhere x ≡ some x)
          still_healthy stays in
      rw (still_healthy, stayed, unheld, still_here, unwrap, named, idle, open_) refl

  handle_join-overtaken :
      handle_join id (some d) c w
      ≡ (ok tt, answered s r.game_id true true (hosting c id s name r.game_id v))
  handle_join-overtaken = found_empty ∙ hosts_anyway

module _ (id1 id2 : Uuid) (d1 d2 : String) (r : JoinRequest) (c1 c2 : Context) (w : World)
    (s1 s2 : SocketClient) (name1 name2 : String) (unheld : c1.held ≡ []) (quiet : Quiet c2 w)
    (parsed1 : c1.serde.join_request d1 ≡ some r) (parsed2 : c2.serde.join_request d2 ≡ some r)
    (here1 : w.sockets id1 ≡ some s1) (here2 : w.sockets id2 ≡ some s2) (idle1 : s1.game ≡ none)
    (idle2 : s2.game ≡ none) (named1 : s1.nickname ≡ some name1) (named2 : s2.nickname ≡ some name2)
    (open1 : (w.channels s1.send_channel).closed ≡ false)
    (open2 : (w.channels s2.send_channel).closed ≡ false) (apart : (id2 == id1) ≡ false)
    (there : w.redis.entries (game_key r.game_id) ≡ some "") where
  abbrev other_hosts : World
  other_hosts = hosting c2 id2 s2 name2 r.game_id w

  -- The world after the second client's join.
  abbrev pub between : World
  between = answered s2 r.game_id true true other_hosts

  -- The world after both.
  abbrev pub both : World
  both = answered s1 r.game_id true true (hosting c1 id1 s1 name1 r.game_id between)

  second_join : handle_join id2 (some d2) c2 w ≡ (ok tt, between)
  second_join =
      handle_join-hosts id2 d2 r c2 w quiet parsed2 s2 name2 here2 idle2 named2 there open2

  between-here : between.sockets id1 ≡ some s1
  between-here = ap (λ f. f id1) (sockets-push _ _ other_hosts) ∙ rw apart here1

  between-faults : between.redis.faults ≡ []
  between-faults = ap (λ x. x.faults) (redis-push _ _ other_hosts) ∙ quiet.healthy

  both-sockets : (j : Uuid) → both.sockets j ≡ (hosting c1 id1 s1 name1 r.game_id between).sockets j
  both-sockets j = ap (λ f. f j) (sockets-push _ _ (hosting c1 id1 s1 name1 r.game_id between))

  both-first : both.sockets id1 ≡ some (host_socket c1 s1 name1 r.game_id)
  both-first = both-sockets id1 ∙ rw (==_refl id1) refl

  both-second : both.sockets id2 ≡ some (host_socket c2 s2 name2 r.game_id)
  both-second =
      let other : (id1 == id2) ≡ false = ground (arith, apart) in
      both-sockets id2
      ∙ rw other (ap (λ f. f id2) (sockets-push _ _ other_hosts) ∙ rw (==_refl id2) refl)

  both-entry : both.redis.entries (game_key r.game_id) ≡ some (host_text c1 id1)
  both-entry =
      ap (λ x. x.entries (game_key r.game_id))
        (redis-push _ _ (hosting c1 id1 s1 name1 r.game_id between))
      ∙ rw (eq_refl (game_key r.game_id)) refl

  -- Of two clients that join a game with no host yet, both may become its host: if the second one's whole
  -- join runs after the first has looked at Redis and before it goes on, then both joins succeed, the socket
  -- of each holds a game of its own of which it is the host, and Redis names the first alone. The clients
  -- have names, are in no game and have open channels, their tasks hold no guard, no other task runs in
  -- between, and Redis is in order.
  pub handle_join-races :
      c1.elsewhere w ≡ some (handle_join id2 (some d2) c2 w).1
      → c1.elsewhere (entered c1 id1 r.game_id (handle_join id2 (some d2) c2 w).1)
        ≡ some (entered c1 id1 r.game_id (handle_join id2 (some d2) c2 w).1)
      → let u = (handle_join id1 (some d1) c1 w).1 in
        ((handle_join id2 (some d2) c2 w).0 ≡ ok tt)
        × ((handle_join id1 (some d1) c1 w).0 ≡ ok tt)
        × (u.sockets id1 ≡ some (host_socket c1 s1 name1 r.game_id))
        × (u.sockets id2 ≡ some (host_socket c2 s2 name2 r.game_id))
        × (u.redis.entries (game_key r.game_id) ≡ some (host_text c1 id1))
  handle_join-races moves stays =
      let e = ap (λ x. x.1) second_join in
      let first =
        handle_join-overtaken id1 d1 r c1 w between unheld quiet.healthy between-faults
          (subst (λ x. c1.elsewhere w ≡ some x) e moves)
          (subst
            (λ x. c1.elsewhere (entered c1 id1 r.game_id x) ≡ some (entered c1 id1 r.game_id x)) e
            stays)
          parsed1 s1 name1 here1 between-here idle1 named1
          (closed-push _ _ other_hosts s1.send_channel ∙ open1) there in
      rw (first, second_join) (refl, refl, both-first, both-second, both-entry)
