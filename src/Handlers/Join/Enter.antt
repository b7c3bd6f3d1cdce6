-- ===== src/Handlers/Join/Enter.antt =====
-- A join of a game that is hosted on this shard, by a client that is in no game.
use grass.Prelude.{
  String, ◌≡◌, refl, ap, ◌∙◌, Bool, true, false, Option, none, some, ◌==◌, str_eq, is_some, arith,
  if◌then◌else◌, Bool-cases, inl, inr,
}
use grass.Prelude.HashMap.{HashMap, insert}
use grass.Models.Task.{Uuid}
use grass.Models.Request.{JoinRequest}
use grass.State.{World, Context, SocketClient, PartialClient, Game, RedisGame, update, write}
use grass.Exec.{ok, ◌>>=◌, unwrap, or_raise, map_err}
use grass.Exec.Services.{send, game_key}
use grass.Exec.Sockets.{with_get_mut, with_game, await, hold, set_socket}
use grass.Game.Messages.{new_partial_client, new_game}
use grass.Game.Delivery.{push}
use grass.Game.Invariant.{IsValid}
use grass.Game.Members.{register}
use grass.Game.Members.Laws.{with_clients, welcome}
use grass.Game.Members.Branches.{register-welcome}
use grass.Game.Members.Welcome.{sockets-welcome, closed-welcome}
use grass.Client.{with_client_mut, assign_game, reply, send_model, send_raw}
use grass.Handlers.Hosting.{with_host_game, with_host_game-same}
use grass.Handlers.Join.{Applicant, Hosted, ask_host, enter_game, join_hosted, handle_join, answer}
use grass.Handlers.Join.Laws.{Quiet, answered, handle_join-fetched}

-- The newcomer, as the host's game is to know it.
abbrev pub newcomer : Context → Uuid → SocketClient → String → PartialClient
newcomer c id s name = new_partial_client id name c.shard_id true (some s.send_channel)

-- The host's game has the newcomer, and the players have been told of one another.
abbrev pub admitted :
    Context
    → Uuid
    → SocketClient
    → String
    → Uuid
    → SocketClient
    → Game
    → HashMap PartialClient
    → World
    → World
admitted c id s name host_id h hg clients w =
    with_host_game host_id h (with_clients (insert clients id (newcomer c id s name)) hg)
      (welcome hg (newcomer c id s name) clients w)

-- The guest's socket has its own view of the game.
abbrev pub guest_socket :
    Context → SocketClient → String → String → Uuid → SocketClient → String → SocketClient
guest_socket c s name game_id host_id h host_name = record s {
  game = some (
      new_game false game_id (new_partial_client s.id name c.shard_id true (some s.send_channel))
        (new_partial_client host_id host_name c.shard_id true (some h.send_channel)));
}

abbrev pub seated : Uuid → SocketClient → World → World
seated id s w = record w { sockets = update w.sockets id (some s) }

module _ (id : Uuid) (game_id : String) (c : Context) (s : SocketClient) (name : String)
    (t : String) (g : RedisGame) (h : SocketClient) (host_name : String) (hg : Game)
    (clients : HashMap PartialClient) (w : World) (quiet : Quiet c w)
    (knows : c.serde.redis_game t ≡ some g) (near : str_eq g.shard_id c.shard_id ≡ true)
    (host_here : w.sockets g.host_id ≡ some h) (host_named : h.nickname ≡ some host_name)
    (hosts : h.game ≡ some hg) (v : IsValid hg) (host : hg.is_host ≡ true)
    (some_clients : hg.connected_clients ≡ some clients) where
  abbrev hosted : Bool → Hosted
  hosted b = record { accepted = b; nickname = host_name; channel = h.send_channel }

  registered :
      (a : Option (Unit {0})) (g' : Game) (w' : World)
      → register
          (newcomer c id s name)
          (hold c (some h) (write (c.lock_of g.host_id)))
          (record { game = hg; world = w })
        ≡ (ok a, record { game = g'; world = w' })
      → with_get_mut g.host_id (ask_host game_id (newcomer c id s name) g.host_id) c w
        ≡ (ok (hosted (is_some a)), with_host_game g.host_id h g' w')
  unfolding with_get_mut ask_host with_game map_err ◌>>=◌
  registered a g' w' runs = let free = quiet.unheld in ground (arith, runs)

  ask_step : with_get_mut g.host_id (ask_host game_id (newcomer c id s name) g.host_id) c w ≡ (
      if hg.public
      then (ok (hosted true), admitted c id s name g.host_id h hg clients w)
      else (ok (hosted false), w))
  ask_step =
      let run =
        register-welcome (newcomer c id s name) (hold c (some h) (write (c.lock_of g.host_id)))
          (record { game = hg; world = w }) clients v host some_clients refl in
      elim (Bool-cases hg.public) [
        | inl open_ ↦
            registered (some tt) (with_clients (insert clients id (newcomer c id s name)) hg)
              (welcome hg (newcomer c id s name) clients w) (run ∙ (simp open_))
            ∙ (simp open_)
        | inr shut ↦
            registered none hg w (run ∙ (simp shut))
            ∙ (simp (shut, with_host_game-same g.host_id h hg w host_here hosts))
      ]

  module _ (idle : s.game ≡ none) where
    abbrev applicant : Applicant
    applicant = record { game = t; nickname = name; channel = s.send_channel }

    entered :
        (b : Bool) (u : World)
        → u.sockets id ≡ some s
        → (u.channels s.send_channel).closed ≡ false
        → enter_game id game_id applicant g.host_id (hosted b) c u ≡ (
          ok tt,
          answered s game_id false b
              (if b then seated id (guest_socket c s name game_id g.host_id h host_name) u else u),
        )
    unfolding enter_game answer reply send_model send_raw send push assign_game with_client_mut
        with_get_mut set_socket map_err ◌>>=◌
    entered true u here open_ = rw (quiet.unheld, here, unwrap, idle, open_) refl
    entered false u here open_ = rw (quiet.unheld, here, unwrap, open_) refl

    module _ (here : w.sockets id ≡ some s) (open_ : (w.channels s.send_channel).closed ≡ false)
        (apart : (g.host_id == id) ≡ false) where
      abbrev inside : World
      inside = admitted c id s name g.host_id h hg clients w

      asked :
          (b : Bool) (u : World)
          → with_get_mut g.host_id (ask_host game_id (newcomer c id s name) g.host_id) c w
            ≡ (ok (hosted b), u)
          → join_hosted id game_id applicant c w
            ≡ enter_game id game_id applicant g.host_id (hosted b) c u
      unfolding join_hosted await ◌>>=◌
      asked b u answers = rw (knows, or_raise, near, answers, quiet.alone) refl

      still_here : inside.sockets id ≡ some s
      still_here =
          rw apart (ap (λ f. f id) (sockets-welcome hg (newcomer c id s name) clients w) ∙ here)

      join_hosted-entry : join_hosted id game_id applicant c w ≡ (
        ok tt,
        if hg.public
            then answered s game_id false true
                (seated id (guest_socket c s name game_id g.host_id h host_name) inside)
            else answered s game_id false false w,
      )
      join_hosted-entry = elim (Bool-cases hg.public) [
        | inl open_game ↦
            asked true inside (ask_step ∙ (simp open_game))
            ∙ entered true inside still_here
                (closed-welcome hg (newcomer c id s name) clients w s.send_channel ∙ open_)
            ∙ (simp open_game)
        | inr shut ↦
            asked false w (ask_step ∙ (simp shut)) ∙ entered false w here open_ ∙ (simp shut)
      ]

module _ (id : Uuid) (d : String) (r : JoinRequest) (c : Context) (w : World) (quiet : Quiet c w)
    (parsed : c.serde.join_request d ≡ some r) (s : SocketClient) (name : String)
    (here : w.sockets id ≡ some s) (idle : s.game ≡ none) (named : s.nickname ≡ some name)
    (open_ : (w.channels s.send_channel).closed ≡ false) (t : String)
    (there : w.redis.entries (game_key r.game_id) ≡ some t) (full : str_eq t "" ≡ false) where
  -- A join of a game that a client of this shard hosts, in a valid game: an open game takes the client in,
  -- the players and the newcomer are told of one another, the client's socket has its own view of the game,
  -- and it is told so; a closed game refuses it, and it is told that alone. The client has a name, is in no
  -- game, is not the host and has an open channel, the host has a name and the clients' table, no guard is
  -- held, no other task runs in between and Redis is in order.
  pub handle_join-enters :
      (g : RedisGame) (h : SocketClient) (host_name : String) (hg : Game)
      (clients : HashMap PartialClient)
      → c.serde.redis_game t ≡ some g
      → str_eq g.shard_id c.shard_id ≡ true
      → w.sockets g.host_id ≡ some h
      → h.nickname ≡ some host_name
      → h.game ≡ some hg
      → IsValid hg
      → hg.is_host ≡ true
      → hg.connected_clients ≡ some clients
      → (g.host_id == id) ≡ false
      → handle_join id (some d) c w ≡ (
        ok tt,
        if hg.public
            then answered s r.game_id false true (
                seated id
                  (guest_socket c s name r.game_id g.host_id h host_name)
                  (admitted c id s name g.host_id h hg clients w))
            else answered s r.game_id false false w,
      )
  handle_join-enters g h host_name hg clients knows near host_here host_named hosts v host
        some_clients apart =
      handle_join-fetched id d r c w quiet parsed s name here idle named t there full
      ∙ join_hosted-entry id r.game_id c s name t g h host_name hg clients w quiet knows near
          host_here host_named hosts v host some_clients idle here open_ apart
