-- ===== src/Sound/Joins.antt =====
-- A request to join keeps the shard sound, on every way through the handler.
use grass.Prelude.{String, ◌≡◌, refl, Bool, true, false, Option, none, some, is_some, str_eq}
use grass.Models.Task.{Uuid}
use grass.Models.Request.{JoinRequest}
use grass.State.{World, Game, GameState, SocketClient, Context, PartialClient, RedisGame}
use grass.Exec.Keeps.{
  Keeps, Keeps-bind, Keeps-pure, Keeps-raise, Keeps-if, Keeps-asks, Keeps-unwrap, Keeps-or_raise,
  Keeps-map_err, Keeps-on_err, Keeps-ignore, keeps_rules,
}
use grass.Game.Delivery.{IsWired}
use grass.Game.Messages.{new_game}
use grass.Game.Members.{register}
use grass.Handlers.Parse.{parse}
use grass.Handlers.Join.{
  fetched, connected, fetch_game, admit, answer, join_as_host, ask_host, enter_game, join_elsewhere,
  join_hosted, join_game, handle_join, Applicant, Hosted,
}
use grass.Sound.{Sound, Rely, OwnGame}
use grass.Sound.Rules.{
  Keeps-later, Keeps-with_get, Keeps-with_get_mut, Keeps-with_game, Keeps-set_socket, KeepsGame,
  world_rules,
}
use grass.Sound.Games.{Keeps-register}
use grass.Sound.Owned.{register-KeepsGame}
use grass.Sound.Clients.{
  Keeps-with_client, Keeps-with_client_mut, Keeps-assign_game, Keeps-refuse, Keeps-reply,
  Keeps-drop_game, client_rules,
}

pub Keeps-parse :
    {A : Type 0} (f : grass.State.Serde → String → Option A) (d : Option String)
    → Keeps Rely Sound (parse f d)
unfolding parse
Keeps-parse f d = search keeps_rules depth 8

-- A new game is valid, if the players have their channels.
new_game-own :
    (host : Bool) (game_id : String) (id : Uuid) (self other : PartialClient)
    → self.id ≡ id
    → IsWired self
    → IsWired other
    → OwnGame id (new_game host game_id self other)
new_game-own true game_id id self other own w v = record {
  valid = record { hosting = refl; host_wired = v; self_wired = w; members = tt; closed = refl };
  own = own;
}
new_game-own false game_id id self other own w v = record {
  valid = record { hosting = refl; host_wired = v; self_wired = w; members = tt; closed = refl };
  own = own;
}

pub ruleset all_rules = (keeps_rules, world_rules, client_rules, Keeps-parse)

Keeps-fetched :
    (s : SocketClient) (n : String) (o : Option String) → Keeps Rely Sound (fetched s n o)
Keeps-fetched s n none = Keeps-refuse s _
Keeps-fetched s n (some g) = Keeps-pure _

Keeps-connected :
    (s : SocketClient) (n g : String) (o : Option (Unit {0})) → Keeps Rely Sound (connected s n g o)
Keeps-connected s n g none = Keeps-refuse s _
Keeps-connected s n g (some _) = Keeps-bind _ _ (search all_rules) (λ o. Keeps-fetched s n o)

Keeps-fetch_game :
    (s : SocketClient) (g : String) (o : Option String) → Keeps Rely Sound (fetch_game s g o)
unfolding fetch_game
Keeps-fetch_game s g none = Keeps-refuse s _
Keeps-fetch_game s g (some n) = Keeps-bind _ _ (search all_rules) (λ o. Keeps-connected s n g o)

Keeps-admit : (g : String) (s : SocketClient) → Keeps Rely Sound (admit g s)
unfolding admit
Keeps-admit g s = Keeps-if (is_some s.game) _ _ (Keeps-refuse s _) (Keeps-fetch_game s g s.nickname)

Keeps-answer : (g : String) (h ok : Bool) (s : SocketClient) → Keeps Rely Sound (answer g h ok s)
unfolding answer
Keeps-answer g h ok s = Keeps-reply s _ _ refl

Keeps-join_as_host : (id : Uuid) (g : String) → Keeps Rely Sound (join_as_host id g)
unfolding join_as_host
Keeps-join_as_host id g = Keeps-bind _ _ (Keeps-asks _) (λ c.
    Keeps-bind _ _ (search all_rules) (λ _. Keeps-bind _ _ (search all_rules) (λ _.
      Keeps-with_client_mut id _ (λ s h. Keeps-bind _ _ (Keeps-unwrap s.nickname) (λ n.
        Keeps-bind _ _ (Keeps-assign_game id s _ h (new_game-own true g id _ _ h.same_id refl refl))
          (λ _. Keeps-answer g true true s))))))

Keeps-ask_host :
    (g : String) (p : PartialClient) (host_id : Uuid) (o : Option SocketClient)
    → IsWired p
    → Keeps Rely Sound (ask_host g p host_id o)
unfolding ask_host
Keeps-ask_host g p host_id none wired = search all_rules depth 8
Keeps-ask_host g p host_id (some host) wired = Keeps-bind _ _ (Keeps-unwrap host.nickname) (λ n.
    Keeps-if (is_some host.game) _ _
      (Keeps-bind _ _
        (Keeps-map_err _ _
          (Keeps-with_game host_id (register p) (Keeps-register p) (register-KeepsGame p wired)))
        (λ a. Keeps-pure _))
      (search all_rules depth 8))

Keeps-enter_game :
    (id : Uuid) (g : String) (a : Applicant) (host_id : Uuid) (h : Hosted)
    → Keeps Rely Sound (enter_game id g a host_id h)
unfolding enter_game
Keeps-enter_game id g a host_id h = Keeps-bind _ _ (Keeps-asks _) (λ shard.
    Keeps-with_client_mut id _ (λ s own.
      Keeps-if h.accepted _ _
        (Keeps-bind _ _
          (Keeps-assign_game id s _ own (new_game-own false g id _ _ own.same_id refl refl))
          (λ _. Keeps-answer g false true s))
        (Keeps-answer g false false s)))

Keeps-join_elsewhere : (id : Uuid) (g : String) → Keeps Rely Sound (join_elsewhere id g)
unfolding join_elsewhere
Keeps-join_elsewhere id g = Keeps-bind _ _ (search all_rules) (λ _.
    Keeps-bind _ _ (search all_rules) (λ _. Keeps-later _ (
      Keeps-bind _ _ (Keeps-with_client id _ (λ s own. Keeps-answer g false false s))
        (λ _. Keeps-raise _))))

Keeps-join_hosted : (id : Uuid) (g : String) (a : Applicant) → Keeps Rely Sound (join_hosted id g a)
unfolding join_hosted
Keeps-join_hosted id g a = Keeps-bind _ _ (Keeps-asks _) (λ c.
    Keeps-bind _ _ (Keeps-or_raise _ _) (λ r.
      Keeps-if (str_eq r.shard_id c.shard_id) _ _
        (Keeps-bind _ _
          (Keeps-with_get_mut r.host_id _ (λ o own. Keeps-ask_host g _ r.host_id o refl))
          (λ h. Keeps-bind _ _ (search all_rules) (λ _. Keeps-enter_game id g a r.host_id h)))
        (Keeps-join_elsewhere id g)))

Keeps-join_game : (id : Uuid) (r : JoinRequest) → Keeps Rely Sound (join_game id r)
unfolding join_game
Keeps-join_game id r =
    Keeps-bind _ _ (Keeps-with_client id _ (λ s own. Keeps-admit r.game_id s)) (λ a.
      Keeps-bind _ _ (search all_rules) (λ _.
        Keeps-if (str_eq a.game "") _ _ (Keeps-join_as_host id r.game_id)
          (Keeps-join_hosted id r.game_id a)))

pub Keeps-handle_join : (id : Uuid) (d : Option String) → Keeps Rely Sound (handle_join id d)
unfolding handle_join
Keeps-handle_join id none = Keeps-raise _
Keeps-handle_join id (some d) =
    Keeps-bind _ _ (Keeps-asks _)
      (λ serde. Keeps-bind _ _ (Keeps-or_raise _ _) (λ r. Keeps-join_game id r))
