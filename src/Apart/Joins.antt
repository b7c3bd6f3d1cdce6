-- ===== src/Apart/Joins.antt =====
-- A request to join, but for the guest's own game.
use grass.Prelude.{ℕ, String, refl, ◌≡◌, Bool, true, false, Option, none, some, is_some, str_eq}
use grass.Models.Task.{Uuid}
use grass.Models.Request.{JoinRequest}
use grass.State.{Context, Game, SocketClient, PartialClient}
use grass.Exec.Keeps.{
  Keeps, Keeps-bind, Keeps-pure, Keeps-raise, Keeps-if, Keeps-asks, Keeps-or_raise, Keeps-map_err,
  Keeps-unwrap,
}
use grass.Game.Messages.{new_game}
use grass.Game.Members.{register}
use grass.Handlers.Join.{
  fetched, connected, fetch_game, admit, answer, join_as_host, ask_host, enter_game, join_elsewhere,
  join_hosted, join_game, handle_join, Applicant, Hosted,
}
use grass.Apart.{Sockets, Frame, Owner}
use grass.Game.Still.{Seen, At, Keeps-register}
use grass.Apart.Rules.{Keeps-await, Keeps-with_get_mut, Keeps-with_game}
use grass.Apart.Clients.{
  Keeps-with_client, Keeps-with_client_mut, Keeps-refuse, Keeps-reply, Keeps-assign_game,
  apart_rules,
}

module _ {R : Context → Type 0} {S : ℕ → Sockets → Type 0} {Entry : Uuid → Option Game → Type 0}
    (K : Frame R S Entry) where
  Keeps-fetched :
      (s : SocketClient) (n : String) (o : Option String) → Keeps R (Seen S) (fetched s n o)
  Keeps-fetched s n none = Keeps-refuse S s _
  Keeps-fetched s n (some g) = Keeps-pure _

  Keeps-connected :
      (s : SocketClient) (n g : String) (o : Option (Unit {0}))
      → Keeps R (Seen S) (connected s n g o)
  Keeps-connected s n g none = Keeps-refuse S s _
  Keeps-connected s n g (some _) = search (apart_rules, Keeps-fetched) depth 8

  Keeps-fetch_game :
      (s : SocketClient) (g : String) (o : Option String) → Keeps R (Seen S) (fetch_game s g o)
  unfolding fetch_game
  Keeps-fetch_game s g none = Keeps-refuse S s _
  Keeps-fetch_game s g (some n) = search (apart_rules, Keeps-connected) depth 8

  pub Keeps-admit : (g : String) (s : SocketClient) → Keeps R (Seen S) (admit g s)
  unfolding admit
  Keeps-admit g s =
      Keeps-if (is_some s.game) _ _ (Keeps-refuse S s _) (Keeps-fetch_game s g s.nickname)

  Keeps-answer : (g : String) (h ok : Bool) (s : SocketClient) → Keeps R (Seen S) (answer g h ok s)
  unfolding answer
  Keeps-answer g h ok s = Keeps-reply S s _ _

  pub Keeps-ask_host :
      (g : String) (p : PartialClient) (host_id : Uuid) (o : Option SocketClient)
      → Keeps R (Seen S) (ask_host g p host_id o)
  unfolding ask_host
  Keeps-ask_host g p host_id none = search apart_rules depth 8
  Keeps-ask_host g p host_id (some host) = Keeps-bind _ _ (Keeps-unwrap host.nickname) (λ n.
      Keeps-if (is_some host.game) _ _
        (Keeps-bind _ _
          (Keeps-map_err _ _ (
            Keeps-with_game K host_id (register p)
              (λ k₀ g₀. Keeps-register (At S k₀) (λ g. g ≡ g₀) p)))
          (λ a. Keeps-pure _))
        (search apart_rules depth 8))

  module _ (id : Uuid) where
    pub Keeps-join_elsewhere : (g : String) → Keeps R (Seen S) (join_elsewhere id g)
    unfolding join_elsewhere
    Keeps-join_elsewhere g = search (apart_rules, Keeps-answer) depth 16

    module _ (O : Owner R S Entry id) where
      pub Keeps-join_as_host : (g : String) → Keeps R (Seen S) (join_as_host id g)
      unfolding join_as_host
      Keeps-join_as_host g = Keeps-bind _ _ (Keeps-asks _) (λ c.
          Keeps-bind _ _ (search apart_rules) (λ _. Keeps-bind _ _ (Keeps-await K) (λ _.
            Keeps-with_client_mut K id _ (λ s e. Keeps-bind _ _ (Keeps-unwrap s.nickname) (λ n.
              Keeps-bind _ _ (Keeps-assign_game K id O s _ (O.hosting _ refl))
                (λ _. Keeps-answer g true true s))))))

      pub Keeps-enter_game :
          (g : String) (a : Applicant) (host_id : Uuid) (h : Hosted)
          → ((self host : PartialClient)
              → host.id ≡ host_id
              → Entry id (some (new_game false g self host)))
          → Keeps R (Seen S) (enter_game id g a host_id h)
      unfolding enter_game
      Keeps-enter_game g a host_id h seat = Keeps-bind _ _ (Keeps-asks _) (λ shard.
          Keeps-with_client_mut K id _ (λ s e.
            Keeps-if h.accepted _ _
              (Keeps-bind _ _ (Keeps-assign_game K id O s _ (seat _ _ refl))
                (λ _. Keeps-answer g false true s))
              (Keeps-answer g false false s)))

      -- Whatever game a guest may be seated in is allowed.
      module _
          (seats : (g : String) (self host : PartialClient)
            → Entry id (some (new_game false g self host))) where
        Keeps-join_hosted : (g : String) (a : Applicant) → Keeps R (Seen S) (join_hosted id g a)
        unfolding join_hosted
        Keeps-join_hosted g a = Keeps-bind _ _ (Keeps-asks _) (λ c.
            Keeps-bind _ _ (Keeps-or_raise _ _) (λ r.
              Keeps-if (str_eq r.shard_id c.shard_id) _ _
                (Keeps-bind _ _
                  (Keeps-with_get_mut K r.host_id _ (λ o e. Keeps-ask_host g _ r.host_id o))
                  (λ h.
                    Keeps-bind _ _ (Keeps-await K) (λ _.
                      Keeps-enter_game g a r.host_id h (λ self host same. seats g self host))))
                (Keeps-join_elsewhere g)))

        Keeps-join_game : (r : JoinRequest) → Keeps R (Seen S) (join_game id r)
        unfolding join_game
        Keeps-join_game r =
            Keeps-bind _ _ (Keeps-with_client K id _ (λ s. Keeps-admit r.game_id s)) (λ a.
              Keeps-bind _ _ (Keeps-await K) (λ _.
                Keeps-if (str_eq a.game "") _ _ (Keeps-join_as_host r.game_id)
                  (Keeps-join_hosted r.game_id a)))

        pub Keeps-handle_join : (d : Option String) → Keeps R (Seen S) (handle_join id d)
        unfolding handle_join
        Keeps-handle_join none = Keeps-raise _
        Keeps-handle_join (some d) =
            Keeps-bind _ _ (Keeps-asks _)
              (λ serde. Keeps-bind _ _ (Keeps-or_raise _ _) (λ r. Keeps-join_game r))
