-- ===== src/Waiting/Joins.antt =====
-- A join, where other tasks run between its parts: the client's socket must keep a game that can be dropped
-- under its own guard.
use grass.Waiting.Rules.{Ends-later}
use grass.Prelude.{
  String, ◌≡◌, refl, Bool, true, false, Option, none, some, is_some, str_eq, if◌then◌else◌,
}
use grass.Models.Task.{Uuid}
use grass.Models.Error.{ClientError}
use grass.Models.Request.{JoinRequest}
use grass.State.{Context, World, SocketClient, PartialClient}
use grass.Exec.{Exec, Outcome, ok, err, panicked, deadlocked, suspended, continue, ◌>>=◌}
use grass.Exec.Keeps.{Keeps-map_err, Keeps, Keeps-asks, Keeps-or_raise}
use grass.Exec.Sockets.{await, resumed}
use grass.Exec.Ends.{
  Ends, Ends-bind, Ends-pure, Ends-raise, Ends-asks, Ends-unwrap, Ends-or_raise, Ends-if,
  is_deadlocked,
}
use grass.Client.{with_client_mut}
use grass.Handlers.Join.{
  Applicant, Hosted, fetched, connected, fetch_game, admit, answer, join_as_host, ask_host,
  enter_game, join_elsewhere, join_hosted, join_game, handle_join,
}
use grass.Waiting.{IsFree, Unheld, Unguarded}
use grass.Game.Still.{Keeps-redis_set}
use grass.Apart.Rules.{Keeps-with_get_mut}
use grass.Apart.Clients.{Keeps-with_client}
use grass.Apart.Joins.{Keeps-admit, Keeps-ask_host}
use grass.Waiting.Free.{FreeSockets, Free, Stays, free}
use grass.Waiting.Games.{Ends-register, Ends-refuse, Ends-reply, calm_rules}
use grass.Waiting.Guards.{
  Holding, Ends-with_client, Ends-unguarded_mut, with_client_mut_ends, Ends-assign_game,
}

module _ {R : Context → Type 0} where
  Ends-fetched : (s : SocketClient) (n : String) (o : Option String) → Ends R (fetched s n o)
  Ends-fetched s n none = Ends-refuse s _
  Ends-fetched s n (some g) = Ends-pure _

  Ends-connected :
      (s : SocketClient) (n g : String) (o : Option (Unit {0})) → Ends R (connected s n g o)
  Ends-connected s n g none = Ends-refuse s _
  Ends-connected s n g (some _) = Ends-bind _ _ (search calm_rules) (λ o. Ends-fetched s n o)

  Ends-fetch_game : (s : SocketClient) (g : String) (o : Option String) → Ends R (fetch_game s g o)
  unfolding fetch_game
  Ends-fetch_game s g none = Ends-refuse s _
  Ends-fetch_game s g (some n) = Ends-bind _ _ (search calm_rules) (λ o. Ends-connected s n g o)

  Ends-admit : (g : String) (s : SocketClient) → Ends R (admit g s)
  unfolding admit
  Ends-admit g s = Ends-if (is_some s.game) _ _ (Ends-refuse s _) (Ends-fetch_game s g s.nickname)

  Ends-answer : (g : String) (h success : Bool) (s : SocketClient) → Ends R (answer g h success s)
  unfolding answer
  Ends-answer g h success s = Ends-reply s _ _

  Ends-ask_host :
      (g : String) (p : PartialClient) (host_id : Uuid) (o : Option SocketClient)
      → Ends R (ask_host g p host_id o)
  unfolding ask_host
  Ends-ask_host g p host_id none = search calm_rules depth 8
  Ends-ask_host g p host_id (some host) = search (calm_rules, Ends-register) depth 10

Ends-join_elsewhere : (id : Uuid) (g : String) → Ends Unheld (join_elsewhere id g)
unfolding join_elsewhere
Ends-join_elsewhere id g = Ends-bind _ _ (search calm_rules) (λ _.
    Ends-bind _ _ (search calm_rules) (λ _. Ends-later _ (
      Ends-bind _ _ (Ends-with_client id _ (λ s. Ends-answer g false false s))
        (λ _. Ends-raise _))))

module _ (id : Uuid) (c : Context) (u : Unguarded id c) where
  -- From a world in which the client's game can be dropped the run does not wait for ever.
  abbrev Ready : {A : Type 0} → Exec World ClientError A → Type 0
  Ready m = (w : World) → IsFree c.lock_of id w → is_deadlocked (m c w).0 ≡ false

  module _ {A : Type 0} where
    Ready-Ends : (m : Exec World ClientError A) → Ends Unheld m → Ready m
    Ready-Ends m e w h = e.at c w u.unheld

    Ready-await : (k : Unit {0} → Exec World ClientError A) → Ready (k tt) → Ready (await >>= k)
    unfolding ◌>>=◌ await
    Ready-await k r w h = ready (c.elsewhere w) refl
      where
        ready :
            (o : Option World)
            → c.elsewhere w ≡ o
            → is_deadlocked
                (continue (resumed {E = ClientError} w o).0 k c (resumed {E = ClientError} w o).1).0
              ≡ false
        ready none e = refl
        ready (some v) e = r v (u.free w v e h)

    Ready-with_client_mut :
        (body : SocketClient → Exec World ClientError A)
        → ((s : SocketClient) → Ends (Holding id s.game) (body s))
        → Ready (with_client_mut id body)
    Ready-with_client_mut body k w h = with_client_mut_ends id body k c w u.unheld h

    Ready-if :
        (b : Bool) (m n : Exec World ClientError A) → Ready m → Ready n → Ready (if b then m else n)
    Ready-if true m n r q = r
    Ready-if false m n r q = q

  module _ {A B : Type 0} where
    continue-Ready :
        (o : Outcome ClientError A) (f : A → Exec World ClientError B) (w : World)
        → ((a : A) → Ready (f a))
        → IsFree c.lock_of id w
        → is_deadlocked o ≡ false
        → is_deadlocked (continue o f c w).0 ≡ false
    continue-Ready (ok a) f w k h e = k a w h
    continue-Ready (err x) f w k h e = refl
    continue-Ready panicked f w k h e = refl
    continue-Ready deadlocked f w k h e = e
    continue-Ready suspended f w k h e = e

    Ready-bind :
        (m : Exec World ClientError A) (f : A → Exec World ClientError B)
        → Ends Unheld m
        → Keeps (Stays c.lock_of id) (Free c.lock_of id) m
        → ((a : A) → Ready (f a))
        → Ready (m >>= f)
    unfolding ◌>>=◌
    Ready-bind m f e kept k w h =
        continue-Ready (m c w).0 f (m c w).1 k (kept.at c w u.free h) (e.at c w u.unheld)

  Ready-join_as_host : (g : String) → Ready (join_as_host id g)
  unfolding join_as_host
  Ready-join_as_host g = Ready-bind _ _ (Ends-asks _) (Keeps-asks _) (λ c'.
      Ready-bind _ _ (search calm_rules)
        (Keeps-map_err _ _ (Keeps-redis_set (λ k. FreeSockets c.lock_of id) _ _))
        (λ _. Ready-await _ (
          Ready-with_client_mut _ (λ s.
            Ends-bind _ _ (Ends-unwrap s.nickname)
              (λ n. Ends-bind _ _ (Ends-assign_game id s _) (λ _. Ends-answer g true true s))))))

  Ready-enter_game :
      (g : String) (a : Applicant) (host_id : Uuid) (h : Hosted)
      → Ready (enter_game id g a host_id h)
  unfolding enter_game
  Ready-enter_game g a host_id h = Ready-bind _ _ (Ends-asks _) (Keeps-asks _) (λ shard.
      Ready-with_client_mut _ (λ s.
        Ends-if h.accepted _ _
          (Ends-bind _ _ (Ends-assign_game id s _) (λ _. Ends-answer g false true s))
          (Ends-answer g false false s)))

  Ready-join_hosted : (g : String) (a : Applicant) → Ready (join_hosted id g a)
  unfolding join_hosted
  Ready-join_hosted g a = Ready-bind _ _ (Ends-asks _) (Keeps-asks _) (λ c'.
      Ready-bind _ _ (Ends-or_raise _ _) (Keeps-or_raise _ _) (λ r.
        Ready-if (str_eq r.shard_id c'.shard_id) _ _
          (Ready-bind _ _ (Ends-unguarded_mut r.host_id _ (λ o. Ends-ask_host g _ r.host_id o))
            (Keeps-with_get_mut (free c.lock_of id) r.host_id _
              (λ o e. Keeps-ask_host (free c.lock_of id) g _ r.host_id o))
            (λ h. Ready-await _ (Ready-enter_game g a r.host_id h)))
          (Ready-Ends _ (Ends-join_elsewhere id g))))

  Ready-join_game : (r : JoinRequest) → Ready (join_game id r)
  unfolding join_game
  Ready-join_game r =
      Ready-bind _ _ (Ends-with_client id _ (λ s. Ends-admit r.game_id s))
        (Keeps-with_client (free c.lock_of id) id _
          (λ s. Keeps-admit (free c.lock_of id) r.game_id s))
        (λ a. Ready-await _ (
          Ready-if (str_eq a.game "") _ _ (Ready-join_as_host r.game_id)
            (Ready-join_hosted r.game_id a)))

  pub handle_join_ends : (d : Option String) → Ready (handle_join id d)
  unfolding handle_join
  handle_join_ends none = Ready-Ends _ (Ends-raise _)
  handle_join_ends (some d) =
      Ready-bind _ _ (Ends-asks _) (Keeps-asks _)
        (λ serde. Ready-bind _ _ (Ends-or_raise _ _) (Keeps-or_raise _ _) (λ r. Ready-join_game r))
