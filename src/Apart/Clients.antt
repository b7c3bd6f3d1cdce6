-- ===== src/Apart/Clients.antt =====
-- What a connection does about its own socket and its game.
use grass.Prelude.{ℕ, String, ◌≡◌, Option, none, some, is_some}
use grass.Models.Task.{Uuid}
use grass.Models.Error.{ClientError}
use grass.Models.Response.{DefaultModel, ResponseData, ResponseOpCode}
use grass.Models.Default.{Payload}
use grass.State.{World, Context, Game, SocketClient, Outgoing, Serde}
use grass.Exec.{Exec}
use grass.Exec.Keeps.{
  Keeps, Keeps-bind, Keeps-pure, Keeps-if, Keeps-expect, Keeps-unwrap, Keeps-map_err, keeps_rules,
}
use grass.Game.Members.{drop_game, leave_host, unregister}
use grass.Client.{
  send_raw, send_model, report_error, refuse, reply, with_client, with_client_mut, drop_option,
  assign_game, drop_client, on_open, on_close, register_socket, unregister_socket,
}
use grass.Handlers.Parse.{parse}
use grass.Apart.{Sockets, Frame, Owner}
use grass.Game.Still.{
  Seen, At, Keeps-send, Keeps-pool_get, Keeps-redis_get, Keeps-redis_set, Keeps-redis_del,
  Keeps-send_message, Keeps-shutdown, Keeps-unregister,
}
use grass.Apart.Rules.{
  Keeps-set_socket, Keeps-await, Keeps-with_get, Keeps-with_get_mut, Keeps-with_game,
  Keeps-run_method, Keeps-unwrap_entry,
}

module _ {A : Type 0} {R : Context → Type 0} {P : World → Type 0} where
  pub Keeps-parse : (f : Serde → String → Option A) (d : Option String) → Keeps R P (parse f d)
  unfolding parse
  Keeps-parse f d = search keeps_rules depth 8

module _ {R : Context → Type 0} (S : ℕ → Sockets → Type 0) where
  pub Keeps-send_raw : (s : SocketClient) (m : Outgoing) → Keeps R (Seen S) (send_raw s m)
  unfolding send_raw
  Keeps-send_raw s m = search (keeps_rules, Keeps-send)

  pub Keeps-send_model :
      (s : SocketClient) (m : DefaultModel Payload) → Keeps R (Seen S) (send_model s m)
  unfolding send_model
  Keeps-send_model s m = Keeps-send_raw s _

  pub Keeps-report_error :
      (s : SocketClient) (e : ClientError) → Keeps R (Seen S) (report_error s e)
  unfolding report_error
  Keeps-report_error s e = Keeps-send_model s _

  pub Keeps-refuse :
      {A : Type 0} (s : SocketClient) (e : ClientError) → Keeps R (Seen S) (refuse {A = A} s e)
  unfolding refuse
  Keeps-refuse s e = search (keeps_rules, Keeps-report_error)

  pub Keeps-reply :
      (s : SocketClient) (d : ResponseData) (op : ResponseOpCode) → Keeps R (Seen S) (reply s d op)
  unfolding reply
  Keeps-reply s d op = Keeps-send_model s _

  module _ {E : Type 0} where
    pub Keeps-on_open : (s : SocketClient) → Keeps R (Seen S) (on_open {E = E} s)
    unfolding on_open
    Keeps-on_open s = search (keeps_rules, Keeps-send_model)

  pub Keeps-register_socket : (s : SocketClient) → Keeps R (Seen S) (register_socket s)
  unfolding register_socket
  Keeps-register_socket s = search (keeps_rules, Keeps-pool_get, Keeps-redis_set) depth 10

  pub Keeps-unregister_socket : (s : SocketClient) → Keeps R (Seen S) (unregister_socket s)
  unfolding unregister_socket
  Keeps-unregister_socket s = search (keeps_rules, Keeps-pool_get, Keeps-redis_del) depth 10

module _ {R : Context → Type 0} {S : ℕ → Sockets → Type 0} {Entry : Uuid → Option Game → Type 0}
    (K : Frame R S Entry) where
  module _ {A : Type 0} where
    pub Keeps-with_client :
        (id : Uuid) (body : SocketClient → Exec World ClientError A)
        → ((s : SocketClient) → Keeps R (Seen S) (body s))
        → Keeps R (Seen S) (with_client id body)
    unfolding with_client
    Keeps-with_client id body k = Keeps-with_get K id _ (λ o e. Keeps-bind _ _ (Keeps-unwrap o) k)

    -- A look at the own socket, of which something is known.
    pub Keeps-with_client_mut :
        (id : Uuid) (body : SocketClient → Exec World ClientError A)
        → ((s : SocketClient) → Entry id s.game → Keeps R (Seen S) (body s))
        → Keeps R (Seen S) (with_client_mut id body)
    unfolding with_client_mut
    Keeps-with_client_mut id body k =
        Keeps-with_get_mut K id _ (λ o e. Keeps-unwrap_entry K id o body e k)

  Keeps-leave_host :
      (host_id client_id : Uuid) (o : Option SocketClient)
      → Keeps R (Seen S) (leave_host host_id client_id o)
  Keeps-leave_host host_id client_id none = Keeps-pure tt
  Keeps-leave_host host_id client_id (some host) =
      Keeps-if (is_some host.game) _ _
        (Keeps-with_game K host_id (unregister client_id)
          (λ k₀ g₀. Keeps-unregister (At S k₀) (λ g. g ≡ g₀) client_id))
        (Keeps-pure tt)

  module _ {E : Type 0} where
    -- Dropping a game, be it a host's or a guest's.
    pub Keeps-drop_game : (g : Game) → Keeps R (Seen S) (drop_game {E = E} g)
    unfolding drop_game
    Keeps-drop_game g =
        Keeps-if g.is_host _ _
          (search (keeps_rules, Keeps-run_method, Keeps-shutdown, Keeps-pool_get, Keeps-redis_del)
            depth 12)
          (Keeps-if g.partial_host.is_local _ _
            (Keeps-bind _ _
              (Keeps-expect _ (
                Keeps-with_get_mut K g.partial_host.id _
                  (λ o e. Keeps-leave_host g.partial_host.id g.partial_client.id o)))
              (λ _. search (keeps_rules, Keeps-send_message)))
            (Keeps-pure tt))

    pub Keeps-drop_option : (o : Option Game) → Keeps R (Seen S) (drop_option {E = E} o)
    Keeps-drop_option none = Keeps-pure tt
    Keeps-drop_option (some g) = Keeps-drop_game g

    pub Keeps-drop_client : (s : SocketClient) → Keeps R (Seen S) (drop_client {E = E} s)
    unfolding drop_client
    Keeps-drop_client s = search (keeps_rules, Keeps-send_model, Keeps-drop_option) depth 10

  module _ (id : Uuid) (O : Owner R S Entry id) where
    pub Keeps-assign_game :
        (s : SocketClient) (g : Game) → Entry id (some g) → Keeps R (Seen S) (assign_game id s g)
    unfolding assign_game
    Keeps-assign_game s g e =
        Keeps-bind _ _ (Keeps-drop_option s.game) (λ _. Keeps-set_socket K id _ O e)

    pub Keeps-on_close : {E : Type 0} (s : SocketClient) → Keeps R (Seen S) (on_close {E = E} id s)
    unfolding on_close
    Keeps-on_close s =
        Keeps-bind _ _ (Keeps-set_socket K id _ O O.without) (λ _. Keeps-drop_option s.game)

pub ruleset apart_rules = (
  keeps_rules, Keeps-pool_get, Keeps-redis_get, Keeps-redis_set, Keeps-redis_del, Keeps-await,
  Keeps-refuse, Keeps-reply, Keeps-parse, Keeps-with_client, Keeps-drop_game, Keeps-drop_option,
)
