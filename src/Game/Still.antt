-- ===== src/Game/Still.antt =====
-- What a game does to anything but its own fields: it leaves the sockets alone. `S` is any property of the sockets at a time,
-- and `C` one of a game that its methods keep where they change a field.
use grass.Prelude.{none, ℕ, String, ◌≡◌, subst, sym, Option, List, [], ◌∷◌, arith}
use grass.Prelude.HashMap.{HashMap}
use grass.Models.Task.{Uuid}
use grass.Models.Default.{Payload}
use grass.Models.Response.{DefaultModel}
use grass.State.{
  World, Context, Game, GameState, SocketClient, PartialClient, Outgoing, SocketSender,
}
use grass.Exec.{Exec, modify}
use grass.Exec.Services.{send, pool_get, redis_get, redis_set, redis_del}
use grass.Exec.Sockets.{lift}
use grass.Exec.Keeps.{Keeps, Keeps-bind, Keeps-pure, Keeps-modify, keeps_rules}
use grass.Game.Messages.{send_message, check_host, send_clients, send_global}
use grass.Game.Members.{register, unregister, shutdown, introduce, dismiss}
use grass.Game.Start.{start}
use grass.Game.CodeTest.{find_task, prepare_code_test}

-- A game but for its clients and for the progress that its host is said to have.
abbrev pub game_face : Game → Game
game_face g = record g {
  connected_clients = none;
  partial_host = record (g.partial_host) { task_progress = none };
}

abbrev pub Seen : (ℕ → (Uuid → Option SocketClient) → Type 0) → World → Type 0
Seen S w = S w.clock w.sockets

abbrev pub SeenState :
    (ℕ → (Uuid → Option SocketClient) → Type 0) → (Game → Type 0) → GameState → Type 0
SeenState S C s = Seen S s.world × C (game_face s.game)

-- The same, while the clock stands still.
abbrev pub At :
    (ℕ → (Uuid → Option SocketClient) → Type 0) → ℕ → ℕ → (Uuid → Option SocketClient) → Type 0
At S k₀ k sockets = S k sockets × (k ≡ k₀)

abbrev pub Nothing : Game → Type 0
Nothing g = Unit {0}

module _ {R : Context → Type 0} (S : ℕ → (Uuid → Option SocketClient) → Type 0) where
  module _ {E A : Type 0} where
    -- An action that leaves the sockets alone.
    Keeps-still :
        (m : Exec World E A)
        → ((c : Context) (w : World) → (m c w).1.sockets ≡ w.sockets)
        → ((c : Context) (w : World) → (m c w).1.clock ≡ w.clock)
        → Keeps R (Seen S) m
    Keeps-still m still timeless = record {
      at = λ c w r h.
          subst (λ k. S k (m c w).1.sockets) (sym (timeless c w))
            (subst (S w.clock) (sym (still c w)) h);
    }

  pub Keeps-send : (k : SocketSender) (m : Outgoing) → Keeps R (Seen S) (send k m)
  unfolding send
  Keeps-send k m = Keeps-still (send k m) (λ c w. ground arith) (λ c w. ground arith)

  pub Keeps-pool_get : Keeps R (Seen S) pool_get
  unfolding pool_get
  Keeps-pool_get = Keeps-still pool_get (λ c w. ground arith) (λ c w. ground arith)

  pub Keeps-redis_get : (key : String) → Keeps R (Seen S) (redis_get key)
  unfolding redis_get
  Keeps-redis_get key = Keeps-still (redis_get key) (λ c w. ground arith) (λ c w. ground arith)

  pub Keeps-redis_set : (key value : String) → Keeps R (Seen S) (redis_set key value)
  unfolding redis_set
  Keeps-redis_set key value =
      Keeps-still (redis_set key value) (λ c w. ground arith) (λ c w. ground arith)

  pub Keeps-redis_del : (key : String) → Keeps R (Seen S) (redis_del key)
  unfolding redis_del
  Keeps-redis_del key = Keeps-still (redis_del key) (λ c w. ground arith) (λ c w. ground arith)

  pub Keeps-send_message :
      (p : PartialClient) (m : DefaultModel Payload) → Keeps R (Seen S) (send_message p m)
  unfolding send_message
  Keeps-send_message p m = search (keeps_rules, Keeps-send)

  Keeps-send_clients :
      (clients : HashMap PartialClient) (skip : Option (List Uuid)) (m : DefaultModel Payload)
      → Keeps R (Seen S) (send_clients clients skip m)
  unfolding send_clients
  Keeps-send_clients [] skip m = Keeps-pure tt
  Keeps-send_clients ((id, p) ∷ rest) skip m =
      Keeps-bind _ _ (search (keeps_rules, Keeps-send_message))
        (λ _. Keeps-send_clients rest skip m)

  Keeps-introduce :
      (g : Game) (p : PartialClient) (clients : HashMap PartialClient)
      → Keeps R (Seen S) (introduce g p clients)
  unfolding introduce
  Keeps-introduce g p [] = Keeps-pure tt
  Keeps-introduce g p ((id, q) ∷ rest) =
      Keeps-bind _ _ (search (keeps_rules, Keeps-send_message)) (λ _. Keeps-introduce g p rest)

  Keeps-dismiss : (clients : HashMap PartialClient) → Keeps R (Seen S) (dismiss clients)
  unfolding dismiss
  Keeps-dismiss [] = Keeps-pure tt
  Keeps-dismiss ((id, p) ∷ rest) =
      Keeps-bind _ _ (search (keeps_rules, Keeps-send_message)) (λ _. Keeps-dismiss rest)

  module _ (C : Game → Type 0) where
    module _ {E A : Type 0} where
      pub Keeps-lift : (m : Exec World E A) → Keeps R (Seen S) m → Keeps R (SeenState S C) (lift m)
      unfolding lift
      Keeps-lift m k = record { at = λ c s r h. (k.at c s.world r h.0, h.1) }

    pub Keeps-check_host : (g : Game) → Keeps R (SeenState S C) (check_host g)
    unfolding check_host
    Keeps-check_host g = search keeps_rules

    pub Keeps-send_global :
        (m : DefaultModel Payload) (skip : Option (List Uuid))
        → Keeps R (SeenState S C) (send_global m skip)
    unfolding send_global
    Keeps-send_global m skip =
        search (keeps_rules, Keeps-lift, Keeps-check_host, Keeps-send_clients, Keeps-send_message)
          depth 12

    module _ {E : Type 0} where
      pub Keeps-modify_game :
          (f : GameState → GameState)
          → ((s : GameState) → (f s).world ≡ s.world)
          → ((s : GameState) → C (game_face s.game) → C (game_face (f s).game))
          → Keeps R (SeenState S C) (modify {E = E} f)
      Keeps-modify_game f same k =
          Keeps-modify f (λ s h. (subst (Seen S) (sym (same s)) h.0, k s h.1))

    pub Keeps-register : (p : PartialClient) → Keeps R (SeenState S C) (register p)
    unfolding register
    Keeps-register p =
        search
          (
            keeps_rules, Keeps-lift, Keeps-introduce, Keeps-send_message, Keeps-send_global,
            Keeps-modify_game,
          )
          depth 16

    pub Keeps-unregister : (id : Uuid) → Keeps R (SeenState S C) (unregister id)
    unfolding unregister
    Keeps-unregister id = search (keeps_rules, Keeps-send_global, Keeps-modify_game) depth 16

    pub Keeps-find_task : (g : Game) (i : ℕ) → Keeps R (SeenState S C) (find_task g i)
    unfolding find_task
    Keeps-find_task g i = search keeps_rules depth 16

    pub Keeps-prepare_code_test : (i : ℕ) → Keeps R (SeenState S C) (prepare_code_test i)
    unfolding prepare_code_test
    Keeps-prepare_code_test i = search (keeps_rules, Keeps-check_host, Keeps-find_task) depth 16

  pub Keeps-start : (n : ℕ) → Keeps R (SeenState S Nothing) (start n)
  unfolding start
  Keeps-start n =
      search (keeps_rules, Keeps-check_host, Keeps-send_global, Keeps-modify_game) depth 16

  pub Keeps-shutdown : Keeps R (SeenState S Nothing) shutdown
  unfolding shutdown
  Keeps-shutdown =
      search
        (
          keeps_rules, Keeps-lift, Keeps-check_host, Keeps-dismiss, Keeps-send_message,
          Keeps-pool_get, Keeps-redis_del, Keeps-modify_game,
        )
        depth 16
