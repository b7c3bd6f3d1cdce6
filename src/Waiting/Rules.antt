-- ===== src/Waiting/Rules.antt =====
-- The rules of Exec/Ends for the calls that touch the world.
use grass.Prelude.{String, ◌≡◌, refl, false, Option, none, some, arith}
use grass.Models.Task.{Uuid}
use grass.State.{Context, World, Game, GameState, SocketClient, Outgoing, SocketSender, read, write}
use grass.Exec.{◌>>◌, Exec}
use grass.Exec.Services.{send, pool_get, redis_get, redis_set, redis_del}
use grass.Exec.Sockets.{
  resumed, with_get, with_get_mut, with_game, run_method, set_socket, lift, await, hold,
  blocks_read, blocks_write, run_option_game, run_option_socket,
}
use grass.Exec.Ends.{Ends-bind, is_deadlocked, Ends}

module _ {R : Context → Type 0} where
  pub Ends-send : (k : SocketSender) (m : Outgoing) → Ends R (send k m)
  unfolding send
  Ends-send k m = record { at = λ c w r. ground arith }

  pub Ends-pool_get : Ends R pool_get
  unfolding pool_get
  Ends-pool_get = record { at = λ c w r. ground arith }

  pub Ends-redis_get : (key : String) → Ends R (redis_get key)
  unfolding redis_get
  Ends-redis_get key = record { at = λ c w r. ground arith }

  pub Ends-redis_set : (key value : String) → Ends R (redis_set key value)
  unfolding redis_set
  Ends-redis_set key value = record { at = λ c w r. ground arith }

  pub Ends-redis_del : (key : String) → Ends R (redis_del key)
  unfolding redis_del
  Ends-redis_del key = record { at = λ c w r. ground arith }

resumed_ends :
    (E : Type 0) (w : World) (o : Option World) → is_deadlocked (resumed {E = E} w o).0 ≡ false
resumed_ends E w none = refl
resumed_ends E w (some v) = refl

module _ {E : Type 0} {R : Context → Type 0} where
  pub Ends-set_socket : (id : Uuid) (o : Option SocketClient) → Ends R (set_socket {E = E} id o)
  unfolding set_socket
  Ends-set_socket id o = record { at = λ c w r. refl }

  pub Ends-await : Ends R (await {E = E})
  unfolding await
  Ends-await = record { at = λ c w r. resumed_ends E w (c.elsewhere w) }

module _ {E A : Type 0} {R : Context → Type 0} where
  pub Ends-later : (m : Exec World E A) → Ends R m → Ends R (await >> m)
  Ends-later m e = Ends-bind _ _ Ends-await (λ _. e)

  pub Ends-lift : (m : Exec World E A) → Ends R m → Ends R (lift m)
  unfolding lift
  Ends-lift m em = record { at = λ c s r. em.at c s.world r }

  pub Ends-run_method : (g : Game) (m : Exec GameState E A) → Ends R m → Ends R (run_method g m)
  unfolding run_method
  Ends-run_method g m em = record { at = λ c w r. em.at c _ r }

  option_game-Ends :
      (id : Uuid) (s : SocketClient) (o : Option Game) (m : Exec GameState E A)
      → Ends R m
      → Ends R (run_option_game id s o m)
  option_game-Ends id s none m em = record { at = λ c w r. refl }
  option_game-Ends id s (some g) m em = record { at = λ c w r. em.at c _ r }

  option_socket-Ends :
      (id : Uuid) (o : Option SocketClient) (m : Exec GameState E A)
      → Ends R m
      → Ends R (run_option_socket id o m)
  option_socket-Ends id none m em = record { at = λ c w r. refl }
  option_socket-Ends id (some s) m em = option_game-Ends id s s.game m em

  pub Ends-with_game : (id : Uuid) (m : Exec GameState E A) → Ends R m → Ends R (with_game id m)
  unfolding with_game
  Ends-with_game id m em = record {
    at = λ c w r. (option_socket-Ends id (w.sockets id) m em).at c w r;
  }

module _ {E A : Type 0} {R : Context → Type 0} (Q : Context → Type 0) where
  -- The lock is free, and what runs under the guard ends in the context that has it.
  pub Ends-with_get :
      (id : Uuid) (body : Option SocketClient → Exec World E A)
      → ((c : Context) → R c → blocks_read c.queued (c.lock_of id) c.held ≡ false)
      → ((c : Context) (o : Option SocketClient) → R c → Q (hold c o (read (c.lock_of id))))
      → ((o : Option SocketClient) → Ends Q (body o))
      → Ends R (with_get id body)
  unfolding with_get
  Ends-with_get id body free under k = record {
    at = λ c w r. rw (free c r) ((k (w.sockets id)).at _ w (under c (w.sockets id) r));
  }

  pub Ends-with_get_mut :
      (id : Uuid) (body : Option SocketClient → Exec World E A)
      → ((c : Context) → R c → blocks_write (c.lock_of id) c.held ≡ false)
      → ((c : Context) (o : Option SocketClient) → R c → Q (hold c o (write (c.lock_of id))))
      → ((o : Option SocketClient) → Ends Q (body o))
      → Ends R (with_get_mut id body)
  unfolding with_get_mut
  Ends-with_get_mut id body free under k = record {
    at = λ c w r. rw (free c r) ((k (w.sockets id)).at _ w (under c (w.sockets id) r));
  }

pub ruleset lock_rules = (
  Ends-send, Ends-pool_get, Ends-redis_get, Ends-redis_set, Ends-redis_del, Ends-set_socket,
  Ends-await, Ends-lift, Ends-run_method, Ends-with_game,
)
