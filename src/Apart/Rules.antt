-- ===== src/Apart/Rules.antt =====
-- The rules for the calls that touch the map of sockets.
use grass.Prelude.{ℕ, ◌≡◌, refl, sym, subst, Option, none, some, Bool-cases, inl, inr}
use grass.Models.Task.{Uuid}
use grass.State.{World, Context, Game, GameState, SocketClient, read, write, update}
use grass.Exec.{Exec, unwrap, ◌>>=◌, ◌>>◌}
use grass.Exec.Sockets.{
  with_get, with_get_mut, with_game, run_method, set_socket, await, hold, blocks_read, blocks_write,
  run_option_game, run_option_socket, resumed_keeps,
}
use grass.Exec.Keeps.{Keeps, Keeps-bind}
use grass.Apart.{Sockets, Frame, Owner, Entries}
use grass.Game.Still.{game_face, Seen, SeenState, Nothing, At}

module _ {R : Context → Type 0} {S : ℕ → Sockets → Type 0} {Entry : Uuid → Option Game → Type 0}
    (K : Frame R S Entry) where
  module _ {E : Type 0} where
    pub Keeps-set_socket :
        (id : Uuid) (o : Option SocketClient)
        → Owner R S Entry id
        → Entries Entry id o
        → Keeps R (Seen S) (set_socket {E = E} id o)
    unfolding set_socket
    Keeps-set_socket id o O e = record { at = λ c w r h. O.set w.clock w.sockets o e h }

    pub Keeps-await : Keeps R (Seen S) (await {E = E})
    unfolding await
    Keeps-await = record {
      at = λ c w r h. resumed_keeps E (Seen S) (c.elsewhere w) w (λ v e. K.elsewhere c w v r e h) h;
    }

  module _ {E A : Type 0} where
    pub Keeps-later : (m : Exec World E A) → Keeps R (Seen S) m → Keeps R (Seen S) (await >> m)
    Keeps-later m k = Keeps-bind _ _ Keeps-await (λ _. k)

    -- What runs under a guard may use what is known of the socket there.
    pub Keeps-with_get :
        (id : Uuid) (body : Option SocketClient → Exec World E A)
        → ((o : Option SocketClient) → Entries Entry id o → Keeps R (Seen S) (body o))
        → Keeps R (Seen S) (with_get id body)
    unfolding with_get
    Keeps-with_get id body k = record {
      at = λ c w r h. elim (Bool-cases (blocks_read c.queued (c.lock_of id) c.held)) [
        | inl stuck ↦ rw stuck h
        | inr free ↦ rw free (
            (k (w.sockets id) (K.entry w.clock w.sockets id h)).at
              (hold c (w.sockets id) (read (c.lock_of id))) w (K.holding c (w.sockets id) _ r) h)
      ];
    }

    pub Keeps-with_get_mut :
        (id : Uuid) (body : Option SocketClient → Exec World E A)
        → ((o : Option SocketClient) → Entries Entry id o → Keeps R (Seen S) (body o))
        → Keeps R (Seen S) (with_get_mut id body)
    unfolding with_get_mut
    Keeps-with_get_mut id body k = record {
      at = λ c w r h. elim (Bool-cases (blocks_write (c.lock_of id) c.held)) [
        | inl stuck ↦ rw stuck h
        | inr free ↦ rw free (
            (k (w.sockets id) (K.entry w.clock w.sockets id h)).at
              (hold c (w.sockets id) (write (c.lock_of id))) w (K.holding c (w.sockets id) _ r) h)
      ];
    }

    -- `o.unwrap()` of the socket behind a guard.
    pub Keeps-unwrap_entry :
        (id : Uuid) (o : Option SocketClient) (body : SocketClient → Exec World E A)
        → Entries Entry id o
        → ((s : SocketClient) → Entry id s.game → Keeps R (Seen S) (body s))
        → Keeps R (Seen S) (unwrap o >>= body)
    unfolding ◌>>=◌
    Keeps-unwrap_entry id none body e k = record { at = λ c w r h. h }
    Keeps-unwrap_entry id (some s) body e k = record { at = λ c w r h. (k s e).at c w r h }

    pub Keeps-run_method :
        (g : Game) (m : Exec GameState E A)
        → Keeps R (SeenState S Nothing) m
        → Keeps R (Seen S) (run_method g m)
    unfolding run_method
    Keeps-run_method g m k = record {
      at = λ c w r h. (k.at c (record { game = g; world = w }) r (h, tt)).0;
    }

  -- A method that keeps the face of its game.
  module _ {E A : Type 0} (id : Uuid) (m : Exec GameState E A)
      (k : (k₀ : ℕ) (g₀ : Game) → Keeps R (SeenState (At S k₀) (λ g. g ≡ g₀)) m) where
    run_game-Seen :
        (s : SocketClient) (o : Option Game) (c : Context) (w : World)
        → R c
        → Seen S w
        → w.sockets id ≡ some s
        → s.game ≡ o
        → Seen S (run_option_game id s o m c w).1
    run_game-Seen s none c w r h here playing = h
    run_game-Seen s (some g) c w r h here playing =
        let run = m c (record { game = g; world = w }) in
        let after =
          (k w.clock (game_face g)).at c (record { game = g; world = w }) r ((h, refl), refl) in
        subst
          (λ n. S n (update run.1.world.sockets id (some (record s { game = some run.1.game }))))
          (sym after.0.1)
          (K.put_back w.clock w.sockets run.1.world.sockets id s g run.1.game here playing after.1 h
            (subst (λ n. S n run.1.world.sockets) after.0.1 after.0.0))

    run_socket-Seen :
        (o : Option SocketClient) (c : Context) (w : World)
        → R c
        → Seen S w
        → w.sockets id ≡ o
        → Seen S (run_option_socket id o m c w).1
    run_socket-Seen none c w r h here = h
    run_socket-Seen (some s) c w r h here = run_game-Seen s s.game c w r h here refl

    pub Keeps-with_game : Keeps R (Seen S) (with_game id m)
    unfolding with_game
    Keeps-with_game = record { at = λ c w r h. run_socket-Seen (w.sockets id) c w r h refl }
