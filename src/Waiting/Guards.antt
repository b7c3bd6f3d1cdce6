-- ===== src/Waiting/Guards.antt =====
-- What runs under the guard of one socket, where no other guard is held.
use grass.Prelude.{
  ◌≡◌, refl, Bool, true, false, Option, none, some, [], ◌∷◌, arith, inl, inr, Bool-cases, ◌==◌,
  if◌then◌else◌,
}
use grass.Models.Task.{Uuid}
use grass.Models.Error.{ClientError}
use grass.State.{Context, World, Game, SocketClient, read, write}
use grass.Exec.{Exec, unwrap, ◌>>=◌}
use grass.Exec.Sockets.{with_get_mut, hold, blocks_write}
use grass.Exec.Ends.{
  Ends, Ends-bind, Ends-unwrap, Ends-pure, Ends-expect, Ends-test, is_deadlocked, ends_rules,
}
use grass.Game.Members.{drop_game}
use grass.Client.{with_client, with_client_mut, drop_option, assign_game}
use grass.Waiting.{is_droppable, IsFree, Unheld, MayRead, Calm, Always}
use grass.Waiting.Rules.{Ends-with_get, Ends-with_get_mut, Ends-set_socket, lock_rules}
use grass.Waiting.Games.{Ends-leave_host, Ends-send_message, Ends-shutdown}

-- The guard of the socket is held for writing and no other one, and the game can be dropped under it.
pub record Holding (id : Uuid) (o : Option Game) (c : Context) : Type 0 where
  pub guard : c.held ≡ write (c.lock_of id) ∷ []
  pub free : (g : Game) → o ≡ some g → is_droppable c.lock_of id g ≡ true

MayRead-hold :
    (c : Context) (o : Option SocketClient) (k : grass.Prelude.ℕ)
    → Calm c
    → MayRead (hold c o (read k))
MayRead-hold c none k calm j = rw (calm.0) refl
MayRead-hold c (some s) k calm j = rw (calm.0) (ground (arith, calm.1 j))

module _ {A : Type 0} where
  pub Ends-with_client :
      (other : Uuid) (body : SocketClient → Exec World ClientError A)
      → ((s : SocketClient) → Ends Always (body s))
      → Ends Unheld (with_client other body)
  unfolding with_client
  Ends-with_client other body k =
      Ends-with_get Always other _ (λ c r. rw r refl) (λ c o r. tt)
        (λ o. Ends-bind _ _ (Ends-unwrap o) k)

  -- What runs under the guard may read.
  pub Ends-with_client-Calm :
      (other : Uuid) (body : SocketClient → Exec World ClientError A)
      → ((s : SocketClient) → Ends MayRead (body s))
      → Ends Calm (with_client other body)
  unfolding with_client
  Ends-with_client-Calm other body k =
      Ends-with_get MayRead other _ (λ c r. rw (r.0) refl) (λ c o r. MayRead-hold c o _ r)
        (λ o. Ends-bind _ _ (Ends-unwrap o) k)

  pub Ends-unguarded_mut :
      (other : Uuid) (body : Option SocketClient → Exec World ClientError A)
      → ((o : Option SocketClient) → Ends Always (body o))
      → Ends Unheld (with_get_mut other body)
  Ends-unguarded_mut other body k =
      Ends-with_get_mut Always other body (λ c r. rw r refl) (λ c o r. tt) k

module _ {A : Type 0} (id : Uuid) (body : SocketClient → Exec World ClientError A)
    (k : (s : SocketClient) → Ends (Holding id s.game) (body s)) (c : Context) (w : World)
    (unheld : c.held ≡ []) (free : IsFree c.lock_of id w) where
  found_ends :
      (o : Option SocketClient)
      → w.sockets id ≡ o
      → is_deadlocked ((unwrap o >>= body) (hold c o (write (c.lock_of id))) w).0 ≡ false
  unfolding ◌>>=◌ unwrap
  found_ends none e = refl
  found_ends (some s) e =
      (k s).at (hold c (some s) (write (c.lock_of id))) w
        (record { guard = rw unheld refl; free = λ g h. free s g e h })

  -- A look at the own socket that may drop its game.
  pub with_client_mut_ends : is_deadlocked (with_client_mut id body c w).0 ≡ false
  unfolding with_client_mut with_get_mut
  with_client_mut_ends =
      let clear : blocks_write (c.lock_of id) c.held ≡ false = rw unheld refl in
      rw clear (found_ends (w.sockets id) refl)

module _ {E : Type 0} (id : Uuid) where
  pub Ends-drop_game : (g : Game) → Ends (Holding id (some g)) (drop_game {E = E} g)
  unfolding drop_game
  Ends-drop_game g =
      Ends-test g.is_host _ _ (λ host. search (ends_rules, lock_rules, Ends-shutdown) depth 12)
        (λ guest.
          Ends-test g.partial_host.is_local _ _
            (λ near.
              Ends-bind _ _
                (Ends-expect _ (
                  Ends-with_get_mut Always g.partial_host.id _
                    (λ c r. let f = r.free g refl in rw r.guard (ground arith)) (λ c o r. tt)
                    (λ o. Ends-leave_host g.partial_host.id g.partial_client.id o)))
                (λ _. search (ends_rules, Ends-send_message)))
            (λ far. Ends-pure tt))

  pub Ends-drop_option : (o : Option Game) → Ends (Holding id o) (drop_option {E = E} o)
  Ends-drop_option none = Ends-pure tt
  Ends-drop_option (some g) = Ends-drop_game g

pub Ends-assign_game :
    (id : Uuid) (s : SocketClient) (g : Game) → Ends (Holding id s.game) (assign_game id s g)
unfolding assign_game
Ends-assign_game id s g = Ends-bind _ _ (Ends-drop_option id s.game) (λ _. Ends-set_socket id _)
