-- ===== src/Exec/Sockets.antt =====
-- The map of sockets, a `DashMap`: each key lies behind one of several read-write locks, and a task
-- that asks for a lock in conflict with one that it holds itself waits for ever.
use grass.Prelude.{
  ℕ, ◌≡◌, refl, Bool, false, ◌||◌, ◌&&◌, Option, none, some, List, [], ◌∷◌, ◌==◌, if◌then◌else◌,
}
use grass.Models.Task.{Uuid}
use grass.State.{World, Game, GameState, SocketClient, Context, Guard, read, write, update}
use grass.Exec.{Exec, Outcome, ok, panicked, deadlocked, suspended}

-- A second guard for reading waits for the task that is queued for writing, which waits for the first.
abbrev pub blocks_read : (ℕ → Bool) → ℕ → List Guard → Bool
blocks_read queued k [] = false
blocks_read queued k (read j ∷ gs) = (j == k && queued k) || blocks_read queued k gs
blocks_read queued k (write j ∷ gs) = j == k || blocks_read queued k gs

abbrev pub blocks_write : ℕ → List Guard → Bool
blocks_write k [] = false
blocks_write k (read j ∷ gs) = j == k || blocks_write k gs
blocks_write k (write j ∷ gs) = j == k || blocks_write k gs

abbrev pub hold : Context → Option SocketClient → Guard → Context
hold c none g = c
hold c (some s) g = record c { held = g ∷ c.held }

module _ {E A : Type 0} where
  -- `sockets.get(&id)`, with what runs while its guard lives.
  unfoldable pub with_get : Uuid → (Option SocketClient → Exec World E A) → Exec World E A
  with_get id body c w =
      if blocks_read c.queued (c.lock_of id) c.held
      then (deadlocked, w)
      else body (w.sockets id) (hold c (w.sockets id) (read (c.lock_of id))) w

  -- `sockets.get_mut(&id)`, with what runs while its guard lives.
  unfoldable pub with_get_mut : Uuid → (Option SocketClient → Exec World E A) → Exec World E A
  with_get_mut id body c w =
      if blocks_write (c.lock_of id) c.held
      then (deadlocked, w)
      else body (w.sockets id) (hold c (w.sockets id) (write (c.lock_of id))) w

  abbrev pub put_back : Uuid → SocketClient → Outcome E A × GameState → Outcome E A × World
  put_back id s (r, gs) = (
    r,
    record (gs.world) {
      sockets = update gs.world.sockets id (some (record s { game = some gs.game }));
    },
  )

  abbrev pub run_option_game :
      Uuid → SocketClient → Option Game → Exec GameState E A → Exec World E A
  run_option_game id s none m c w = (panicked, w)
  run_option_game id s (some g) m c w = put_back id s (m c (record { game = g; world = w }))

  abbrev pub run_option_socket : Uuid → Option SocketClient → Exec GameState E A → Exec World E A
  run_option_socket id none m c w = (panicked, w)
  run_option_socket id (some s) m c w = run_option_game id s s.game m c w

  -- A method call on a game that no socket holds: its changes are lost with it.
  unfoldable pub run_method : Game → Exec GameState E A → Exec World E A
  run_method g m c w = let (r, gs) = m c (record { game = g; world = w }) in (r, gs.world)

  -- A method call on the game of a socket whose guard is held.
  unfoldable pub with_game : Uuid → Exec GameState E A → Exec World E A
  with_game id m c w = run_option_socket id (w.sockets id) m c w

  abbrev pub in_world : Game → Outcome E A × World → Outcome E A × GameState
  in_world g (r, w) = (r, record { game = g; world = w })

  -- A call, inside a method of a game, that leaves the game alone.
  unfoldable pub lift : Exec World E A → Exec GameState E A
  lift m c gs = in_world gs.game (m c gs.world)

module _ {E : Type 0} where
  -- An assignment to a socket behind a guard.
  unfoldable pub set_socket : Uuid → Option SocketClient → Exec World E (Unit {0})
  set_socket id s c w = (ok tt, record w { sockets = update w.sockets id s })

  abbrev pub resumed : World → Option World → Outcome E (Unit {0}) × World
  resumed w none = (suspended, w)
  resumed w (some v) = (ok tt, v)

  -- No guard is held here: other tasks may run, and this one goes on later, from whatever they have made of
  -- the world, or not at all.
  unfoldable pub await : Exec World E (Unit {0})
  await c w = resumed w (c.elsewhere w)

-- What holds before a task gives way, and in every world that it may go on from, holds in any case.
pub resumed_keeps :
    (E : Type 0) (P : World → Type 0) (o : Option World) (w : World)
    → ((v : World) → o ≡ some v → P v)
    → P w
    → P (resumed {E = E} w o).1
resumed_keeps E P none w k h = h
resumed_keeps E P (some v) w k h = k v refl
