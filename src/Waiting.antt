-- ===== src/Waiting.antt =====
-- Which messages wait for ever on a lock of the map of sockets (a `DashMap`): the handlers of
-- src/service/websocket/client/game/models/request.rs and what they call, with the guards that they hold.
pub mod Rules
pub mod Games
pub mod Guards
pub mod Requests
pub mod Free
pub mod Joins
pub mod Messages
pub mod Exact
use grass.Prelude.{ℕ, ◌≡◌, Bool, true, false, ◌||◌, ◌==◌, not, some, []}
use grass.Models.Task.{Uuid}
use grass.Exec.Sockets.{blocks_read}
use grass.State.{Context, World, Game, SocketClient}

-- Whether a game can be dropped under the guard of a socket: it is a host's, or the host is not local, or the
-- host's socket lies behind another lock.
abbrev pub is_droppable : (Uuid → ℕ) → Uuid → Game → Bool
is_droppable lock_of id g =
    g.is_host || not g.partial_host.is_local || not (lock_of id == lock_of g.partial_host.id)

-- The game of a socket, if it has one, can be dropped under its own guard.
abbrev pub IsFree : (Uuid → ℕ) → Uuid → World → Type 0
IsFree lock_of id w =
    (s : SocketClient) (g : Game)
    → w.sockets id ≡ some s
    → s.game ≡ some g
    → is_droppable lock_of id g ≡ true

abbrev pub Unheld : Context → Type 0
Unheld c = c.held ≡ []

-- No guard is held, no other task will wait to write where this one reads, and what happens elsewhere leaves
-- the socket's game so.
pub record Unguarded (id : Uuid) (c : Context) : Type 0 where
  pub unheld : Unheld c
  pub calm : (k : ℕ) → c.queued k ≡ false
  pub free : (w v : World) → c.elsewhere w ≡ some v → IsFree c.lock_of id w → IsFree c.lock_of id v

-- No guard that is held keeps the task from reading.
abbrev pub MayRead : Context → Type 0
MayRead c = (k : ℕ) → blocks_read c.queued k c.held ≡ false

-- No guard is held, and no other task will wait to write where this one reads.
abbrev pub Calm : Context → Type 0
Calm c = Unheld c × ((k : ℕ) → c.queued k ≡ false)

abbrev pub Always : Context → Type 0
Always c = Unit {0}
