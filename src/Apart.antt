-- ===== src/Apart.antt =====
-- What the task of one connection does to the sockets: the rules of Exec/Keeps for properties of the sockets that do not
-- depend on a game's clients and on the progress of its host.
pub mod Submissions
pub mod Rules
pub mod Clients
pub mod Requests
pub mod Joins
pub mod Handlers
pub mod Connections
pub mod Isolated
use grass.Prelude.{ℕ, ◌≡◌, true, Option, none, some}
use grass.Models.Task.{Uuid}
use grass.Models.Error.{BoxError}
use grass.State.{World, Context, Game, SocketClient, Guard, update}
use grass.Exec.Sockets.{hold, with_game}
use grass.Exec.Keeps.{Keeps}
use grass.Game.Start.{start}
use grass.Game.Still.{game_face, Seen}

abbrev pub Sockets : Type 0
Sockets = Uuid → Option SocketClient

abbrev pub socket_game : Option SocketClient → Option Game
socket_game none = none
socket_game (some s) = s.game

-- Of a socket that is there, its game.
abbrev pub Entries : (Uuid → Option Game → Type 0) → Uuid → Option SocketClient → Type 0
Entries Entry j none = Unit
Entries Entry j (some s) = Entry j s.game

-- What every connection leaves: `R` is what a task relies on, `S` the property of the sockets at a time, and `Entry` what it says of
-- the game of one of them.
pub record Frame (R : Context → Type 0) (S : ℕ → Sockets → Type 0)
    (Entry : Uuid → Option Game → Type 0) : Type 0 where
  pub holding : (c : Context) (o : Option SocketClient) (g : Guard) → R c → R (hold c o g)
  pub elsewhere : (c : Context) (w v : World) → R c → c.elsewhere w ≡ some v → Seen S w → Seen S v
  pub entry : (k : ℕ) (sockets : Sockets) (j : Uuid) → S k sockets → Entries Entry j (sockets j)
  pub put_back :
      (k : ℕ) (before after : Sockets) (j : Uuid) (s : SocketClient) (g g' : Game)
      → before j ≡ some s
      → s.game ≡ some g
      → game_face g' ≡ game_face g
      → S k before
      → S k after
      → S k (update after j (some (record s { game = some g' })))

-- What the connection of `id` may do to its own socket.
pub record Owner (R : Context → Type 0) (S : ℕ → Sockets → Type 0)
    (Entry : Uuid → Option Game → Type 0) (id : Uuid) : Type 0 where
  pub set :
      (k : ℕ) (sockets : Sockets) (o : Option SocketClient)
      → Entries Entry id o
      → S k sockets
      → S k (update sockets id o)
  pub without : Entry id none
  pub hosting : (g : Game) → g.is_host ≡ true → Entry id (some g)
  pub starting : (n : ℕ) → Keeps R (Seen S) (with_game {E = BoxError} id (start n))
