-- ===== src/Game/Delivery.antt =====
-- What sending does to the world, written as plain functions, and that the methods of Game/Messages do
-- exactly this wherever a local player has a channel. An error of a send reaches nobody else.
pub mod Frame
pub mod Alike
pub mod Shuffle
use grass.Prelude.{
  ◌≡◌, refl, true, Option, none, some, List, [], ◌∷◌, ◌++◌, ◌||◌, not, is_some, All, if◌then◌else◌,
  arith,
}
use grass.Prelude.HashMap.{HashMap}
use grass.Models.Task.{Uuid}
use grass.Models.Error.{BoxError}
use grass.Models.Default.{Payload}
use grass.Models.Response.{DefaultModel}
use grass.Models.Wire.{to_string}
use grass.State.{World, GameState, PartialClient, Context, SocketSender, Outgoing, text, update}
use grass.Exec.{ok, ignore, ◌>>=◌}
use grass.Exec.Services.{send}
use grass.Exec.Sockets.{lift}
use grass.Game.Messages.{send_message, check_host, skipped, send_clients, send_global}

-- A message is added to a channel whose receiver is there.
unfoldable pub push : SocketSender → Outgoing → World → World
push k m w = if (w.channels k).closed then w else record w {
  channels =
      update w.channels k (record (w.channels k) { accepted = (w.channels k).accepted ++ m ∷ [] });
}

-- A local player has a channel.
abbrev pub IsWired : PartialClient → Type 0
IsWired p = (not p.is_local || is_some p.write_channel) ≡ true

abbrev push_to : Option SocketSender → Outgoing → World → World
push_to none m w = w
push_to (some k) m w = push k m w

unfoldable pub deliver : PartialClient → DefaultModel Payload → World → World
unfolding push
deliver p m w = if p.is_local then push_to p.write_channel (text (to_string m)) w else w

unfoldable pub deliver_all :
    HashMap PartialClient → Option (List Uuid) → DefaultModel Payload → World → World
deliver_all [] skip m w = w
deliver_all ((id, p) ∷ rest) skip m w =
    deliver_all rest skip m (if skipped skip id then w else deliver p m w)

-- All players but those skipped: first the clients, then the host.
unfoldable pub broadcast :
    HashMap PartialClient
    → PartialClient
    → Option (List Uuid)
    → DefaultModel Payload
    → World
    → World
broadcast clients host skip m w =
    let w' = deliver_all clients skip m w in if skipped skip host.id then w' else deliver host m w'

abbrev pub AllWired : HashMap PartialClient → Type 0
AllWired = All (λ e. IsWired e.1)

module _ {F : Type 0} (c : Context) where
  pub send_message-deliver :
      (p : PartialClient) (m : DefaultModel Payload) (w : World)
      → IsWired p
      → ignore {F = F} (send_message p m) c w ≡ (ok tt, deliver p m w)
  unfolding send_message send deliver ignore ◌>>=◌
  send_message-deliver p m w h = ground arith

pub send_clients-deliver_all :
    (c : Context) (clients : HashMap PartialClient) (skip : Option (List Uuid))
    (m : DefaultModel Payload) (w : World)
    → AllWired clients
    → send_clients clients skip m c w ≡ (ok tt, deliver_all clients skip m w)
unfolding send_clients deliver_all ◌>>=◌
send_clients-deliver_all c [] skip m w h = refl
send_clients-deliver_all c ((id, p) ∷ rest) skip m w h = ground (
  arith,
  send_message-deliver {F = BoxError} c p m w h.0,
  send_clients-deliver_all c rest skip m w h.1,
  send_clients-deliver_all c rest skip m (deliver p m w) h.1,
)

module _ {F : Type 0} (c : Context) where
  -- A host whose local players have channels reaches all players of its game but those skipped, the
  -- clients first and then the host; the error of one send keeps it from nobody else.
  pub send_global-broadcast :
      (m : DefaultModel Payload) (skip : Option (List Uuid)) (s : GameState)
      (clients : HashMap PartialClient)
      → s.game.is_host ≡ true
      → s.game.connected_clients ≡ some clients
      → AllWired clients
      → IsWired s.game.partial_host
      → ignore {F = F} (send_global m skip) c s
        ≡ (ok tt, record s { world = broadcast clients s.game.partial_host skip m s.world })
  unfolding send_global check_host broadcast ignore lift ◌>>=◌
  send_global-broadcast m skip s clients host some_clients wired wired_host = ground (
    arith,
    send_clients-deliver_all c clients skip m s.world wired,
    send_message-deliver {F = F} c s.game.partial_host m (deliver_all clients skip m s.world)
        wired_host,
  )
