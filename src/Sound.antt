-- ===== src/Sound.antt =====
-- The invariant of the shard: every socket stands under its own id, a game that it plays is valid and its
-- own, and every text that was ever sent is serialised, so that it shows no private test case.
pub mod Rules
pub mod Games
pub mod Owned
pub mod Clients
pub mod Joins
pub mod Handlers
pub mod Connections
pub mod Served
pub mod Secrecy
use grass.Prelude.{
  ℕ, ◌≡◌, refl, Option, none, some, List, [], ◌∷◌, ◌++◌, All, Bool, true, false, if◌then◌else◌,
  ◌==◌, arith,
}
use grass.Models.Task.{Uuid}
use grass.Models.Wire.{to_string}
use grass.Models.Typed.{IsTyped}
use grass.State.{
  World, Game, SocketClient, Outgoing, Context, SocketSender, text, binary, ping, pong, close,
  GameState,
}
use grass.Game.Invariant.{IsValid}

-- A text has been serialised: doing it again takes nothing out of it. Its op codes are those of what it
-- carries.
abbrev pub IsWire : Outgoing → Type 0
IsWire (text m) = (to_string m ≡ m) × IsTyped m
IsWire _ = Unit

pub record OwnGame (id : Uuid) (g : Game) : Type 0 where
  pub valid : IsValid g
  pub own : g.partial_client.id ≡ id

abbrev pub GameSound : Uuid → Option Game → Type 0
GameSound id none = Unit
GameSound id (some g) = OwnGame id g

pub record SocketSound (id : Uuid) (s : SocketClient) : Type 0 where
  pub same_id : s.id ≡ id
  pub game : GameSound id s.game

abbrev pub EntrySound : Uuid → Option SocketClient → Type 0
EntrySound id none = Unit
EntrySound id (some s) = SocketSound id s

pub record Sound (w : World) : Type 0 where
  pub sockets : (id : Uuid) → EntrySound id (w.sockets id)
  pub channels : (k : SocketSender) → All IsWire (w.channels k).accepted

-- What is assumed of the other tasks of the shard: they keep the invariant.
abbrev pub Rely : Context → Type 0
Rely c = (w v : World) → c.elsewhere w ≡ some v → Sound w → Sound v

abbrev pub SoundState : GameState → Type 0
SoundState s = Sound s.world
