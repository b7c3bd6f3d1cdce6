-- ===== src/State/Sets.antt =====
-- The types of the state are sets: any two proofs of an equation between two states are equal.
use Prim.Native.Char.{IsScalar}
use mathlib.Core.HLevel.{prop→set}
use text.Mathlib.TextEquality.{IsScalar-prop}
use grass.Prelude.{ℕ, String, Option}
use grass.State.{PartialClient, SocketClient, Redis}
use grass.Models.Default.{Payload}
use grass.Models.Error.{ClientError}
use grass.Models.Event.{Event}
use grass.Models.Task.{Uuid, GameTask}

IsScalar-set : (n : ℕ) → IsSet (IsScalar n)
IsScalar-set n = prop→set (IsScalar-prop n)

String-set : IsSet String
String-set = hlevel (IsScalar-set)

ClientError-set : IsSet ClientError
ClientError-set = hlevel (IsScalar-set)

GameTask-set : IsSet GameTask
GameTask-set = hlevel (IsScalar-set)

Event-set : IsSet Event
Event-set = hlevel (String-set, GameTask-set)

PartialClient-set : IsSet PartialClient
PartialClient-set = hlevel (String-set)

Payload-set : IsSet Payload
Payload-set = hlevel (String-set, GameTask-set, ClientError-set, Event-set)

pub Sockets-set : IsSet (Uuid → Option SocketClient)
Sockets-set = hlevel (String-set, GameTask-set, PartialClient-set)

pub Redis-set : IsSet Redis
Redis-set = hlevel (String-set)
