-- ===== src/Sound/Secrecy.antt =====
-- The invariant of the shard for a request and for a whole connection, and what follows from it for the
-- private test cases (`skip_serializing` in src/service/websocket/client/game/task.rs).
use grass.Prelude.{arith, ◌≡◌, refl, sym, ap, ◌∙◌, String, Option, some, List, [], ◌∷◌, All}
use grass.Models.Task.{Uuid, TestCase}
use grass.Models.Event.{Event}
use grass.Models.Response.{DefaultModel, ResponseData}
use grass.Models.Default.{Payload}
use grass.Models.Wire.{to_string}
use grass.State.{World, SocketSender, Message, Context, Outgoing, text, binary, ping, pong, close}
use grass.Connection.{Timing, accept_connection}
use grass.Handlers.Dispatch.{handle_message}
use grass.Sound.{Sound, Rely, IsWire}
use grass.Sound.Handlers.{Keeps-handle_message}
use grass.Sound.Connections.{AllSteady, Keeps-accept_connection}

-- The private test cases in a message.
abbrev pub event_secrets : Event → List TestCase
event_secrets (Event.task t) = t.private_test_cases
event_secrets (Event.task_finished t i id) = t.private_test_cases
event_secrets e = []

abbrev pub data_secrets : Option ResponseData → List TestCase
data_secrets (some (ResponseData.task t)) = t.private_test_cases
data_secrets d = []

abbrev pub payload_secrets : Option Payload → List TestCase
payload_secrets (some (Payload.game_event e)) = event_secrets e.event
payload_secrets (some (Payload.response r)) = data_secrets r.d
payload_secrets p = []

abbrev pub secrets : Outgoing → List TestCase
secrets (text m) = payload_secrets m.d
secrets m = []

secrets-to_string : (m : DefaultModel Payload) → secrets (text (to_string m)) ≡ []
unfolding to_string
secrets-to_string m = ground arith

IsWire-secrets : (m : Outgoing) → IsWire m → secrets m ≡ []
IsWire-secrets (text m) wire = ap (λ x. secrets (text x)) (sym wire.0) ∙ secrets-to_string m
IsWire-secrets (binary b) wire = refl
IsWire-secrets (ping b) wire = refl
IsWire-secrets (pong b) wire = refl
IsWire-secrets close wire = refl

abbrev pub Discreet : List Outgoing → Type 0
Discreet = All (λ m. secrets m ≡ [])

pub AllWire-Discreet : (ms : List Outgoing) → All IsWire ms → Discreet ms
AllWire-Discreet [] h = tt
AllWire-Discreet (m ∷ ms) h = (IsWire-secrets m h.0, AllWire-Discreet ms h.1)

-- A message from a client, with any op code and any data, keeps a sound shard sound however its handler
-- ends, if what the other tasks do in the meantime does.
pub handle_message-Sound :
    (id : Uuid) (model : DefaultModel String) (c : Context) (w : World)
    → Rely c
    → Sound w
    → Sound (handle_message id model c w).1
handle_message-Sound id model c w rely sound = (Keeps-handle_message id model).at c w rely sound

-- A connection, with whatever the peer sends and wherever a handler is cut off, keeps a sound shard
-- sound, if what the other tasks and the handlers that are cut off do does.
pub accept_connection-Sound :
    (id : Uuid) (addr : String) (k : SocketSender) (messages : List (Message String × Timing))
    (c : Context) (w : World)
    → AllSteady messages
    → Rely c
    → Sound w
    → Sound (accept_connection id addr k messages c w).1
accept_connection-Sound id addr k messages c w steady rely sound =
    (Keeps-accept_connection id addr k messages steady).at c w rely sound
