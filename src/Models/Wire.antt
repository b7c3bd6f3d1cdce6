-- ===== src/Models/Wire.antt =====
-- What serialising keeps of a message: the attribute `skip_serializing` of `private_test_cases` in
-- src/service/websocket/client/game/task.rs leaves those out of every text that is sent.
use grass.Prelude.{◌≡◌, arith, Option, none, some, []}
use grass.Models.Task.{GameTask}
use grass.Models.Event.{Event}
use grass.Models.Response.{DefaultModel, ResponseData}
use grass.Models.Default.{Payload}

abbrev pub task_text : GameTask → GameTask
task_text t = record t { private_test_cases = [] }

abbrev pub event_text : Event → Event
event_text (Event.task t) = Event.task (task_text t)
event_text (Event.task_finished t i c) = Event.task_finished (task_text t) i c
event_text Event.shutdown = Event.shutdown
event_text (Event.start n) = Event.start n
event_text (Event.connected_client g c n) = Event.connected_client g c n
event_text (Event.disconnected_client g c) = Event.disconnected_client g c

abbrev pub data_text : ResponseData → ResponseData
data_text (ResponseData.task t) = ResponseData.task (task_text t)
data_text d = d

abbrev pub option_text : Option ResponseData → Option ResponseData
option_text none = none
option_text (some d) = some (data_text d)

abbrev pub payload_text : Payload → Payload
payload_text (Payload.game_event e) = Payload.game_event (record e { event = event_text e.event })
payload_text (Payload.response r) = Payload.response (record r { d = option_text r.d })
payload_text p = p

abbrev pub body_text : Option Payload → Option Payload
body_text none = none
body_text (some p) = some (payload_text p)

-- `serde_json::to_string(&message).unwrap()`
unfoldable pub to_string : DefaultModel Payload → DefaultModel Payload
to_string m = record m { d = body_text m.d }

-- Serialising a second time loses nothing more.
pub to_string_idem : (m : DefaultModel Payload) → to_string (to_string m) ≡ to_string m
unfolding to_string
to_string_idem m = ground arith
