-- ===== src/Models/Event.antt =====
-- src/service/websocket/client/game/models/event.rs and the files of event/: one constructor for each
-- struct, with its fields in their order.
use grass.Prelude.{ℕ, String}
use grass.Models.Task.{Uuid, GameTask}

pub data Event : Type 0 where
  shutdown : Event
  start : ℕ → Event
  task : GameTask → Event
  task_finished : GameTask → ℕ → Uuid → Event
  connected_client : String → Uuid → String → Event
  disconnected_client : String → Uuid → Event

pub data GameEventOpCode : Type 0 where
  shutdown start task task_finished connected_client disconnected_client : GameEventOpCode

abbrev pub event_op_code : Event → GameEventOpCode
event_op_code Event.shutdown = GameEventOpCode.shutdown
event_op_code (Event.start task_count) = GameEventOpCode.start
event_op_code (Event.task t) = GameEventOpCode.task
event_op_code (Event.task_finished t task_index client_id) = GameEventOpCode.task_finished
event_op_code (Event.connected_client game_id client_id nickname) = GameEventOpCode.connected_client
event_op_code (Event.disconnected_client game_id client_id) = GameEventOpCode.disconnected_client

pub record GameEvent : Type 0 where
  pub event : Event
  pub op : GameEventOpCode

abbrev pub new_event : Event → GameEvent
new_event event = record { event = event; op = event_op_code event }
