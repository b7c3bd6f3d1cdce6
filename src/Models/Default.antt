-- ===== src/Models/Default.antt =====
-- src/service/websocket/client/models.rs, with hello.rs, forced_disconnection.rs and default.rs of
-- models/: what goes into a message to a client, and the op code that each kind of it has.
use grass.Prelude.{some}
use grass.Models.Task.{Uuid}
use grass.Models.Error.{ClientError}
use grass.Models.Event.{Event, GameEvent, new_event}
use grass.Models.Response.{
  OpCode, DefaultModel, Response, ResponseData, ResponseOpCode, new_response,
}

pub data Payload : Type 0 where
  hello : Uuid → Payload
  error : ClientError → Payload
  forced_disconnection : Payload
  game_event : GameEvent → Payload
  response : Response → Payload

abbrev pub op_code : Payload → OpCode
op_code (Payload.hello id) = OpCode.hello
op_code (Payload.error e) = OpCode.error
op_code Payload.forced_disconnection = OpCode.forced_disconnection
op_code (Payload.game_event e) = OpCode.game_event
op_code (Payload.response r) = OpCode.response

abbrev pub new_model : Payload → DefaultModel Payload
new_model d = record { op = op_code d; d = some d }

-- `DefaultModel::new(GameEvent::new(e))`
abbrev pub event : Event → DefaultModel Payload
event e = new_model (Payload.game_event (new_event e))

-- `DefaultModel::new(Response::new(Some(d), op))`
abbrev pub respond : ResponseData → ResponseOpCode → DefaultModel Payload
respond d op = new_model (Payload.response (new_response (some d) op))
