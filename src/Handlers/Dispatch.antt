-- ===== src/Handlers/Dispatch.antt =====
-- The choice by op code, of a request and of a message.
use grass.Prelude.{String, Option, none, some}
use grass.Models.Task.{Uuid}
use grass.Models.Request.{RequestOpCode}
use grass.Models.Error.{ClientError, no_data_with_op_code, invalid_op_code, parsing_error}
use grass.Models.Response.{DefaultModel, OpCode}
use grass.State.{World}
use grass.Exec.{Exec, raise, asks, or_raise, ◌>>=◌}
use grass.Handlers.Join.{handle_join}
use grass.Handlers.Lobby.{handle_ping, handle_identify, handle_create, handle_exists}
use grass.Handlers.Play.{handle_leave, handle_start, handle_task}
use grass.Handlers.Compile.{handle_compile}

-- `Request::handle_message`
unfoldable pub handle_request :
    Uuid → RequestOpCode → Option String → Exec World ClientError (Unit {0})
handle_request id RequestOpCode.join d = handle_join id d
handle_request id RequestOpCode.leave d = handle_leave id
handle_request id RequestOpCode.start d = handle_start id d
handle_request id RequestOpCode.task d = handle_task id d
handle_request id RequestOpCode.compile d = handle_compile id d
handle_request id RequestOpCode.ping d = handle_ping id
handle_request id RequestOpCode.identify d = handle_identify id d
handle_request id RequestOpCode.create d = handle_create id d
handle_request id RequestOpCode.exists d = handle_exists id d

unfoldable pub handle_data : Uuid → OpCode → String → Exec World ClientError (Unit {0})
handle_data id OpCode.request data_ = do
  serde ← asks (λ c. c.serde)
  request ← or_raise parsing_error (serde.request data_)
  handle_request id request.op request.d
handle_data id op data_ = raise invalid_op_code

abbrev pub handle_body : Uuid → OpCode → Option String → Exec World ClientError (Unit {0})
handle_body id op none = raise (no_data_with_op_code "No data was sent with opcode")
handle_body id op (some data_) = handle_data id op data_

-- `ClientMessageHandler::handle_message`
unfoldable pub handle_message : Uuid → DefaultModel String → Exec World ClientError (Unit {0})
handle_message id model = handle_body id model.op model.d
