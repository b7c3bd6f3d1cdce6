-- ===== src/Waiting/Messages.antt =====
-- Every message of a client, by its op codes (src/service/websocket/client/message_handler.rs).
use grass.Prelude.{String, ◌≡◌, refl, false, Option, none, some}
use grass.Models.Task.{Uuid}
use grass.Models.Request.{Request, RequestOpCode}
use grass.Models.Error.{parsing_error}
use grass.Models.Response.{DefaultModel, OpCode}
use grass.State.{Context, World}
use grass.Exec.{or_raise, asks, raise, ◌>>=◌}
use grass.Exec.Ends.{is_deadlocked}
use grass.Handlers.Dispatch.{handle_request, handle_data, handle_body, handle_message}
use grass.Waiting.{IsFree, Unguarded}
use grass.Waiting.Requests.{
  Ends-handle_ping, Ends-handle_identify, Ends-handle_create, Ends-handle_exists, Ends-handle_task,
  Ends-handle_compile, handle_leave_ends, handle_start_ends,
}
use grass.Waiting.Joins.{handle_join_ends}

module _ (id : Uuid) (c : Context) (w : World) (unguarded : Unguarded id c)
    (free : IsFree c.lock_of id w) where
  request_ends :
      (op : RequestOpCode) (d : Option String)
      → is_deadlocked (handle_request id op d c w).0 ≡ false
  unfolding handle_request
  request_ends RequestOpCode.join d = handle_join_ends id c unguarded d w free
  request_ends RequestOpCode.leave d = handle_leave_ends id c w unguarded.unheld free
  request_ends RequestOpCode.start d = handle_start_ends id c w unguarded.unheld free d
  request_ends RequestOpCode.task d =
      (Ends-handle_task id d).at c w (unguarded.unheld, unguarded.calm)
  request_ends RequestOpCode.compile d = (Ends-handle_compile id d).at c w unguarded.unheld
  request_ends RequestOpCode.ping d = (Ends-handle_ping id).at c w unguarded.unheld
  request_ends RequestOpCode.identify d = (Ends-handle_identify id d).at c w unguarded.unheld
  request_ends RequestOpCode.create d = (Ends-handle_create id d).at c w unguarded.unheld
  request_ends RequestOpCode.exists d = (Ends-handle_exists id d).at c w unguarded.unheld

  parsed_ends :
      (o : Option Request)
      → is_deadlocked ((or_raise parsing_error o >>= λ r. handle_request id r.op r.d) c w).0 ≡ false
  unfolding or_raise ◌>>=◌
  parsed_ends none = refl
  parsed_ends (some r) = request_ends r.op r.d

  body_ends : (op : OpCode) (d : Option String) → is_deadlocked (handle_body id op d c w).0 ≡ false
  unfolding handle_data raise asks or_raise ◌>>=◌
  body_ends op none = refl
  body_ends OpCode.request (some d) = parsed_ends (c.serde.request d)
  body_ends OpCode.hello (some d) = refl
  body_ends OpCode.error (some d) = refl
  body_ends OpCode.forced_disconnection (some d) = refl
  body_ends OpCode.game_event (some d) = refl
  body_ends OpCode.response (some d) = refl

  -- A message from a client, with any op code and any data, never asks for a lock of the map in conflict with
  -- a guard that its own task holds, if no guard is held before and the client's game, if it has one, can be
  -- dropped under the guard of the client's socket: it is a host's, or its host is not local, or the host's
  -- socket lies behind another lock. What the other tasks do in the meantime must leave that so, and none of
  -- them may wait to write at a lock at which this task holds a guard for reading. Nothing is said of the
  -- guards that other tasks hold.
  pub handle_message-is_deadlocked :
      (model : DefaultModel String) → is_deadlocked (handle_message id model c w).0 ≡ false
  unfolding handle_message
  handle_message-is_deadlocked model = body_ends model.op model.d
