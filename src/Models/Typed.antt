-- ===== src/Models/Typed.antt =====
-- Whether the op codes of a message to a client, and of the event or the response in it, are those of what
-- it carries (src/service/websocket/client/models.rs, and game/models/event.rs and response.rs).
use grass.Prelude.{◌≡◌, ◌∙◌, arith, Option, none, some}
use grass.Models.Event.{Event, event_op_code}
use grass.Models.Response.{OpCode, DefaultModel, ResponseData, ResponseOpCode}
use grass.Models.Default.{Payload, op_code}
use grass.Models.Wire.{to_string, event_text, data_text, option_text, body_text}

-- The op code of the response that carries this.
abbrev pub answer_op_code : ResponseData → ResponseOpCode
answer_op_code (ResponseData.join game_id is_host success) = ResponseOpCode.join
answer_op_code (ResponseData.leave success) = ResponseOpCode.leave
answer_op_code (ResponseData.shutdown success) = ResponseOpCode.shutdown
answer_op_code (ResponseData.task t) = ResponseOpCode.task
answer_op_code (ResponseData.timeout model) = ResponseOpCode.timeout
answer_op_code ResponseData.ping = ResponseOpCode.ping
answer_op_code (ResponseData.compile r) = ResponseOpCode.compile
answer_op_code (ResponseData.identify success) = ResponseOpCode.identify
answer_op_code (ResponseData.create game_id) = ResponseOpCode.create
answer_op_code (ResponseData.exists exists) = ResponseOpCode.exists

abbrev pub Answers : Option ResponseData → ResponseOpCode → Type 0
Answers none op = ⊥
Answers (some d) op = op ≡ answer_op_code d

abbrev pub PayloadTyped : Payload → Type 0
PayloadTyped (Payload.game_event e) = e.op ≡ event_op_code e.event
PayloadTyped (Payload.response r) = Answers r.d r.op
PayloadTyped p = Unit

abbrev pub Carries : Option Payload → OpCode → Type 0
Carries none op = ⊥
Carries (some p) op = (op ≡ op_code p) × PayloadTyped p

abbrev pub IsTyped : DefaultModel Payload → Type 0
IsTyped m = Carries m.d m.op

event_op_code-event_text : (e : Event) → event_op_code e ≡ event_op_code (event_text e)
event_op_code-event_text e = ground arith

answer_op_code-data_text : (d : ResponseData) → answer_op_code d ≡ answer_op_code (data_text d)
answer_op_code-data_text d = ground arith

Answers-option_text :
    (o : Option ResponseData) (op : ResponseOpCode) → Answers o op → Answers (option_text o) op
Answers-option_text none op h = h
Answers-option_text (some d) op h = h ∙ answer_op_code-data_text d

Carries-body_text : (o : Option Payload) (op : OpCode) → Carries o op → Carries (body_text o) op
Carries-body_text none op h = h
Carries-body_text (some (Payload.hello id)) op h = h
Carries-body_text (some (Payload.error e)) op h = h
Carries-body_text (some Payload.forced_disconnection) op h = h
Carries-body_text (some (Payload.game_event e)) op h = (h.0, h.1 ∙ event_op_code-event_text e.event)
Carries-body_text (some (Payload.response r)) op h = (h.0, Answers-option_text r.d r.op h.1)

-- Serialising keeps the op codes and the kinds of what they announce.
pub IsTyped-to_string : (m : DefaultModel Payload) → IsTyped m → IsTyped (to_string m)
unfolding to_string
IsTyped-to_string m h = Carries-body_text m.d m.op h
