-- ===== src/Models/Request.antt =====
-- The requests of src/service/websocket/client/game/models/request.rs and of the files of request/.
use grass.Prelude.{ℕ, String, Option}

pub data RequestOpCode : Type 0 where
  join leave start task compile ping identify create exists : RequestOpCode

pub record Request : Type 0 where
  pub d : Option String
  pub op : RequestOpCode

pub record JoinRequest : Type 0 where
  pub game_id : String

pub record StartRequest : Type 0 where
  pub task_count : ℕ

pub record TaskRequest : Type 0 where
  pub task_index : ℕ

pub record CompileRequest : Type 0 where
  pub code : String
  pub task_index : ℕ

pub record IdentifyRequest : Type 0 where
  pub nickname : String

pub record ExistsRequest : Type 0 where
  pub game_id : String
