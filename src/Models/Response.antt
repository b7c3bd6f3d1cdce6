-- ===== src/Models/Response.antt =====
-- src/service/websocket/client/game/models/response.rs and the files of response/: one constructor for
-- each struct, with its fields in their order.
use grass.Prelude.{ℕ, String, Bool, true, false, Option, List}
use grass.Models.Task.{GameTask}

pub data OpCode : Type 0 where
  hello error forced_disconnection game_event request response : OpCode

-- client/models/default.rs
pub record DefaultModel (T : Type 0) : Type 0 where
  pub op : OpCode
  pub d : Option T

pub record PublicTestProgress : Type 0 where
  pub test_index : ℕ
  pub succeeded : Bool
  pub stdout : String
  pub expected : String

abbrev pub new_passed : ℕ → String → String → PublicTestProgress
new_passed test_index stdout expected = record {
  test_index = test_index;
  succeeded = true;
  stdout = stdout;
  expected = expected;
}

abbrev pub new_failed : ℕ → String → String → PublicTestProgress
new_failed test_index stdout expected = record {
  test_index = test_index;
  succeeded = false;
  stdout = stdout;
  expected = expected;
}

abbrev pub make_not_failed : PublicTestProgress → PublicTestProgress
make_not_failed p = record p { succeeded = true }

pub record CompilationResponse : Type 0 where
  pub task_index : ℕ
  pub public_test_progress : List PublicTestProgress
  pub is_done : Bool
  pub is_done_public_tests : Bool
  pub is_done_private_tests : Bool
  pub stderr : String

pub data ResponseData : Type 0 where
  join : String → Bool → Bool → ResponseData
  leave : Bool → ResponseData
  shutdown : Bool → ResponseData
  task : GameTask → ResponseData
  timeout : DefaultModel String → ResponseData
  ping : ResponseData
  compile : CompilationResponse → ResponseData
  identify : Bool → ResponseData
  create : String → ResponseData
  exists : Bool → ResponseData

pub data ResponseOpCode : Type 0 where
  join leave shutdown task timeout ping compile identify create exists : ResponseOpCode

pub record Response : Type 0 where
  pub d : Option ResponseData
  pub op : ResponseOpCode

abbrev pub new_response : Option ResponseData → ResponseOpCode → Response
new_response d op = record { d = d; op = op }
