-- ===== src/Models/Task.antt =====
-- src/service/websocket/client/game/task.rs and task/test_case.rs.
use grass.Prelude.{ℕ, String, List}

abbrev pub Uuid : Type 0
Uuid = ℕ

pub record TestCase : Type 0 where
  pub stdin : String
  pub expected : String
  pub id : ℕ

pub record GameTask : Type 0 where
  pub task_id : Uuid
  pub question : String
  pub public_test_cases : List TestCase
  pub private_test_cases : List TestCase
