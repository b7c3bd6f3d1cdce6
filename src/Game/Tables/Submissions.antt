-- ===== src/Game/Tables/Submissions.antt =====
-- A validation of a submission keeps the tables of its game.
use grass.Prelude.{ℕ, String, true, length, inl, inr}
use grass.Models.Task.{Uuid}
use grass.State.{Context, GameState, SandboxResponse}
use grass.Game.Invariant.{IsValid}
use grass.Game.CodeTest.{validate_code_test}
use grass.Game.CodeTest.Ends.{Recorded, validate_code_test-ends}
use grass.Game.Tables.{IsTracked, Table-insert, lt_of_get_elem?}

module _ (id : Uuid) (i : ℕ) (code : String) (result : SandboxResponse) (c : Context)
    (s : GameState) where
  Recorded-IsTracked :
      Recorded id i code result c s
      → IsTracked s.game
      → IsTracked (validate_code_test id i code result c s).1.game
  Recorded-IsTracked r h =
      let on = r.on in
      rw r.credited (record {
        host_table =
            Table-insert (length s.game.tasks) r.table i true (lt_of_get_elem? s.game.tasks i r.at)
              (rw r.kept at h.host_table);
        tables = h.tables;
        host_blank = λ idle. cc;
        blank = h.blank;
      })

  pub validate_code_test-IsTracked :
      IsValid s.game → IsTracked s.game → IsTracked (validate_code_test id i code result c s).1.game
  validate_code_test-IsTracked v h = elim (validate_code_test-ends id i c s code result v) [
    | inl same ↦ rw same h
    | inr done ↦ Recorded-IsTracked done h
  ]
