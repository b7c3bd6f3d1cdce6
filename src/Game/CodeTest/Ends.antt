-- ===== src/Game/CodeTest/Ends.antt =====
-- What a validation makes of its game: nothing, or one mark in the host's table.
use grass.Prelude.{
  ℕ, String, Bool, ◌≡◌, refl, ◌∙◌, ap, true, false, none, some, List, [], arith, Option-cases,
  Bool-cases, get_elem?, ◌⊎◌, length, ◌==◌, inl, inr,
}
use grass.Prelude.HashMap.{HashMap}
use grass.Models.Task.{Uuid, GameTask}
use grass.Models.Response.{PublicTestProgress}
use grass.State.{GameState, PartialClient, Context, SandboxResponse}
use grass.Exec.{◌>>=◌, ignore, map_err}
use grass.Game.Judge.{judge_public, passing_report}
use grass.Game.Messages.{get_task_indexed}
use grass.Game.Invariant.{IsValid}
use grass.Game.Steps.{game-send_global}
use grass.Game.CodeTest.{
  find_task, find_player, compile_code, record_success, store_player, finish_task, validate_private,
  validate_public, validate_code_test,
}
use grass.Game.CodeTest.Record.{lookup_step, credit_host}

-- A task is marked as done in the host's table.
pub record Recorded (id : Uuid) (i : ℕ) (code : String) (result : SandboxResponse) (c : Context)
    (s : GameState) : Type 0 where
  pub host : s.game.is_host ≡ true
  pub on : s.game.is_started ≡ true
  pub task : GameTask
  pub at : get_elem? s.game.tasks i ≡ some task
  pub table : HashMap Bool
  pub kept : s.game.partial_host.task_progress ≡ some table
  pub credited : (validate_code_test id i code result c s).1.game ≡ credit_host i table s.game

module _ (c : Context) (s : GameState) where
  record_success-game :
      (id : Uuid) (i : ℕ) (t : GameTask) (p : PartialClient) (report : List PublicTestProgress)
      (m : HashMap Bool)
      → p.task_progress ≡ some m
      → (record_success id i t p report c s).1.game ≡ store_player id (finish_task i m p) s.game
  unfolding record_success ignore ◌>>=◌
  record_success-game id i t p report m some_m = grind (arith, game-send_global)

  record_success-idle :
      (id : Uuid) (i : ℕ) (t : GameTask) (p : PartialClient) (report : List PublicTestProgress)
      → p.task_progress ≡ none
      → (record_success id i t p report c s).1.game ≡ s.game
  unfolding record_success ◌>>=◌
  record_success-idle id i t p report idle = ground arith

module _ (id : Uuid) (i : ℕ) (c : Context) (s : GameState) where
  validate_private-ends :
      (code : String) (t : GameTask) (p : PartialClient) (report : List PublicTestProgress)
      → ((validate_private id i code t p report c s).1 ≡ s)
        ⊎ ((validate_private id i code t p report c s).1 ≡ (record_success id i t p report c s).1)
  unfolding validate_private compile_code map_err ◌>>=◌
  validate_private-ends code t p report = ground arith

  validate_public-ends :
      (code : String) (result : SandboxResponse) (t : GameTask) (p : PartialClient)
      → ((validate_public id i code result t p c s).1 ≡ s)
        ⊎ ((report : List PublicTestProgress) × ((validate_public id i code result t p c s).1
              ≡ (record_success id i t p report c s).1))
  unfolding validate_public ◌>>=◌
  validate_public-ends code result t p =
      elim (Option-cases (judge_public t.public_test_cases 0 result.stdout [] [])) [
        | inl over ↦ inl (ground arith)
        | inr (out, judged) ↦ elim (validate_private-ends code t p (passing_report 0 out.0)) [
          | inl same ↦ inl (ground arith)
          | inr done ↦ elim (Bool-cases (length out.0 == length t.public_test_cases)) [
            | inl all ↦ elim (Bool-cases result.success) [
              | inl ran ↦ inr (passing_report 0 out.0, ground arith)
              | inr broke ↦ inl (ground arith)
            ]
            | inr few ↦ inl (ground arith)
          ]
        ]
      ]

  pub unlisted :
      (code : String) (result : SandboxResponse)
      → get_elem? s.game.tasks i ≡ none
      → (validate_code_test id i code result c s).1 ≡ s
  unfolding validate_code_test find_task get_task_indexed map_err ◌>>=◌
  unlisted code result out = ground arith

  pub not_started :
      (code : String) (result : SandboxResponse)
      → s.game.is_started ≡ false
      → (validate_code_test id i code result c s).1 ≡ s
  unfolding validate_code_test find_task get_task_indexed map_err ◌>>=◌
  not_started code result off = ground arith

  no_player :
      (code : String) (result : SandboxResponse)
      → s.game.is_host ≡ false
      → s.game.connected_clients ≡ none
      → (validate_code_test id i code result c s).1 ≡ s
  unfolding validate_code_test find_task get_task_indexed find_player map_err ◌>>=◌
  no_player code result guest lost = ground arith

  recorded :
      (code : String) (result : SandboxResponse) (t : GameTask) (report : List PublicTestProgress)
      → s.game.is_host ≡ true
      → s.game.is_started ≡ true
      → get_elem? s.game.tasks i ≡ some t
      → (validate_code_test id i code result c s).1
        ≡ (record_success id i t s.game.partial_host report c s).1
      → ((validate_code_test id i code result c s).1.game ≡ s.game) ⊎ Recorded id i code result c s
  recorded code result t report host on at done =
      elim (Option-cases s.game.partial_host.task_progress) [
        | inl idle ↦
            inl (
              ap (λ x. x.game) done
              ∙ record_success-idle c s id i t s.game.partial_host report idle)
        | inr (m, kept) ↦ inr (record {
          host = host;
          on = on;
          task = t;
          at = at;
          table = m;
          kept = kept;
          credited =
              ap (λ x. x.game) done
              ∙ record_success-game c s id i t s.game.partial_host report m kept
              ∙ rw host refl;
        })
      ]

  pub validate_code_test-ends :
      (code : String) (result : SandboxResponse)
      → IsValid s.game
      → ((validate_code_test id i code result c s).1.game ≡ s.game) ⊎ Recorded id i code result c s
  validate_code_test-ends code result v = elim (Bool-cases s.game.is_started) [
    | inl on ↦ elim (Option-cases (get_elem? s.game.tasks i)) [
      | inl out ↦ inl (ap (λ x. x.game) (unlisted code result out))
      | inr (t, at) ↦ elim (Bool-cases s.game.is_host) [
        | inl host ↦
            let step = ap (λ x. x.1) (lookup_step id i code result t c s host on at) in
            elim (validate_public-ends code result t s.game.partial_host) [
              | inl same ↦ inl (ap (λ x. x.game) (step ∙ same))
              | inr (report, done) ↦ recorded code result t report host on at (step ∙ done)
            ]
        | inr guest ↦
            inl (ap (λ x. x.game) (no_player code result guest (ground (arith, v.hosting))))
      ]
    ]
    | inr off ↦ inl (ap (λ x. x.game) (not_started code result off))
  ]
