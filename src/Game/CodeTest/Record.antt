-- ===== src/Game/CodeTest/Record.antt =====
-- What a validation leaves behind: nothing unless every test has passed, and then one mark and one event.
use grass.Prelude.{
  ℕ, String, ◌≡◌, Bool, true, false, some, List, [], ◌∷◌, arith, inl, inr, Option-cases, get_elem?,
  ◌∙◌, ==_refl,
}
use grass.Prelude.HashMap.{HashMap}
use grass.Models.Task.{Uuid, GameTask}
use grass.Models.Error.{BoxError}
use grass.Models.Event.{Event}
use grass.Models.Default.{event}
use grass.Models.Response.{CompilationResponse, PublicTestProgress}
use grass.State.{Context, Game, GameState, PartialClient, World, SandboxResponse}
use grass.Exec.{or_raise, Outcome, ok, err, panicked, deadlocked, suspended, ◌>>=◌, map_err, ignore}
use grass.Game.Messages.{get_task_indexed}
use grass.Game.Delivery.{broadcast, send_global-broadcast}
use grass.Game.Invariant.{IsValid, IsValid-IsWired}
use grass.Game.Judge.{judge_public, passing_report}
use grass.Game.Judge.Verdict.{Agree, passed, pairs, Agree-judge_public, judge_public-Agree}
use grass.Game.CodeTest.{
  find_task, find_player, compile_code, validate_code_test, validate_public, validate_private,
  record_success, finish_task, finished,
}
use grass.Game.CodeTest.Laws.{PrivatePass, Agree-judge_private, judge_private-Agree}

-- The host's table with the task marked as done.
abbrev pub credit_host : ℕ → HashMap Bool → Game → Game
credit_host i m g = record g { partial_host = finish_task i m g.partial_host }

abbrev pub announce : Uuid → ℕ → GameTask → HashMap PartialClient → PartialClient → World → World
announce id i task clients host w =
    broadcast clients host (some (id ∷ [])) (event (Event.task_finished task i id)) w

module _ (id : Uuid) (i : ℕ) (code : String) (t : GameTask) (p : PartialClient) (c : Context)
    (s : GameState) where
  private_step :
      (report : List PublicTestProgress)
      → PrivatePass c id code t
      → validate_private id i code t p report c s ≡ record_success id i t p report c s
  unfolding validate_private compile_code map_err ◌>>=◌
  private_step report (answer, came, ran, agree) =
      let (fin, judged) = Agree-judge_private t.private_test_cases answer.stdout agree in
      let long = (judge_private-Agree t.private_test_cases answer.stdout judged).1 agree in
      rw (came, or_raise, ran, judged, long, ==_refl)

  public_step :
      (result : SandboxResponse)
      → result.success ≡ true
      → Agree t.public_test_cases result.stdout
      → validate_public id i code result t p c s
        ≡ validate_private id i code t p
            (passing_report 0 (passed (pairs t.public_test_cases result.stdout)))
            c
            s
  unfolding validate_public ◌>>=◌
  public_step result ran agree =
      let judged = Agree-judge_public t.public_test_cases result.stdout agree in
      let long = (judge_public-Agree t.public_test_cases result.stdout judged).1 agree in
      rw (ran, judged, long, ==_refl)

pub lookup_step :
    (id : Uuid) (i : ℕ) (code : String) (result : SandboxResponse) (t : GameTask) (c : Context)
    (s : GameState)
    → s.game.is_host ≡ true
    → s.game.is_started ≡ true
    → get_elem? s.game.tasks i ≡ some t
    → validate_code_test id i code result c s
      ≡ validate_public id i code result t s.game.partial_host c s
unfolding validate_code_test find_task get_task_indexed find_player map_err ◌>>=◌
lookup_step id i code result t c s host started at = rw (host, started, at)

module _ (id : Uuid) (i : ℕ) (t : GameTask) (c : Context) (s : GameState)
    (clients : HashMap PartialClient) (m : HashMap Bool) where
  pub record_success-host :
      (report : List PublicTestProgress)
      → IsValid s.game
      → s.game.is_host ≡ true
      → s.game.connected_clients ≡ some clients
      → s.game.partial_host.task_progress ≡ some m
      → record_success id i t s.game.partial_host report c s ≡ (
        ok (finished i report),
        record {
          game = credit_host i m s.game;
          world = announce id i t clients (finish_task i m s.game.partial_host) s.world;
        },
      )
  unfolding record_success ◌>>=◌
  record_success-host report v host some_clients some_progress = ground (
    arith,
    send_global-broadcast {F = BoxError} c (event (Event.task_finished t i id)) (some (id ∷ []))
        (record s { game = credit_host i m s.game }) clients host some_clients
        (IsValid-IsWired v some_clients) v.host_wired,
  )

  -- The host's valid and started game passes a submission that its tests accept, whoever sent it: it answers that all is
  -- done, marks the task in the HOST's table, leaves the clients' tables, and tells everybody else.
  pub validate_code_test-accepts :
      (code : String) (result : SandboxResponse)
      → IsValid s.game
      → s.game.is_host ≡ true
      → s.game.is_started ≡ true
      → get_elem? s.game.tasks i ≡ some t
      → s.game.connected_clients ≡ some clients
      → s.game.partial_host.task_progress ≡ some m
      → result.success ≡ true
      → Agree t.public_test_cases result.stdout
      → PrivatePass c id code t
      → validate_code_test id i code result c s ≡ (
        ok (finished i (passing_report 0 (passed (pairs t.public_test_cases result.stdout)))),
        record {
          game = credit_host i m s.game;
          world = announce id i t clients (finish_task i m s.game.partial_host) s.world;
        },
      )
  validate_code_test-accepts code result v host started at some_clients some_progress ran agree
        private =
      lookup_step id i code result t c s host started at
      ∙ public_step id i code t s.game.partial_host c s result ran agree
      ∙ private_step id i code t s.game.partial_host c s _ private
      ∙ record_success-host _ v host some_clients some_progress

-- An answer that all is done, or a run that was cut off.
abbrev pub may_record : Outcome BoxError CompilationResponse → Bool
may_record (ok r) = r.is_done
may_record (err e) = false
may_record panicked = true
may_record deadlocked = true
may_record suspended = true

module _ (id : Uuid) (i : ℕ) (c : Context) (s : GameState) where
  record_success-records :
      (t : GameTask) (p : PartialClient) (report : List PublicTestProgress)
      → may_record (record_success id i t p report c s).0 ≡ false
      → (record_success id i t p report c s).1 ≡ s
  unfolding record_success ignore ◌>>=◌
  record_success-records t p report h = ground arith

  validate_private-records :
      (code : String) (t : GameTask) (p : PartialClient) (report : List PublicTestProgress)
      → may_record (validate_private id i code t p report c s).0 ≡ false
      → (validate_private id i code t p report c s).1 ≡ s
  unfolding validate_private compile_code map_err ◌>>=◌
  validate_private-records code t p report h = ground (arith, record_success-records t p report)

  validate_public-records :
      (code : String) (result : SandboxResponse) (t : GameTask) (p : PartialClient)
      → may_record (validate_public id i code result t p c s).0 ≡ false
      → (validate_public id i code result t p c s).1 ≡ s
  unfolding validate_public ◌>>=◌
  validate_public-records code result t p h =
      elim (Option-cases (judge_public t.public_test_cases 0 result.stdout [] [])) [
        | inl over ↦ ground arith
        | inr (out, judged) ↦
            ground (arith, validate_private-records code t p (passing_report 0 out.0))
      ]

  -- A validation that ends in an error, or in an answer that is not "done", changes neither the game nor
  -- any channel: progress is recorded, and an event is sent, for a complete success alone.
  pub validate_code_test-records :
      (code : String) (result : SandboxResponse)
      → may_record (validate_code_test id i code result c s).0 ≡ false
      → (validate_code_test id i code result c s).1 ≡ s
  unfolding validate_code_test find_task get_task_indexed find_player map_err ◌>>=◌
  validate_code_test-records code result h = grind (arith, validate_public-records)
