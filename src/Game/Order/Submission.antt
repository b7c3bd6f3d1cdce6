-- ===== src/Game/Order/Submission.antt =====
-- `prepare_code_test` and `validate_code_test`, for a host's valid games that differ in the order of their clients.
use grass.Prelude.{
  ℕ, String, ◌≡◌, refl, sym, ap, get_elem?, ◌∙◌, ◌⊎◌, true, false, none, some, List, [], ◌∷◌,
  Bool-cases, Option-cases, inl, inr, arith, ◌==◌, length,
}
use grass.Prelude.HashMap.{HashMap}
use grass.Prelude.HashMap.Shuffle.{IsDistinct}
use mathlib.Core.List.{Perm}
use grass.Models.Task.{Uuid, GameTask}
use grass.Models.Error.{BoxError, client, out_of_range_task}
use grass.Models.Event.{Event}
use grass.Models.Default.{event}
use grass.Models.Response.{CompilationResponse, PublicTestProgress}
use grass.State.{World, Context, GameState, PartialClient, SandboxResponse}
use grass.Exec.{Outcome, err, panicked, or_raise, map_err, ◌>>=◌}
use grass.Game.Messages.{get_task_indexed, check_host}
use grass.Game.Delivery.Alike.{Alike}
use grass.Game.Delivery.Shuffle.{broadcast-Alike}
use grass.Game.Invariant.{IsValid}
use grass.Game.Judge.{judge_public, judge_private, passing_report}
use grass.Game.Members.Laws.{with_clients}
use grass.Game.CodeTest.{
  find_task, compile_code, prepare_code_test, validate_code_test, validate_public, validate_private,
  record_success, finish_task,
}
use grass.Game.CodeTest.Laws.{private_request}
use grass.Game.CodeTest.Record.{record_success-host, lookup_step}
use grass.Game.Order.Members.{unchanged}
use grass.Game.Order.{Shuffled, Matches}

-- What is done about a submission, for any player and game.
abbrev Answering : Type 0
Answering = PartialClient → GameState → Outcome BoxError CompilationResponse × GameState

module _ (id : Uuid) (i : ℕ) (code : String) (c : Context) (p₀ : PartialClient)
    (s₀ : GameState) where
  -- It answers as it does here and changes nothing, or comes to record a success.
  abbrev Settles : Answering → Type 0
  Settles m =
      ((p : PartialClient) (s : GameState) → m p s ≡ ((m p₀ s₀).0, s))
      ⊎ ((t : GameTask) × (report : List PublicTestProgress) × ((p : PartialClient) (s : GameState)
            → m p s ≡ record_success id i t p report c s))

  private-Settles :
      (t : GameTask) (report : List PublicTestProgress)
      → Settles (λ p s. validate_private id i code t p report c s)
  unfolding validate_private compile_code map_err ◌>>=◌
  private-Settles t report = elim (Option-cases (c.sandbox (private_request c id code t))) [
    | inl silent ↦ inl (λ p s. rw silent refl)
    | inr (answer, came) ↦ elim (Bool-cases answer.success) [
      | inr failed ↦ inl (λ p s. rw (came, or_raise, failed) refl)
      | inl ran ↦ elim (Option-cases (judge_private t.private_test_cases 0 answer.stdout [])) [
        | inl over ↦ inl (λ p s. rw (came, or_raise, ran, over) refl)
        | inr (fin, judged) ↦ elim (Bool-cases (length fin == length t.private_test_cases)) [
          | inr some_ ↦ inl (λ p s. rw (came, or_raise, ran, judged, or_raise, some_) refl)
          | inl all_ ↦ inr (t, report, λ p s. rw (came, or_raise, ran, judged, or_raise, all_) refl)
        ]
      ]
    ]
  ]

  public-Settles :
      (t : GameTask) (result : SandboxResponse)
      → Settles (λ p s. validate_public id i code result t p c s)
  unfolding validate_public ◌>>=◌
  public-Settles t result = elim (Bool-cases result.success) [
    | inr failed ↦ inl (λ p s. rw failed refl)
    | inl ran ↦ elim (Option-cases (judge_public t.public_test_cases 0 result.stdout [] [])) [
      | inl over ↦ inl (λ p s. rw (ran, over) refl)
      | inr (judged, e) ↦ elim (Bool-cases (length judged.0 == length t.public_test_cases)) [
        | inr some_ ↦ inl (λ p s. rw (ran, e, some_) refl)
        | inl all_ ↦ elim (private-Settles t (passing_report 0 judged.0)) [
          | inl answers ↦ inl (λ p s. rw (ran, e, all_) (answers p s))
          | inr (u, report, records) ↦ inr (u, report, λ p s. rw (ran, e, all_) (records p s))
        ]
      ]
    ]
  ]

module _ (c : Context) (s : GameState) where
  prepare-idle : (i : ℕ) → prepare_code_test i c s ≡ ((prepare_code_test i c s).0, s)
  unfolding prepare_code_test check_host find_task get_task_indexed map_err ◌>>=◌
  prepare-idle i = ground arith

  module _ (id : Uuid) (i : ℕ) (code : String) (result : SandboxResponse) where
    validate-not_started :
        s.game.is_started ≡ false
        → validate_code_test id i code result c s ≡ (err (client out_of_range_task), s)
    unfolding validate_code_test find_task get_task_indexed map_err ◌>>=◌
    validate-not_started idle = ground arith

    validate-unlisted :
        get_elem? s.game.tasks i ≡ none
        → validate_code_test id i code result c s ≡ (err (client out_of_range_task), s)
    unfolding validate_code_test find_task get_task_indexed map_err ◌>>=◌
    validate-unlisted out = ground arith

  -- A player without a table is found out too late: the program panics.
  record_success-lost :
      (id : Uuid) (i : ℕ) (t : GameTask) (report : List PublicTestProgress)
      → s.game.partial_host.task_progress ≡ none
      → record_success id i t s.game.partial_host report c s ≡ (panicked, s)
  unfolding record_success ◌>>=◌
  record_success-lost id i t report lost = ground arith

module _ (c : Context) (s : GameState) (clients clients' : HashMap PartialClient) (w' : World)
    (v : IsValid s.game) (v' : IsValid (with_clients clients' s.game))
    (host : s.game.is_host ≡ true) (here : s.game.connected_clients ≡ some clients)
    (same : Perm clients clients') (distinct : IsDistinct clients) (distinct' : IsDistinct clients')
    (alike : Alike s.world w') where
  abbrev s' : GameState
  s' = record { game = with_clients clients' s.game; world = w' }

  rest : Shuffled s.game s'.game
  rest = unchanged c s clients clients' w' v v' host here same distinct distinct' alike

  Matches-idle :
      {A : Type 0} (o : Outcome BoxError A) {x x' : Outcome BoxError A × GameState}
      → x ≡ (o, s)
      → x' ≡ (o, s')
      → Matches x x'
  Matches-idle o e e' = rw (e, e') (record { outcome = refl; game = rest; world = alike })

  prepare-outcome : (i : ℕ) → (prepare_code_test i c s).0 ≡ (prepare_code_test i c s').0
  unfolding prepare_code_test check_host find_task get_task_indexed map_err ◌>>=◌
  prepare-outcome i = ground arith

  pub prepare-Matches : (i : ℕ) → Matches (prepare_code_test i c s) (prepare_code_test i c s')
  prepare-Matches i =
      Matches-idle (prepare_code_test i c s).0 (prepare-idle c s i)
        (prepare-idle c s' i ∙ ap (λ o. (o, s')) (sym (prepare-outcome i)))

  record-Matches :
      (id : Uuid) (i : ℕ) (t : GameTask) (report : List PublicTestProgress)
      → Matches
          (record_success id i t s.game.partial_host report c s)
          (record_success id i t s.game.partial_host report c s')
  record-Matches id i t report = elim (Option-cases s.game.partial_host.task_progress) [
    | inl lost ↦
        Matches-idle panicked (record_success-lost c s id i t report lost)
          (record_success-lost c s' id i t report lost)
    | inr (m, kept) ↦
        rw
          (
            record_success-host id i t c s clients m report v host here kept,
            record_success-host id i t c s' clients' m report v' host refl kept,
          )
          (record {
            outcome = refl;
            game = record {
              clients = clients;
              clients' = clients';
              here = here;
              there = refl;
              same = same;
              distinct = distinct;
              distinct' = distinct';
            };
            world =
                broadcast-Alike (some (id ∷ [])) (event (Event.task_finished t i id)) clients
                  clients' (finish_task i m s.game.partial_host) s.world w' same alike;
          })
  ]

  pub validate-Matches :
      (id : Uuid) (i : ℕ) (code : String) (result : SandboxResponse)
      → Matches (validate_code_test id i code result c s) (validate_code_test id i code result c s')
  validate-Matches id i code result = elim (Bool-cases s.game.is_started) [
    | inr idle ↦
        Matches-idle (err (client out_of_range_task))
          (validate-not_started c s id i code result idle)
          (validate-not_started c s' id i code result idle)
    | inl started ↦ elim (Option-cases (get_elem? s.game.tasks i)) [
      | inl unlisted ↦
          Matches-idle (err (client out_of_range_task))
            (validate-unlisted c s id i code result unlisted)
            (validate-unlisted c s' id i code result unlisted)
      | inr (t, at) ↦
          rw
            (
              lookup_step id i code result t c s host started at,
              lookup_step id i code result t c s' host started at,
            )
            (elim (public-Settles id i code c s.game.partial_host s t result) [
              | inl answers ↦
                  Matches-idle _ (answers s.game.partial_host s) (answers s.game.partial_host s')
              | inr (u, report, records) ↦
                  rw (records s.game.partial_host s, records s.game.partial_host s')
                    (record-Matches id i u report)
            ])
    ]
  ]
