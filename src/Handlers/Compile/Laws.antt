-- ===== src/Handlers/Compile/Laws.antt =====
-- A submission from the request to the answer, where no other task runs in between and no guard is held.
use grass.Prelude.{
  ℕ, String, ◌≡◌, refl, ◌∙◌, Bool, true, false, some, [], ◌∷◌, arith, ◌==◌, get_elem?,
}
use grass.Prelude.HashMap.{HashMap}
use grass.Models.Task.{Uuid, GameTask}
use grass.Models.Request.{CompileRequest}
use grass.Models.Error.{BoxError}
use grass.Models.Default.{respond, event}
use grass.Models.Event.{Event}
use grass.Models.Response.{CompilationResponse, ResponseData, ResponseOpCode}
use grass.Models.Wire.{to_string}
use grass.State.{
  World, Context, SocketClient, PartialClient, Game, GameState, SandboxRequest, SandboxResponse,
  text, write,
}
use grass.Exec.{Exec, ok, ◌>>=◌, unwrap, map_err, on_err, or_raise}
use grass.Exec.Services.{send}
use grass.Exec.Sockets.{with_get, with_get_mut, with_game, await, hold}
use grass.Game.Delivery.{push}
use grass.Game.Delivery.Frame.{sockets-broadcast, closed-broadcast}
use grass.Game.Invariant.{IsValid}
use grass.Game.Messages.{check_host, get_task_indexed}
use grass.Game.Judge.{passing_report}
use grass.Game.Judge.Verdict.{Agree, passed, pairs}
use grass.Game.CodeTest.{
  prepare_code_test, run_code_test, validate_code_test, compile_code, find_task, gather_stdin,
  finished, finish_task,
}
use grass.Game.CodeTest.Laws.{PrivatePass}
use grass.Game.CodeTest.Record.{validate_code_test-accepts, credit_host, announce}
use grass.Client.{with_client, reply, send_model, send_raw}
use grass.Handlers.Hosting.{with_host_game, with_host_game-same}
use grass.Handlers.Parse.{parse}
use grass.Handlers.Compile.{
  at_game, at_host, ask_game, host_of, compile_and_validate, handle_compile,
}

module _ {A : Type 0} (message : String) (method : Exec GameState BoxError A) (id host_id : Uuid)
    (c : Context) (w : World) (h : SocketClient) (g : Game) (free : c.held ≡ [])
    (host_here : w.sockets host_id ≡ some h) (hosts : h.game ≡ some g)
    (on : g.is_started ≡ true) where
  ask_game-method :
      (a : A) (g' : Game) (w' : World)
      → method (hold c (some h) (write (c.lock_of host_id))) (record { game = g; world = w })
        ≡ (ok a, record { game = g'; world = w' })
      → ask_game message method id host_id c w ≡ (ok a, with_host_game host_id h g' w')
  unfolding ask_game at_host at_game with_get_mut with_game map_err on_err ◌>>=◌
  ask_game-method a g' w' runs = ground (arith, runs)

-- What the sandbox is asked to run on the public tests of a task.
abbrev pub public_request : Context → Uuid → String → GameTask → SandboxRequest
public_request c client_id code t = record {
  user_id = c.uuid_text client_id;
  code = code;
  stdin = gather_stdin t.public_test_cases;
}

-- The answer to a submission that passes.
abbrev pub verdict : ℕ → GameTask → SandboxResponse → CompilationResponse
verdict i t result =
    finished i (passing_report 0 (passed (pairs t.public_test_cases result.stdout)))

-- The host's game has the mark in the host's table, and the others have been told.
abbrev pub credited :
    Uuid
    → Uuid
    → SocketClient
    → Game
    → HashMap PartialClient
    → HashMap Bool
    → ℕ
    → GameTask
    → World
    → World
credited id host_id h g clients m i t w =
    with_host_game host_id h (credit_host i m g)
      (announce id i t clients (finish_task i m g.partial_host) w)

module _ (id host_id : Uuid) (r : CompileRequest) (t : GameTask) (c : Context) (w : World)
    (h : SocketClient) (g : Game) (clients : HashMap PartialClient) (m : HashMap Bool)
    (result : SandboxResponse) (free : c.held ≡ []) (host_here : w.sockets host_id ≡ some h)
    (hosts : h.game ≡ some g) (v : IsValid g) (host : g.is_host ≡ true) (on : g.is_started ≡ true)
    (at : get_elem? g.tasks r.task_index ≡ some t)
    (some_clients : g.connected_clients ≡ some clients)
    (progress : g.partial_host.task_progress ≡ some m)
    (came : c.sandbox (public_request c id r.code t) ≡ some result) (ran : result.success ≡ true)
    (public : Agree t.public_test_cases result.stdout) (private : PrivatePass c id r.code t) where
  prepare_step :
      (c' : Context)
      → prepare_code_test r.task_index c' (record { game = g; world = w })
        ≡ (ok (gather_stdin t.public_test_cases), record { game = g; world = w })
  unfolding prepare_code_test check_host find_task get_task_indexed map_err ◌>>=◌
  prepare_step c' = ground arith

  run_step : run_code_test id r.code (gather_stdin t.public_test_cases) c w ≡ (ok result, w)
  unfolding run_code_test compile_code map_err ◌>>=◌
  run_step = ground (arith, came)

  abbrev after : World
  after = credited id host_id h g clients m r.task_index t w

  validate_step :
      ask_game "Compilation failed"
        (validate_code_test id r.task_index r.code result)
        id
        host_id
        c
        w
      ≡ (ok (verdict r.task_index t result), after)
  validate_step =
      ask_game-method "Compilation failed" (validate_code_test id r.task_index r.code result) id
        host_id c w h g free host_here hosts on (verdict r.task_index t result)
        (credit_host r.task_index m g)
        (announce id r.task_index t clients (finish_task r.task_index m g.partial_host) w)
        (validate_code_test-accepts id r.task_index t (hold c (some h) (write (c.lock_of host_id)))
          (record { game = g; world = w }) clients m r.code result v host on at some_clients
          progress ran public private)

  compile_step :
      ((x : World) → c.elsewhere x ≡ some x)
      → compile_and_validate id host_id r c w
        ≡ with_client id
            (λ client.
              reply client
                (ResponseData.compile (verdict r.task_index t result))
                ResponseOpCode.compile)
            c
            after
  unfolding compile_and_validate await map_err ◌>>=◌
  compile_step alone =
      let first =
        ask_game-method "Host was not host" (prepare_code_test r.task_index) id host_id c w h g free
          host_here hosts on (gather_stdin t.public_test_cases) g w (prepare_step _) in
      rw (first, with_host_game-same host_id h g w host_here hosts, run_step, alone, validate_step)
        refl

  module _ (s : SocketClient) (sg : Game) (d : String) (here : w.sockets id ≡ some s)
      (playing : s.game ≡ some sg) (same : sg.partial_host.id ≡ host_id)
      (parsed : c.serde.compile_request d ≡ some r) (alone : (x : World) → c.elsewhere x ≡ some x)
      (apart : (host_id == id) ≡ false) (open_ : (w.channels s.send_channel).closed ≡ false) where
    still_here : after.sockets id ≡ some s
    still_here = rw (apart, sockets-broadcast, here) refl

    still_open : (after.channels s.send_channel).closed ≡ false
    still_open =
        closed-broadcast (some (id ∷ [])) (event (Event.task_finished t r.task_index id)) clients
          (finish_task r.task_index m g.partial_host) w s.send_channel
        ∙ open_

    reply_step :
        (data_ : ResponseData)
        → with_client id (λ client. reply client data_ ResponseOpCode.compile) c after ≡ (
          ok tt,
          push s.send_channel (text (to_string (respond data_ ResponseOpCode.compile))) after,
        )
    unfolding with_client with_get reply send_model send_raw send push map_err ◌>>=◌
    reply_step data_ = ground (arith, still_here, still_open)

    request_step : handle_compile id (some d) c w ≡ compile_and_validate id host_id r c w
    unfolding handle_compile with_client with_get host_of parse await ◌>>=◌
    request_step = rw (free, here, unwrap, playing, parsed, or_raise, alone, same) refl

    -- A guest's submission that its tests accept: the guest is answered that all is done, the HOST has the
    -- mark, and the other players are told. The host's game is valid and started, the guest's channel is
    -- open, no guard is held before and no other task runs.
    pub handle_compile_lem : handle_compile id (some d) c w ≡ (
      ok tt,
      push s.send_channel
          (text (
            to_string (
              respond
                (ResponseData.compile (verdict r.task_index t result))
                ResponseOpCode.compile)))
          (credited id host_id h g clients m r.task_index t w),
    )
    handle_compile_lem =
        request_step
        ∙ compile_step alone
        ∙ reply_step (ResponseData.compile (verdict r.task_index t result))
