-- ===== src/Session/Started.antt =====
-- A host's game that is started, and a guest's submission to it.
use grass.Prelude.{
  ℕ, String, ◌≡◌, sym, refl, ◌∙◌, true, false, none, some, [], ◌==◌, length, get_elem?, ==_refl, ap,
}
use grass.Prelude.HashMap.{HashMap}
use grass.Models.Task.{Uuid, GameTask}
use grass.Models.Request.{StartRequest, CompileRequest}
use grass.Models.Event.{Event}
use grass.Models.Default.{event, respond}
use grass.Models.Response.{ResponseData, ResponseOpCode}
use grass.Models.Wire.{to_string}
use grass.State.{World, Context, SocketClient, PartialClient, Game, SandboxResponse, text, write}
use grass.Exec.{ok}
use grass.Exec.Sockets.{hold}
use grass.Game.Delivery.{push, broadcast}
use grass.Game.Delivery.Frame.{sockets-broadcast, closed-broadcast}
use grass.Game.Invariant.{IsValid}
use grass.Game.Progress.{with_progress, all_with_progress, fresh_progress}
use grass.Game.Start.Branches.{begun, start_cases}
use grass.Game.Start.Laws.{chosen, started}
use grass.Game.Steps.{all_with_progress-members, members_at}
use grass.Game.Judge.Verdict.{Agree}
use grass.Game.CodeTest.Laws.{PrivatePass}
use grass.Handlers.Hosting.{with_host_game}
use grass.Handlers.Play.{handle_start}
use grass.Handlers.Play.Starting.{handle_start_lem, settle}
use grass.Handlers.Compile.{handle_compile}
use grass.Handlers.Compile.Laws.{handle_compile_lem, verdict, credited, public_request}

-- The game of a host has started, and everybody knows.
abbrev pub under_way :
    Context → ℕ → Uuid → SocketClient → Game → HashMap PartialClient → World → World
under_way c n host_id h g clients w = with_host_game host_id h (started c n clients g) (
    broadcast (all_with_progress (chosen c n) clients) (with_progress (chosen c n) g.partial_host)
      none (event (Event.start n)) w)

module _ (c : Context) (w : World) (host_id : Uuid) (h : SocketClient) (g : Game)
    (clients : HashMap PartialClient) (d : String) (r : StartRequest) (free : c.held ≡ [])
    (host_here : w.sockets host_id ≡ some h) (hosts : h.game ≡ some g) (v : IsValid g)
    (host : g.is_host ≡ true) (idle : g.is_started ≡ false)
    (some_clients : g.connected_clients ≡ some clients) (parsed : c.serde.start_request d ≡ some r)
    (enough : (length (chosen c r.task_count) == r.task_count) ≡ true) where
  begun_step :
      start_cases r.task_count
        (hold c (some h) (write (c.lock_of host_id)))
        (record { game = g; world = w })
        clients
      ≡ (
        ok tt,
        begun r.task_count
            (hold c (some h) (write (c.lock_of host_id)))
            (record { game = g; world = w })
            clients,
      )
  begun_step = simp (idle, enough)

  pub handle_start-under_way :
      handle_start host_id (some d) c w ≡ (ok tt, under_way c r.task_count host_id h g clients w)
  handle_start-under_way =
      handle_start_lem host_id d r c w h g clients free host_here hosts host parsed v some_clients
      ∙ ap (settle host_id h) begun_step

  pub started-IsValid : IsValid (started c r.task_count clients g)
  started-IsValid = record {
    hosting = sym host;
    host_wired = v.host_wired;
    self_wired = v.self_wired;
    members =
        all_with_progress-members (chosen c r.task_count) clients
          (members_at g clients v some_clients).1;
    closed = refl;
  }

  -- The world after the start.
  abbrev world : World
  world = under_way c r.task_count host_id h g clients w

  abbrev tables : HashMap PartialClient
  tables = all_with_progress (chosen c r.task_count) clients

  world-host :
      world.sockets host_id ≡ some (record h { game = some (started c r.task_count clients g) })
  world-host = rw (==_refl host_id) refl

  module _ (id : Uuid) (s : SocketClient) (sg : Game) (d' : String) (r' : CompileRequest)
      (t : GameTask) (result : SandboxResponse) (here : w.sockets id ≡ some s)
      (playing : s.game ≡ some sg) (same : sg.partial_host.id ≡ host_id)
      (apart : (host_id == id) ≡ false) (open_ : (w.channels s.send_channel).closed ≡ false) where
    world-guest : world.sockets id ≡ some s
    world-guest = rw apart (
        ap (λ f. f id)
          (sockets-broadcast none (event (Event.start r.task_count)) tables
            (with_progress (chosen c r.task_count) g.partial_host) w)
        ∙ here)

    world-open : (world.channels s.send_channel).closed ≡ false
    world-open =
        closed-broadcast none (event (Event.start r.task_count)) tables
          (with_progress (chosen c r.task_count) g.partial_host) w s.send_channel
        ∙ open_

    -- The host starts its valid game, for which enough tasks are chosen, and a guest then sends code that passes
    -- the tests of a task: the game is under way with fresh tables, the guest is answered that all is done, the host's
    -- table has the mark, and the other players are told. The guest has an open channel, no guard is
    -- held before and no other task runs.
    pub handle_compile-handle_start :
        ((x : World) → c.elsewhere x ≡ some x)
        → c.serde.compile_request d' ≡ some r'
        → get_elem? (chosen c r.task_count) r'.task_index ≡ some t
        → c.sandbox (public_request c id r'.code t) ≡ some result
        → result.success ≡ true
        → Agree t.public_test_cases result.stdout
        → PrivatePass c id r'.code t
        → (handle_start host_id (some d) c w ≡ (ok tt, world))
          × (handle_compile id (some d') c (handle_start host_id (some d) c w).1 ≡ (
            ok tt,
            push s.send_channel
                (text (
                  to_string (
                    respond
                      (ResponseData.compile (verdict r'.task_index t result))
                      ResponseOpCode.compile)))
                (credited id host_id
                  (record h { game = some (started c r.task_count clients g) })
                  (started c r.task_count clients g)
                  tables
                  (fresh_progress (chosen c r.task_count))
                  r'.task_index
                  t
                  world),
          ))
    handle_compile-handle_start alone asked at came ran public private = (
      handle_start-under_way,
      rw handle_start-under_way (
          handle_compile_lem id host_id r' t c world
            (record h { game = some (started c r.task_count clients g) })
            (started c r.task_count clients g) tables (fresh_progress (chosen c r.task_count))
            result free world-host refl started-IsValid host refl at refl refl came ran public
            private s sg d' world-guest playing same asked alone apart world-open),
    )
