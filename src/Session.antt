-- ===== src/Session.antt =====
-- A whole session of two clients, from the first join to a submission that passes: the requests of
-- src/service/websocket/client/game/models/request.rs, one after another.
pub mod Started
use grass.Prelude.{
  ℕ, String, ◌≡◌, sym, refl, ◌∙◌, Bool, true, false, none, some, List, [], ◌∷◌, ◌==◌, length,
  get_elem?, ap, All, ltb, Bool-cases, inl, inr, ==_refl,
}
use grass.Prelude.HashMap.{HashMap, insert, get-insert}
use grass.Models.Task.{Uuid, GameTask}
use grass.Models.Request.{JoinRequest, StartRequest, CompileRequest}
use grass.State.{World, Context, SocketClient, PartialClient, Game, SandboxResponse}
use grass.Exec.{ok}
use grass.Exec.Services.{game_key}
use grass.Game.Invariant.{IsValid, IsMember, All-insert}
use grass.Game.Members.Laws.{with_clients}
use grass.Game.Progress.{with_progress, all_with_progress, fresh_progress}
use grass.Game.Start.Laws.{chosen, started, get-fresh_progress}
use grass.Game.CodeTest.Record.{credit_host}
use grass.Playing.Marks.{is_done_by, fresh_undone}
use grass.Game.Judge.Verdict.{Agree}
use grass.Game.CodeTest.Laws.{PrivatePass}
use grass.Handlers.Join.{handle_join}
use grass.Handlers.Join.Laws.{Quiet, host_socket}
use grass.Handlers.Join.Enter.{newcomer}
use grass.Handlers.Join.Together.{
  ReadsBack, own_game, own_game-IsValid, handle_join-handle_join, together-host, together-guest,
  together-open, together,
}
use grass.Handlers.Play.{handle_start}
use grass.Handlers.Compile.{handle_compile}
use grass.Handlers.Compile.Laws.{public_request, verdict, credited}
use grass.Handlers.Join.Enter.{guest_socket}
use grass.Session.Started.{under_way, handle_compile-handle_start}
use grass.Game.Delivery.{push}
use grass.Game.Delivery.Frame.{sockets-push}
use grass.Models.Default.{respond}
use grass.Models.Response.{ResponseData, ResponseOpCode}
use grass.Models.Wire.{to_string}
use grass.State.{text}

-- Of a game: its host's table says that the task is done, and no client's table does.
pub record HostAlone (i : ℕ) (g : Game) : Type 0 where
  pub host : is_done_by g.partial_host i ≡ true
  pub clients : HashMap PartialClient
  pub listed : g.connected_clients ≡ some clients
  pub others : All (λ e. is_done_by e.1 i ≡ false) clients

All-fresh_undone :
    (tasks : List GameTask) (i : ℕ) (clients : HashMap PartialClient)
    → All (λ e. is_done_by e.1 i ≡ false) (all_with_progress tasks clients)
All-fresh_undone tasks i [] = tt
All-fresh_undone tasks i ((id, p) ∷ rest) = (fresh_undone tasks i p, All-fresh_undone tasks i rest)

credited-HostAlone :
    (c : Context) (n i : ℕ) (g : Game) (clients : HashMap PartialClient)
    → HostAlone i (credit_host i (fresh_progress (chosen c n)) (started c n clients g))
credited-HostAlone c n i g clients = record {
  host = rw (get-insert, ==_refl i) refl;
  clients = all_with_progress (chosen c n) clients;
  listed = refl;
  others = All-fresh_undone (chosen c n) i clients;
}

module _ (id1 id2 : Uuid) (d1 d2 : String) (r : JoinRequest) (c : Context) (w : World)
    (s1 s2 : SocketClient) (name1 name2 : String) (quiet : Quiet c w) (back : ReadsBack c)
    (parsed1 : c.serde.join_request d1 ≡ some r) (parsed2 : c.serde.join_request d2 ≡ some r)
    (here1 : w.sockets id1 ≡ some s1) (here2 : w.sockets id2 ≡ some s2) (idle1 : s1.game ≡ none)
    (idle2 : s2.game ≡ none) (named1 : s1.nickname ≡ some name1) (named2 : s2.nickname ≡ some name2)
    (open1 : (w.channels s1.send_channel).closed ≡ false)
    (open2 : (w.channels s2.send_channel).closed ≡ false) (apart : (id1 == id2) ≡ false)
    (there : w.redis.entries (game_key r.game_id) ≡ some "") (d3 d4 : String) (start : StartRequest)
    (code : CompileRequest) (t : GameTask) (result : SandboxResponse)
    (parsed3 : c.serde.start_request d3 ≡ some start)
    (parsed4 : c.serde.compile_request d4 ≡ some code)
    (enough : (length (chosen c start.task_count) == start.task_count) ≡ true)
    (at : get_elem? (chosen c start.task_count) code.task_index ≡ some t)
    (came : c.sandbox (public_request c id2 code.code t) ≡ some result)
    (ran : result.success ≡ true) (public : Agree t.public_test_cases result.stdout)
    (private : PrivatePass c id2 code.code t) where
  abbrev guests : HashMap PartialClient
  guests = insert [] id2 (newcomer c id2 s2 name2)

  abbrev shared : Game
  shared = with_clients guests (own_game c s1 name1 r.game_id)

  shared-IsValid : IsValid shared
  shared-IsValid = record {
    hosting = refl;
    host_wired = refl;
    self_wired = refl;
    members = All-insert IsMember [] id2 (newcomer c id2 s2 name2) tt (refl, refl);
    closed = refl;
  }

  abbrev played : World
  played =
      together id1 id2 d1 d2 r c w s1 s2 name1 name2 quiet back parsed1 parsed2 here1 here2 idle1
        idle2 named1 named2 open1 open2 apart there

  joined :
      (handle_join id1 (some d1) c w).0 ≡ ok tt
      × (handle_join id2 (some d2) c (handle_join id1 (some d1) c w).1 ≡ (ok tt, played))
  joined =
      let e =
        handle_join-handle_join id1 id2 d1 d2 r c w s1 s2 name1 name2 quiet back parsed1 parsed2
          here1 here2 idle1 idle2 named1 named2 open1 open2 apart there in
      (ap (λ x. x.0) e.0, e.1)

  abbrev begun_world : World
  begun_world =
      under_way c start.task_count id1 (record s1 { game = some shared }) shared guests played

  abbrev guest : SocketClient
  guest = guest_socket c s2 name2 r.game_id id1 (host_socket c s1 name1 r.game_id) name1

  abbrev ended : World
  ended =
      push s2.send_channel
        (text (
          to_string (
            respond (ResponseData.compile (verdict code.task_index t result))
              ResponseOpCode.compile)))
        (credited id2 id1 (record s1 { game = some (started c start.task_count guests shared) })
          (started c start.task_count guests shared)
          (all_with_progress (chosen c start.task_count) guests)
          (fresh_progress (chosen c start.task_count)) code.task_index t begun_world)

  tested :
      (handle_start id1 (some d3) c played ≡ (ok tt, begun_world))
      × (handle_compile id2 (some d4) c (handle_start id1 (some d3) c played).1 ≡ (ok tt, ended))
  tested =
      handle_compile-handle_start c played id1 (record s1 { game = some shared }) shared guests d3
        start quiet.unheld
        (together-host id1 id2 d1 d2 r c w s1 s2 name1 name2 quiet back parsed1 parsed2 here1 here2
          idle1 idle2 named1 named2 open1 open2 apart there)
        refl shared-IsValid refl refl refl parsed3 enough id2 guest _ d4 code t result
        (together-guest id1 id2 d1 d2 r c w s1 s2 name1 name2 quiet back parsed1 parsed2 here1 here2
          idle1 idle2 named1 named2 open1 open2 apart there)
        refl refl apart
        (together-open id1 id2 d1 d2 r c w s1 s2 name1 name2 quiet back parsed1 parsed2 here1 here2
          idle1 idle2 named1 named2 open1 open2 apart there)
        quiet.alone parsed4 at came ran public private

  ended-host :
      ended.sockets id1
      ≡ some (record s1 {
        game = some (
            credit_host code.task_index
              (fresh_progress (chosen c start.task_count))
              (started c start.task_count guests shared));
      })
  ended-host = ap (λ f. f id1) (sockets-push _ _ _) ∙ rw (==_refl id1) refl

  -- The world after the first client has joined, after the second, and after the start.
  abbrev hosted : World
  hosted = (handle_join id1 (some d1) c w).1

  abbrev met : World
  met = (handle_join id2 (some d2) c hosted).1

  abbrev on : World
  on = (handle_start id1 (some d3) c met).1

  -- Two clients join a game that has no host yet, the first of them starts it, and the second sends code that passes
  -- the tests of a task: the four requests succeed, and the game ends up with the task marked in the table of the first
  -- client, the host, and not in the table of any client of the game. The
  -- clients have names, are in no game and have open channels, no guard is held, no other task runs in between,
  -- Redis is in order and what it holds of a game can be read back, the texts are the requests they should be, and as
  -- many tasks are chosen as the start asks for.
  pub session :
      ((handle_join id1 (some d1) c w).0 ≡ ok tt)
      × ((handle_join id2 (some d2) c hosted).0 ≡ ok tt)
      × ((handle_start id1 (some d3) c met).0 ≡ ok tt)
      × ((handle_compile id2 (some d4) c on).0 ≡ ok tt)
      × ((g : Game) × ((handle_compile id2 (some d4) c on).1.sockets id1
            ≡ some (record s1 { game = some g }))
          × HostAlone code.task_index g)
  session =
      let e = joined in
      let same : met ≡ played = ap (λ x. x.1) e.1 in
      let last =
        ap (λ x. handle_compile id2 (some d4) c (handle_start id1 (some d3) c x).1) same
        ∙ tested.1 in
      (
        e.0,
        ap (λ x. x.0) e.1,
        ap (λ x. x.0) (ap (handle_start id1 (some d3) c) same ∙ tested.0),
        ap (λ x. x.0) last,
        (
          credit_host code.task_index (fresh_progress (chosen c start.task_count))
              (started c start.task_count guests shared),
          ap (λ x. x.1.sockets id1) last ∙ ended-host,
          credited-HostAlone c start.task_count code.task_index shared guests,
        ),
      )
