-- ===== src/Handlers/Play/Tasks.antt =====
-- A request for a task of the game, in every case.
use grass.Prelude.{
  ℕ, String, ◌≡◌, ◌∙◌, refl, Bool, true, false, ◌&&◌, ◌==◌, Option, none, some, [], if◌then◌else◌,
  get_elem?, Option-cases, Bool-cases, inl, inr, ◌⊎◌,
}
use grass.Models.Task.{Uuid, GameTask}
use grass.Models.Request.{TaskRequest}
use grass.Models.Error.{ClientError, internal_server_error, out_of_range_task, game_not_started}
use grass.Models.Default.{Payload, new_model, respond}
use grass.Models.Response.{ResponseData, ResponseOpCode}
use grass.Models.Wire.{to_string}
use grass.State.{World, Context, Game, SocketClient, text, read}
use grass.Exec.{Outcome, ok, err, deadlocked, ◌>>=◌, unwrap, or_raise, map_err, on_err, ignore}
use grass.Exec.Services.{send}
use grass.Exec.Sockets.{with_get, hold}
use grass.Game.Delivery.{push}
use grass.Game.Messages.{get_task_indexed}
use grass.Client.{reply, refuse, report_error, with_client, send_model, send_raw}
use grass.Handlers.Parse.{parse}
use grass.Handlers.Play.{find_game_task, host_task, game_task, handle_task}

-- The task that a game gives under an index.
abbrev pub task_of : Game → ℕ → ClientError ⊎ GameTask
task_of g i =
    if g.is_started
    then (elim (get_elem? g.tasks i) [ none ↦ inl out_of_range_task | some t ↦ inr t ])
    else inl game_not_started

-- The same, asked of the host's socket.
abbrev pub host_gives : Option SocketClient → ℕ → ClientError ⊎ GameTask
host_gives none i = inl (internal_server_error "Host does not exist")
host_gives (some host) i = elim host.game [
  | none ↦ inl (internal_server_error "Host was not in the same game")
  | some g ↦ task_of g i
]

-- What the client is told, and how its request ends.
abbrev pub told_task :
    SocketClient → World → ClientError ⊎ GameTask → Outcome ClientError (Unit {0}) × World
told_task s w (inl e) =
    (err e, push s.send_channel (text (to_string (new_model (Payload.error e)))) w)
told_task s w (inr t) = (
  ok tt,
  push s.send_channel (text (to_string (respond (ResponseData.task t) ResponseOpCode.task))) w,
)

module _ (s : SocketClient) (c : Context) (w : World)
    (open_ : (w.channels s.send_channel).closed ≡ false) where
  refuse_step :
      {A : Type 0} (e : ClientError)
      → refuse {A = A} s e c w
        ≡ (err e, push s.send_channel (text (to_string (new_model (Payload.error e)))) w)
  unfolding refuse report_error send_model send_raw send push ignore map_err ◌>>=◌
  refuse_step e = rw open_ refl

  reply_step :
      (t : GameTask) → reply s (ResponseData.task t) ResponseOpCode.task c w ≡ told_task s w (inr t)
  unfolding reply send_model send_raw send push map_err ◌>>=◌
  reply_step t = rw open_ refl

  task_step : (g : Game) (i : ℕ) → game_task s i (some g) c w ≡ told_task s w (task_of g i)
  unfolding game_task get_task_indexed on_err ◌>>=◌
  task_step g i = elim (Bool-cases g.is_started) [
    | inl on ↦ elim (Option-cases (get_elem? g.tasks i)) [
      | inl out ↦ rw (on, out, or_raise, refuse_step {A = GameTask} out_of_range_task) refl
      | inr (t, at) ↦ rw (on, at, or_raise) (reply_step t)
    ]
    | inr idle ↦ rw (idle, refuse_step {A = GameTask} game_not_started) refl
  ]

  host_step :
      (o : Option SocketClient) (i : ℕ) → host_task s i o c w ≡ told_task s w (host_gives o i)
  unfolding host_task game_task
  host_step none i = refuse_step (internal_server_error "Host does not exist")
  host_step (some h) i = elim (Option-cases h.game) [
    | inl gone ↦ rw gone (refuse_step (internal_server_error "Host was not in the same game"))
    | inr (g, playing) ↦ rw playing (task_step g i)
  ]

module _ (id : Uuid) (d : String) (r : TaskRequest) (c : Context) (w : World) (s : SocketClient)
    (g : Game) (free : c.held ≡ []) (here : w.sockets id ≡ some s) (playing : s.game ≡ some g)
    (parsed : c.serde.task_request d ≡ some r) where
  -- The host's socket lies behind the lock of the client's own, and another task waits to write there.
  abbrev pub reads_again : Bool
  reads_again =
      c.lock_of id == c.lock_of g.partial_host.id && c.queued (c.lock_of g.partial_host.id)

  pub request_waits : reads_again ≡ true → handle_task id (some d) c w ≡ (deadlocked, w)
  unfolding handle_task find_game_task parse with_client with_get ◌>>=◌
  request_waits stuck = rw (free, here, unwrap, playing, parsed, or_raise, stuck) refl

  pub request_step :
      reads_again ≡ false
      → handle_task id (some d) c w
        ≡ host_task s r.task_index
            (w.sockets g.partial_host.id)
            (hold
              (hold c (some s) (read (c.lock_of id)))
              (w.sockets g.partial_host.id)
              (read (c.lock_of g.partial_host.id)))
            w
  unfolding handle_task find_game_task parse with_client with_get ◌>>=◌
  request_step calm = rw (free, here, unwrap, playing, parsed, or_raise, calm) refl

  -- A client in a game that asks for a task is sent what the host's game gives under that index, or the error
  -- that says why there is nothing: no socket of the host, a host in no game, a game that has not started, or
  -- an index out of range; and the request then ends with that error. Nothing else changes. No guard is
  -- held before, the client has an open channel, and the host's socket does not lie behind the lock of the
  -- client's own, or no other task waits to write there.
  pub handle_task_lem :
      reads_again ≡ false
      → (w.channels s.send_channel).closed ≡ false
      → handle_task id (some d) c w
        ≡ told_task s w (host_gives (w.sockets g.partial_host.id) r.task_index)
  handle_task_lem calm open_ =
      request_step calm ∙ host_step s _ w open_ (w.sockets g.partial_host.id) r.task_index
