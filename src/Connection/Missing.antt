-- ===== src/Connection/Missing.antt =====
-- A request whose data is missing (`self.d.unwrap()` in
-- src/service/websocket/client/game/models/request.rs), and the connection that it came on.
use grass.Prelude.{
  String, ◌≡◌, refl, Bool, true, false, not, Option, none, some, List, [], ◌∷◌, is_some,
  Option-cases, inl, inr,
}
use grass.Models.Task.{Uuid}
use grass.Models.Request.{RequestOpCode}
use grass.Models.Response.{OpCode}
use grass.State.{World, Context, SocketClient, Game, Message, text}
use grass.Exec.{panicked, unwrap, or_raise, attempt, ◌>>=◌}
use grass.Exec.Sockets.{with_get, with_get_mut}
use grass.Client.{with_client, with_client_mut}
use grass.Connection.{Timing, in_time, on_model, on_text, on_message, read_loop}
use grass.Handlers.Parse.{parse}
use grass.Handlers.Lobby.{identify, handle_identify, handle_create, handle_exists}
use grass.Handlers.Play.{start_game, find_game_task, handle_start, handle_task}
use grass.Handlers.Compile.{host_of, handle_compile}
use grass.Handlers.Dispatch.{handle_request, handle_data, handle_message}

abbrev hosts : Option Game → Bool
hosts none = false
hosts (some g) = g.is_host

-- Whether the handler of a request comes to unwrap its data.
abbrev pub unwraps_data : RequestOpCode → SocketClient → Bool
unwraps_data RequestOpCode.start s = hosts s.game
unwraps_data RequestOpCode.task s = is_some s.game
unwraps_data RequestOpCode.compile s = is_some s.game
unwraps_data RequestOpCode.identify s = not (is_some s.nickname)
unwraps_data RequestOpCode.create s = true
unwraps_data RequestOpCode.exists s = true
unwraps_data op s = false

module _ (id : Uuid) (c : Context) (w : World) (s : SocketClient) (free : c.held ≡ [])
    (here : w.sockets id ≡ some s) where
  handle_request-missing :
      (op : RequestOpCode)
      → unwraps_data op s ≡ true
      → handle_request id op none c w ≡ (panicked, w)
  unfolding handle_request handle_start handle_task handle_compile handle_identify handle_create
      handle_exists start_game find_game_task host_of identify parse with_client with_client_mut
      with_get with_get_mut ◌>>=◌
  handle_request-missing RequestOpCode.start h = elim (Option-cases s.game) [
    | inl idle ↦ let no_game = rw idle at h in cc
    | inr (g, playing) ↦
        let host : g.is_host ≡ true = rw playing at h in rw (free, here, unwrap, playing, host) refl
  ]
  handle_request-missing RequestOpCode.task h = elim (Option-cases s.game) [
    | inl idle ↦ let no_game = rw idle at h in cc
    | inr (g, playing) ↦ rw (free, here, unwrap, playing) refl
  ]
  handle_request-missing RequestOpCode.compile h = elim (Option-cases s.game) [
    | inl idle ↦ let no_game = rw idle at h in cc
    | inr (g, playing) ↦ rw (free, here, unwrap, playing) refl
  ]
  handle_request-missing RequestOpCode.identify h = elim (Option-cases s.nickname) [
    | inl unnamed ↦ rw (free, here, unwrap, unnamed) refl
    | inr (name, named) ↦ let no_name = rw named at h in cc
  ]
  handle_request-missing RequestOpCode.create h = refl
  handle_request-missing RequestOpCode.exists h = refl
  handle_request-missing RequestOpCode.join h = cc
  handle_request-missing RequestOpCode.leave h = cc
  handle_request-missing RequestOpCode.ping h = cc

  -- A request without the data that its handler unwraps ends the task that reads the socket: the task
  -- panics, nothing that the peer sends afterwards is handled, and the shard is as it was. That is a start by a host,
  -- a request for a task or a submission by a client in a game, an identification by a client with
  -- no name, a creation, and a question whether a game exists. No guard is held before.
  pub read_loop-missing :
      (op : RequestOpCode) (t d : String) (rest : List (Message String × Timing))
      → c.serde.default_model t ≡ some (record { op = OpCode.request; d = some d })
      → c.serde.request d ≡ some (record { d = none; op = op })
      → unwraps_data op s ≡ true
      → read_loop id ((text t, in_time) ∷ rest) c w ≡ (panicked, w)
  unfolding read_loop on_message on_text on_model handle_message handle_data attempt ◌>>=◌
  read_loop-missing op t d rest model request h =
      rw (model, or_raise, request, handle_request-missing op h) refl
