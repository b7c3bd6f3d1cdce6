-- ===== src/Apart/Handlers.antt =====
-- Every request of a client, given what a request to join does.
use grass.Prelude.{ℕ, String, not, Option, none, some}
use grass.Models.Task.{Uuid}
use grass.Models.Request.{RequestOpCode}
use grass.Models.Response.{DefaultModel, OpCode}
use grass.State.{Context, Game, SocketClient}
use grass.Exec.Keeps.{
  Keeps, Keeps-bind, Keeps-raise, Keeps-if, Keeps-asks, Keeps-or_raise, Keeps-map_err,
}
use grass.Handlers.Lobby.{handle_ping, handle_identify, identify}
use grass.Handlers.Play.{take_game, leave, start_game, handle_leave, handle_start, handle_task}
use grass.Handlers.Dispatch.{handle_request, handle_data, handle_body, handle_message}
use grass.Apart.{Sockets, Frame, Owner}
use grass.Game.Still.{Seen}
use grass.Apart.Rules.{Keeps-set_socket}
use grass.Handlers.Join.{handle_join}
use grass.Apart.Clients.{
  Keeps-with_client, Keeps-with_client_mut, Keeps-refuse, Keeps-reply, Keeps-parse, Keeps-drop_game,
  apart_rules,
}
use grass.Apart.Requests.{
  Keeps-no_game, Keeps-find_game_task, Keeps-handle_create, Keeps-handle_exists,
  Keeps-handle_compile,
}

module _ {R : Context → Type 0} {S : ℕ → Sockets → Type 0} {Entry : Uuid → Option Game → Type 0}
    (K : Frame R S Entry) where
  module _ (id : Uuid) (O : Owner R S Entry id)
      (join : (d : Option String) → Keeps R (Seen S) (handle_join id d)) where
    Keeps-identify :
        (d : Option String) (s : SocketClient) (o : Option String)
        → Entry id s.game
        → Keeps R (Seen S) (identify id d s o)
    unfolding identify
    Keeps-identify d s none e =
        Keeps-bind _ _ (Keeps-parse _ d)
          (λ r. Keeps-bind _ _ (Keeps-set_socket K id _ O e) (λ _. Keeps-reply S s _ _))
    Keeps-identify d s (some _) e = Keeps-reply S s _ _

    Keeps-take_game : (s : SocketClient) (g : Game) → Keeps R (Seen S) (take_game id s g)
    unfolding take_game
    Keeps-take_game s g =
        Keeps-bind _ _ (Keeps-set_socket K id _ O O.without) (λ _. Keeps-drop_game K g)

    Keeps-leave : (s : SocketClient) (o : Option Game) → Keeps R (Seen S) (leave id s o)
    unfolding leave
    Keeps-leave s none = Keeps-no_game K s
    Keeps-leave s (some g) = Keeps-take_game s g

    Keeps-start_game :
        (d : Option String) (s : SocketClient) (o : Option Game)
        → Keeps R (Seen S) (start_game id d s o)
    unfolding start_game
    Keeps-start_game d s none = Keeps-no_game K s
    Keeps-start_game d s (some g) =
        Keeps-if (not g.is_host) _ _
          (Keeps-bind _ _ (Keeps-take_game s g) (λ _. Keeps-refuse S s _))
          (Keeps-bind _ _ (Keeps-parse _ d) (λ r. Keeps-map_err _ _ (O.starting r.task_count)))

    pub Keeps-handle_request :
        (op : RequestOpCode) (d : Option String) → Keeps R (Seen S) (handle_request id op d)
    unfolding handle_request handle_leave handle_start handle_task handle_ping handle_identify
    Keeps-handle_request RequestOpCode.join d = join d
    Keeps-handle_request RequestOpCode.leave d =
        Keeps-with_client_mut K id _ (λ s e. Keeps-leave s s.game)
    Keeps-handle_request RequestOpCode.start d =
        Keeps-with_client_mut K id _ (λ s e. Keeps-start_game d s s.game)
    Keeps-handle_request RequestOpCode.task d =
        Keeps-with_client K id _ (λ s. Keeps-find_game_task K d s s.game)
    Keeps-handle_request RequestOpCode.compile d = Keeps-handle_compile K id d
    Keeps-handle_request RequestOpCode.ping d = search apart_rules
    Keeps-handle_request RequestOpCode.identify d =
        Keeps-with_client_mut K id _ (λ s e. Keeps-identify d s s.nickname e)
    Keeps-handle_request RequestOpCode.create d = Keeps-handle_create K id d
    Keeps-handle_request RequestOpCode.exists d = Keeps-handle_exists K id d

    Keeps-handle_body : (op : OpCode) (d : Option String) → Keeps R (Seen S) (handle_body id op d)
    unfolding handle_data
    Keeps-handle_body op none = Keeps-raise _
    Keeps-handle_body OpCode.request (some d) =
        Keeps-bind _ _ (Keeps-asks _)
          (λ serde. Keeps-bind _ _ (Keeps-or_raise _ _) (λ r. Keeps-handle_request r.op r.d))
    Keeps-handle_body OpCode.hello (some d) = Keeps-raise _
    Keeps-handle_body OpCode.error (some d) = Keeps-raise _
    Keeps-handle_body OpCode.forced_disconnection (some d) = Keeps-raise _
    Keeps-handle_body OpCode.game_event (some d) = Keeps-raise _
    Keeps-handle_body OpCode.response (some d) = Keeps-raise _

    pub Keeps-handle_message :
        (model : DefaultModel String) → Keeps R (Seen S) (handle_message id model)
    unfolding handle_message
    Keeps-handle_message model = Keeps-handle_body model.op model.d
