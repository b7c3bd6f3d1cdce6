-- ===== src/Sound/Handlers.antt =====
-- Every request keeps the shard sound, however it ends.
use grass.Prelude.{refl, ℕ, String, not, Option, none, some, str_eq}
use grass.Models.Task.{Uuid}
use grass.Models.Request.{RequestOpCode, CompileRequest}
use grass.Models.Error.{BoxError}
use grass.Models.Response.{DefaultModel, OpCode}
use grass.State.{Game, GameState, SocketClient}
use grass.Exec.{Exec}
use grass.Exec.Keeps.{
  Keeps, Keeps-bind, Keeps-pure, Keeps-raise, Keeps-if, Keeps-asks, Keeps-or_raise, Keeps-map_err,
  Keeps-on_err,
}
use grass.Game.Messages.{get_task_indexed}
use grass.Game.Start.{start}
use grass.Handlers.Lobby.{
  handle_ping, handle_identify, handle_create, handle_exists, check_exists, identify,
}
use grass.Handlers.Play.{
  no_game, take_game, leave, start_game, game_task, host_task, find_game_task, handle_leave,
  handle_start, handle_task,
}
use grass.Handlers.Compile.{
  at_game, at_host, ask_game, host_of, compile_and_validate, handle_compile,
}
use grass.Handlers.Dispatch.{handle_request, handle_data, handle_body, handle_message}
use grass.Sound.{Sound, SoundState, Rely, SocketSound}
use grass.Sound.Rules.{
  Keeps-later, Keeps-with_get, Keeps-with_get_mut, Keeps-with_game, Keeps-set_socket, KeepsGame,
}
use grass.Sound.Games.{
  Keeps-start, Keeps-prepare_code_test, Keeps-validate_code_test, Keeps-run_code_test,
}
use grass.Sound.Owned.{start-KeepsGame, prepare_code_test-KeepsGame, validate_code_test-KeepsGame}
use grass.Game.CodeTest.{prepare_code_test, validate_code_test}
use grass.Sound.Joins.{Keeps-handle_join, all_rules}
use grass.Sound.Clients.{
  Keeps-with_client, Keeps-with_client_mut, Keeps-refuse, Keeps-reply, Keeps-drop_game,
}

Keeps-identify :
    (id : Uuid) (d : Option String) (s : SocketClient) (o : Option String)
    → SocketSound id s
    → Keeps Rely Sound (identify id d s o)
unfolding identify
Keeps-identify id d s none own = Keeps-bind _ _ (search all_rules) (λ r.
    Keeps-bind _ _ (Keeps-set_socket id _ (record { same_id = own.same_id; game = own.game }))
      (λ _. Keeps-reply s _ _ refl))
Keeps-identify id d s (some _) own = Keeps-reply s _ _ refl

Keeps-check_exists : (g : String) (o : Option String) → Keeps Rely Sound (check_exists g o)
unfolding check_exists
Keeps-check_exists g none = Keeps-pure _
Keeps-check_exists g (some t) = Keeps-if (str_eq t "") _ _ (Keeps-pure _) (
    Keeps-bind _ _ (Keeps-asks _) (λ serde. Keeps-bind _ _ (Keeps-or_raise _ _) (λ r.
      Keeps-bind _ _ (Keeps-with_get r.host_id _ (λ o own. Keeps-pure _))
        (λ alive. Keeps-later _ (Keeps-if alive _ _ (Keeps-pure _) (search all_rules depth 8))))))

Keeps-take_game :
    (id : Uuid) (s : SocketClient) (g : Game)
    → SocketSound id s
    → Keeps Rely Sound (take_game id s g)
unfolding take_game
Keeps-take_game id s g own =
    Keeps-bind _ _ (Keeps-set_socket id _ (record { same_id = own.same_id; game = tt }))
      (λ _. Keeps-drop_game g)

Keeps-no_game : {A : Type 0} (s : SocketClient) → Keeps Rely Sound (no_game {A = A} s)
unfolding no_game
Keeps-no_game s = Keeps-refuse s _

Keeps-leave :
    (id : Uuid) (s : SocketClient) (o : Option Game)
    → SocketSound id s
    → Keeps Rely Sound (leave id s o)
unfolding leave
Keeps-leave id s none own = Keeps-no_game s
Keeps-leave id s (some g) own = Keeps-take_game id s g own

Keeps-start_game :
    (id : Uuid) (d : Option String) (s : SocketClient) (o : Option Game)
    → SocketSound id s
    → Keeps Rely Sound (start_game id d s o)
unfolding start_game
Keeps-start_game id d s none own = Keeps-no_game s
Keeps-start_game id d s (some g) own =
    Keeps-if (not g.is_host) _ _
      (Keeps-bind _ _ (Keeps-take_game id s g own) (λ _. Keeps-refuse s _))
      (Keeps-bind _ _ (search all_rules) (λ r. Keeps-map_err _ _ (
        Keeps-with_game id (start r.task_count) (Keeps-start r.task_count)
          (start-KeepsGame r.task_count))))

Keeps-game_task : (s : SocketClient) (i : ℕ) (o : Option Game) → Keeps Rely Sound (game_task s i o)
unfolding game_task get_task_indexed
Keeps-game_task s i none = Keeps-refuse s _
Keeps-game_task s i (some g) = search all_rules depth 8

Keeps-host_task :
    (s : SocketClient) (i : ℕ) (o : Option SocketClient) → Keeps Rely Sound (host_task s i o)
unfolding host_task
Keeps-host_task s i none = Keeps-refuse s _
Keeps-host_task s i (some host) = Keeps-game_task s i host.game

Keeps-find_game_task :
    (d : Option String) (s : SocketClient) (o : Option Game)
    → Keeps Rely Sound (find_game_task d s o)
unfolding find_game_task
Keeps-find_game_task d s none = Keeps-no_game s
Keeps-find_game_task d s (some g) =
    Keeps-bind _ _ (search all_rules)
      (λ r. Keeps-with_get g.partial_host.id _ (λ o own. Keeps-host_task s r.task_index o))

module _ {A : Type 0} (message : String) (m : Exec GameState BoxError A)
    (kw : Keeps Rely SoundState m) (kg : KeepsGame m) where
  Keeps-at_game :
      (host_id : Uuid) (o : Option Game) → Keeps Rely Sound (at_game message m host_id o)
  unfolding at_game
  Keeps-at_game host_id none = Keeps-raise _
  Keeps-at_game host_id (some g) =
      Keeps-if (not g.is_started) _ _ (Keeps-raise _)
        (Keeps-map_err _ _ (Keeps-with_game host_id m kw kg))

  Keeps-at_host :
      (host_id : Uuid) (o : Option SocketClient) → Keeps Rely Sound (at_host message m host_id o)
  unfolding at_host
  Keeps-at_host host_id none = Keeps-raise _
  Keeps-at_host host_id (some host) = Keeps-at_game host_id host.game

  Keeps-ask_game : (id host_id : Uuid) → Keeps Rely Sound (ask_game message m id host_id)
  unfolding ask_game
  Keeps-ask_game id host_id =
      Keeps-on_err _ _ (Keeps-with_get_mut host_id _ (λ o own. Keeps-at_host host_id o))
        (λ e. Keeps-with_client id _ (λ s own. Keeps-refuse s e))

Keeps-host_of : (s : SocketClient) (o : Option Game) → Keeps Rely Sound (host_of s o)
unfolding host_of
Keeps-host_of s none = Keeps-refuse s _
Keeps-host_of s (some g) = Keeps-pure _

Keeps-compile_and_validate :
    (id host_id : Uuid) (r : CompileRequest) → Keeps Rely Sound (compile_and_validate id host_id r)
unfolding compile_and_validate
Keeps-compile_and_validate id host_id r =
    Keeps-bind _ _
      (Keeps-ask_game _ (prepare_code_test r.task_index) (Keeps-prepare_code_test r.task_index)
        (prepare_code_test-KeepsGame r.task_index) id host_id)
      (λ stdin. Keeps-bind _ _ (Keeps-map_err _ _ (Keeps-run_code_test id r.code stdin)) (λ result.
        Keeps-bind _ _ (search all_rules) (λ _.
          Keeps-bind _ _
            (Keeps-ask_game _ (validate_code_test id r.task_index r.code result)
              (Keeps-validate_code_test id r.task_index r.code result)
              (validate_code_test-KeepsGame id r.task_index r.code result) id host_id)
            (λ response. Keeps-with_client id _ (λ s own. Keeps-reply s _ _ refl)))))

Keeps-handle_compile : (id : Uuid) (d : Option String) → Keeps Rely Sound (handle_compile id d)
unfolding handle_compile
Keeps-handle_compile id d =
    Keeps-bind _ _ (Keeps-with_client id _ (λ s own. Keeps-host_of s s.game)) (λ host_id.
      Keeps-bind _ _ (search all_rules)
        (λ r. Keeps-bind _ _ (search all_rules) (λ _. Keeps-compile_and_validate id host_id r)))

-- Every request, of whatever op code and with whatever data, keeps the shard sound, whether it
-- succeeds, fails or panics, if what the other tasks do in the meantime does too.
pub Keeps-handle_request :
    (id : Uuid) (op : RequestOpCode) (d : Option String) → Keeps Rely Sound (handle_request id op d)
unfolding handle_request handle_leave handle_start handle_task handle_ping handle_identify
    handle_create handle_exists
Keeps-handle_request id RequestOpCode.join d = Keeps-handle_join id d
Keeps-handle_request id RequestOpCode.leave d =
    Keeps-with_client_mut id _ (λ s own. Keeps-leave id s s.game own)
Keeps-handle_request id RequestOpCode.start d =
    Keeps-with_client_mut id _ (λ s own. Keeps-start_game id d s s.game own)
Keeps-handle_request id RequestOpCode.task d =
    Keeps-with_client id _ (λ s own. Keeps-find_game_task d s s.game)
Keeps-handle_request id RequestOpCode.compile d = Keeps-handle_compile id d
Keeps-handle_request id RequestOpCode.ping d =
    Keeps-with_client id _ (λ s own. Keeps-reply s _ _ refl)
Keeps-handle_request id RequestOpCode.identify d =
    Keeps-with_client_mut id _ (λ s own. Keeps-identify id d s s.nickname own)
Keeps-handle_request id RequestOpCode.create d = Keeps-bind _ _ (search all_rules) (λ r.
    Keeps-bind _ _ (search all_rules) (λ g. Keeps-bind _ _ (search all_rules) (λ _.
      Keeps-bind _ _ (search all_rules)
        (λ _. Keeps-later _ (Keeps-with_client id _ (λ s own. Keeps-reply s _ _ refl))))))
Keeps-handle_request id RequestOpCode.exists d = Keeps-bind _ _ (search all_rules) (λ r.
    Keeps-bind _ _ (search all_rules) (λ _. Keeps-bind _ _ (search all_rules) (λ game.
      Keeps-later _ (
        Keeps-bind _ _ (Keeps-check_exists r.game_id game)
          (λ found. Keeps-later _ (Keeps-with_client id _ (λ s own. Keeps-reply s _ _ refl)))))))

Keeps-handle_body :
    (id : Uuid) (op : OpCode) (d : Option String) → Keeps Rely Sound (handle_body id op d)
unfolding handle_data
Keeps-handle_body id op none = Keeps-raise _
Keeps-handle_body id OpCode.request (some d) =
    Keeps-bind _ _ (Keeps-asks _)
      (λ serde. Keeps-bind _ _ (Keeps-or_raise _ _) (λ r. Keeps-handle_request id r.op r.d))
Keeps-handle_body id OpCode.hello (some d) = Keeps-raise _
Keeps-handle_body id OpCode.error (some d) = Keeps-raise _
Keeps-handle_body id OpCode.forced_disconnection (some d) = Keeps-raise _
Keeps-handle_body id OpCode.game_event (some d) = Keeps-raise _
Keeps-handle_body id OpCode.response (some d) = Keeps-raise _

pub Keeps-handle_message :
    (id : Uuid) (model : DefaultModel String) → Keeps Rely Sound (handle_message id model)
unfolding handle_message
Keeps-handle_message id model = Keeps-handle_body id model.op model.d
