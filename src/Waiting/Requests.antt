-- ===== src/Waiting/Requests.antt =====
-- The requests of a client but for a join: none waits for ever, if the client's game can be dropped under
-- its own guard.
use grass.Prelude.{ℕ, String, ◌≡◌, refl, not, false, Option, none, some, [], str_eq}
use grass.Models.Task.{Uuid}
use grass.Models.Error.{BoxError}
use grass.Models.Request.{CompileRequest}
use grass.State.{Context, World, Game, GameState, SocketClient, Serde}
use grass.Exec.{Exec}
use grass.Exec.Ends.{
  Ends, Ends-bind, Ends-pure, Ends-raise, Ends-asks, Ends-or_raise, Ends-if, Ends-map_err,
  Ends-on_err, is_deadlocked, ends_rules,
}
use grass.Game.Start.{start}
use grass.Game.Messages.{get_task_indexed}
use grass.Client.{with_client_mut}
use grass.Handlers.Parse.{parse}
use grass.Handlers.Lobby.{
  handle_ping, identify, handle_identify, handle_create, check_exists, handle_exists,
}
use grass.Handlers.Play.{
  no_game, take_game, leave, handle_leave, start_game, handle_start, game_task, host_task,
  find_game_task, handle_task,
}
use grass.Handlers.Compile.{
  at_game, at_host, ask_game, host_of, compile_and_validate, handle_compile,
}
use grass.Waiting.{IsFree, Unheld, MayRead, Calm, Always}
use grass.Waiting.Rules.{Ends-later, Ends-with_get, Ends-with_game, Ends-set_socket, Ends-await}
use grass.Waiting.Games.{
  Ends-start, Ends-prepare_code_test, Ends-run_code_test, Ends-validate_code_test, Ends-refuse,
  Ends-reply, calm_rules,
}
use grass.Waiting.Guards.{
  Ends-with_client-Calm, Holding, Ends-with_client, Ends-unguarded_mut, with_client_mut_ends,
  Ends-drop_game,
}

module _ {A : Type 0} {R : Context → Type 0} where
  pub Ends-parse : (f : Serde → String → Option A) (d : Option String) → Ends R (parse f d)
  unfolding parse
  Ends-parse f d = search ends_rules depth 8

  Ends-no_game : (s : SocketClient) → Ends R (no_game {A = A} s)
  unfolding no_game
  Ends-no_game s = Ends-refuse s _

module _ {R : Context → Type 0} where
  Ends-identify :
      (id : Uuid) (d : Option String) (s : SocketClient) (o : Option String)
      → Ends R (identify id d s o)
  unfolding identify
  Ends-identify id d s none = search (calm_rules, Ends-parse) depth 8
  Ends-identify id d s (some _) = Ends-reply s _ _

  Ends-game_task : (s : SocketClient) (i : ℕ) (o : Option Game) → Ends R (game_task s i o)
  unfolding game_task get_task_indexed
  Ends-game_task s i none = Ends-refuse s _
  Ends-game_task s i (some g) = search calm_rules depth 8

  pub Ends-host_task :
      (s : SocketClient) (i : ℕ) (o : Option SocketClient) → Ends R (host_task s i o)
  unfolding host_task
  Ends-host_task s i none = Ends-refuse s _
  Ends-host_task s i (some host) = Ends-game_task s i host.game

  Ends-host_of : (s : SocketClient) (o : Option Game) → Ends R (host_of s o)
  unfolding host_of
  Ends-host_of s none = Ends-refuse s _
  Ends-host_of s (some g) = Ends-pure _

Ends-find_game_task :
    (d : Option String) (s : SocketClient) (o : Option Game) → Ends MayRead (find_game_task d s o)
unfolding find_game_task
Ends-find_game_task d s none = Ends-no_game s
Ends-find_game_task d s (some g) = Ends-bind _ _ (Ends-parse _ d) (λ r.
    Ends-with_get Always g.partial_host.id _ (λ c reads. reads _) (λ c o reads. tt)
      (λ o. Ends-host_task s r.task_index o))

module _ {A : Type 0} (message : String) (m : Exec GameState BoxError A) (em : Ends Always m) where
  Ends-at_game : (host_id : Uuid) (o : Option Game) → Ends Always (at_game message m host_id o)
  unfolding at_game
  Ends-at_game host_id none = Ends-raise _
  Ends-at_game host_id (some g) =
      Ends-if (not g.is_started) _ _ (Ends-raise _) (Ends-map_err _ _ (Ends-with_game host_id m em))

  Ends-at_host :
      (host_id : Uuid) (o : Option SocketClient) → Ends Always (at_host message m host_id o)
  unfolding at_host
  Ends-at_host host_id none = Ends-raise _
  Ends-at_host host_id (some host) = Ends-at_game host_id host.game

  Ends-ask_game : (id host_id : Uuid) → Ends Unheld (ask_game message m id host_id)
  unfolding ask_game
  Ends-ask_game id host_id =
      Ends-on_err _ _ (Ends-unguarded_mut host_id _ (Ends-at_host host_id))
        (λ e. Ends-with_client id _ (λ s. Ends-refuse s e))

module _ (id : Uuid) where
  Ends-check_exists : (g : String) (o : Option String) → Ends Unheld (check_exists g o)
  unfolding check_exists
  Ends-check_exists g none = Ends-pure _
  Ends-check_exists g (some t) = Ends-if (str_eq t "") _ _ (Ends-pure _) (
      Ends-bind _ _ (Ends-asks _) (λ serde. Ends-bind _ _ (Ends-or_raise _ _) (λ r.
        Ends-bind _ _
          (Ends-with_get Always r.host_id _ (λ c u. rw u refl) (λ c o u. tt) (λ o. Ends-pure _))
          (λ alive. search calm_rules depth 8))))

  pub Ends-handle_exists : (d : Option String) → Ends Unheld (handle_exists id d)
  unfolding handle_exists
  Ends-handle_exists d = Ends-bind _ _ (Ends-parse _ d) (λ r.
      Ends-bind _ _ (search calm_rules) (λ _. Ends-bind _ _ (search calm_rules) (λ game.
        Ends-later _ (
          Ends-bind _ _ (Ends-check_exists r.game_id game)
            (λ found. Ends-later _ (Ends-with_client id _ (λ s. Ends-reply s _ _)))))))

  pub Ends-handle_create : (d : Option String) → Ends Unheld (handle_create id d)
  unfolding handle_create
  Ends-handle_create d = Ends-bind _ _ (Ends-parse _ d) (λ r.
      Ends-bind _ _ (Ends-asks _) (λ game_id. Ends-bind _ _ (search calm_rules) (λ _.
        Ends-bind _ _ (search calm_rules)
          (λ _. Ends-later _ (Ends-with_client id _ (λ s. Ends-reply s _ _))))))

  pub Ends-handle_ping : Ends Unheld (handle_ping id)
  unfolding handle_ping
  Ends-handle_ping = Ends-with_client id _ (λ s. Ends-reply s _ _)

  pub Ends-handle_identify : (d : Option String) → Ends Unheld (handle_identify id d)
  unfolding handle_identify with_client_mut
  Ends-handle_identify d =
      Ends-unguarded_mut id _
        (λ o. Ends-bind _ _ (search ends_rules) (λ s. Ends-identify id d s s.nickname))

  pub Ends-handle_task : (d : Option String) → Ends Calm (handle_task id d)
  unfolding handle_task
  Ends-handle_task d = Ends-with_client-Calm id _ (λ s. Ends-find_game_task d s s.game)

  Ends-compile_and_validate :
      (host_id : Uuid) (r : CompileRequest) → Ends Unheld (compile_and_validate id host_id r)
  unfolding compile_and_validate
  Ends-compile_and_validate host_id r =
      Ends-bind _ _ (Ends-ask_game _ _ (Ends-prepare_code_test r.task_index) id host_id) (λ stdin.
        Ends-bind _ _ (Ends-map_err _ _ (Ends-run_code_test id r.code stdin)) (λ result.
          Ends-bind _ _ Ends-await (λ _.
            Ends-bind _ _
              (Ends-ask_game _ _ (Ends-validate_code_test id r.task_index r.code result) id host_id)
              (λ response. Ends-with_client id _ (λ s. Ends-reply s _ _)))))

  pub Ends-handle_compile : (d : Option String) → Ends Unheld (handle_compile id d)
  unfolding handle_compile
  Ends-handle_compile d =
      Ends-bind _ _ (Ends-with_client id _ (λ s. Ends-host_of s s.game)) (λ host_id.
        Ends-bind _ _ (Ends-parse _ d)
          (λ r. Ends-bind _ _ Ends-await (λ _. Ends-compile_and_validate host_id r)))

  Ends-take_game : (s : SocketClient) (g : Game) → Ends (Holding id (some g)) (take_game id s g)
  unfolding take_game
  Ends-take_game s g = Ends-bind _ _ (Ends-set_socket id _) (λ _. Ends-drop_game id g)

  Ends-leave : (s : SocketClient) (o : Option Game) → Ends (Holding id o) (leave id s o)
  unfolding leave
  Ends-leave s none = Ends-no_game s
  Ends-leave s (some g) = Ends-take_game s g

  Ends-start_game :
      (d : Option String) (s : SocketClient) (o : Option Game)
      → Ends (Holding id o) (start_game id d s o)
  unfolding start_game
  Ends-start_game d s none = Ends-no_game s
  Ends-start_game d s (some g) =
      Ends-if (not g.is_host) _ _ (Ends-bind _ _ (Ends-take_game s g) (λ _. Ends-refuse s _)) (
        Ends-bind _ _ (Ends-parse _ d) (λ r.
          Ends-map_err _ _ (Ends-with_game id (start r.task_count) (Ends-start r.task_count))))

  module _ (c : Context) (w : World) (unheld : c.held ≡ []) (free : IsFree c.lock_of id w) where
    pub handle_leave_ends : is_deadlocked (handle_leave id c w).0 ≡ false
    unfolding handle_leave
    handle_leave_ends = with_client_mut_ends id _ (λ s. Ends-leave s s.game) c w unheld free

    pub handle_start_ends : (d : Option String) → is_deadlocked (handle_start id d c w).0 ≡ false
    unfolding handle_start
    handle_start_ends d =
        with_client_mut_ends id _ (λ s. Ends-start_game d s s.game) c w unheld free
