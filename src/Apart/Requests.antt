-- ===== src/Apart/Requests.antt =====
-- The requests that change nothing of the client's own socket.
use grass.Prelude.{ℕ, String, List, ◌≡◌, not, Option, none, some}
use grass.Models.Task.{Uuid}
use grass.Models.Error.{BoxError}
use grass.Models.Request.{CompileRequest}
use grass.State.{Context, Game, GameState, SocketClient}
use grass.Exec.{Exec}
use grass.Exec.Keeps.{
  Keeps, Keeps-bind, Keeps-pure, Keeps-raise, Keeps-if, Keeps-map_err, Keeps-on_err,
}
use grass.Game.Messages.{get_task_indexed}
use grass.Game.CodeTest.{prepare_code_test, validate_code_test, run_code_test, compile_code}
use grass.Handlers.Lobby.{handle_create, handle_exists, check_exists}
use grass.Handlers.Play.{no_game, game_task, host_task, find_game_task}
use grass.Handlers.Compile.{
  at_game, at_host, ask_game, host_of, compile_and_validate, handle_compile,
}
use grass.Apart.{Sockets, Frame}
use grass.Game.Still.{At, Seen, SeenState, Keeps-prepare_code_test}
use grass.Apart.Submissions.{Keeps-validate_code_test}
use grass.Apart.Rules.{Keeps-await, Keeps-with_get, Keeps-with_get_mut, Keeps-with_game}
use grass.Apart.Clients.{Keeps-with_client, Keeps-refuse, Keeps-parse, apart_rules}

module _ {R : Context → Type 0} {S : ℕ → Sockets → Type 0} {Entry : Uuid → Option Game → Type 0}
    (K : Frame R S Entry) where
  module _ {A : Type 0} where
    pub Keeps-no_game : (s : SocketClient) → Keeps R (Seen S) (no_game {A = A} s)
    unfolding no_game
    Keeps-no_game s = Keeps-refuse S s _

  Keeps-game_task :
      (s : SocketClient) (i : ℕ) (o : Option Game) → Keeps R (Seen S) (game_task s i o)
  unfolding game_task get_task_indexed
  Keeps-game_task s i none = Keeps-refuse S s _
  Keeps-game_task s i (some g) = search apart_rules depth 8

  Keeps-host_task :
      (s : SocketClient) (i : ℕ) (o : Option SocketClient) → Keeps R (Seen S) (host_task s i o)
  unfolding host_task
  Keeps-host_task s i none = Keeps-refuse S s _
  Keeps-host_task s i (some host) = Keeps-game_task s i host.game

  pub Keeps-find_game_task :
      (d : Option String) (s : SocketClient) (o : Option Game)
      → Keeps R (Seen S) (find_game_task d s o)
  unfolding find_game_task
  Keeps-find_game_task d s none = Keeps-no_game s
  Keeps-find_game_task d s (some g) =
      Keeps-bind _ _ (Keeps-parse _ d)
        (λ r. Keeps-with_get K g.partial_host.id _ (λ o e. Keeps-host_task s r.task_index o))

  Keeps-check_exists : (g : String) (o : Option String) → Keeps R (Seen S) (check_exists g o)
  unfolding check_exists
  Keeps-check_exists g none = Keeps-pure _
  Keeps-check_exists g (some t) = search (apart_rules, Keeps-with_get) depth 16

  pub Keeps-handle_create : (id : Uuid) (d : Option String) → Keeps R (Seen S) (handle_create id d)
  unfolding handle_create
  Keeps-handle_create id d = search apart_rules depth 16

  pub Keeps-handle_exists : (id : Uuid) (d : Option String) → Keeps R (Seen S) (handle_exists id d)
  unfolding handle_exists
  Keeps-handle_exists id d = search (apart_rules, Keeps-check_exists) depth 16

  module _ {A : Type 0} (message : String) (m : Exec GameState BoxError A)
      (k : (k₀ : ℕ) (g₀ : Game) → Keeps R (SeenState (At S k₀) (λ g. g ≡ g₀)) m) where
    Keeps-at_game :
        (host_id : Uuid) (o : Option Game) → Keeps R (Seen S) (at_game message m host_id o)
    unfolding at_game
    Keeps-at_game host_id none = Keeps-raise _
    Keeps-at_game host_id (some g) =
        Keeps-if (not g.is_started) _ _ (Keeps-raise _)
          (Keeps-map_err _ _ (Keeps-with_game K host_id m k))

    Keeps-at_host :
        (host_id : Uuid) (o : Option SocketClient) → Keeps R (Seen S) (at_host message m host_id o)
    unfolding at_host
    Keeps-at_host host_id none = Keeps-raise _
    Keeps-at_host host_id (some host) = Keeps-at_game host_id host.game

    Keeps-ask_game : (id host_id : Uuid) → Keeps R (Seen S) (ask_game message m id host_id)
    unfolding ask_game
    Keeps-ask_game id host_id =
        Keeps-on_err _ _ (Keeps-with_get_mut K host_id _ (λ o e. Keeps-at_host host_id o))
          (λ e. Keeps-with_client K id _ (λ s. Keeps-refuse S s e))

  Keeps-host_of : (s : SocketClient) (o : Option Game) → Keeps R (Seen S) (host_of s o)
  unfolding host_of
  Keeps-host_of s none = Keeps-refuse S s _
  Keeps-host_of s (some g) = Keeps-pure _

  Keeps-run_code_test :
      (id : Uuid) (code : String) (stdin : List String)
      → Keeps R (Seen S) (run_code_test id code stdin)
  unfolding run_code_test compile_code
  Keeps-run_code_test id code stdin = search apart_rules depth 16

  Keeps-compile_and_validate :
      (id host_id : Uuid) (r : CompileRequest)
      → Keeps R (Seen S) (compile_and_validate id host_id r)
  unfolding compile_and_validate
  Keeps-compile_and_validate id host_id r =
      Keeps-bind _ _
        (Keeps-ask_game _ (prepare_code_test r.task_index)
          (λ k₀ g₀. Keeps-prepare_code_test (At S k₀) (λ g. g ≡ g₀) r.task_index) id host_id)
        (λ stdin.
          Keeps-bind _ _ (Keeps-map_err _ _ (Keeps-run_code_test id r.code stdin)) (λ result.
            Keeps-bind _ _ (Keeps-await K) (λ _.
              Keeps-bind _ _
                (Keeps-ask_game _ (validate_code_test id r.task_index r.code result)
                  (λ k₀ g₀. Keeps-validate_code_test (At S k₀) g₀ id r.task_index r.code result) id
                  host_id)
                (λ response. search apart_rules))))

  pub Keeps-handle_compile :
      (id : Uuid) (d : Option String) → Keeps R (Seen S) (handle_compile id d)
  unfolding handle_compile
  Keeps-handle_compile id d =
      search (apart_rules, Keeps-host_of, Keeps-compile_and_validate) depth 16
