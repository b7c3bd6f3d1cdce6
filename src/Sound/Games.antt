-- ===== src/Sound/Games.antt =====
-- The methods of a game send serialised texts and leave the sockets alone.
use grass.Prelude.{ℕ, String, ◌≡◌, Option, List, [], ◌∷◌}
use grass.Prelude.HashMap.{HashMap}
use grass.Models.Task.{Uuid, GameTask}
use grass.Models.Response.{DefaultModel, PublicTestProgress}
use grass.Models.Default.{Payload}
use grass.Models.Wire.{to_string, to_string_idem}
use grass.Models.Typed.{IsTyped, IsTyped-to_string}
use grass.State.{Game, GameState, PartialClient, SandboxResponse, text}
use grass.Exec.{Exec, ◌>>=◌}
use grass.Exec.Keeps.{Keeps, Keeps-bind, Keeps-modify, Keeps-pure, keeps_rules}
use grass.Exec.Services.{send}
use grass.Game.Messages.{send_message, check_host, send_clients, send_global}
use grass.Game.Members.{register, unregister, shutdown, introduce, dismiss}
use grass.Game.Start.{start}
use grass.Game.CodeTest.{
  find_task, find_player, prepare_code_test, compile_code, run_code_test, record_success,
  validate_private, validate_public, validate_code_test,
}
use grass.Sound.{Sound, SoundState, Rely}
use grass.Sound.Rules.{Keeps-send, world_rules}

pub Keeps-send_text :
    (k : ℕ) (m : DefaultModel Payload) → IsTyped m → Keeps Rely Sound (send k (text (to_string m)))
Keeps-send_text k m typed =
    Keeps-send k (text (to_string m)) (to_string_idem m, IsTyped-to_string m typed)

pub Keeps-send_message :
    (p : PartialClient) (m : DefaultModel Payload) → IsTyped m → Keeps Rely Sound (send_message p m)
unfolding send_message
Keeps-send_message p m typed = search (keeps_rules, Keeps-send_text)

Keeps-send_clients :
    (clients : HashMap PartialClient) (skip : Option (List Uuid)) (m : DefaultModel Payload)
    → IsTyped m
    → Keeps Rely Sound (send_clients clients skip m)
unfolding send_clients
Keeps-send_clients [] skip m typed = Keeps-pure tt
Keeps-send_clients ((id, p) ∷ rest) skip m typed =
    Keeps-bind _ _ (search (keeps_rules, Keeps-send_message))
      (λ _. Keeps-send_clients rest skip m typed)

Keeps-check_host : (g : Game) → Keeps Rely SoundState (check_host g)
unfolding check_host
Keeps-check_host g = search keeps_rules

Keeps-send_global :
    (m : DefaultModel Payload) (skip : Option (List Uuid))
    → IsTyped m
    → Keeps Rely SoundState (send_global m skip)
unfolding send_global
Keeps-send_global m skip typed =
    search (keeps_rules, world_rules, Keeps-check_host, Keeps-send_clients, Keeps-send_message)
      depth 12

Keeps-introduce :
    (g : Game) (p : PartialClient) (clients : HashMap PartialClient)
    → Keeps Rely Sound (introduce g p clients)
unfolding introduce
Keeps-introduce g p [] = Keeps-pure tt
Keeps-introduce g p ((id, q) ∷ rest) =
    Keeps-bind _ _ (search (keeps_rules, Keeps-send_message)) (λ _. Keeps-introduce g p rest)

Keeps-dismiss : (clients : HashMap PartialClient) → Keeps Rely Sound (dismiss clients)
unfolding dismiss
Keeps-dismiss [] = Keeps-pure tt
Keeps-dismiss ((id, p) ∷ rest) =
    Keeps-bind _ _ (search (keeps_rules, Keeps-send_message)) (λ _. Keeps-dismiss rest)

-- A change of the game alone.
abbrev pub SameWorld : (GameState → GameState) → Type 0
SameWorld f = (s : GameState) → (f s).world ≡ s.world

module _ {E : Type 0} where
  Keeps-modify_game :
      (f : GameState → GameState)
      → SameWorld f
      → Keeps Rely SoundState (grass.Exec.modify {E = E} f)
  Keeps-modify_game f same = Keeps-modify f (λ s h. rw (same s) h)

ruleset game_rules = (
  keeps_rules, world_rules, Keeps-check_host, Keeps-send_message, Keeps-send_global,
  Keeps-introduce, Keeps-dismiss, Keeps-modify_game,
)

pub Keeps-register : (p : PartialClient) → Keeps Rely SoundState (register p)
unfolding register
Keeps-register p = search game_rules depth 16

pub Keeps-unregister : (id : Uuid) → Keeps Rely SoundState (unregister id)
unfolding unregister
Keeps-unregister id = search game_rules depth 16

pub Keeps-shutdown : Keeps Rely SoundState shutdown
unfolding shutdown
Keeps-shutdown = search game_rules depth 16

pub Keeps-start : (n : ℕ) → Keeps Rely SoundState (start n)
unfolding start
Keeps-start n = search game_rules depth 16

Keeps-find_task : (g : Game) (i : ℕ) → Keeps Rely SoundState (find_task g i)
unfolding find_task
Keeps-find_task g i = search game_rules depth 16

pub Keeps-prepare_code_test : (i : ℕ) → Keeps Rely SoundState (prepare_code_test i)
unfolding prepare_code_test
Keeps-prepare_code_test i = search (game_rules, Keeps-find_task) depth 16

Keeps-find_player : (g : Game) (id : Uuid) → Keeps Rely SoundState (find_player g id)
unfolding find_player
Keeps-find_player g id = search game_rules depth 16

module _ {S : Type 0} {P : S → Type 0} where
  pub Keeps-run_code_test :
      (id : Uuid) (code : String) (stdin : List String) → Keeps Rely P (run_code_test id code stdin)
  unfolding run_code_test compile_code
  Keeps-run_code_test id code stdin = search keeps_rules depth 16

  Keeps-compile_code :
      (id : Uuid) (code : String) (stdin : List String) → Keeps Rely P (compile_code id code stdin)
  unfolding compile_code
  Keeps-compile_code id code stdin = search keeps_rules depth 16

Keeps-record_success :
    (id : Uuid) (i : ℕ) (t : GameTask) (p : PartialClient) (report : List PublicTestProgress)
    → Keeps Rely SoundState (record_success id i t p report)
unfolding record_success
Keeps-record_success id i t p report = search game_rules depth 16

Keeps-validate_private :
    (id : Uuid) (i : ℕ) (code : String) (t : GameTask) (p : PartialClient)
    (report : List PublicTestProgress)
    → Keeps Rely SoundState (validate_private id i code t p report)
unfolding validate_private
Keeps-validate_private id i code t p report =
    search (game_rules, Keeps-compile_code, Keeps-record_success) depth 16

Keeps-validate_public :
    (id : Uuid) (i : ℕ) (code : String) (result : SandboxResponse) (t : GameTask)
    (p : PartialClient)
    → Keeps Rely SoundState (validate_public id i code result t p)
unfolding validate_public
Keeps-validate_public id i code result t p = search (game_rules, Keeps-validate_private) depth 16

pub Keeps-validate_code_test :
    (id : Uuid) (i : ℕ) (code : String) (result : SandboxResponse)
    → Keeps Rely SoundState (validate_code_test id i code result)
unfolding validate_code_test
Keeps-validate_code_test id i code result =
    search (game_rules, Keeps-find_task, Keeps-find_player, Keeps-validate_public) depth 16
