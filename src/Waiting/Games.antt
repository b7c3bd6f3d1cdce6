-- ===== src/Waiting/Games.antt =====
-- The methods of a game take no lock of the map of sockets, so they end under any guards.
use grass.Prelude.{ℕ, String, Option, none, some, List, [], ◌∷◌}
use grass.Prelude.HashMap.{HashMap}
use grass.Models.Task.{Uuid, GameTask}
use grass.Models.Error.{ClientError}
use grass.Models.Response.{DefaultModel, PublicTestProgress, ResponseData, ResponseOpCode}
use grass.Models.Default.{Payload}
use grass.State.{Context, Game, PartialClient, SandboxResponse, SocketClient}
use grass.Exec.Ends.{Ends, Ends-bind, Ends-pure, Ends-if, ends_rules}
use grass.Game.Messages.{send_message, check_host, send_clients, send_global}
use grass.Game.Members.{register, unregister, shutdown, introduce, dismiss, leave_host}
use grass.Game.Start.{start}
use grass.Game.CodeTest.{
  find_task, find_player, prepare_code_test, compile_code, run_code_test, record_success,
  validate_private, validate_public, validate_code_test,
}
use grass.Client.{send_raw, send_model, report_error, refuse, reply}
use grass.Waiting.Rules.{lock_rules}

module _ {R : Context → Type 0} where
  pub Ends-send_message : (p : PartialClient) (m : DefaultModel Payload) → Ends R (send_message p m)
  unfolding send_message
  Ends-send_message p m = search (ends_rules, lock_rules)

  Ends-send_clients :
      (clients : HashMap PartialClient) (skip : Option (List Uuid)) (m : DefaultModel Payload)
      → Ends R (send_clients clients skip m)
  unfolding send_clients
  Ends-send_clients [] skip m = Ends-pure tt
  Ends-send_clients ((id, p) ∷ rest) skip m =
      Ends-bind _ _ (search (ends_rules, Ends-send_message)) (λ _. Ends-send_clients rest skip m)

  Ends-check_host : (g : Game) → Ends R (check_host g)
  unfolding check_host
  Ends-check_host g = search ends_rules

  Ends-send_global :
      (m : DefaultModel Payload) (skip : Option (List Uuid)) → Ends R (send_global m skip)
  unfolding send_global
  Ends-send_global m skip =
      search (ends_rules, lock_rules, Ends-check_host, Ends-send_clients, Ends-send_message) depth
        12

  Ends-introduce :
      (g : Game) (p : PartialClient) (clients : HashMap PartialClient)
      → Ends R (introduce g p clients)
  unfolding introduce
  Ends-introduce g p [] = Ends-pure tt
  Ends-introduce g p ((id, q) ∷ rest) =
      Ends-bind _ _ (search (ends_rules, Ends-send_message)) (λ _. Ends-introduce g p rest)

  Ends-dismiss : (clients : HashMap PartialClient) → Ends R (dismiss clients)
  unfolding dismiss
  Ends-dismiss [] = Ends-pure tt
  Ends-dismiss ((id, p) ∷ rest) =
      Ends-bind _ _ (search (ends_rules, Ends-send_message)) (λ _. Ends-dismiss rest)

ruleset method_rules = (
  ends_rules, lock_rules, Ends-check_host, Ends-send_message, Ends-send_global, Ends-introduce,
  Ends-dismiss,
)

module _ {R : Context → Type 0} where
  pub Ends-register : (p : PartialClient) → Ends R (register p)
  unfolding register
  Ends-register p = search method_rules depth 16

  Ends-unregister : (id : Uuid) → Ends R (unregister id)
  unfolding unregister
  Ends-unregister id = search method_rules depth 16

  pub Ends-shutdown : Ends R shutdown
  unfolding shutdown
  Ends-shutdown = search method_rules depth 16

  pub Ends-start : (n : ℕ) → Ends R (start n)
  unfolding start
  Ends-start n = search method_rules depth 16

  Ends-find_task : (g : Game) (i : ℕ) → Ends R (find_task g i)
  unfolding find_task
  Ends-find_task g i = search method_rules depth 16

  pub Ends-prepare_code_test : (i : ℕ) → Ends R (prepare_code_test i)
  unfolding prepare_code_test
  Ends-prepare_code_test i = search (method_rules, Ends-find_task) depth 16

  Ends-find_player : (g : Game) (id : Uuid) → Ends R (find_player g id)
  unfolding find_player
  Ends-find_player g id = search method_rules depth 16

  Ends-record_success :
      (id : Uuid) (i : ℕ) (t : GameTask) (p : PartialClient) (report : List PublicTestProgress)
      → Ends R (record_success id i t p report)
  unfolding record_success
  Ends-record_success id i t p report = search method_rules depth 16

module _ {S : Type 0} {R : Context → Type 0} where
  Ends-compile_code :
      (id : Uuid) (code : String) (stdin : List String)
      → Ends R (compile_code {S = S} id code stdin)
  unfolding compile_code
  Ends-compile_code id code stdin = search ends_rules depth 16

  pub Ends-run_code_test :
      (id : Uuid) (code : String) (stdin : List String)
      → Ends R (run_code_test {S = S} id code stdin)
  unfolding run_code_test
  Ends-run_code_test id code stdin = search (ends_rules, Ends-compile_code) depth 16

module _ {R : Context → Type 0} where
  Ends-validate_private :
      (id : Uuid) (i : ℕ) (code : String) (t : GameTask) (p : PartialClient)
      (report : List PublicTestProgress)
      → Ends R (validate_private id i code t p report)
  unfolding validate_private
  Ends-validate_private id i code t p report =
      search (method_rules, Ends-compile_code, Ends-record_success) depth 16

  Ends-validate_public :
      (id : Uuid) (i : ℕ) (code : String) (result : SandboxResponse) (t : GameTask)
      (p : PartialClient)
      → Ends R (validate_public id i code result t p)
  unfolding validate_public
  Ends-validate_public id i code result t p = search (method_rules, Ends-validate_private) depth 16

  pub Ends-validate_code_test :
      (id : Uuid) (i : ℕ) (code : String) (result : SandboxResponse)
      → Ends R (validate_code_test id i code result)
  unfolding validate_code_test
  Ends-validate_code_test id i code result =
      search (method_rules, Ends-find_task, Ends-find_player, Ends-validate_public) depth 16

  -- The call on the host's game when a guest's is dropped.
  pub Ends-leave_host :
      (host_id client_id : Uuid) (o : Option SocketClient) → Ends R (leave_host host_id client_id o)
  Ends-leave_host host_id client_id none = Ends-pure tt
  Ends-leave_host host_id client_id (some host) = search (method_rules, Ends-unregister) depth 8

  pub Ends-send_model : (s : SocketClient) (m : DefaultModel Payload) → Ends R (send_model s m)
  unfolding send_model send_raw
  Ends-send_model s m = search method_rules

module _ {A : Type 0} {R : Context → Type 0} where
  pub Ends-refuse : (s : SocketClient) (e : ClientError) → Ends R (refuse {A = A} s e)
  unfolding refuse report_error
  Ends-refuse s e = search (ends_rules, Ends-send_model)

module _ {R : Context → Type 0} where
  pub Ends-reply :
      (s : SocketClient) (d : ResponseData) (op : ResponseOpCode) → Ends R (reply s d op)
  unfolding reply
  Ends-reply s d op = Ends-send_model s _

pub ruleset calm_rules = (ends_rules, lock_rules, Ends-refuse, Ends-reply)
