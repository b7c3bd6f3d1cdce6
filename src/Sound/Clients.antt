-- ===== src/Sound/Clients.antt =====
-- What a socket does by itself keeps the shard sound: sending, dropping, opening and closing.
use grass.Prelude.{◌≡◌, refl, Option, none, some, is_some}
use grass.Models.Task.{Uuid}
use grass.Models.Error.{ClientError}
use grass.Models.Response.{DefaultModel, ResponseData, ResponseOpCode}
use grass.Models.Default.{Payload}
use grass.Models.Typed.{IsTyped, answer_op_code}
use grass.State.{World, Game, SocketClient}
use grass.Exec.{Exec}
use grass.Exec.Keeps.{Keeps, Keeps-bind, Keeps-pure, Keeps-if, Keeps-expect, keeps_rules}
use grass.Game.Members.{drop_game, leave_host, unregister}
use grass.Client.{
  send_raw, send_model, report_error, refuse, reply, with_client, with_client_mut, drop_option,
  assign_game, drop_client, on_open, on_close, register_socket, unregister_socket,
}
use grass.Sound.{Sound, Rely, OwnGame, SocketSound}
use grass.Sound.Rules.{
  Keeps-with_get, Keeps-with_get_mut, Keeps-unwrap_entry, Keeps-with_game, Keeps-set_socket,
  world_rules,
}
use grass.Sound.Games.{Keeps-send_text, Keeps-send_message, Keeps-shutdown, Keeps-unregister}
use grass.Sound.Owned.{unregister-KeepsGame}

pub Keeps-send_model :
    (s : SocketClient) (m : DefaultModel Payload) → IsTyped m → Keeps Rely Sound (send_model s m)
unfolding send_model send_raw
Keeps-send_model s m typed = search (keeps_rules, Keeps-send_text)

pub Keeps-report_error : (s : SocketClient) (e : ClientError) → Keeps Rely Sound (report_error s e)
unfolding report_error
Keeps-report_error s e = Keeps-send_model s _ (refl, tt)

pub Keeps-refuse :
    {A : Type 0} (s : SocketClient) (e : ClientError) → Keeps Rely Sound (refuse {A = A} s e)
unfolding refuse
Keeps-refuse s e = search (keeps_rules, Keeps-report_error)

pub Keeps-reply :
    (s : SocketClient) (d : ResponseData) (op : ResponseOpCode)
    → op ≡ answer_op_code d
    → Keeps Rely Sound (reply s d op)
unfolding reply
Keeps-reply s d op typed = Keeps-send_model s _ (refl, typed)

module _ {A : Type 0} where
  pub Keeps-with_client :
      (id : Uuid) (body : SocketClient → Exec World ClientError A)
      → ((s : SocketClient) → SocketSound id s → Keeps Rely Sound (body s))
      → Keeps Rely Sound (with_client id body)
  unfolding with_client
  Keeps-with_client id body k = Keeps-with_get id _ (λ o e. Keeps-unwrap_entry id o body e k)

  pub Keeps-with_client_mut :
      (id : Uuid) (body : SocketClient → Exec World ClientError A)
      → ((s : SocketClient) → SocketSound id s → Keeps Rely Sound (body s))
      → Keeps Rely Sound (with_client_mut id body)
  unfolding with_client_mut
  Keeps-with_client_mut id body k =
      Keeps-with_get_mut id _ (λ o e. Keeps-unwrap_entry id o body e k)

Keeps-leave_host :
    (host_id client_id : Uuid) (o : Option SocketClient)
    → Keeps Rely Sound (leave_host host_id client_id o)
Keeps-leave_host host_id client_id none = Keeps-pure tt
Keeps-leave_host host_id client_id (some host) =
    Keeps-if (is_some host.game) _ _
      (Keeps-with_game host_id (unregister client_id) (Keeps-unregister client_id)
        (unregister-KeepsGame client_id))
      (Keeps-pure tt)

-- Dropping a game, be it a host's or a guest's.
pub Keeps-drop_game : {E : Type 0} (g : Game) → Keeps Rely Sound (drop_game {E = E} g)
unfolding drop_game
Keeps-drop_game g =
    Keeps-if g.is_host _ _ (search (keeps_rules, world_rules, Keeps-shutdown) depth 12) (
      Keeps-if g.partial_host.is_local _ _
        (Keeps-bind _ _
          (Keeps-expect _ (
            Keeps-with_get_mut g.partial_host.id _
              (λ o e. Keeps-leave_host g.partial_host.id g.partial_client.id o)))
          (λ _. search (keeps_rules, Keeps-send_message)))
        (Keeps-pure tt))

pub Keeps-drop_option : {E : Type 0} (o : Option Game) → Keeps Rely Sound (drop_option {E = E} o)
Keeps-drop_option none = Keeps-pure tt
Keeps-drop_option (some g) = Keeps-drop_game g

pub Keeps-assign_game :
    (id : Uuid) (s : SocketClient) (g : Game)
    → SocketSound id s
    → OwnGame id g
    → Keeps Rely Sound (assign_game id s g)
unfolding assign_game
Keeps-assign_game id s g h own =
    Keeps-bind _ _ (Keeps-drop_option s.game)
      (λ _. Keeps-set_socket id _ (record { same_id = h.same_id; game = own }))

pub Keeps-drop_client : {E : Type 0} (s : SocketClient) → Keeps Rely Sound (drop_client {E = E} s)
unfolding drop_client
Keeps-drop_client s = search (keeps_rules, Keeps-send_model, Keeps-drop_option) depth 10

pub Keeps-on_open : {E : Type 0} (s : SocketClient) → Keeps Rely Sound (on_open {E = E} s)
unfolding on_open
Keeps-on_open s = search (keeps_rules, Keeps-send_model)

pub Keeps-on_close :
    {E : Type 0} (id : Uuid) (s : SocketClient)
    → SocketSound id s
    → Keeps Rely Sound (on_close {E = E} id s)
unfolding on_close
Keeps-on_close id s h =
    Keeps-bind _ _ (Keeps-set_socket id _ (record { same_id = h.same_id; game = tt }))
      (λ _. Keeps-drop_option s.game)

pub Keeps-register_socket : (s : SocketClient) → Keeps Rely Sound (register_socket s)
unfolding register_socket
Keeps-register_socket s = search (keeps_rules, world_rules) depth 10

pub Keeps-unregister_socket : (s : SocketClient) → Keeps Rely Sound (unregister_socket s)
unfolding unregister_socket
Keeps-unregister_socket s = search (keeps_rules, world_rules) depth 10

pub ruleset client_rules =
    (Keeps-send_model, Keeps-report_error, Keeps-refuse, Keeps-reply, Keeps-drop_game)
