-- ===== src/Apart/Connections.antt =====
-- The parts of a connection's life, given what a request to join does.
use grass.Prelude.{ℕ, String, true, false, Option, none, some}
use grass.Models.Task.{Uuid}
use grass.Models.Error.{ClientError}
use grass.Models.Response.{DefaultModel}
use grass.State.{Context, Game, SocketClient, Message, text, binary, ping, pong, close}
use grass.Exec.{◌>>◌, pure}
use grass.Exec.Sockets.{with_get_mut, set_socket}
use grass.Exec.Keeps.{
  Keeps, Keeps-bind, Keeps-pure, Keeps-asks, Keeps-attempt, Keeps-unwrap, keeps_rules,
}
use grass.Client.{drop_client}
use grass.Handlers.Join.{handle_join}
use grass.Connection.{
  in_time, time_out, on_model, on_text, on_message, remove_socket, open_connection,
  close_connection,
}
use grass.Apart.{Sockets, Frame, Owner, Entries}
use grass.Game.Still.{Seen}
use grass.Apart.Rules.{
  Keeps-later, Keeps-await, Keeps-set_socket, Keeps-with_get, Keeps-with_get_mut,
}
use grass.Apart.Clients.{
  Keeps-send_raw, Keeps-report_error, Keeps-drop_client, Keeps-on_open, Keeps-on_close,
  Keeps-register_socket, Keeps-unregister_socket, apart_rules,
}
use grass.Apart.Handlers.{Keeps-handle_message}

module _ {R : Context → Type 0} {S : ℕ → Sockets → Type 0} {Entry : Uuid → Option Game → Type 0}
    (K : Frame R S Entry) where
  pub Keeps-time_out :
      (id : Uuid) (model : DefaultModel String) → Keeps R (Seen S) (time_out id model)
  unfolding time_out
  Keeps-time_out id model = search (apart_rules, Keeps-drop_client) depth 16

  Keeps-drop_entry :
      (o : Option SocketClient)
      → Keeps R
          (Seen S)
          (elim o [ none ↦ pure {E = ClientError} tt | some client ↦ drop_client client ])
  Keeps-drop_entry none = Keeps-pure tt
  Keeps-drop_entry (some s) = Keeps-drop_client K s

  module _ (id : Uuid) (O : Owner R S Entry id) where
    Keeps-put :
        (o' : Option SocketClient)
        → Entries Entry id o'
        → Keeps R (Seen S) (with_get_mut {E = ClientError} id (λ o. do set_socket id o'; pure o))
    Keeps-put o' e =
        Keeps-with_get_mut K id _
          (λ o e'. Keeps-bind _ _ (Keeps-set_socket K id o' O e) (λ _. Keeps-pure o))

    Keeps-remove_socket : Keeps R (Seen S) (remove_socket id)
    unfolding remove_socket
    Keeps-remove_socket =
        Keeps-bind _ _ (Keeps-put none tt) (λ o. Keeps-later K _ (Keeps-drop_entry o))

    pub Keeps-open_connection :
        (s : SocketClient) → Entry id s.game → Keeps R (Seen S) (open_connection id s)
    unfolding open_connection
    Keeps-open_connection s e = Keeps-bind _ _ (Keeps-put (some s) e) (λ old. Keeps-later K _ (
        Keeps-bind _ _ (Keeps-drop_entry old) (λ _.
          search
            (
              keeps_rules, Keeps-await, Keeps-with_get, Keeps-with_get_mut, Keeps-on_open,
              Keeps-register_socket, Keeps-remove_socket,
            )
            depth 16)))

    pub Keeps-close_connection : (s : SocketClient) → Keeps R (Seen S) (close_connection id s)
    unfolding close_connection
    Keeps-close_connection s =
        Keeps-bind _ _
          (Keeps-with_get_mut K id _
            (λ o e. Keeps-bind _ _ (Keeps-unwrap o) (λ s'. Keeps-on_close K id O s')))
          (λ _.
            search
              (
                keeps_rules, Keeps-await, Keeps-with_get, Keeps-unregister_socket,
                Keeps-remove_socket, Keeps-drop_client,
              )
              depth 16)

    module _ (join : (d : Option String) → Keeps R (Seen S) (handle_join id d)) where
      Keeps-on_model : (model : DefaultModel String) → Keeps R (Seen S) (on_model id in_time model)
      unfolding on_model
      Keeps-on_model model =
          Keeps-bind _ _ (Keeps-attempt _ (Keeps-handle_message K id O join model))
            (λ handled. search keeps_rules)

      Keeps-on_text : (o : Option (DefaultModel String)) → Keeps R (Seen S) (on_text id in_time o)
      unfolding on_text
      Keeps-on_text none = search (apart_rules, Keeps-report_error) depth 8
      Keeps-on_text (some model) = Keeps-on_model model

      pub Keeps-on_message : (m : Message String) → Keeps R (Seen S) (on_message id in_time m)
      unfolding on_message
      Keeps-on_message (text x) =
          Keeps-bind _ _ (Keeps-asks _) (λ serde. Keeps-on_text (serde.default_model x))
      Keeps-on_message (binary b) = Keeps-pure false
      Keeps-on_message (ping b) = search (apart_rules, Keeps-send_raw) depth 8
      Keeps-on_message (pong b) = search (apart_rules, Keeps-send_raw) depth 8
      Keeps-on_message close = Keeps-pure true
