-- ===== src/Sound/Connections.antt =====
-- The life of a whole connection keeps the shard sound, and no text that was sent shows a private test.
use grass.Prelude.{String, refl, Bool, true, false, Option, none, some, List, [], ◌∷◌, All, is_some}
use grass.Models.Task.{Uuid}
use grass.Models.Error.{ClientError}
use grass.Models.Response.{DefaultModel}
use grass.State.{
  World, SocketClient, SocketSender, Message, Context, Outgoing, text, binary, ping, pong, close,
}
use grass.Exec.{unwrap, attempt, ◌>>=◌, Exec, ◌>>◌, pure}
use grass.Exec.Sockets.{with_get, with_get_mut, set_socket}
use grass.Exec.Keeps.{
  Keeps, Keeps-bind, Keeps-pure, Keeps-if, Keeps-asks, Keeps-attempt, Keeps-modify, Keeps-map_err,
  Keeps-ignore, keeps_rules,
}
use grass.Client.{on_open, register_socket, new_socket_client, send_raw, drop_client}
use grass.Connection.{
  Timing, in_time, cut_off, time_out, on_model, on_text, on_message, is_close, read_loop, spawn,
  remove_socket, open_connection, close_connection, accept_connection,
}
use grass.Sound.{Sound, Rely, SocketSound, EntrySound, IsWire}
use grass.Sound.Rules.{
  Keeps-later, Keeps-send, Keeps-with_get, Keeps-with_get_mut, Keeps-unwrap_entry, Keeps-set_socket,
}
use grass.Sound.Clients.{
  Keeps-with_client, Keeps-reply, Keeps-report_error, Keeps-drop_client, Keeps-on_open,
  Keeps-on_close, Keeps-register_socket, Keeps-unregister_socket,
}
use grass.Sound.Handlers.{Keeps-handle_message}

-- What a handler has done by the time it is cut off is sound.
abbrev pub Steady : Timing → Type 0
Steady in_time = Unit
Steady (cut_off done) = (w : World) → Sound w → Sound (done w)

abbrev pub AllSteady : List (Message String × Timing) → Type 0
AllSteady = All (λ e. Steady e.1)

pub Keeps-time_out :
    (id : Uuid) (model : DefaultModel String) → Keeps Rely Sound (time_out id model)
unfolding time_out
Keeps-time_out id model = Keeps-bind _ _ (Keeps-with_client id _ (λ s own. Keeps-pure s)) (λ s.
    Keeps-bind _ _ (Keeps-attempt _ (Keeps-reply s _ _ refl))
      (λ sent. Keeps-bind _ _ (Keeps-drop_client s) (λ _. search keeps_rules)))

Keeps-on_model :
    (id : Uuid) (t : Timing) (model : DefaultModel String)
    → Steady t
    → Keeps Rely Sound (on_model id t model)
unfolding on_model
Keeps-on_model id in_time model steady = search (keeps_rules, Keeps-handle_message)
Keeps-on_model id (cut_off done) model steady =
    Keeps-bind _ _ (Keeps-modify done steady) (λ _. Keeps-time_out id model)

Keeps-on_text :
    (id : Uuid) (t : Timing) (o : Option (DefaultModel String))
    → Steady t
    → Keeps Rely Sound (on_text id t o)
unfolding on_text
Keeps-on_text id t none steady =
    Keeps-bind _ _ (Keeps-with_client id _ (λ s own. Keeps-map_err _ _ (Keeps-report_error s _)))
      (λ _. Keeps-pure true)
Keeps-on_text id t (some model) steady = Keeps-on_model id t model steady

Keeps-send_raw : (s : SocketClient) (m : Outgoing) → IsWire m → Keeps Rely Sound (send_raw s m)
unfolding send_raw
Keeps-send_raw s m wire = Keeps-map_err _ _ (Keeps-send s.send_channel m wire)

pub Keeps-on_message :
    (id : Uuid) (t : Timing) (m : Message String) → Steady t → Keeps Rely Sound (on_message id t m)
unfolding on_message
Keeps-on_message id t (text x) steady =
    Keeps-bind _ _ (Keeps-asks _) (λ serde. Keeps-on_text id t (serde.default_model x) steady)
Keeps-on_message id t (binary b) steady = Keeps-pure false
Keeps-on_message id t (ping b) steady =
    Keeps-bind _ _ (Keeps-with_client id _ (λ s own. Keeps-send_raw s (pong b) tt))
      (λ _. Keeps-pure false)
Keeps-on_message id t (pong b) steady =
    Keeps-bind _ _ (Keeps-with_client id _ (λ s own. Keeps-send_raw s (ping b) tt))
      (λ _. Keeps-pure false)
Keeps-on_message id t close steady = Keeps-pure true

Keeps-next :
    (o : Option Bool) (later : Exec World ClientError (Unit {0}))
    → Keeps Rely Sound later
    → Keeps Rely Sound (elim o [ some true ↦ pure tt | some false ↦ later | none ↦ later ])
Keeps-next none later k = k
Keeps-next (some true) later k = Keeps-pure tt
Keeps-next (some false) later k = k

pub Keeps-read_loop :
    (id : Uuid) (messages : List (Message String × Timing))
    → AllSteady messages
    → Keeps Rely Sound (read_loop id messages)
unfolding read_loop
Keeps-read_loop id [] steady = Keeps-pure tt
Keeps-read_loop id ((m, t) ∷ rest) steady =
    let later = Keeps-read_loop id rest steady.1 in
    Keeps-if (is_close m) _ _ later (
      Keeps-bind _ _ (Keeps-attempt _ (Keeps-on_message id t m steady.0))
        (λ o. Keeps-next o _ later))

module _ {S E A : Type 0} {R : Context → Type 0} {P : S → Type 0} where
  pub Keeps-spawn : (m : Exec S E A) → Keeps R P m → Keeps R P (spawn m)
  unfolding spawn
  Keeps-spawn m k = record { at = λ c s r h. k.at c s r h }

module _ (id : Uuid) where
  Keeps-drop_entry :
      (o : Option SocketClient)
      → Keeps Rely Sound
          (elim o [ none ↦ pure {E = ClientError} tt | some client ↦ drop_client client ])
  Keeps-drop_entry none = Keeps-pure tt
  Keeps-drop_entry (some s) = Keeps-drop_client s

  Keeps-put :
      (o' : Option SocketClient)
      → EntrySound id o'
      → Keeps Rely Sound (with_get_mut {E = ClientError} id (λ o. do set_socket id o'; pure o))
  Keeps-put o' own =
      Keeps-with_get_mut id _
        (λ o e. Keeps-bind _ _ (Keeps-set_socket id o' own) (λ _. Keeps-pure o))

  Keeps-remove_socket : Keeps Rely Sound (remove_socket id)
  unfolding remove_socket
  Keeps-remove_socket = Keeps-bind _ _ (Keeps-put none tt) (λ o. Keeps-later _ (Keeps-drop_entry o))

  Keeps-greet :
      Keeps Rely Sound (with_get_mut {E = ClientError} id (λ o. do s ← unwrap o; on_open s))
  Keeps-greet =
      Keeps-with_get_mut id _ (λ o e. Keeps-unwrap_entry id o _ e (λ s own. Keeps-on_open s))

  Keeps-registered :
      Keeps Rely Sound
        (with_get {E = ClientError} id (λ o. do s ← unwrap o; attempt (register_socket s)))
  Keeps-registered =
      Keeps-with_get id _
        (λ o e. Keeps-unwrap_entry id o _ e (λ s own. Keeps-attempt _ (Keeps-register_socket s)))

  pub Keeps-open_connection :
      (s : SocketClient) → SocketSound id s → Keeps Rely Sound (open_connection id s)
  unfolding open_connection
  Keeps-open_connection s own = Keeps-bind _ _ (Keeps-put (some s) own) (λ old. Keeps-later _ (
      Keeps-bind _ _ (Keeps-drop_entry old) (λ _. Keeps-later _ (
        Keeps-bind _ _ Keeps-greet (λ _. Keeps-later _ (
          Keeps-bind _ _ Keeps-registered (λ registered.
            Keeps-later _
              (Keeps-if (is_some registered) _ _ (Keeps-pure tt) Keeps-remove_socket))))))))

  pub Keeps-close_connection : (s : SocketClient) → Keeps Rely Sound (close_connection id s)
  unfolding close_connection
  Keeps-close_connection s =
      Keeps-bind _ _
        (Keeps-with_get_mut id _
          (λ o e. Keeps-unwrap_entry id o _ e (λ s' own'. Keeps-on_close id s' own')))
        (λ _. Keeps-later _ (
          Keeps-bind _ _
            (Keeps-with_get id _ (λ o e.
              Keeps-unwrap_entry id o _ e (λ s' own'. Keeps-ignore _ (Keeps-unregister_socket s'))))
            (λ _.
              Keeps-later _
                (Keeps-bind _ _ Keeps-remove_socket (λ _. Keeps-later _ (Keeps-drop_client s))))))

pub Keeps-accept_connection :
    (id : Uuid) (addr : String) (k : SocketSender) (messages : List (Message String × Timing))
    → AllSteady messages
    → Keeps Rely Sound (accept_connection id addr k messages)
unfolding accept_connection
Keeps-accept_connection id addr k messages steady =
    let own : SocketSound id (new_socket_client id addr k) = record { same_id = refl; game = tt } in
    Keeps-bind _ _ (Keeps-open_connection id _ own) (λ _.
      Keeps-bind _ _ (Keeps-spawn _ (Keeps-read_loop id messages steady))
        (λ _. Keeps-close_connection id _))
