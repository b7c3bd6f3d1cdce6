-- ===== src/Sound/Served.antt =====
-- A connection from the handshake on.
use grass.Prelude.{String, List}
use grass.Models.Task.{Uuid}
use grass.State.{World, Context, SocketSender, Message}
use grass.Exec.Keeps.{Keeps, Keeps-bind, Keeps-unwrap, keeps_rules}
use grass.Exec.{panic}
use grass.Connection.{Timing}
use grass.Connection.Handshake.{Stream, copy_headers, handshake, serve}
use grass.Sound.{Sound, Rely}
use grass.Sound.Connections.{AllSteady, Keeps-accept_connection}

Keeps-panic : {E A : Type 0} → Keeps {E = E} {A = A} Rely Sound panic
unfolding panic
Keeps-panic = record { at = λ c s r h. h }

Keeps-handshake : {E : Type 0} (stream : Stream) → Keeps Rely Sound (handshake {E = E} stream)
unfolding handshake copy_headers
Keeps-handshake stream = search (keeps_rules, Keeps-panic) depth 12

Keeps-serve :
    (stream : Stream) (id : Uuid) (k : SocketSender) (messages : List (Message String × Timing))
    → AllSteady messages
    → Keeps Rely Sound (serve stream id k messages)
unfolding serve
Keeps-serve stream id k messages steady = Keeps-bind _ _ (Keeps-unwrap stream.peer_addr) (λ addr.
    Keeps-bind _ _ (Keeps-handshake stream)
      (λ _. Keeps-accept_connection id addr k messages steady))

-- A connection, from its handshake to its end, keeps a sound shard sound, whatever the peer asks for and sends
-- and wherever a handler is cut off, if what the other tasks and the handlers that are cut off do does.
pub serve-Sound :
    (stream : Stream) (id : Uuid) (k : SocketSender) (messages : List (Message String × Timing))
    (c : Context) (w : World)
    → AllSteady messages
    → Rely c
    → Sound w
    → Sound (serve stream id k messages c w).1
serve-Sound stream id k messages c w steady rely sound =
    (Keeps-serve stream id k messages steady).at c w rely sound
