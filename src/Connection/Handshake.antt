-- ===== src/Connection/Handshake.antt =====
-- The start of `accept_connection` (src/service/websocket.rs): the peer's address and the WebSocket
-- handshake, in which the protocol that the client names is copied into the response.
use grass.Prelude.{
  String, ◌≡◌, refl, Bool, Option, none, some, List, if◌then◌else◌, Option-cases, Bool-cases, inl,
  inr,
}
use grass.Models.Task.{Uuid}
use grass.Models.Error.{ClientError}
use grass.State.{World, Context, SocketSender, Message, update_key}
use grass.Exec.{Exec, Outcome, panicked, pure, panic, unwrap, ◌>>=◌, ◌>>◌}
use grass.Connection.{Timing, accept_connection}

abbrev pub Headers : Type 0
Headers = String → Option String

-- The crate http's name of the header, `SEC_WEBSOCKET_PROTOCOL`.
abbrev pub sec_websocket_protocol : String
sec_websocket_protocol = "sec-websocket-protocol"

-- What the crates tokio and tokio-tungstenite give: the peer's address, the headers of its request, the
-- headers of the response that they prepare, and whether the handshake then succeeds.
pub record Stream : Type 0 where
  pub peer_addr : Option String
  pub request : Option Headers
  pub response : Headers
  pub accepts : Headers → Bool

-- `copy_headers_callback`
unfoldable pub copy_headers : {E : Type 0} → Headers → Headers → Exec World E Headers
copy_headers request response = do
  protocol ← unwrap (request sec_websocket_protocol)
  pure (update_key response sec_websocket_protocol (some protocol))

-- `accept_hdr_async(stream, copy_headers_callback)` and its `expect`.
unfoldable pub handshake : {E : Type 0} → Stream → Exec World E (Unit {0})
unfolding ◌>>=◌
handshake stream = do
  request ← unwrap stream.request
  response ← copy_headers request stream.response
  if stream.accepts response then pure tt else panic

-- `accept_connection`, from the start.
unfoldable pub serve :
    Stream
    → Uuid
    → SocketSender
    → List (Message String × Timing)
    → Exec World ClientError (Unit {0})
unfolding ◌>>=◌
serve stream id sender messages = do
  addr ← unwrap stream.peer_addr
  handshake stream
  accept_connection id addr sender messages

-- What the client's protocol makes of its connection.
abbrev pub served :
    Stream
    → Option String
    → Outcome ClientError (Unit {0}) × World
    → World
    → Outcome ClientError (Unit {0}) × World
served stream none connection w = (panicked, w)
served stream (some protocol) connection w =
    if stream.accepts (update_key stream.response sec_websocket_protocol (some protocol))
    then connection
    else (panicked, w)

module _ (stream : Stream) (id : Uuid) (k : SocketSender)
    (messages : List (Message String × Timing)) (c : Context) (w : World) where
  -- A connection that names a protocol, which the response then carries, and whose handshake succeeds with
  -- that response, is served as `accept_connection` says; any other, also one with no address or no
  -- request, panics before the shard has changed.
  pub serve_lem : serve stream id k messages c w ≡ (elim stream.peer_addr [
    | none ↦ (panicked, w)
    | some addr ↦ elim stream.request [
      | none ↦ (panicked, w)
      | some headers ↦
          served stream
            (headers sec_websocket_protocol)
            (accept_connection id addr k messages c w)
            w
    ]
  ])
  unfolding serve handshake copy_headers ◌>>=◌
  serve_lem = elim (Option-cases stream.peer_addr) [
    | inl nobody ↦ rw (nobody, unwrap) refl
    | inr (addr, peer) ↦ elim (Option-cases stream.request) [
      | inl nothing ↦ rw (peer, unwrap, nothing) refl
      | inr (headers, asked) ↦ elim (Option-cases (headers sec_websocket_protocol)) [
        | inl unnamed ↦ rw (peer, unwrap, asked, unnamed) refl
        | inr (protocol, named) ↦
            elim (Bool-cases (
              stream.accepts (update_key stream.response sec_websocket_protocol (some protocol)))) [
                | inl accepted ↦ rw (peer, unwrap, asked, named, accepted) refl
                | inr rejected ↦ rw (peer, unwrap, asked, named, rejected) refl
              ]
      ]
    ]
  ]
