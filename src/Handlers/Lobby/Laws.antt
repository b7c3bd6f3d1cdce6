-- ===== src/Handlers/Lobby/Laws.antt =====
-- What the requests outside of a game do: a name is given once, a game that is created can be joined, and
-- a game that is said to exist does.
use grass.Prelude.{
  sym, Option-cases, ap, inl, inr, ◌∙◌, String, ◌≡◌, refl, true, false, Option, none, some, [],
  arith, ==_refl, eq_refl,
}
use grass.Models.Task.{Uuid}
use grass.Models.Request.{JoinRequest, IdentifyRequest}
use grass.Models.Default.{respond}
use grass.Models.Response.{ResponseData, ResponseOpCode}
use grass.Models.Wire.{to_string}
use grass.State.{World, Context, SocketClient, update_key, text}
use grass.Exec.{ok, ◌>>=◌, unwrap, or_raise, map_err}
use grass.Exec.Services.{pool_get, redis_set, game_key, send}
use grass.Exec.Sockets.{with_get, with_get_mut, set_socket, await}
use grass.Game.Delivery.{push}
use grass.Client.{reply, with_client, with_client_mut, send_model, send_raw}
use grass.Handlers.Parse.{parse}
use grass.Handlers.Lobby.{identify, handle_identify, handle_create}
use grass.Handlers.Join.{handle_join}
use grass.Handlers.Join.Laws.{Quiet, handle_join-hosts, answered, hosting}

-- A socket with a name keeps it: whatever an identification asks for, the socket is as it was.
pub handle_identify-named :
    (id : Uuid) (d : Option String) (c : Context) (w : World) (s : SocketClient) (name : String)
    → w.sockets id ≡ some s
    → s.nickname ≡ some name
    → (handle_identify id d c w).1.sockets ≡ w.sockets
unfolding handle_identify with_client_mut with_get_mut identify reply send_model send_raw send
    map_err ◌>>=◌
handle_identify-named id d c w s name here named = ground arith

-- A socket that has no name takes the name that it asks for, with no guard held, even where the answer
-- cannot be sent.
pub handle_identify-unnamed :
    (id : Uuid) (d : String) (r : IdentifyRequest) (c : Context) (w : World) (s : SocketClient)
    → c.held ≡ []
    → c.serde.identify_request d ≡ some r
    → w.sockets id ≡ some s
    → s.nickname ≡ none
    → (handle_identify id (some d) c w).1.sockets id
      ≡ some (record s { nickname = some r.nickname })
unfolding handle_identify with_client_mut with_get_mut identify reply send_model send_raw send
    map_err parse set_socket ◌>>=◌
handle_identify-unnamed id d r c w s free parsed here idle =
    rw (free, here, unwrap, idle, parsed, or_raise) (ground (arith, ==_refl id))

-- The name that a socket has after it has asked for one.
abbrev pub name_after : Option String → String → String
name_after none asked = asked
name_after (some name) asked = name

abbrev pub renamed : SocketClient → String → SocketClient
renamed s asked = record s { nickname = some (name_after s.nickname asked) }

-- A socket that asks for a name, with no guard held, has it afterwards unless it had one, which it keeps,
-- and is otherwise as it was, even where the answer cannot be sent.
pub handle_identify-renamed :
    (id : Uuid) (d : String) (r : IdentifyRequest) (c : Context) (w : World) (s : SocketClient)
    → c.held ≡ []
    → c.serde.identify_request d ≡ some r
    → w.sockets id ≡ some s
    → (handle_identify id (some d) c w).1.sockets id ≡ some (renamed s r.nickname)
handle_identify-renamed id d r c w s free parsed here = elim (Option-cases s.nickname) [
  | inl idle ↦
      handle_identify-unnamed id d r c w s free parsed here idle
      ∙ ap (λ n. some (record s { nickname = some (name_after n r.nickname) })) (sym idle)
  | inr (name, named) ↦
      ap (λ f. f id) (handle_identify-named id (some d) c w s name here named)
      ∙ here
      ∙ ap (λ n. some (record s { nickname = n })) named
      ∙ ap (λ n. some (record s { nickname = some (name_after n r.nickname) })) (sym named)
]

-- The first name lasts: a socket that asks for one name and then for another, with no guard held, has
-- after both what it had after the first.
pub handle_identify-handle_identify :
    (id : Uuid) (d e : String) (r q : IdentifyRequest) (c : Context) (w : World) (s : SocketClient)
    → c.held ≡ []
    → c.serde.identify_request d ≡ some r
    → c.serde.identify_request e ≡ some q
    → w.sockets id ≡ some s
    → let w' = (handle_identify id (some d) c w).1 in
      (handle_identify id (some e) c w').1.sockets id ≡ some (renamed s r.nickname)
handle_identify-handle_identify id d e r q c w s free parsed parsed' here =
    handle_identify-renamed id e q c (handle_identify id (some d) c w).1 (renamed s r.nickname) free
      parsed' (handle_identify-renamed id d r c w s free parsed here)

module _ (id : Uuid) (d : String) (c : Context) (w : World) (quiet : Quiet c w)
    (parsed : c.serde.create_request d ≡ some tt) (s : SocketClient) (here : w.sockets id ≡ some s)
    (open_ : (w.channels s.send_channel).closed ≡ false) where
  -- The world after a creation: Redis has the game, with no host yet, and the client its id.
  abbrev created : World
  created =
      push s.send_channel
        (text (to_string (respond (ResponseData.create c.nanoid) ResponseOpCode.create)))
        (record w {
          redis = record (w.redis) {
            entries = update_key w.redis.entries (game_key c.nanoid) (some "");
          };
        })

  handle_create_lem : handle_create id (some d) c w ≡ (ok tt, created)
  unfolding handle_create parse pool_get redis_set with_client with_get reply send_model send_raw
      send map_err push await ◌>>=◌
  handle_create_lem =
      rw (parsed, or_raise, quiet.healthy, quiet.alone, quiet.unheld, here, unwrap, open_) refl

  push-sockets : created.sockets ≡ w.sockets
  unfolding push
  push-sockets = ground arith

  push-entries : created.redis.entries (game_key c.nanoid) ≡ some ""
  unfolding push
  push-entries = rw open_ (rw (eq_refl (game_key c.nanoid)) refl)

  push-faults : created.redis.faults ≡ []
  unfolding push
  push-faults = rw (open_, quiet.healthy) refl

  push-closed : (created.channels s.send_channel).closed ≡ false
  unfolding push
  push-closed = rw open_ (rw (==_refl s.send_channel) refl)

  module _ (e : String) (r : JoinRequest) (name : String) (idle : s.game ≡ none)
      (named : s.nickname ≡ some name) (asked : c.serde.join_request e ≡ some r)
      (same : r.game_id ≡ c.nanoid) where
    created-Quiet : Quiet c created
    created-Quiet = record { unheld = quiet.unheld; alone = quiet.alone; healthy = push-faults }

    -- A game that was created has the first client that joins it as its host: its socket then holds the
    -- game, and Redis knows the game to be hosted here by it. Both requests succeed. The client has a name,
    -- is in no game and has an open channel, no guard is held, no other task runs and Redis is in order.
    pub handle_join-handle_create :
        let w' = (handle_create id (some d) c w).1 in
        ((handle_create id (some d) c w).0 ≡ ok tt)
        × (handle_join id (some e) c w'
            ≡ (ok tt, answered s r.game_id true true (hosting c id s name r.game_id w')))
    handle_join-handle_create = rw handle_create_lem (
      refl,
      handle_join-hosts id e r c created created-Quiet asked s name (rw push-sockets here) idle
          named (rw same push-entries) push-closed,
    )
