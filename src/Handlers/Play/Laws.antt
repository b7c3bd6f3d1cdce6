-- ===== src/Handlers/Play/Laws.antt =====
-- What leaving a game does, and the lock that it may wait for: the client's guard is held while the game
-- is dropped.
use grass.Prelude.{◌≡◌, refl, true, false, none, some, [], is_some, if◌then◌else◌, ==_refl, ◌==◌}
use grass.Prelude.HashMap.{HashMap, remove, get}
use grass.Models.Task.{Uuid}
use grass.Models.Event.{Event}
use grass.Models.Error.{BoxError, ClientError}
use grass.Models.Default.{respond, event}
use grass.Models.Response.{ResponseData, ResponseOpCode}
use grass.State.{World, Context, SocketClient, PartialClient, Game, update}
use grass.Exec.{ok, deadlocked, ◌>>=◌, unwrap, expect}
use grass.Exec.Sockets.{with_get_mut, with_game, set_socket}
use grass.Game.Delivery.{deliver, broadcast, IsWired, send_message-deliver}
use grass.Game.Invariant.{IsValid}
use grass.Game.Members.{drop_game, unregister}
use grass.Game.Members.Drop.{dropped, drop_game-host}
use grass.Game.Members.Laws.{unregister_lem, with_clients}
use grass.Client.{with_client_mut}
use grass.Handlers.Play.{handle_leave, leave, take_game}

-- The guest's socket has no game any more.
abbrev pub left : Uuid → SocketClient → World → World
left id s w = record w { sockets = update w.sockets id (some (record s { game = none })) }

-- The players who remain in the host's game `hg` have been told that the player of `g` has left, if it
-- was one of them.
abbrev pub told : Game → Game → HashMap PartialClient → World → World
told g hg clients w =
    if is_some (get clients g.partial_client.id)
    then broadcast (remove clients g.partial_client.id) hg.partial_host none
        (event (Event.disconnected_client hg.game_id g.partial_client.id)) w
    else w

-- The host's socket `h` has its game without that player.
abbrev pub freed : Game → SocketClient → Game → HashMap PartialClient → World → World
freed g h hg clients w = record w {
  sockets =
      update w.sockets g.partial_host.id
        (some (record h { game = some (with_clients (remove clients g.partial_client.id) hg) }));
}

module _ (id : Uuid) (c : Context) (w : World) (s : SocketClient) (g : Game) (free : c.held ≡ [])
    (here : w.sockets id ≡ some s) (playing : s.game ≡ some g) (guest : g.is_host ≡ false)
    (near : g.partial_host.is_local ≡ true) where
  -- A guest that leaves a game of this shard waits for ever when its socket and the host's lie behind one
  -- lock of the map: its own guard is still held while the game is dropped. No guard is held before.
  pub handle_leave-deadlocked :
      c.lock_of g.partial_host.id ≡ c.lock_of id → (handle_leave id c w).0 ≡ deadlocked
  unfolding handle_leave with_client_mut with_get_mut leave take_game set_socket drop_game expect
      ◌>>=◌
  handle_leave-deadlocked same = rw (free, here, unwrap, playing, guest, near, same, ==_refl) refl

  module _ (h : SocketClient) (hg : Game) (clients : HashMap PartialClient) (v : IsValid hg)
      (host_here : w.sockets g.partial_host.id ≡ some h) (hosts : h.game ≡ some hg)
      (host : hg.is_host ≡ true) (some_clients : hg.connected_clients ≡ some clients) where
    abbrev without_guest : World
    without_guest = freed g h hg clients (told g hg clients (left id s w))

    unregister-told :
        (c' : Context)
        → (id == g.partial_host.id) ≡ false
        → with_game {E = BoxError} g.partial_host.id
            (unregister g.partial_client.id)
            c'
            (left id s w)
          ≡ (ok tt, without_guest)
    unfolding with_game
    unregister-told c' apart =
        rw
          (
            apart,
            host_here,
            hosts,
            unregister_lem g.partial_client.id c' (record { game = hg; world = left id s w })
                clients v host some_clients,
          )
          refl

    -- A guest that leaves a valid game of this shard, whose host's socket lies behind another lock: the
    -- guest's socket has no game, the host's game is without the guest, the players who remain are told
    -- if the guest was one of them, and then the guest is told. The guest has a channel if it is local, and
    -- no guard is held before.
    pub handle_leave_lem :
        (c.lock_of id == c.lock_of g.partial_host.id) ≡ false
        → (id == g.partial_host.id) ≡ false
        → IsWired g.partial_client
        → handle_leave id c w ≡ (
          ok tt,
          deliver g.partial_client
              (respond (ResponseData.leave true) ResponseOpCode.leave)
              (freed g h hg clients (told g hg clients (left id s w))),
        )
    unfolding handle_leave with_client_mut with_get_mut leave take_game set_socket drop_game expect
        ◌>>=◌
    handle_leave_lem other apart wired =
        rw
          (
            free,
            here,
            unwrap,
            playing,
            guest,
            near,
            other,
            apart,
            host_here,
            hosts,
            unregister-told _ apart,
          )
          (send_message-deliver {F = ClientError} _ g.partial_client _ without_guest wired)

-- A host that leaves shuts its valid game down: its socket has no game, the clients are told, the game
-- leaves Redis, and the host is told. No guard is held before, and Redis is in order.
pub handle_leave-host :
    (id : Uuid) (c : Context) (w : World) (s : SocketClient) (g : Game)
    (clients : HashMap PartialClient)
    → c.held ≡ []
    → w.sockets id ≡ some s
    → s.game ≡ some g
    → IsValid g
    → g.is_host ≡ true
    → g.connected_clients ≡ some clients
    → w.redis.faults ≡ []
    → handle_leave id c w ≡ (ok tt, dropped g clients (left id s w))
unfolding handle_leave with_client_mut with_get_mut leave take_game set_socket ◌>>=◌
handle_leave-host id c w s g clients free here playing v host some_clients healthy =
    rw (free, here, unwrap, playing)
      (drop_game-host g clients _ (left id s w) v host some_clients healthy)
