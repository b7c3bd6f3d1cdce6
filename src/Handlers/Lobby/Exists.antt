-- ===== src/Handlers/Lobby/Exists.antt =====
-- `RequestOpCode::Exists` for a game that has had a host.
use grass.Prelude.{
  String, ◌≡◌, ◌∙◌, refl, Bool, false, none, some, is_some, str_eq, if◌then◌else◌, Option-cases,
  inl, inr,
}
use grass.Models.Task.{Uuid}
use grass.Models.Request.{ExistsRequest}
use grass.Models.Default.{respond}
use grass.Models.Response.{ResponseData, ResponseOpCode}
use grass.Models.Wire.{to_string}
use grass.State.{World, Context, SocketClient, RedisGame, update_key, text}
use grass.Exec.{ok, ◌>>=◌, ◌>>◌, unwrap, or_raise, map_err, ignore, attempt}
use grass.Exec.Services.{pool_get, redis_get, redis_del, game_key, send}
use grass.Exec.Sockets.{with_get, await}
use grass.Game.Delivery.{push}
use grass.Client.{reply, with_client, send_model, send_raw}
use grass.Handlers.Parse.{parse}
use grass.Handlers.Join.Laws.{Quiet}
use grass.Handlers.Lobby.{check_exists, handle_exists}

-- A game whose host is gone is taken out of Redis.
abbrev pub swept : String → Bool → World → World
swept game_id alive w = if alive then w else record w {
  redis = record (w.redis) { entries = update_key w.redis.entries (game_key game_id) none };
}

module _ (id : Uuid) (d t : String) (r : ExistsRequest) (g : RedisGame) (c : Context) (w : World)
    (quiet : Quiet c w) (parsed : c.serde.exists_request d ≡ some r) (s : SocketClient)
    (here : w.sockets id ≡ some s) (open_ : (w.channels s.send_channel).closed ≡ false)
    (there : w.redis.entries (game_key r.game_id) ≡ some t) (full : str_eq t "" ≡ false)
    (knows : c.serde.redis_game t ≡ some g) where
  abbrev pub alive : Bool
  alive = is_some (w.sockets g.host_id)

  check_step : check_exists r.game_id (some t) c w ≡ (ok alive, swept r.game_id alive w)
  unfolding check_exists with_get redis_del ignore await ◌>>=◌
  check_step = elim (Option-cases (w.sockets g.host_id)) [
    | inl gone ↦ rw (full, knows, or_raise, quiet.unheld, gone, quiet.alone, quiet.healthy) refl
    | inr (h, lives) ↦ rw (full, knows, or_raise, quiet.unheld, lives, quiet.alone) refl
  ]

  reply_step :
      (b : Bool) (v : World)
      → v.sockets ≡ w.sockets
      → v.channels ≡ w.channels
      → with_client id (λ client. reply client (ResponseData.exists b) ResponseOpCode.exists) c v
        ≡ (
          ok tt,
          push s.send_channel
              (text (to_string (respond (ResponseData.exists b) ResponseOpCode.exists)))
              v,
        )
  unfolding with_client with_get reply send_model send_raw send push map_err ◌>>=◌
  reply_step b v same_sockets same_channels =
      rw (quiet.unheld, same_sockets, here, unwrap, same_channels, open_) refl

  fetch_step :
      handle_exists id (some d) c w
      ≡ (check_exists r.game_id (some t) >>= λ b.
            await
            >> with_client id
                (λ client. reply client (ResponseData.exists b) ResponseOpCode.exists))
          c w
  unfolding handle_exists parse pool_get redis_get map_err attempt await ◌>>=◌
  fetch_step = rw (parsed, or_raise, quiet.healthy, there, quiet.alone) refl

  rest_step :
      (check_exists r.game_id (some t) >>= λ b.
      await
      >> with_client id (λ client. reply client (ResponseData.exists b) ResponseOpCode.exists))
        c w
      ≡ with_client id
          (λ client. reply client (ResponseData.exists alive) ResponseOpCode.exists)
          c
          (swept r.game_id alive w)
  unfolding await ◌>>=◌
  rest_step = rw (check_step, quiet.alone) refl

  swept-sockets : (swept r.game_id alive w).sockets ≡ w.sockets
  swept-sockets = elim (Option-cases (w.sockets g.host_id)) [
    | inl gone ↦ rw gone refl
    | inr (h, lives) ↦ rw lives refl
  ]

  swept-channels : (swept r.game_id alive w).channels ≡ w.channels
  swept-channels = elim (Option-cases (w.sockets g.host_id)) [
    | inl gone ↦ rw gone refl
    | inr (h, lives) ↦ rw lives refl
  ]

  -- A game that Redis knows to have a host, on whatever shard, is said to exist exactly when the host's
  -- socket is here; otherwise it is taken out of Redis too. The client has an open channel, no guard is held, no other
  -- task runs and Redis is in order.
  pub handle_exists_lem : handle_exists id (some d) c w ≡ (
    ok tt,
    push s.send_channel
        (text (
          to_string
            (respond (ResponseData.exists (is_some (w.sockets g.host_id))) ResponseOpCode.exists)))
        (swept r.game_id (is_some (w.sockets g.host_id)) w),
  )
  handle_exists_lem =
      fetch_step
      ∙ rest_step
      ∙ reply_step alive (swept r.game_id alive w) swept-sockets swept-channels
