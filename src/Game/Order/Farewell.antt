-- ===== src/Game/Order/Farewell.antt =====
-- The end of `shutdown`, once the clients are told, in worlds that differ in the order of messages alone.
use grass.Prelude.{
  ◌≡◌, refl, ap, ◌∙◌, true, none, some, Bool-cases, Option-cases, inl, inr, if◌then◌else◌, arith,
  String, [],
}
use grass.Prelude.HashMap.{HashMap}
use grass.Models.Error.{BoxError, pool_error, command_error}
use grass.Models.Response.{DefaultModel}
use grass.Models.Default.{Payload}
use grass.State.{World, Context, GameState, PartialClient, Redis, update_key}
use grass.Exec.{Exec, Outcome, ok, err, panicked, deadlocked, suspended, continue, ◌>>=◌, ◌>>◌}
use grass.Exec.Services.{pool_get, redis_del, game_key, send, fails, later}
use grass.Exec.Sockets.{lift}
use grass.Game.Delivery.{IsWired, push, deliver}
use grass.Game.Delivery.Alike.{Alike}
use grass.Game.Delivery.Shuffle.{deliver-Alike}
use grass.Game.Invariant.{IsValid, IsValid-IsWired}
use grass.Game.Messages.{send_message, check_host}
use grass.Game.Members.{shutdown}
use grass.Game.Members.Laws.{with_clients, dismiss_all, dismiss-dismiss_all, goodbye}

-- The action does not see the order of messages.
pub record Respects {A : Type 0} (m : Exec World BoxError A) : Type 0 where
  pub outcome : (c : Context) (w w' : World) → Alike w w' → (m c w).0 ≡ (m c w').0
  pub world : (c : Context) (w w' : World) → Alike w w' → Alike (m c w).1 (m c w').1

module _ {A B : Type 0} where
  continue-Respects :
      (o : Outcome BoxError A) (f : A → Exec World BoxError B)
      → ((a : A) → Respects (f a))
      → (c : Context) (w w' : World) → Alike w w'
      → ((continue o f c w).0 ≡ (continue o f c w').0)
        × Alike (continue o f c w).1 (continue o f c w').1
  continue-Respects (ok a) f k c w w' h = ((k a).outcome c w w' h, (k a).world c w w' h)
  continue-Respects (err e) f k c w w' h = (refl, h)
  continue-Respects panicked f k c w w' h = (refl, h)
  continue-Respects deadlocked f k c w w' h = (refl, h)
  continue-Respects suspended f k c w w' h = (refl, h)

  Respects-bind :
      (m : Exec World BoxError A) (f : A → Exec World BoxError B)
      → Respects m
      → ((a : A) → Respects (f a))
      → Respects (m >>= f)
  unfolding ◌>>=◌
  Respects-bind m f r k = record {
    outcome = λ c w w' h.
        ap (λ o. (continue o f c (m c w).1).0) (r.outcome c w w' h)
        ∙ (continue-Respects (m c w').0 f k c (m c w).1 (m c w').1 (r.world c w w' h)).0;
    world = λ c w w' h.
        rw (r.outcome c w w' h)
          ((continue-Respects (m c w').0 f k c (m c w).1 (m c w').1 (r.world c w w' h)).1);
  }

-- An action on the Redis server alone.
module _ {A : Type 0} (m : Exec World BoxError A) (o : Redis → Outcome BoxError A)
    (f : Redis → Redis) where
  Respects-redis :
      ((c : Context) (w : World) → m c w ≡ (o w.redis, record w { redis = f w.redis })) → Respects m
  Respects-redis e = record {
    outcome = λ c w w' h. rw (e c w, e c w') (ap o h.redis);
    world = λ c w w' h.
        rw (e c w, e c w')
          (record { sockets = h.sockets; redis = ap f h.redis; channels = h.channels });
  }

Respects-pool_get : Respects pool_get
unfolding pool_get
Respects-pool_get =
    Respects-redis pool_get (λ r. if fails r.faults then err pool_error else ok tt)
      (λ r. record r { faults = later r.faults }) (λ c w. ground arith)

Respects-redis_del : (key : String) → Respects (redis_del key)
unfolding redis_del
Respects-redis_del key =
    Respects-redis (redis_del key) (λ r. if fails r.faults then err command_error else ok tt)
      (λ r.
        if fails r.faults
        then record r { faults = later r.faults }
        else record { entries = update_key r.entries key none; faults = later r.faults })
      (λ c w. ground arith)

send_message-outcome :
    (p : PartialClient) (m : DefaultModel Payload) (c : Context) (w w' : World)
    → Alike w w'
    → (send_message p m c w).0 ≡ (send_message p m c w').0
unfolding send_message send ◌>>=◌
send_message-outcome p m c w w' h = elim (Bool-cases p.is_local) [
  | inr far ↦ rw (far) refl
  | inl near ↦ elim (Option-cases p.write_channel) [
    | inl lost ↦ ground arith
    | inr (k, wired) ↦ let e = (h.channels k).closed in ground arith
  ]
]

send_message-world :
    (p : PartialClient) (m : DefaultModel Payload) (c : Context) (w : World)
    → IsWired p
    → (send_message p m c w).1 ≡ deliver p m w
unfolding send_message send deliver push ◌>>=◌
send_message-world p m c w wired = ground arith

Respects-send_message :
    (p : PartialClient) (m : DefaultModel Payload) → IsWired p → Respects (send_message p m)
Respects-send_message p m wired = record {
  outcome = send_message-outcome p m;
  world = λ c w w' h.
      rw (send_message-world p m c w wired, send_message-world p m c w' wired)
        (deliver-Alike p m w w' h);
}

-- The end of `shutdown`, once the clients are told.
module _ (id : String) (host : PartialClient) where
  pub farewell : Exec World BoxError (Unit {0})
  farewell = do pool_get; redis_del (game_key id); send_message host goodbye

  pub Respects-farewell : IsWired host → Respects farewell
  unfolding farewell
  Respects-farewell wired = Respects-bind pool_get _ Respects-pool_get (λ u.
      Respects-bind (redis_del (game_key id)) _ (Respects-redis_del (game_key id))
        (λ v. Respects-send_message host goodbye wired))

module _ (c : Context) (s : GameState) (clients : HashMap PartialClient) (v : IsValid s.game)
    (host : s.game.is_host ≡ true) (some_clients : s.game.connected_clients ≡ some clients) where
  pub shutdown-farewell : shutdown c s ≡ (
    (farewell s.game.game_id s.game.partial_host c (dismiss_all clients s.world)).0,
    record {
      game = record (with_clients [] s.game) { shutdown = true };
      world = (farewell s.game.game_id s.game.partial_host c (dismiss_all clients s.world)).1;
    },
  )
  unfolding shutdown check_host farewell lift pool_get redis_del ◌>>=◌
  shutdown-farewell =
      ground (arith, dismiss-dismiss_all clients c s.world (IsValid-IsWired v some_clients))
