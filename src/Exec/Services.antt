-- ===== src/Exec/Services.antt =====
-- The channels and the Redis pool, as the crates tokio, r2d2 and redis document them.
use grass.Prelude.{
  String, ◌<>◌, Bool, false, Option, none, some, List, [], ◌∷◌, ◌++◌, if◌then◌else◌,
}
use grass.Models.Error.{BoxError, pool_error, command_error, channel_closed}
use grass.State.{World, Channel, Outgoing, SocketSender, update, update_key}
use grass.Exec.{Exec, Outcome, ok, err}

abbrev accept : Channel → Outgoing → Channel
accept ch m = record ch { accepted = ch.accepted ++ m ∷ [] }

-- `Sender::send`: it fails when the receiver is gone, and waits for room otherwise.
unfoldable pub send : SocketSender → Outgoing → Exec World BoxError (Unit {0})
send k m c w =
    if (w.channels k).closed
    then (err channel_closed, w)
    else (ok tt, record w { channels = update w.channels k (accept (w.channels k) m) })

abbrev pub fails : List Bool → Bool
fails [] = false
fails (f ∷ fs) = f

abbrev pub later : List Bool → List Bool
later [] = []
later (f ∷ fs) = fs

abbrev spend : World → World
spend w = record w { redis = record (w.redis) { faults = later w.redis.faults } }

abbrev with_entries : World → (String → Option String) → World
with_entries w es = record w { redis = record (w.redis) { entries = es } }

-- `pool.get()`
unfoldable pub pool_get : Exec World BoxError (Unit {0})
pool_get c w = if fails w.redis.faults then (err pool_error, spend w) else (ok tt, spend w)

abbrev found : Option String → Outcome BoxError String
found none = err command_error
found (some v) = ok v

-- `conn.get::<_, String>(key)`: a key that is missing does not convert to a text.
unfoldable pub redis_get : String → Exec World BoxError String
redis_get key c w =
    if fails w.redis.faults
    then (err command_error, spend w)
    else (found (w.redis.entries key), spend w)

-- `conn.set(key, value)`
unfoldable pub redis_set : String → String → Exec World BoxError (Unit {0})
redis_set key value c w =
    if fails w.redis.faults
    then (err command_error, spend w)
    else (ok tt, with_entries (spend w) (update_key w.redis.entries key (some value)))

-- `conn.del(key)`
unfoldable pub redis_del : String → Exec World BoxError (Unit {0})
redis_del key c w =
    if fails w.redis.faults
    then (err command_error, spend w)
    else (ok tt, with_entries (spend w) (update_key w.redis.entries key none))

-- `format!("GAME:{}", id)`
abbrev pub game_key : String → String
game_key id = "GAME:" <> id

-- `format!("SOCKET:USER:{}", id)`
abbrev pub user_key : String → String
user_key id = "SOCKET:USER:" <> id
