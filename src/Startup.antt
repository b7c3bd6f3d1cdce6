-- ===== src/Startup.antt =====
-- `main` (src/main.rs): the configuration, the reset of Redis, and the service that is then run.
pub mod Laws
use Prim.Native.Nat.{◌/◌, ◌%◌}
use grass.Prelude.{
  ℕ, zero, suc, String, ◌<>◌, Bool, false, Option, none, some, List, ltb, ◌==◌, if◌then◌else◌,
}
use grass.Models.Error.{BoxError}
use grass.State.{World}
use grass.Exec.{Exec, pure, unwrap, expect, ◌>>=◌, ◌>>◌}
use grass.Exec.Services.{pool_get, redis_set}
use grass.Service.{Poll, ready, pending, Ending, exited}
use grass.Service.Drive.{drive}
use grass.Service.Setup.{Platform, Service, open_client, new_service}
use grass.Service.Middleware.{new_middleware_manager, shard_payload_interceptor}
use grass.Service.Running.{Arrival, Published, Joined, subscribe, presence_task, run}

pub record Config : Type 0 where
  pub address : String
  pub port : ℕ
  pub redis_addr : String

pub record DebugConfig : Type 0 where
  pub should_reset_redis : Bool

-- What the program finds: what envy reads from the environment, a random id, and the platform.
pub record Machine : Type 0 where
  pub env_config : Option Config
  pub env_debug : Option DebugConfig
  pub new_uuid : String
  pub platform : Platform

abbrev pub default_config : Config
default_config = record {
  address = "0.0.0.0";
  port = 50000;
  redis_addr = "redis://127.0.0.1:35374";
}

abbrev pub config_or_default : Option Config → Config
config_or_default none = default_config
config_or_default (some config) = config

abbrev digit : ℕ → String
digit d =
    if d == 0
    then "0"
    else if d == 1
    then "1"
    else if d == 2
    then "2"
    else if d == 3
    then "3"
    else if d == 4
    then "4"
    else if d == 5
    then "5"
    else if d == 6
    then "6"
    else if d == 7
    then "7"
    else if d == 8
    then "8"
    else "9"

-- A number of at most `n` digits, as it is printed.
abbrev pub decimal : ℕ → ℕ → String
decimal zero k = ""
decimal (suc n) k =
    let front = decimal n (k / 10) in if ltb k 10 then digit k else front <> digit (k % 10)

-- `format!("{}:{}", cfg.address, cfg.port)`; a `u16` has five digits at most.
unfoldable pub host_addr : Config → String
host_addr config = config.address <> (":" <> decimal 5 config.port)

-- Whether the environment asks for a reset.
abbrev pub resets : Option DebugConfig → Bool
resets none = false
resets (some debug) = debug.should_reset_redis

unfoldable pub reset_redis : {E : Type 0} → Platform → String → Exec World E (Unit {0})
unfolding ◌>>=◌
reset_redis p redis_addr = do
  open_client p redis_addr
  expect pool_get
  expect (redis_set "GAME:monkey" "")

-- Up to the call of `run`.
unfoldable pub prepare : {E : Type 0} → Machine → Exec World E Service
unfolding ◌>>=◌
prepare m =
    let config = config_or_default m.env_config in
    do
      if resets m.env_debug then reset_redis m.platform config.redis_addr else pure tt
      new_service m.platform m.new_uuid (host_addr config) "./tasks.toml" config.redis_addr

-- How the program ends where its service has: the drop of the runtime waits until no worker of it is busy,
-- and one is for as long as the reader's task is in its call of `subscribe`, which never gives way (the tasks
-- of the connections are taken to give way in the end). The exit of the process waits for nothing.
abbrev pub drop_runtime : Poll Joined → Poll Ending → Poll Ending
drop_runtime reader pending = pending
drop_runtime reader (ready (exited code)) = ready (exited code)
drop_runtime (ready x) (ready ending) = ready ending
drop_runtime pending (ready ending) = pending

-- The program, up to `n` polls of the service and of its tasks, or as many moments that pass while the
-- runtime is dropped.
unfoldable pub main :
    {E : Type 0} → Machine → ℕ → List Arrival → List Published → Exec World E (Poll Ending)
unfolding ◌>>=◌
main {E} m n arrivals events = do
  service ← prepare m
  ended ←
      unwrap
        (run m.platform (new_middleware_manager (shard_payload_interceptor {E = E})) n arrivals
          events service).0
  pure (drop_runtime (drive presence_task n (subscribe m.platform service events)) ended)
